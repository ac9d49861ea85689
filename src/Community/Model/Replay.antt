-- ===== src/Community/Model/Replay.antt =====
-- The third pass of `rebuild`: the operations in their order, each on the state that those before it leave.
use disquisition.Common.{
  Bool, true, false, not, ◌&&◌, ◌||◌, Option, none, some, List, [], ◌∷◌, ◌++◌, Text, text_eq,
  nat_eq, codes, ◌==◌, ltb, leb, nat_beq, if◌then◌else◌, ◌>>=◌, ◌>>◌, guard, length,
}
use disquisition.Common.Maps.{lookup, insert, erase}
use disquisition.Common.Sets.{has, include}
use disquisition.Relay.Router.{is_peer_id}
use disquisition.Community.Model.{
  Channel, Member, Intent, Details, Operation, Toolkit, Field, absent, to_text, is_empty,
  max_icon_bytes, max_members, uuid, label, profile_details, valid_endpoint, valid_intent,
  grant_holds,
}
use disquisition.Community.Model.Log.{value_of, contains, ancestor, or_else, put}
use disquisition.Community.Model.Authority.{
  Gathered, list_of, is_removal, authorized, ban_cleared, could_act,
}

-- What the pass builds.
pub record Built : Type 0 where
  pub name : Text
  pub icon : Text
  pub members : List (Text × Member)
  pub channels : List (Text × Channel)
  pub priority : List Text
  pub invites : List (Text × Operation)
  pub admin_grants : List (Text × Text)
  pub admissions : List (Text × Text)
  pub accepted_intents : List Text

abbrev pub nothing_built : Built
nothing_built = record {
  name = [];
  icon = [];
  members = [];
  channels = [];
  priority = [];
  invites = [];
  admin_grants = [];
  admissions = [];
  accepted_intents = [];
}

abbrev pub new_member : Text → Text → Text → Bool → Member
new_member id name endpoint admin = record {
  id = id;
  name = name;
  endpoint = endpoint;
  admin = admin;
  bio = [];
  avatar = [];
}

-- A peer loses its membership.
abbrev pub expel : Text → Built → Built
expel peer b = record b { members = erase peer b.members; admin_grants = erase peer b.admin_grants }

abbrev pub is_type : Text → Bool
is_type t = t == codes "text" || t == codes "voice"

abbrev pub if_string : Field → (Text → Text) → Text → Text
if_string absent f old = old
if_string field f old = f (to_text field)

abbrev pub member_of : List (Text × Member) → Text → Member
member_of members peer = or_else (new_member [] [] [] false) (lookup peer members)

-- The peers that are members, once each.
abbrev pub members_among : List (Text × Member) → List Text → List Text → List Text
members_among members [] next = next
members_among members (p ∷ ps) next =
    members_among members ps
      (if contains members p && not (has p next) then next ++ (p ∷ []) else next)

module _ (q : Toolkit) (id : Text) (ops : List (Text × Operation)) (owner : Text)
    (owner_roles : List Text) (g : Gathered) where
  abbrev pub first_channels : List Channel → List (Text × Channel) → Option (List (Text × Channel))
  first_channels [] m = some m
  first_channels (c ∷ cs) m =
      (guard (uuid q c.id && (label q c.name 80 && is_type c.type))
        >> first_channels cs (insert c.id (record c { topic = [] }) m))

  unfoldable pub replay_create : Text → Details → Built → Option Built
  replay_create key d b =
      (guard (label q d.name 80 && (label q d.member_name 64 && valid_endpoint q d.endpoint))
        >> guard (leb (length d.channels) 128)
        >> first_channels d.channels b.channels
        >>= λ channels. some (record b {
          name = d.name;
          admissions = insert owner key b.admissions;
          members = put owner (new_member owner d.member_name d.endpoint true) b.members;
          channels = channels;
        }))

  -- No end of the peer's membership is concurrent with the admission.
  abbrev pub none_concurrent : Text → List Text → Bool
  none_concurrent key [] = true
  none_concurrent key (end ∷ ends) =
      (ancestor ops key end || ancestor ops end key) && none_concurrent key ends

  abbrev pub bans_allow : Text → Text → List Text → Bool
  bans_allow key peer [] = true
  bans_allow key peer (ban ∷ bans) =
      (ancestor ops key ban || ban_cleared ops owner g ban peer key) && bans_allow key peer bans

  abbrev pub any_revoked : Text → List Text → Bool
  any_revoked key [] = false
  any_revoked key (r ∷ rs) = not (ancestor ops key r) || any_revoked key rs

  abbrev pub may_admit : Text → Text → Intent → Built → Bool
  may_admit key author intent b =
      let peer = intent.peer in
      contains b.members author
      && (could_act ops owner g b.admissions author key
          && (none_concurrent key (list_of g.removals peer)
              && (bans_allow key peer (list_of g.bans peer)
                  && (none_concurrent key (list_of g.departures peer)
                      && (not (has (q.intent_id intent) b.accepted_intents)
                          && (valid_intent q intent id
                              && (not (contains b.members peer)
                                  && ltb (length b.members) max_members)))))))

  abbrev pub invited : Text → Text → Intent → Built → Bool
  invited key author intent b =
      grant_holds q intent (lookup intent.invite b.invites)
      && ((is_empty intent.host || intent.host == author)
          && not (any_revoked key (list_of g.revocations intent.invite)))

  unfoldable pub replay_admit : Text → Text → Intent → Built → Built
  replay_admit key author intent b =
      if may_admit key author intent b && invited key author intent b
      then record b {
        accepted_intents = include (q.intent_id intent) b.accepted_intents;
        admissions = insert intent.peer key b.admissions;
        members =
            put intent.peer (new_member intent.peer intent.name intent.endpoint false) b.members;
      }
      else b

  unfoldable pub replay_removal : Text → Built → Built
  replay_removal peer b = if not (peer == owner) && is_peer_id peer then expel peer b else b

  unfoldable pub replay_profile : Text → Text → Details → Built → Built
  replay_profile key author d b =
      let m = member_of b.members author in
      let changed = record m {
        name = d.name;
        endpoint = d.endpoint;
        bio = if_string d.bio (λ t. t) m.bio;
        avatar = if_string d.avatar q.from_base64 m.avatar;
      } in
      if contains b.members author
        && (could_act ops owner g b.admissions author key
            && (label q d.name 64 && (valid_endpoint q d.endpoint && profile_details q d)))
      then record b { members = put author changed b.members }
      else b

  abbrev pub set_admin : Text → Text → Option Bool → Built → Built
  set_admin key peer none b = b
  set_admin key peer (some enabled) b =
      let m = member_of b.members peer in
      if not (peer == owner) && contains b.members peer
      then record b {
        members = put peer (record m { admin = enabled }) b.members;
        admin_grants =
            if enabled then insert peer key b.admin_grants else erase peer b.admin_grants;
      }
      else b

  abbrev pub set_priority : Option (List Text) → Built → Built
  set_priority none b = b
  set_priority (some peers) b = record b { priority = members_among b.members peers [] }

  unfoldable pub replay_channel : Details → Built → Built
  replay_channel d b =
      if uuid q d.id
        && (label q d.name 80
            && (is_type d.type
                && (leb (length d.topic) 512
                    && (contains b.channels d.id || ltb (length b.channels) 128))))
      then record b {
        channels =
            insert d.id (record { id = d.id; name = d.name; type = d.type; topic = d.topic })
              b.channels;
      }
      else b

  abbrev pub is_invite : Details → Bool
  is_invite d = is_peer_id d.hash && (nat_beq (length d.code) 32 && q.digest d.code == d.hash)

  -- What admins do.
  unfoldable pub replay_change : Text → Operation → Built → Built
  replay_change key op b =
      let d = op.details in
      let bytes = q.from_base64 d.bytes in
      if op.kind == codes "admin" && op.author == owner
      then set_admin key d.peer d.enabled b
      else if op.kind == codes "rename" && label q d.name 80
      then record b { name = d.name }
      else if op.kind == codes "icon"
      then (if leb (length bytes) max_icon_bytes then record b { icon = bytes } else b)
      else if op.kind == codes "channel"
      then replay_channel d b
      else if op.kind == codes "delete-channel"
      then record b { channels = erase d.id b.channels }
      else if op.kind == codes "invite" && is_invite d
      then record b { invites = insert d.hash op b.invites }
      else if op.kind == codes "priority"
      then set_priority d.peers b
      else b

  unfoldable pub replay_other : Text → Operation → Built → Built
  replay_other key op b =
      if op.kind == codes "admit"
      then replay_admit key op.author op.details.intent b
      else if is_removal op.kind && authorized ops owner owner_roles key
      then replay_removal op.details.peer b
      else if op.kind == codes "leave"
      then (if op.author == owner then b else expel op.author b)
      else if op.kind == codes "profile"
      then replay_profile key op.author op.details b
      else if not (contains b.members op.author)
          || (not (could_act ops owner g b.admissions op.author key)
              || not (authorized ops owner owner_roles key))
      then b
      else replay_change key op b

  unfoldable pub replay_one : Text → Operation → Built → Option Built
  replay_one key op b =
      if op.kind == codes "create"
      then replay_create key op.details b
      else some (replay_other key op b)

  unfoldable pub replay_each : List Text → Built → Option Built
  replay_each [] b = some b
  replay_each (key ∷ ks) b = replay_one key (value_of ops key) b >>= replay_each ks

module _ (ops : List (Text × Operation)) where
  -- A membership that ended after its last admission is over.
  abbrev pub any_after : Text → List Text → Bool
  any_after admission [] = false
  any_after admission (end ∷ ends) = not (ancestor ops end admission) || any_after admission ends

  unfoldable pub expel_ended : List (Text × List Text) → Built → Built
  expel_ended [] b = b
  expel_ended ((peer, ends) ∷ m) b =
      expel_ended m
        (if any_after (or_else [] (lookup peer b.admissions)) ends then expel peer b else b)

unfoldable pub expel_all : List Text → Built → Built
expel_all [] b = b
expel_all (peer ∷ peers) b = expel_all peers (expel peer b)
