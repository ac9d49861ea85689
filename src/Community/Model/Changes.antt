-- ===== src/Community/Model/Changes.antt =====
-- What members do to a community: changing, inviting, admitting, and choosing the host. A change is signed by its
-- author; random codes are arguments.
use disquisition.Common.{
  ◌+◌, Bool, false, not, ◌&&◌, ◌||◌, Option, none, some, List, [], ◌∷◌, Text, text_eq, nat_eq,
  codes, ◌==◌, ltb, leb, nat_beq, if◌then◌else◌, ◌>>◌, guard, length,
}
use disquisition.Common.Maps.{lookup}
use disquisition.Common.Sets.{has}
use disquisition.Community.Model.{
  Channel, Member, Intent, Details, Operation, Toolkit, max_icon_bytes, max_members, is_empty, uuid,
  label, profile_details, valid_endpoint, valid_intent, grant_holds,
}
use disquisition.Community.Model.Log.{
  no_details, no_operation, is_some, contains, text_ltb, put, or_else,
}
use disquisition.Community.Model.Authority.{is_removal}
use disquisition.Community.Model.Replay.{is_type}
use disquisition.Community.Model.State.{Model, new_model, Snapshot, rebuild, fits, merge}

module _ (q : Toolkit) where
  unfoldable pub is_member : Model → Text → Bool
  is_member m peer = not m.deleted && contains m.members peer

  abbrev pub is_admin : Option Member → Bool
  is_admin none = false
  is_admin (some member) = member.admin

  unfoldable pub can_admin : Model → Text → Bool
  can_admin m peer =
      not m.deleted
      && (contains m.members peer && (peer == m.owner || is_admin (lookup peer m.members)))

  abbrev pub sort_text : Text → List Text → List Text
  sort_text a [] = a ∷ []
  sort_text a (b ∷ bs) = if text_ltb b a then b ∷ sort_text a bs else a ∷ b ∷ bs

  abbrev pub sorted_text : List Text → List Text
  sorted_text [] = []
  sorted_text (a ∷ ts) = sort_text a (sorted_text ts)

  unfoldable pub next_operation : Text → Text → Details → Model → Operation
  next_operation author kind details m = q.sign author (record {
    version = 1;
    community = m.id;
    author = author;
    clock = m.clock + 1;
    parents = sorted_text m.heads;
    kind = kind;
    authority = if author == m.owner then [] else or_else [] (lookup author m.admin_grants);
    details = details;
    signature = [];
  })

  unfoldable pub append : Text → Text → Details → Model → Option Model
  append author kind details m =
      let op = next_operation author kind details m in
      let next = record m { operations = put (q.operation_id op) op m.operations } in
      guard (fits q next) >> rebuild q next

  abbrev pub administrative : List Text
  administrative =
      codes "rename"
      ∷ codes "icon"
      ∷ codes "channel"
      ∷ codes "delete-channel"
      ∷ codes "invite"
      ∷ codes "revoke"
      ∷ codes "priority"
      ∷ codes "kick"
      ∷ codes "remove"
      ∷ codes "unban"
      ∷ codes "admin"
      ∷ []

  unfoldable pub may_change : Text → Text → Model → Bool
  may_change author kind m =
      (kind == codes "leave" && (is_member m author && not (author == m.owner)))
      || ((kind == codes "delete" && author == m.owner)
          || ((kind == codes "profile" && is_member m author)
              || (has kind administrative && can_admin m author)))

  abbrev pub if_kind : Text → Text → Bool → Bool
  if_kind kind wanted test = not (kind == wanted) || test

  unfoldable pub valid_change : Text → Details → Model → Bool
  valid_change kind d m =
      if_kind kind (codes "rename") (label q d.name 80)
      && (if_kind kind (codes "profile")
            (label q d.name 64 && (valid_endpoint q d.endpoint && profile_details q d))
          && (if_kind kind (codes "channel")
                (uuid q d.id && (label q d.name 80 && (is_type d.type && leb (length d.topic) 512)))
              && (if_kind kind (codes "icon") (leb (length (q.from_base64 d.bytes)) max_icon_bytes)
                  && ((not (is_removal kind)
                        || (not (d.peer == m.owner) && contains m.members d.peer))
                      && (if_kind kind (codes "unban") (has d.peer m.banned)
                          && if_kind kind (codes "admin") (
                              contains m.members d.peer
                              && (not (d.peer == m.owner) && is_some d.enabled)))))))

  unfoldable pub change : Text → Text → Details → Model → Option Model
  change author kind d m =
      guard (not m.deleted)
      >> guard (may_change author kind m)
      >> guard (if_kind kind (codes "admin") (author == m.owner))
      >> guard (valid_change kind d m)
      >> append author kind d m

  unfoldable pub issue_invite : Text → Text → Model → Option Model
  issue_invite author code m =
      change author (codes "invite") (record no_details { hash = q.digest code; code = code }) m

  unfoldable pub valid_code : Text → Model → Bool
  valid_code code m =
      let hash = q.digest code in
      not m.deleted
      && (nat_beq (length code) 32 && (contains m.invites hash && not (has hash m.revoked_invites)))

  abbrev pub intent_beq : Intent → Intent → Bool
  intent_beq i j =
      i.community == j.community
      && (i.peer == j.peer
          && (i.name == j.name
              && (i.endpoint == j.endpoint
                  && (i.invite == j.invite
                      && (i.host == j.host
                          && (i.nonce == j.nonce
                              && (i.request == j.request
                                  && (i.proof == j.proof && i.signature == j.signature))))))))

  abbrev pub was_admitted : Intent → List (Text × Operation) → Bool
  was_admitted intent [] = false
  was_admitted intent ((k, op) ∷ ops) =
      (op.kind == codes "admit" && intent_beq op.details.intent intent) || was_admitted intent ops

  unfoldable pub accepts_intent : Text → Intent → Model → Bool
  accepts_intent host intent m =
      let peer = intent.peer in
      (is_member m peer || not (was_admitted intent m.operations))
      && (is_member m host
          && (valid_intent q intent m.id
              && (grant_holds q intent (lookup intent.invite m.invites)
                  && (not (has intent.invite m.revoked_invites)
                      && ((is_empty intent.host || intent.host == host)
                          && (not (has peer m.banned)
                              && (is_member m peer || ltb (length m.members) max_members)))))))

  unfoldable pub admit : Text → Intent → Model → Option Model
  admit host intent m =
      guard (accepts_intent host intent m && not (is_member m intent.peer))
      >> append host (codes "admit") (record no_details { intent = intent }) m

-- The community that its owner founds, with two channels.
abbrev pub first_channel : Text → Text → Text → Channel
first_channel id name type = record { id = id; name = name; type = type; topic = [] }

unfoldable pub create : Toolkit → Text → Text → Text → Text → Text → Text → Text → Option Model
create q owner name member_name endpoint id general lounge =
    let d = record no_details {
      name = name;
      member_name = member_name;
      endpoint = endpoint;
      channels =
          first_channel general (codes "general") (codes "text")
          ∷ first_channel lounge (codes "Lounge") (codes "voice")
          ∷ [];
    } in
    let op = q.sign owner (record no_operation {
      version = 1;
      community = id;
      author = owner;
      clock = 0;
      parents = [];
      kind = codes "create";
      details = d;
    }) in
    guard (label q name 80 && (label q member_name 64 && valid_endpoint q endpoint))
    >> rebuild q (record (new_model id owner) { operations = put (q.operation_id op) op [] })

abbrev pub all_operations : List (Text × Operation) → List (Option Operation)
all_operations [] = []
all_operations ((k, op) ∷ m) = some op ∷ all_operations m

unfoldable pub to_json : Toolkit → Model → Snapshot
to_json q m = record {
  version = 1;
  id = m.id;
  owner = m.owner;
  operations = all_operations m.operations;
  size = q.size_of m.id m.owner m.operations;
}

-- What a replica does after it has read a community; what throws leaves it as it is.
pub data Action : Type 0 where
  merges : Snapshot → Action
  changes : Text → Text → Details → Action
  admits : Text → Intent → Action

abbrev pub merged_or : Model → Option (Model × Bool) → Model
merged_or m none = m
merged_or m (some (r, changed)) = r

unfoldable pub act : Toolkit → Action → Model → Model
act q (merges s) m = merged_or m (merge q s m)
act q (changes author kind d) m = or_else m (change q author kind d m)
act q (admits host intent) m = or_else m (admit q host intent m)

unfoldable pub act_all : Toolkit → List Action → Model → Model
act_all q [] m = m
act_all q (a ∷ acts) m = act_all q acts (act q a m)

abbrev pub first_online : List Text → List (Text × Member) → List Text → Option Text
first_online online members [] = none
first_online online members (p ∷ ps) =
    if contains members p && has p online then some p else first_online online members ps

unfoldable pub first_member : List Text → List (Text × Member) → Text
first_member online [] = []
first_member online ((p, m) ∷ ms) = if has p online then p else first_member online ms

abbrev pub host_found : List Text → Model → Option Text → Text
host_found online m (some p) = p
host_found online m none = if has m.owner online then m.owner else first_member online m.members

-- The empty text stands for no host.
unfoldable pub host : List Text → Model → Text
host online m =
    if m.deleted then [] else host_found online m (first_online online m.members m.priority)
