-- ===== src/Community/Model/Authority.antt =====
-- Who may do what: the authority of admins, and the removals, bans and departures that the second pass of `rebuild` gathers.
use disquisition.Common.{
  Bool, true, false, not, ◌&&◌, ◌||◌, Option, none, some, List, [], ◌∷◌, ◌++◌, Text, text_eq,
  nat_eq, codes, ◌==◌, nat_beq, if◌then◌else◌, length,
}
use disquisition.Common.Maps.{lookup, insert}
use disquisition.Common.Sets.{include}
use disquisition.Relay.Router.{is_peer_id}
use disquisition.Community.Model.{Operation}
use disquisition.Community.Model.Log.{value_of, contains, ancestor, or_else}

abbrev pub is_on : Option Bool → Bool
is_on none = false
is_on (some b) = b

-- `m.value(key)` of lists
abbrev pub list_of : List (Text × List Text) → Text → List Text
list_of m key = or_else [] (lookup key m)

abbrev pub append_to : Text → Text → List (Text × List Text) → List (Text × List Text)
append_to key v m = insert key (list_of m key ++ (v ∷ [])) m

abbrev pub is_kick : Text → Bool
is_kick kind = kind == codes "kick"

abbrev pub is_removal : Text → Bool
is_removal kind = kind == codes "kick" || kind == codes "remove"

pub record Gathered : Type 0 where
  pub deleted : Bool
  pub revoked_invites : List Text
  pub revocations : List (Text × List Text)
  pub removals : List (Text × List Text)
  pub bans : List (Text × List Text)
  pub unbans : List (Text × List Text)
  pub departures : List (Text × List Text)

abbrev pub nothing_gathered : Gathered
nothing_gathered = record {
  deleted = false;
  revoked_invites = [];
  revocations = [];
  removals = [];
  bans = [];
  unbans = [];
  departures = [];
}

module _ (ops : List (Text × Operation)) (owner : Text) where
  -- No other decision of the owner about the author is concurrent with the grant or cuts the operation off.
  abbrev pub roles_allow : Text → Text → Text → List Text → Bool
  roles_allow key author grant_id [] = true
  roles_allow key author grant_id (role_id ∷ roles) =
      if (value_of ops role_id).details.peer == author
        && (not (role_id == grant_id)
            && (not (ancestor ops role_id grant_id) && not (ancestor ops key role_id)))
      then false
      else roles_allow key author grant_id roles

  unfoldable pub authorized : List Text → Text → Bool
  authorized owner_roles key =
      let op = value_of ops key in
      let grant_id = op.authority in
      let grant = value_of ops grant_id in
      op.author == owner
      || (contains ops grant_id
          && (grant.author == owner
              && (grant.kind == codes "admin"
                  && (grant.details.peer == op.author
                      && (is_on grant.details.enabled
                          && (ancestor ops grant_id key
                              && roles_allow key op.author grant_id owner_roles))))))

  -- What anyone may say: that he leaves, and the owner, that the community is deleted.
  abbrev pub gather_free : Text → Operation → Gathered → Gathered
  gather_free key op g =
      let g1 =
        if op.kind == codes "leave" && not (op.author == owner)
        then record g { departures = append_to op.author key g.departures }
        else g in
      if op.kind == codes "delete" && op.author == owner then record g1 { deleted = true } else g1

  abbrev pub gather_revoke : Text → Operation → Gathered → Gathered
  gather_revoke key op g =
      let hash = op.details.hash in
      if op.kind == codes "revoke" && is_peer_id hash
      then record g {
        revoked_invites = include hash g.revoked_invites;
        revocations = append_to hash key g.revocations;
      }
      else g

  abbrev pub gather_unban : Text → Operation → Gathered → Gathered
  gather_unban key op g =
      let peer = op.details.peer in
      if op.kind == codes "unban" && (is_peer_id peer && not (peer == owner))
      then record g { unbans = append_to peer key g.unbans }
      else g

  abbrev pub gather_removal : Text → Operation → Gathered → Gathered
  gather_removal key op g =
      let peer = op.details.peer in
      if is_removal op.kind && (is_peer_id peer && not (peer == owner))
      then record g {
        removals = append_to peer key g.removals;
        bans = if is_kick op.kind then append_to peer key g.bans else g.bans;
      }
      else g

  abbrev pub gather_one : List Text → Text → Operation → Gathered → Gathered
  gather_one owner_roles key op g =
      let free = gather_free key op g in
      if authorized owner_roles key
      then gather_removal key op (gather_unban key op (gather_revoke key op free))
      else free

  unfoldable pub gather_each : List Text → List Text → Gathered → Gathered
  gather_each owner_roles [] g = g
  gather_each owner_roles (key ∷ ks) g =
      gather_each owner_roles ks (gather_one owner_roles key (value_of ops key) g)

  abbrev pub cleared_by : Text → Text → List Text → Bool
  cleared_by ban before [] = false
  cleared_by ban before (unban ∷ rest) =
      (ancestor ops ban unban && (nat_beq (length before) 0 || ancestor ops unban before))
      || cleared_by ban before rest

  unfoldable pub ban_cleared : Gathered → Text → Text → Text → Bool
  ban_cleared g ban peer before = cleared_by ban before (list_of g.unbans peer)

  abbrev pub any_standing : Gathered → Text → List Text → Bool
  any_standing g peer [] = false
  any_standing g peer (ban ∷ rest) = not (ban_cleared g ban peer []) || any_standing g peer rest

  unfoldable pub banned_among : Gathered → List (Text × List Text) → List Text → List Text
  banned_among g [] banned = banned
  banned_among g ((peer, bans) ∷ m) banned =
      banned_among g m (if any_standing g peer bans then include peer banned else banned)

  abbrev pub readmitted : Text → Text → Option Text → Bool
  readmitted operation end none = false
  readmitted operation end (some a) = ancestor ops end a && ancestor ops a operation

  -- Each of some ends of a membership came after the operation, or before the admission that the operation follows.
  abbrev pub past_all : Option Text → Text → List Text → Bool
  past_all admission operation [] = true
  past_all admission operation (end ∷ ends) =
      (ancestor ops operation end || readmitted operation end admission)
      && past_all admission operation ends

  unfoldable pub could_act : Gathered → List (Text × Text) → Text → Text → Bool
  could_act g admissions peer operation =
      past_all (lookup peer admissions) operation (list_of g.removals peer)
      && past_all (lookup peer admissions) operation (list_of g.departures peer)
