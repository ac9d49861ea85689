-- ===== src/Community/Model/State.antt =====
-- The state of `Model`: rebuilding it from the log, reading it, and merging.
use disquisition.Common.{
  ℕ, Bool, true, false, not, ◌&&◌, ◌||◌, Option, none, some, List, [], ◌∷◌, Text, text_eq, nat_eq,
  ◌==◌, leb, nat_beq, if◌then◌else◌, ◌>>=◌, ◌>>◌, guard, length,
}
use disquisition.Relay.Router.{is_peer_id}
use disquisition.Community.Model.{
  Channel, Member, Operation, Toolkit, max_metadata_bytes, max_operations, is_empty, uuid,
}
use disquisition.Community.Model.Log.{put, ordered, Checked, check_log}
use disquisition.Community.Model.Authority.{Gathered, nothing_gathered, gather_each, banned_among}
use disquisition.Community.Model.Replay.{Built, nothing_built, replay_each, expel_ended, expel_all}

pub record Model : Type 0 where
  pub id : Text
  pub owner : Text
  pub deleted : Bool
  pub name : Text
  pub icon : Text
  pub members : List (Text × Member)
  pub channels : List (Text × Channel)
  pub priority : List Text
  pub revoked_invites : List Text
  pub banned : List Text
  pub operations : List (Text × Operation)
  pub invites : List (Text × Operation)
  pub admin_grants : List (Text × Text)
  pub heads : List Text
  pub clock : ℕ

abbrev pub new_model : Text → Text → Model
new_model id owner = record {
  id = id;
  owner = owner;
  deleted = false;
  name = [];
  icon = [];
  members = [];
  channels = [];
  priority = [];
  revoked_invites = [];
  banned = [];
  operations = [];
  invites = [];
  admin_grants = [];
  heads = [];
  clock = 0;
}

abbrev pub put_all : List (Text × Operation) → List (Text × Operation) → List (Text × Operation)
put_all [] m = m
put_all ((k, op) ∷ ops) m = put_all ops (put k op m)

-- What a peer sends of a community: an operation that is not an object of the right shape is `none`.
pub record Snapshot : Type 0 where
  pub version : ℕ
  pub id : Text
  pub owner : Text
  pub operations : List (Option Operation)
  pub size : ℕ

module _ (q : Toolkit) where
  unfoldable pub gathered : Model → Checked → Gathered
  gathered m c =
      gather_each m.operations m.owner c.owner_roles (ordered m.operations) nothing_gathered

  unfoldable pub replayed : Model → Checked → Option Built
  replayed m c =
      replay_each q m.id m.operations m.owner c.owner_roles (gathered m c) (ordered m.operations)
        nothing_built

  unfoldable pub all_banned : Model → Checked → List Text
  all_banned m c = banned_among m.operations m.owner (gathered m c) (gathered m c).bans []

  -- The end of the last pass: memberships that are over, and those of peers that are banned.
  unfoldable pub settled : Model → Checked → Built → Built
  settled m c b =
      let g = gathered m c in
      expel_all (all_banned m c)
        (expel_ended m.operations g.removals (expel_ended m.operations g.departures b))

  unfoldable pub finished : Model → Checked → Built → Model
  finished m c b =
      let g = gathered m c in
      let s = settled m c b in
      record m {
        deleted = g.deleted;
        name = s.name;
        icon = s.icon;
        members = s.members;
        channels = s.channels;
        priority = s.priority;
        revoked_invites = g.revoked_invites;
        banned = all_banned m c;
        invites = s.invites;
        admin_grants = s.admin_grants;
        heads = c.heads;
        clock = c.clock;
      }

  unfoldable pub rebuild : Model → Option Model
  rebuild m = check_log m.operations m.owner >>= λ c. (replayed m c >>= λ b. some (finished m c b))

  abbrev pub valid_operation : Text → Operation → Bool
  valid_operation id op =
      nat_beq op.version 1
      && (op.community == id
          && (is_peer_id op.author && (leb op.clock max_operations && q.verify_operation op)))

  abbrev pub read_operations :
      Text → List (Option Operation) → List (Text × Operation) → Option (List (Text × Operation))
  read_operations id [] m = some m
  read_operations id (none ∷ ops) m = none
  read_operations id (some op ∷ ops) m =
      (guard (valid_operation id op) >> read_operations id ops (put (q.operation_id op) op m))

  abbrev pub is_expected : Text → Text → Bool
  is_expected expected t = is_empty expected || t == expected

  unfoldable pub from_json : Snapshot → Text → Text → Option Model
  from_json s expected_id expected_owner =
      guard (
        uuid q s.id
        && (is_peer_id s.owner
            && (nat_beq s.version 1
                && (is_expected expected_id s.id && is_expected expected_owner s.owner))))
      >> guard (
          not (nat_beq (length s.operations) 0)
          && (leb (length s.operations) max_operations && leb s.size max_metadata_bytes))
      >> read_operations s.id s.operations []
      >>= λ ops.
          (guard (nat_beq (length ops) (length s.operations))
            >> rebuild (record (new_model s.id s.owner) { operations = ops }))

  abbrev pub fits : Model → Bool
  fits m =
      leb (length m.operations) max_operations
      && leb (q.size_of m.id m.owner m.operations) max_metadata_bytes

  -- The model after a merge, and whether it changed.
  unfoldable pub merge_incoming : Model → Model → Option (Model × Bool)
  merge_incoming m incoming =
      let merged = record m { operations = put_all incoming.operations m.operations } in
      if nat_beq (length merged.operations) (length m.operations)
      then some (m, false)
      else (guard (fits merged) >> rebuild merged >>= λ r. some (r, true))

  unfoldable pub merge : Snapshot → Model → Option (Model × Bool)
  merge s m = from_json s m.id m.owner >>= merge_incoming m
