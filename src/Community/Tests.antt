-- ===== src/Community/Tests.antt =====
-- The theorems on communities at concrete inputs.
use disquisition.Common.{
  ◌↔◌, ◌≡◌, inl, refl, true, false, none, some, List, [], ◌∷◌, arith, Text, text_eq, nat_eq,
  text_beq, codes, ◌==◌, ltb, nat_beq, length, map, replicate,
}
use disquisition.Community.Model.{Operation, Toolkit}
use disquisition.Community.Model.Log.{no_details, no_operation, contains}
use disquisition.Community.Model.State.{Model, new_model, Snapshot}
use disquisition.Community.Model.Changes.{Action, merges, changes, act_all, change, host}
use disquisition.Community.Model.Merging.{IsRebuilt, merge_comm}
use disquisition.Community.Model.Sound.{IsSound, act_all-IsSound}
use disquisition.Community.Model.Ancestry.{Descends, ancestor_iff}
use disquisition.Community.Model.Deletion.{deleted-merge}
use disquisition.Community.Model.Rights.{change-none, host_sound}
use disquisition.Community.Model.{uuid, label, valid_endpoint}
use disquisition.Community.Model.Log.{
  text_ltb, put, ordered, search_from, ancestor, check_parents, check_each, check_log,
}
use disquisition.Community.Model.Authority.{
  authorized, gather_each, ban_cleared, banned_among, could_act,
}
use disquisition.Community.Model.Replay.{
  replay_create, replay_removal, replay_change, replay_other, replay_one, replay_each, expel_ended,
  expel_all,
}
use disquisition.Community.Model.State.{
  gathered, replayed, all_banned, settled, finished, rebuild, from_json, merge_incoming, merge,
}
use disquisition.Common.Maps.{lookup, insert, erase}
use disquisition.Common.Sets.{has, include, exclude}
use disquisition.Relay.Router.{is_peer_id}
use disquisition.Protocol.Records.{all_hex, is_hex}

-- Each operation of these tests is named by its signature.
abbrev pub toolkit : Toolkit
toolkit = record {
  is_blank = λ t. nat_beq (length t) 0;
  is_control = λ c. ltb c 32;
  url_of = λ t. record {
    is_valid = true;
    host = t;
    scheme = codes "tcp";
    port = 9000;
    user_info = [];
    query = [];
    fragment = [];
    path = [];
  };
  uuid_of = λ t. some t;
  from_base64 = λ t. t;
  strict_base64 = λ t. some t;
  from_hex = λ t. t;
  digest = λ t. t;
  operation_id = λ op. op.signature;
  verify_operation = λ op. true;
  sign = λ author op. record op { signature = op.kind };
  intent_id = λ i. i.signature;
  verify_intent = λ i. true;
  proof_of = λ i code. code;
  size_of = λ id owner ops. length ops;
}

-- The owner.
abbrev pub ada : Text
ada = replicate 64 97

abbrev pub club : Text
club = codes "club"

abbrev pub origin : Operation
origin = record no_operation {
  version = 1;
  community = club;
  author = ada;
  kind = codes "create";
  signature = codes "o";
  details = record no_details { name = club; member_name = codes "ada"; endpoint = codes "a" };
}

abbrev rename_to : Text → Text → Operation
rename_to name id = record no_operation {
  version = 1;
  community = club;
  author = ada;
  clock = 1;
  parents = codes "o" ∷ [];
  kind = codes "rename";
  signature = id;
  details = record no_details { name = name };
}

abbrev snapshot_of : List Operation → Snapshot
snapshot_of ops = record {
  version = 1;
  id = club;
  owner = ada;
  operations = map (λ op. some op) ops;
  size = 1;
}

abbrev first_snapshot : Snapshot
first_snapshot = snapshot_of (origin ∷ [])

-- A replica that has only the origin.
abbrev pub replica : Model
replica = record (new_model club ada) {
  name = club;
  members =
      (
        ada,
        record {
          id = ada;
          name = codes "ada";
          endpoint = codes "a";
          admin = true;
          bio = [];
          avatar = [];
        },
      )
      ∷ [];
  operations = (codes "o", origin) ∷ [];
  heads = codes "o" ∷ [];
}

-- Two replicas that rename it at once.
abbrev red : Snapshot
red = snapshot_of (origin ∷ rename_to (codes "red") (codes "r") ∷ [])

abbrev blue : Snapshot
blue = snapshot_of (origin ∷ rename_to (codes "blue") (codes "s") ∷ [])

abbrev red_replica : Model
red_replica = record replica {
  name = codes "red";
  operations = (codes "o", origin) ∷ (codes "r", rename_to (codes "red") (codes "r")) ∷ [];
  heads = codes "r" ∷ [];
  clock = 1;
}

abbrev blue_replica : Model
blue_replica = record replica {
  name = codes "blue";
  operations = (codes "o", origin) ∷ (codes "s", rename_to (codes "blue") (codes "s")) ∷ [];
  heads = codes "s" ∷ [];
  clock = 1;
}

-- The last of the two names counts.
abbrev both : Model
both = record replica {
  name = codes "blue";
  operations =
      (codes "o", origin)
      ∷ (codes "r", rename_to (codes "red") (codes "r"))
      ∷ (codes "s", rename_to (codes "blue") (codes "s"))
      ∷ [];
  heads = codes "s" ∷ codes "r" ∷ [];
  clock = 1;
}

differ {ℓ} : {A : Type ℓ} (s t : Text) → (s == t) ≡ false → s ≡ t → A
differ s t no_match e = absurd (ground (arith, no_match, (text_eq.beq_iff s t).1 e))

abbrev deletion : Operation
deletion = record no_operation {
  version = 1;
  community = club;
  author = ada;
  clock = 1;
  parents = codes "o" ∷ [];
  kind = codes "delete";
  signature = codes "d";
}

abbrev deleted_replica : Model
deleted_replica = record replica {
  deleted = true;
  operations = (codes "d", deletion) ∷ (codes "o", origin) ∷ [];
  heads = codes "d" ∷ [];
  clock = 1;
}

abbrev deleted_red : Model
deleted_red = record red_replica {
  deleted = true;
  operations = (codes "d", deletion) ∷ red_replica.operations;
  heads = codes "r" ∷ codes "d" ∷ [];
}

-- What the code computes here.
runs :
    (from_json toolkit first_snapshot club ada ≡ some replica)
    × (from_json toolkit red club ada ≡ some red_replica)
    × (from_json toolkit blue club ada ≡ some blue_replica)
    × (IsRebuilt toolkit replica)
    × (merge toolkit red replica ≡ some (red_replica, true))
    × (merge toolkit blue replica ≡ some (blue_replica, true))
    × (merge toolkit blue red_replica ≡ some (both, true))
    × (merge toolkit red blue_replica ≡ some (both, true))
    × (IsRebuilt toolkit deleted_replica)
    × (merge toolkit red deleted_replica ≡ some (deleted_red, true))
unfolding uuid label valid_endpoint text_ltb put ordered search_from ancestor check_parents
    check_each check_log authorized gather_each ban_cleared banned_among could_act replay_create
    replay_removal replay_change replay_other replay_one replay_each expel_ended expel_all gathered
    replayed all_banned settled finished rebuild from_json merge_incoming merge lookup insert erase
    has include exclude is_peer_id all_hex is_hex text_beq
runs = (refl, refl, refl, refl, refl, refl, refl, refl, refl, refl)

ancestor_iff_example :
    (ancestor both.operations (codes "o") (codes "r") ≡ true)
    ↔ Descends both.operations (codes "o") (codes "r")
ancestor_iff_example = ancestor_iff both.operations (codes "o") (codes "r")

abbrev actions : List Action
actions = merges first_snapshot ∷ changes ada (codes "rename") no_details ∷ []

act_all-IsSound_example : IsSound (act_all toolkit actions replica)
act_all-IsSound_example = act_all-IsSound toolkit first_snapshot club ada replica actions runs.0

merge_comm_example : both ≡ both
merge_comm_example =
    merge_comm toolkit red blue replica red_replica blue_replica red_replica both blue_replica both
      true true true true runs.3 runs.1 runs.2
      ((λ _. refl, tt), ((differ (codes "r") (codes "o") (unfold text_beq in refl), tt), tt))
      ((λ _. refl, tt), ((differ (codes "s") (codes "o") (unfold text_beq in refl), tt), tt))
      (
        (λ _. refl, (differ (codes "o") (codes "s") (unfold text_beq in refl), tt)),
        (
          (
            differ (codes "r") (codes "o") (unfold text_beq in refl),
            (differ (codes "r") (codes "s") (unfold text_beq in refl), tt),
          ),
          tt,
        ),
      )
      (
        (λ _. refl, (differ (codes "o") (codes "r") (unfold text_beq in refl), tt)),
        (
          (
            differ (codes "s") (codes "o") (unfold text_beq in refl),
            (differ (codes "s") (codes "r") (unfold text_beq in refl), tt),
          ),
          tt,
        ),
      )
      runs.4 runs.6 runs.5 runs.7

change-none_example : change toolkit (codes "bob") (codes "rename") no_details replica ≡ none
change-none_example =
    change-none toolkit (codes "bob") (codes "rename") no_details replica (unfold text_beq in refl)
      (unfold lookup in unfold text_beq in refl) (inl (unfold lookup in unfold text_beq in refl))

host_sound_example :
    (contains replica.members (host (ada ∷ []) replica) ≡ true)
    × (has (host (ada ∷ []) replica) (ada ∷ []) ≡ true)
host_sound_example =
    host_sound (ada ∷ []) replica refl (unfold lookup in unfold text_beq in refl)
      (unfold has in unfold text_beq in refl)

deleted-merge_example : deleted_red.deleted ≡ true
deleted-merge_example =
    deleted-merge toolkit red deleted_replica red_replica deleted_red true runs.8 runs.1
      (
        (differ (codes "o") (codes "d") (unfold text_beq in refl), (λ _. refl, tt)),
        (
          (
            differ (codes "r") (codes "d") (unfold text_beq in refl),
            (differ (codes "r") (codes "o") (unfold text_beq in refl), tt),
          ),
          tt,
        ),
      )
      runs.9 refl
