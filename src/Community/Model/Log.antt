-- ===== src/Community/Model/Log.antt =====
-- The order of a log, its ancestry, and the first pass of `rebuild`, which checks both.
use disquisition.Common.{
  ℕ, zero, suc, ◌+◌, max, Bool, true, false, not, ◌&&◌, ◌||◌, Option, none, some, List, [], ◌∷◌,
  ◌++◌, Text, text_eq, nat_eq, codes, ◌==◌, ltb, nat_beq, if◌then◌else◌, ◌>>=◌, ◌>>◌, guard, length,
}
use disquisition.Common.Maps.{lookup}
use disquisition.Common.Sets.{has, include, exclude}
use disquisition.Community.Model.{Intent, Details, Operation, absent}

abbrev pub no_intent : Intent
no_intent = record {
  community = [];
  peer = [];
  name = [];
  endpoint = [];
  invite = [];
  host = [];
  nonce = [];
  request = [];
  proof = [];
  signature = [];
}

abbrev pub no_details : Details
no_details = record {
  name = [];
  member_name = [];
  endpoint = [];
  channels = [];
  bio = absent;
  avatar = absent;
  peer = [];
  enabled = none;
  intent = no_intent;
  hash = [];
  code = [];
  bytes = [];
  id = [];
  type = [];
  topic = [];
  peers = none;
}

abbrev pub no_operation : Operation
no_operation = record {
  version = 0;
  community = [];
  author = [];
  clock = 0;
  parents = [];
  kind = [];
  authority = [];
  details = no_details;
  signature = [];
}

abbrev pub or_else {ℓ} : {A : Type ℓ} → A → Option A → A
or_else d none = d
or_else d (some a) = a

-- `operations_.value(key)`
abbrev pub value_of : List (Text × Operation) → Text → Operation
value_of ops key = or_else no_operation (lookup key ops)

abbrev pub is_some {ℓ} : {A : Type ℓ} → Option A → Bool
is_some none = false
is_some (some a) = true

abbrev pub contains {ℓ} : {A : Type ℓ} → List (Text × A) → Text → Bool
contains m key = is_some (lookup key m)

-- The order of `QString`.
unfoldable pub text_ltb : Text → Text → Bool
text_ltb s [] = false
text_ltb [] (b ∷ t) = true
text_ltb (a ∷ s) (b ∷ t) = ltb a b || (nat_beq a b && text_ltb s t)

-- `QMap::insert`, which keeps the keys in their order.
unfoldable pub put {ℓ} : {A : Type ℓ} → Text → A → List (Text × A) → List (Text × A)
put k a [] = (k, a) ∷ []
put k a ((j, b) ∷ m) =
    if k == j then (k, a) ∷ m else if text_ltb k j then (k, a) ∷ (j, b) ∷ m else (j, b) ∷ put k a m

abbrev pub keys {ℓ} : {A : Type ℓ} → List (Text × A) → List Text
keys [] = []
keys ((k, a) ∷ m) = k ∷ keys m

abbrev pub comes_first : List (Text × Operation) → Text → Text → Bool
comes_first ops a b =
    let ca = (value_of ops a).clock in
    let cb = (value_of ops b).clock in if nat_beq ca cb then text_ltb a b else ltb ca cb

abbrev pub sort_in : List (Text × Operation) → Text → List Text → List Text
sort_in ops a [] = a ∷ []
sort_in ops a (b ∷ bs) = if comes_first ops b a then b ∷ sort_in ops a bs else a ∷ b ∷ bs

abbrev pub sorted_keys : List (Text × Operation) → List Text → List Text
sorted_keys ops [] = []
sorted_keys ops (k ∷ ks) = sort_in ops k (sorted_keys ops ks)

unfoldable pub ordered : List (Text × Operation) → List Text
ordered ops = sorted_keys ops (keys ops)

-- Each parent in its turn is put on top.
abbrev pub push_all : List Text → List Text → List Text
push_all [] pending = pending
push_all (p ∷ ps) pending = push_all ps (p ∷ pending)

-- The loop of `ancestor`; the last that is pending comes first here.
unfoldable pub search_from : ℕ → List (Text × Operation) → Text → List Text → List Text → Bool
search_from zero ops older visited pending = false
search_from (suc fuel) ops older visited [] = false
search_from (suc fuel) ops older visited (current ∷ pending) =
    let parents = (value_of ops current).parents in
    let skipped = search_from fuel ops older visited pending in
    let deeper = search_from fuel ops older (current ∷ visited) (push_all parents pending) in
    if has current visited then skipped else has older parents || deeper

abbrev pub parent_count : List (Text × Operation) → ℕ
parent_count [] = 0
parent_count ((k, op) ∷ m) = length op.parents + parent_count m

unfoldable pub ancestor : List (Text × Operation) → Text → Text → Bool
ancestor ops older newer =
    older == newer || search_from (suc (suc (parent_count ops))) ops older [] (newer ∷ [])

-- What the first pass gathers.
pub record Checked : Type 0 where
  pub roots : ℕ
  pub non_heads : List Text
  pub owner_roles : List Text
  pub clock : ℕ
  pub heads : List Text

abbrev pub nothing_checked : Checked
nothing_checked = record { roots = 0; non_heads = []; owner_roles = []; clock = 0; heads = [] }

-- One more than the latest clock of the parents, which are known, distinct and earlier.
unfoldable pub check_parents : List (Text × Operation) → ℕ → List Text → List Text → ℕ → Option ℕ
check_parents ops clock [] unique next = some next
check_parents ops clock (parent ∷ parents) unique next =
    let parent_clock = (value_of ops parent).clock in
    guard (contains ops parent && (not (has parent unique) && ltb parent_clock clock))
    >> check_parents ops clock parents (parent ∷ unique) (max next (parent_clock + 1))

abbrev pub include_all : List Text → List Text → List Text
include_all [] s = s
include_all (t ∷ ts) s = include_all ts (include t s)

abbrev pub exclude_all : List Text → List Text → List Text
exclude_all [] s = s
exclude_all (t ∷ ts) s = exclude_all ts (exclude t s)

-- What the operation adds once it is checked.
abbrev pub noted : Text → Text → Operation → Checked → Checked
noted owner key op c = record c {
  clock = max c.clock op.clock;
  heads = include key c.heads;
  owner_roles =
      if op.kind == codes "admin" && op.author == owner
      then c.owner_roles ++ (key ∷ [])
      else c.owner_roles;
}

abbrev pub check_one : List (Text × Operation) → Text → Text → Operation → Checked → Option Checked
check_one ops owner key op c =
    if op.kind == codes "create"
    then (guard (nat_beq (length op.parents) 0 && (nat_beq op.clock 0 && op.author == owner))
        >> some (noted owner key op (record c { roots = c.roots + 1 })))
    else (guard (not (nat_beq (length op.parents) 0))
        >> check_parents ops op.clock op.parents [] 0
        >>= λ next.
            (guard (nat_beq op.clock next)
              >> some (
                  noted owner key op
                    (record c { non_heads = include_all op.parents c.non_heads }))))

unfoldable pub check_each : List (Text × Operation) → Text → List Text → Checked → Option Checked
check_each ops owner [] c = some c
check_each ops owner (key ∷ ks) c =
    check_one ops owner key (value_of ops key) c >>= check_each ops owner ks

unfoldable pub check_log : List (Text × Operation) → Text → Option Checked
check_log ops owner = check_each ops owner (ordered ops) nothing_checked >>= λ c.
    (guard (nat_beq c.roots 1) >> some (record c { heads = exclude_all c.non_heads c.heads }))
