-- ===== src/Images/Assembler/Drop.antt =====
-- The invariant of the assembler, and that dropping transfers keeps it.
use disquisition.Common.{
  ℕ, suc, ◌-◌, ◌≤◌, ◌<◌, ◌≡◌, refl, Bool, true, false, none, some, List, [], ◌∷◌, arith, Text,
  text_eq, ◌==◌, length, nat_beq, if◌then◌else◌, Bool-cases, Option-cases, inl, inr, subst, ◌⊎◌,
}
use disquisition.Common.Maps.{
  lookup, erase, IsMap, Each, sum_of, erase-IsMap, Each-erase, sum_of-erase, sum_of-erase_le,
  lookup-erase,
}
use disquisition.Images.Split.{max_image_chunks, joined}
use disquisition.Images.Assembler.{
  Key, key_eq, Partial, Transfers, Assembler, empty, max_buffered_bytes, max_transfers_per_sender,
  drop, drop_where, drop_oldest, expire, remove, clear, make_room, restart,
}

-- How many chunks have come.
abbrev pub filled : List Text → ℕ
filled [] = 0
filled ([] ∷ cs) = filled cs
filled ((b ∷ c) ∷ cs) = suc (filled cs)

-- A transfer that is under way.
pub record IsPartial (p : Partial) : Type 0 where
  pub bytes : p.bytes ≡ length (joined p.chunks)
  pub received : p.received ≡ filled p.chunks
  pub unfinished : p.received < length p.chunks
  pub bounded : length p.chunks ≤ max_image_chunks

abbrev pub AllPartial : Transfers → Type 0
AllPartial = Each (λ k p. IsPartial p)

abbrev pub bytes_of : Transfers → ℕ
bytes_of = sum_of (λ k p. p.bytes)

abbrev pub is_of : Text → Key → Partial → ℕ
is_of sender k p = if k.0 == sender then 1 else 0

-- How many transfers a sender has.
abbrev pub count_of : Text → Transfers → ℕ
count_of sender = sum_of (is_of sender)

pub record Inv (a : Assembler) : Type 0 where
  pub keys : IsMap a.transfers
  pub each : AllPartial a.transfers
  pub total : a.buffered_bytes ≡ bytes_of a.transfers
  pub bounded : a.buffered_bytes ≤ max_buffered_bytes
  pub few : (sender : Text) → count_of sender a.transfers ≤ max_transfers_per_sender

pub empty-Inv : Inv empty
empty-Inv = record {
  keys = tt;
  each = tt;
  total = refl;
  bounded = omega arith;
  few = λ s. omega arith;
}

pub drop_absent : (k : Key) (a : Assembler) → lookup k a.transfers ≡ none → drop k a ≡ a
unfolding drop
drop_absent k a e = rw e

pub drop_present :
    (k : Key) (a : Assembler) (p : Partial)
    → lookup k a.transfers ≡ some p
    → drop k a
      ≡ record { transfers = erase k a.transfers; buffered_bytes = a.buffered_bytes - p.bytes }
unfolding drop
drop_present k a p e = rw e

pub drop-Inv : (k : Key) (a : Assembler) → Inv a → Inv (drop k a)
drop-Inv k a v = elim (Option-cases (lookup k a.transfers)) [
  | inl absent ↦ rw (drop_absent k a absent) v
  | inr (p, present) ↦ rw (drop_present k a p present) (record {
    keys = erase-IsMap k a.transfers v.keys;
    each = Each-erase _ k a.transfers v.each;
    total = omega (arith, v.total, sum_of-erase (λ k p. p.bytes) k a.transfers p v.keys present);
    bounded = omega (arith, v.bounded);
    few = λ s. omega (arith, v.few s, sum_of-erase_le (is_of s) k a.transfers);
  })
]

-- What every drop keeps, all that only drops keep.
module _ {ℓ} (P : Assembler → Type ℓ) (keep : (k : Key) (a : Assembler) → P a → P (drop k a)) where
  drop_where_keeps :
      (test : Key → Partial → Bool) (m : Transfers) (a : Assembler) → P a → P (drop_where test m a)
  unfolding drop_where
  drop_where_keeps test [] a h = h
  drop_where_keeps test ((k, p) ∷ m) a h = elim (Bool-cases (test k p)) [
    | inl yes' ↦ rw yes' (drop_where_keeps test m (drop k a) (keep k a h))
    | inr no' ↦ rw no' (drop_where_keeps test m a h)
  ]

  drop_oldest_keeps : (m : Transfers) (a : Assembler) → P a → P (drop_oldest m a)
  unfolding drop_oldest
  drop_oldest_keeps [] a h = h
  drop_oldest_keeps (t ∷ []) a h = h
  drop_oldest_keeps ((k, p) ∷ u ∷ m) a h = drop_oldest_keeps (u ∷ m) (drop k a) (keep k a h)

  pub expire_keeps : (now_ms : ℕ) (a : Assembler) → P a → P (expire now_ms a)
  unfolding expire
  expire_keeps now_ms a h = drop_where_keeps _ a.transfers a h

  pub remove_keeps : (sender : Text) (a : Assembler) → P a → P (remove sender a)
  unfolding remove
  remove_keeps sender a h = drop_where_keeps _ a.transfers a h

  pub make_room_keeps : (sender : Text) (a : Assembler) → P a → P (make_room sender a)
  unfolding make_room
  make_room_keeps sender a h = drop_oldest_keeps _ a h

  pub restart_keeps : (k : Key) (count : ℕ) (a : Assembler) → P a → P (restart k count a)
  unfolding restart
  restart_keeps k count a h = elim (Option-cases (lookup k a.transfers)) [
    | inl absent ↦ rw absent h
    | inr (p, present) ↦ rw present (elim (Bool-cases (nat_beq (length p.chunks) count)) [
      | inl same ↦ rw same h
      | inr other ↦ rw other (keep k a h)
    ])
  ]

pub remove-Inv : (sender : Text) (a : Assembler) → Inv a → Inv (remove sender a)
remove-Inv = remove_keeps Inv drop-Inv

pub clear-Inv : (a : Assembler) → Inv (clear a)
unfolding clear
clear-Inv a = empty-Inv

-- Dropping never adds a transfer.
pub drop_le :
    (f : Key → Partial → ℕ) (k : Key) (a : Assembler)
    → sum_of f (drop k a).transfers ≤ sum_of f a.transfers
drop_le f k a = elim (Option-cases (lookup k a.transfers)) [
  | inl absent ↦ rw (drop_absent k a absent) (omega arith)
  | inr (p, present) ↦ rw (drop_present k a p present) (sum_of-erase_le f k a.transfers)
]

-- A dropped transfer is gone, and no other is touched.
pub lookup-drop :
    (k j : Key) (a : Assembler)
    → lookup j (drop k a).transfers ≡ (if k == j then none else lookup j a.transfers)
lookup-drop k j a = elim (Option-cases (lookup k a.transfers)) [
  | inl absent ↦ rw (drop_absent k a absent) (same_key (Bool-cases (k == j)) absent)
  | inr (p, present) ↦ rw (drop_present k a p present) (lookup-erase k j a.transfers)
]
  where
    same_key :
        ((k == j) ≡ true) ⊎ ((k == j) ≡ false)
        → lookup k a.transfers ≡ none
        → lookup j a.transfers ≡ (if k == j then none else lookup j a.transfers)
    same_key (inl same) absent =
        rw same (subst (λ i. lookup i a.transfers ≡ none) ((key_eq.beq_iff k j).0 same) absent)
    same_key (inr other) absent = rw other
