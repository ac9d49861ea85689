-- ===== src/Images/Assembler/Room.antt =====
-- Making room leaves a sender at most one transfer.
use disquisition.Common.{
  suc, ◌≤◌, ◌≡◌, refl, true, none, some, [], ◌∷◌, arith, Text, text_eq, ◌==◌, ltb, length,
  Bool-cases, inl, inr, All, ◌∙◌, ap,
}
use disquisition.Common.Maps.{lookup, Each, Each-entry, Each-map, sum_of-erase}
use disquisition.Images.Assembler.{
  Key, key_eq, Partial, Transfers, Assembler, drop, mine, place, by_start, drop_oldest, make_room,
}
use disquisition.Images.Assembler.Drop.{
  Inv, drop_present, make_room_keeps, lookup-drop, count_of, is_of,
}

module _ {ℓ} (P : Key × Partial → Type ℓ) where
  place-All : (t : Key × Partial) (m : Transfers) → P t → All P m → All P (place t m)
  unfolding place
  place-All (k, p) [] h g = (h, tt)
  place-All (k, p) ((j, q) ∷ m) h (g, gs) = elim (Bool-cases (ltb q.started_ms p.started_ms)) [
    | inl older ↦ rw older (g, place-All (k, p) m h gs)
    | inr newer ↦ rw newer (h, (g, gs))
  ]

  by_start-All : (m : Transfers) → All P m → All P (by_start m)
  unfolding by_start
  by_start-All [] h = tt
  by_start-All (t ∷ m) (h, hs) = place-All t (by_start m) h (by_start-All m hs)

  mine-All :
      (sender : Text) (m : Transfers)
      → Each (λ k p. (k.0 == sender) ≡ true → P (k, p)) m
      → All P (mine sender m)
  unfolding mine
  mine-All sender [] h = tt
  mine-All sender ((k, p) ∷ m) (h, hs) = elim (Bool-cases (k.0 == sender)) [
    | inl same ↦ rw same (h same, mine-All sender m hs)
    | inr other ↦ rw other (mine-All sender m hs)
  ]

length-place : (t : Key × Partial) (m : Transfers) → length (place t m) ≡ suc (length m)
unfolding place
length-place (k, p) [] = refl
length-place (k, p) ((j, q) ∷ m) = ground (arith, length-place (k, p) m)

length-by_start : (m : Transfers) → length (by_start m) ≡ length m
unfolding by_start
length-by_start [] = refl
length-by_start (t ∷ m) = length-place t (by_start m) ∙ ap suc (length-by_start m)

length-mine : (sender : Text) (m : Transfers) → length (mine sender m) ≡ count_of sender m
unfolding mine
length-mine sender [] = refl
length-mine sender ((k, p) ∷ m) = ground (arith, length-mine sender m)

-- An entry of the sender that the map holds.
abbrev IsMine : Text → Transfers → Key × Partial → Type 0
IsMine sender m t = ((t.0.0 == sender) ≡ true) × (lookup t.0 m ≡ some t.1)

own_entries :
    (sender : Text) (a : Assembler)
    → Inv a
    → All (IsMine sender a.transfers) (by_start (mine sender a.transfers))
own_entries sender a v = by_start-All (IsMine sender a.transfers) _ (
    mine-All (IsMine sender a.transfers) sender a.transfers (
      Each-map (λ k p. lookup k a.transfers ≡ some p) _ a.transfers (λ k p e same. (same, e))
        (Each-entry a.transfers v.keys)))

count-drop :
    (sender : Text) (t : Key × Partial) (a : Assembler)
    → Inv a
    → IsMine sender a.transfers t
    → suc (count_of sender (drop t.0 a).transfers) ≡ count_of sender a.transfers
count-drop sender (k, p) a v (same, present) =
    rw (drop_present k a p present)
      (ground (arith, same, sum_of-erase (is_of sender) k a.transfers p v.keys present))

count-drop_oldest :
    (sender : Text) (m : Transfers) (a : Assembler)
    → Inv a
    → All (IsMine sender a.transfers) m
    → length m ≡ count_of sender a.transfers
    → count_of sender (drop_oldest m a).transfers ≤ 1
unfolding drop_oldest
count-drop_oldest sender [] a v h n = omega arith
count-drop_oldest sender (t ∷ []) a v h n = omega arith
count-drop_oldest sender ((k, p) ∷ u ∷ []) a v (h, hs) n =
    omega (arith, count-drop sender (k, p) a v h)
count-drop_oldest sender (t ∷ u ∷ w ∷ m) a v h n = absurd (omega (arith, v.few sender))

-- With two transfers at most before, one at most is left.
pub count-make_room :
    (sender : Text) (a : Assembler) → Inv a → count_of sender (make_room sender a).transfers ≤ 1
unfolding make_room
count-make_room sender a v =
    count-drop_oldest sender _ a v (own_entries sender a v)
      (length-by_start (mine sender a.transfers) ∙ length-mine sender a.transfers)

pub make_room_absent :
    (sender : Text) (a : Assembler) (j : Key)
    → lookup j a.transfers ≡ none
    → lookup j (make_room sender a).transfers ≡ none
make_room_absent sender a j =
    make_room_keeps (λ b. lookup j b.transfers ≡ none) (λ k b h. ground (arith, lookup-drop k j b))
      sender a
