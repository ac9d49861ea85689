-- ===== src/Images/Assembler/Complete.antt =====
-- What the assembler returns: the image that was cut, whatever order its chunks come in and whatever
-- else comes between them.
use disquisition.Common.{
  ℕ, zero, suc, ◌+◌, ◌≤◌, ◌<◌, ◌≡◌, ◌⊎◌, refl, sym, subst, Option, some, List, [], ◌∷◌, arith, Text,
  text_eq, ◌==◌, length, get_or, set, length-set, replicate, Bool-cases, Option-cases, inl, inr,
  ◌∙◌, ap, ap₂,
}
use mathlib.Core.Option.{some-injective}
use disquisition.Common.Maps.{lookup, insert, lookup-insert}
use disquisition.Images.Split.{joined}
use disquisition.Images.Assembler.{
  Key, key_eq, Partial, Assembler, drop, make_room, fresh, begin, with_chunk, store, is_refused,
  add,
}
use disquisition.Images.Assembler.Drop.{
  Inv, filled, lookup-drop, expire_keeps, make_room_keeps, restart_keeps,
}
use disquisition.Images.Assembler.Invariant.{stored, store_cases, prepared, prepared-IsReady, kept}
use disquisition.Images.Assembler.Ready.{IsReady, filled-set, accepted}

-- Each slot is empty or holds the expected chunk.
abbrev pub Agree : List Text → List Text → Type 0
Agree [] [] = Unit
Agree [] (e ∷ es) = ⊥
Agree (c ∷ cs) [] = ⊥
Agree (c ∷ cs) (e ∷ es) = ((c ≡ []) ⊎ (c ≡ e)) × Agree cs es

Agree-set : (cs es : List Text) (i : ℕ) → Agree cs es → Agree (set cs i (get_or es i [])) es
Agree-set [] [] i h = tt
Agree-set [] (e ∷ es) i h = absurd h
Agree-set (c ∷ cs) [] i h = absurd h
Agree-set (c ∷ cs) (e ∷ es) zero (h, hs) = (inr refl, hs)
Agree-set (c ∷ cs) (e ∷ es) (suc i) (h, hs) = (h, Agree-set cs es i hs)

Agree-replicate : (es : List Text) → Agree (replicate (length es) []) es
Agree-replicate [] = tt
Agree-replicate (e ∷ es) = (inl refl, Agree-replicate es)

filled-le : (cs : List Text) → filled cs ≤ length cs
filled-le [] = omega arith
filled-le ([] ∷ cs) = omega (arith, filled-le cs)
filled-le ((b ∷ c) ∷ cs) = omega (arith, filled-le cs)

-- Where no slot is empty, every chunk is the expected one.
Agree-full : (cs es : List Text) → Agree cs es → length cs ≤ filled cs → cs ≡ es
Agree-full [] [] h k = refl
Agree-full [] (e ∷ es) h k = absurd h
Agree-full (c ∷ cs) [] h k = absurd h
Agree-full ([] ∷ cs) (e ∷ es) (h, hs) k = absurd (omega (arith, filled-le cs))
Agree-full ((b ∷ c) ∷ cs) (e ∷ es) (inl h, hs) k = cc
Agree-full ((b ∷ c) ∷ cs) (e ∷ es) (inr h, hs) k =
    ap₂ (λ x xs. x ∷ xs) h (Agree-full cs es hs (omega arith))

-- What has come for a key is part of one image.
abbrev pub Agrees : Key → List Text → Assembler → Type 0
Agrees k es a = (p : Partial) → lookup k a.transfers ≡ some p → Agree p.chunks es

module _ (k : Key) (es : List Text) where
  pub drop-Agrees : (j : Key) (a : Assembler) → Agrees k es a → Agrees k es (drop j a)
  drop-Agrees j a h p e = h p (ground (arith, lookup-drop j k a))

  insert-Agrees :
      (j : Key) (q : Partial) (a : Assembler)
      → Agrees k es a
      → (j ≡ k → Agree q.chunks es)
      → Agrees k es (record a { transfers = insert j q a.transfers })
  insert-Agrees j q a h g p e = elim (Bool-cases (j == k)) [
    | inl same ↦
        subst (λ r. Agree r.chunks es)
          (some-injective q p (ground (arith, lookup-insert j k q a.transfers)))
          (g ((key_eq.beq_iff j k).0 same))
    | inr other ↦ h p (ground (arith, lookup-insert j k q a.transfers))
  ]

  begin-Agrees :
      (j : Key) (count now_ms : ℕ) (a : Assembler)
      → (j ≡ k → count ≡ length es)
      → Agrees k es a
      → Agrees k es (begin j count now_ms a).0
  unfolding begin
  begin-Agrees j count now_ms a size h = elim (Option-cases (lookup j a.transfers)) [
    | inl absent ↦ rw absent (
        insert-Agrees j (fresh count now_ms) (make_room j.0 a)
          (make_room_keeps (Agrees k es) drop-Agrees j.0 a h)
          (λ same. rw (size same) (Agree-replicate es)))
    | inr (p, present) ↦ rw present h
  ]

  pub prepared-Agrees :
      (j : Key) (count now_ms : ℕ) (a : Assembler)
      → (j ≡ k → count ≡ length es)
      → Agrees k es a
      → Agrees k es (prepared j count now_ms a).0
  prepared-Agrees j count now_ms a size h = begin-Agrees j count now_ms _ size (
      restart_keeps (Agrees k es) drop-Agrees j count _
        (expire_keeps (Agrees k es) drop-Agrees now_ms a h))

  -- A chunk of another transfer, or the chunk of this image that its index names.
  abbrev pub Fits : Key → ℕ → ℕ → Text → Type 0
  Fits j index count chunk = j ≡ k → (count ≡ length es) × (chunk ≡ get_or es index [])

  -- What may be said of a result: the state still agrees, and an image returned for the key is whole.
  abbrev pub Exact : Key → Assembler × Option Text → Type 0
  Exact j r = Agrees k es r.0 × (j ≡ k → (image : Text) → r.1 ≡ some image → image ≡ joined es)

  store-Exact :
      (j : Key) (index count : ℕ) (chunk : Text) (a : Assembler) (p : Partial)
      → IsReady j count a p
      → index < count
      → 0 < length chunk
      → Fits j index count chunk
      → Agrees k es a
      → Exact j (store j index count chunk a p)
  store-Exact j index count chunk a p ready in_range some_bytes fits h =
      store_cases (Exact j) j index count chunk a p (λ _. (h, λ _ image e. cc))
        (λ _ _. (drop-Agrees j a h, λ _ image e. cc)) (λ _ _ _. (after, λ _ image e. cc))
        (λ free _ last. (
          drop-Agrees j (stored j index chunk a p) after,
          λ same image e. whole same free last image e,
        ))
    where
      slots : j ≡ k → Agree (set p.chunks index chunk) es
      slots same = rw ((fits same).1) (
          Agree-set p.chunks es index
            (h p (subst (λ i. lookup i a.transfers ≡ some p) same ready.present)))

      after : Agrees k es (stored j index chunk a p)
      after = insert-Agrees j (with_chunk p index chunk) a h slots

      whole :
          j ≡ k
          → length (get_or p.chunks index []) ≡ 0
          → count ≤ p.received + 1
          → (image : Text) → some (joined (set p.chunks index chunk)) ≡ some image
          → image ≡ joined es
      whole same free last image e =
          sym (some-injective _ image e)
          ∙ ap joined (
              Agree-full _ es (slots same) (
                omega (
                  arith,
                  ready.size,
                  length-set p.chunks index chunk,
                  (kept j index count chunk a p ready in_range some_bytes free).received,
                  filled-set p.chunks index chunk (omega (arith, ready.size)) free some_bytes,
                )))

  -- `add`, for a chunk that fits.
  pub add-Exact :
      (sender : Text) (transfer_id index count : ℕ) (chunk : Text) (now_ms : ℕ) (a : Assembler)
      → Inv a
      → Agrees k es a
      → Fits (sender, transfer_id) index count chunk
      → Exact (sender, transfer_id) (add sender transfer_id index count chunk now_ms a)
  unfolding add
  add-Exact sender transfer_id index count chunk now_ms a v h fits =
      elim (Bool-cases (is_refused index count chunk)) [
        | inl refused ↦
            rw refused (expire_keeps (Agrees k es) drop-Agrees now_ms a h, λ _ image e. cc)
        | inr fine ↦
            let j : Key = (sender, transfer_id) in
            let (pos, few, in_range, some_bytes, _, _) = accepted index count chunk fine in
            rw fine (
              store-Exact j index count chunk _ _ (prepared-IsReady j count now_ms a pos few v)
                in_range some_bytes fits
                (prepared-Agrees j count now_ms a (λ same. (fits same).0) h))
      ]
