-- ===== src/Common/Maps.antt =====
-- Maps (`std::map`, `QMap`, `QHash`) as association lists, newest keys last. The order of a list is not
-- the order of the source's container, which no component's result depends on unless it says so.
use mathlib.Core.Option.{some-injective, none-ne-some}
use disquisition.Common.{
  ℕ, ◌+◌, ◌≤◌, ◌≡◌, refl, sym, ◌∙◌, subst, Option, none, some, List, [], ◌∷◌, arith, if◌then◌else◌,
  Eq, beq_refl, beq_sym, Bool-cases, inl, inr,
}

module _ {ℓ κ} {K : Type ℓ} {V : Type κ} ⦃e : Eq K⦄ where
  unfoldable pub lookup : K → List (K × V) → Option V
  lookup k [] = none
  lookup k ((j, v) ∷ m) = if e.beq j k then some v else lookup k m

  -- `m[k] = v`
  unfoldable pub insert : K → V → List (K × V) → List (K × V)
  insert k v [] = (k, v) ∷ []
  insert k v ((j, w) ∷ m) = if e.beq j k then (j, v) ∷ m else (j, w) ∷ insert k v m

  unfoldable pub erase : K → List (K × V) → List (K × V)
  erase k [] = []
  erase k ((j, v) ∷ m) = if e.beq j k then erase k m else (j, v) ∷ erase k m

  pub lookup-insert :
      (k j : K) (v : V) (m : List (K × V))
      → lookup j (insert k v m) ≡ (if e.beq k j then some v else lookup j m)
  unfolding lookup insert
  lookup-insert k j v [] = refl
  lookup-insert k j v ((i, w) ∷ m) =
      ground (arith, e.beq_iff k j, e.beq_iff i k, e.beq_iff i j, lookup-insert k j v m)

  pub lookup-erase :
      (k j : K) (m : List (K × V)) → lookup j (erase k m) ≡ (if e.beq k j then none else lookup j m)
  unfolding lookup erase
  lookup-erase k j [] = ground arith
  lookup-erase k j ((i, w) ∷ m) =
      ground (arith, e.beq_iff k j, e.beq_iff i k, e.beq_iff i j, lookup-erase k j m)

  pub lookup-insert_self : (k : K) (v : V) (m : List (K × V)) → lookup k (insert k v m) ≡ some v
  lookup-insert_self k v m = rw (lookup-insert k k v m, beq_refl k)

  pub lookup-erase_self : (k : K) (m : List (K × V)) → lookup k (erase k m) ≡ none
  lookup-erase_self k m = rw (lookup-erase k k m, beq_refl k)

  -- No key stands twice.
  abbrev pub IsMap : List (K × V) → Type κ
  IsMap [] = Unit
  IsMap ((k, v) ∷ m) = (lookup k m ≡ none) × IsMap m

  pub insert-IsMap : (k : K) (v : V) (m : List (K × V)) → IsMap m → IsMap (insert k v m)
  unfolding insert
  insert-IsMap k v [] h = (unfold lookup in refl, tt)
  insert-IsMap k v ((j, w) ∷ m) (fresh, h) = elim (Bool-cases (e.beq j k)) [
    | inl same ↦ rw same (fresh, h)
    | inr other ↦
        rw other (rw (lookup-insert k j v m, beq_sym j k, other) fresh, insert-IsMap k v m h)
  ]

  pub erase-IsMap : (k : K) (m : List (K × V)) → IsMap m → IsMap (erase k m)
  unfolding erase
  erase-IsMap k [] h = tt
  erase-IsMap k ((j, w) ∷ m) (fresh, h) = elim (Bool-cases (e.beq j k)) [
    | inl same ↦ rw same (erase-IsMap k m h)
    | inr other ↦ rw other (rw (lookup-erase k j m, beq_sym j k, other) fresh, erase-IsMap k m h)
  ]

  pub erase_absent : (k : K) (m : List (K × V)) → lookup k m ≡ none → erase k m ≡ m
  unfolding lookup erase
  erase_absent k [] h = refl
  erase_absent k ((j, v) ∷ m) h = ground (arith, erase_absent k m)

  -- A property of every entry.
  abbrev pub Each {μ} : (K → V → Type μ) → List (K × V) → Type μ
  Each P [] = Unit
  Each P ((k, v) ∷ m) = P k v × Each P m

  pub Each-lookup {μ} :
      (P : K → V → Type μ) (k : K) (m : List (K × V)) {v : V}
      → Each P m
      → lookup k m ≡ some v
      → P k v
  unfolding lookup
  Each-lookup P k [] h s = absurd (none-ne-some _ s)
  Each-lookup P k ((j, w) ∷ m) {v} (p, h) s = elim (Bool-cases (e.beq j k)) [
    | inl same ↦
        subst (λ u. P k u) (some-injective w v (rw same at s))
          (subst (λ i. P i w) ((e.beq_iff j k).0 same) p)
    | inr other ↦ Each-lookup P k m h (rw other at s)
  ]

  pub Each-insert {μ} :
      (P : K → V → Type μ) (k : K) (v : V) (m : List (K × V))
      → Each P m
      → P k v
      → Each P (insert k v m)
  unfolding insert
  Each-insert P k v [] h p = (p, tt)
  Each-insert P k v ((j, w) ∷ m) (q, h) p = elim (Bool-cases (e.beq j k)) [
    | inl same ↦ rw same (subst (λ i. P i v) (sym ((e.beq_iff j k).0 same)) p, h)
    | inr other ↦ rw other (q, Each-insert P k v m h p)
  ]

  pub Each-erase {μ} :
      (P : K → V → Type μ) (k : K) (m : List (K × V)) → Each P m → Each P (erase k m)
  unfolding erase
  Each-erase P k [] h = tt
  Each-erase P k ((j, w) ∷ m) (q, h) = elim (Bool-cases (e.beq j k)) [
    | inl same ↦ rw same (Each-erase P k m h)
    | inr other ↦ rw other (q, Each-erase P k m h)
  ]

  -- A sum over the entries.
  abbrev pub sum_of : (K → V → ℕ) → List (K × V) → ℕ
  sum_of f [] = 0
  sum_of f ((k, v) ∷ m) = f k v + sum_of f m

  pub sum_of-erase :
      (f : K → V → ℕ) (k : K) (m : List (K × V)) (v : V)
      → IsMap m
      → lookup k m ≡ some v
      → f k v + sum_of f (erase k m) ≡ sum_of f m
  unfolding lookup erase
  sum_of-erase f k [] v h s = cc
  sum_of-erase f k ((j, w) ∷ m) v (fresh, h) s =
      ground (arith, e.beq_iff j k, erase_absent k m, sum_of-erase f k m v h)

  pub sum_of-insert_new :
      (f : K → V → ℕ) (k : K) (v : V) (m : List (K × V))
      → lookup k m ≡ none
      → sum_of f (insert k v m) ≡ f k v + sum_of f m
  unfolding lookup insert
  sum_of-insert_new f k v [] s = refl
  sum_of-insert_new f k v ((j, w) ∷ m) s = ground (arith, sum_of-insert_new f k v m)

  pub sum_of-insert_old :
      (f : K → V → ℕ) (k : K) (v w : V) (m : List (K × V))
      → lookup k m ≡ some w
      → f k w + sum_of f (insert k v m) ≡ f k v + sum_of f m
  unfolding lookup insert
  sum_of-insert_old f k v w [] s = cc
  sum_of-insert_old f k v w ((j, u) ∷ m) s =
      ground (arith, e.beq_iff j k, sum_of-insert_old f k v w m)

  pub sum_of-erase_le :
      (f : K → V → ℕ) (k : K) (m : List (K × V)) → sum_of f (erase k m) ≤ sum_of f m
  unfolding erase
  sum_of-erase_le f k [] = omega arith
  sum_of-erase_le f k ((j, w) ∷ m) = ground (arith, sum_of-erase_le f k m)

  pub Each-map {μ ν} :
      (P : K → V → Type μ) (Q : K → V → Type ν) (m : List (K × V))
      → ((k : K) (v : V) → P k v → Q k v)
      → Each P m
      → Each Q m
  Each-map P Q [] f h = tt
  Each-map P Q ((k, v) ∷ m) f (p, h) = (f k v p, Each-map P Q m f h)

  later_entry :
      (k : K) (v : V) (m : List (K × V)) (j : K) (w : V)
      → lookup k m ≡ none
      → lookup j m ≡ some w
      → lookup j ((k, v) ∷ m) ≡ some w
  unfolding lookup
  later_entry k v m j w fresh s = elim (Bool-cases (e.beq k j)) [
    | inl same ↦
        absurd
          (none-ne-some w (sym (subst (λ i. lookup i m ≡ none) ((e.beq_iff k j).0 same) fresh) ∙ s))
    | inr other ↦ rw other s
  ]

  -- Every entry is what its key looks up.
  pub Each-entry : (m : List (K × V)) → IsMap m → Each (λ k v. lookup k m ≡ some v) m
  Each-entry [] h = tt
  Each-entry ((k, v) ∷ m) (fresh, h) = (
    unfold lookup in rw (beq_refl k),
    Each-map (λ j w. lookup j m ≡ some w) (λ j w. lookup j ((k, v) ∷ m) ≡ some w) m
        (λ j w. later_entry k v m j w fresh) (Each-entry m h),
  )

  pub erase-insert : (k : K) (v : V) (m : List (K × V)) → erase k (insert k v m) ≡ erase k m
  unfolding erase insert
  erase-insert k v [] = rw (beq_refl k)
  erase-insert k v ((j, w) ∷ m) = ground (arith, erase-insert k v m)
