-- ===== src/Community/Model/Ancestry.antt =====
-- `ancestor` decides who descends from whom.
use disquisition.Common.{
  ℕ, zero, suc, ◌+◌, ◌≤◌, ◌<◌, ◌≡◌, ◌↔◌, inl, inr, refl, sym, ◌∙◌, subst, true, false, ◌||◌, List,
  [], ◌∷◌, arith, Text, text_eq, nat_eq, ◌==◌, beq_refl, beq_sym, if◌then◌else◌, Bool-cases, length,
}
use disquisition.Common.Maps.{lookup}
use disquisition.Common.Sets.{has}
use disquisition.Community.Model.{Operation}
use disquisition.Community.Model.Log.{value_of, push_all, search_from, parent_count, ancestor}

module _ (ops : List (Text × Operation)) (older : Text) where
  parents_of : Text → List Text
  parents_of key = (value_of ops key).parents

  -- An operation is the older one, or one of its parents descends from it.
  pub data Descends : Text → Type 0 where
    self : Descends older
    child :
        (newer parent : Text)
        → has parent (value_of ops newer).parents ≡ true
        → Descends parent
        → Descends newer

  has-push_all : (k : Text) (ps acc : List Text) → has k (push_all ps acc) ≡ (has k ps || has k acc)
  unfolding has
  has-push_all k [] acc = refl
  has-push_all k (p ∷ ps) acc = ground (arith, has-push_all k ps (p ∷ acc))

  length-push_all : (ps acc : List Text) → length (push_all ps acc) ≡ length ps + length acc
  length-push_all [] acc = omega arith
  length-push_all (p ∷ ps) acc = omega (arith, length-push_all ps (p ∷ acc))

  Some : (Text → Type 0) → List Text → Type 0
  Some P ks = (k : Text) × (has k ks ≡ true) × P k

  -- What the search finds is there.
  search_from_sound :
      (fuel : ℕ) (visited pending : List Text)
      → search_from fuel ops older visited pending ≡ true
      → Some Descends pending
  unfolding search_from has Some
  search_from_sound zero visited pending h = cc
  search_from_sound (suc fuel) visited [] h = cc
  search_from_sound (suc fuel) visited (current ∷ pending) h =
      let parents = (value_of ops current).parents in
      let here : (current == current || has current pending) ≡ true =
        ground (arith, beq_refl {A = Text} current) in
      elim (Bool-cases (has current visited)) [
        | inl seen ↦
            let (k, there, d) = search_from_sound fuel visited pending (rw seen at h) in
            (k, ground (arith, there), d)
        | inr fresh ↦ elim (Bool-cases (has older parents)) [
          | inl found ↦ (current, here, child current older found self)
          | inr missed ↦
              let (k, there, d) =
                search_from_sound fuel (current ∷ visited) (push_all parents pending)
                  (rw (fresh, missed) at h) in
              elim (Bool-cases (has k parents)) [
                | inl parent ↦ (current, here, child current k parent d)
                | inr other ↦ (k, ground (arith, there, other, has-push_all k parents pending), d)
              ]
        ]
      ]

  -- The parents that the operations still to be visited name.
  unseen : List (Text × Operation) → List Text → ℕ
  unseen [] visited = 0
  unseen ((k, op) ∷ m) visited = (if has k visited then 0 else length op.parents) + unseen m visited

  unseen_less :
      (m : List (Text × Operation)) (c : Text) (visited : List Text)
      → unseen m (c ∷ visited) ≤ unseen m visited
  unfolding unseen has
  unseen_less [] c visited = omega arith
  unseen_less ((k, op) ∷ m) c visited = ground (arith, unseen_less m c visited)

  unseen_visit :
      (m : List (Text × Operation)) (c : Text) (visited : List Text)
      → has c visited ≡ false
      → unseen m (c ∷ visited) + length (value_of m c).parents ≤ unseen m visited
  unfolding unseen has lookup
  unseen_visit [] c visited fresh = omega arith
  unseen_visit ((k, op) ∷ m) c visited fresh = elim (Bool-cases (k == c)) [
    | inl same ↦
        let e = (text_eq.beq_iff k c).0 same in
        let gone : has k visited ≡ false = subst (λ r. has r visited ≡ false) (sym e) fresh in
        let back = beq_sym {A = Text} k c ∙ same in
        rw (same, gone, back) (omega (arith, unseen_less m c visited))
    | inr other ↦
        let back = beq_sym {A = Text} k c ∙ other in
        rw (other, back) (omega (arith, unseen_visit m c visited fresh))
  ]

  -- What is met from the visited operations is visited or pending, and is not the older one.
  Half : List Text → List Text → Type 0
  Half visited pending =
      (v p : Text)
      → has v visited ≡ true
      → has p (value_of ops v).parents ≡ true
      → ((has p visited || has p pending) ≡ true) × ((p == older) ≡ false)

  Closed : List Text → Type 0
  Closed vs = Half vs []

  not_older :
      (p : Text) (ps : List Text) → has older ps ≡ false → has p ps ≡ true → (p == older) ≡ false
  not_older p ps missed there = elim (Bool-cases (p == older)) [
    | inr other ↦ other
    | inl same ↦ absurd (
        ground
          (arith, missed, subst (λ r. has r ps ≡ true) ((text_eq.beq_iff p older).0 same) there))
  ]

  -- An operation that was seen already is done with.
  Half-skip :
      (current : Text) (visited pending : List Text)
      → has current visited ≡ true
      → Half visited (current ∷ pending)
      → Half visited pending
  unfolding Half has
  Half-skip current visited pending seen half v p hv hp =
      let (there, other) = half v p hv hp in
      (
        elim (Bool-cases (current == p)) [
          | inl same ↦
              let now : has p visited ≡ true =
                subst (λ r. has r visited ≡ true) ((text_eq.beq_iff current p).0 same) seen in
              ground (arith, now)
          | inr away ↦ ground (arith, there, away)
        ],
        other,
      )

  -- An operation whose parents are not the older one is visited.
  Half-visit :
      (current : Text) (visited pending : List Text)
      → has older (value_of ops current).parents ≡ false
      → Half visited (current ∷ pending)
      → Half (current ∷ visited) (push_all (value_of ops current).parents pending)
  unfolding Half has
  Half-visit current visited pending missed half v p hv hp =
      let parents = (value_of ops current).parents in
      elim (Bool-cases (current == v)) [
        | inl same ↦
            let e = (text_eq.beq_iff current v).0 same in
            let there : has p parents ≡ true =
              subst (λ r. has p (value_of ops r).parents ≡ true) (sym e) hp in
            (
              ground (arith, there, has-push_all p parents pending),
              not_older p parents missed there,
            )
        | inr away ↦
            let (there, other) = half v p (rw away at hv) hp in
            (ground (arith, there, has-push_all p parents pending), other)
      ]

  Reached : List Text → List Text → Type 0
  Reached visited pending =
      (vs : List Text) × ((k : Text) → (has k visited || has k pending) ≡ true → has k vs ≡ true)
      × Closed vs

  -- A search that finds nothing, with enough fuel, has visited all that its start descends from.
  search_from_complete :
      (fuel : ℕ) (visited pending : List Text)
      → length pending + unseen ops visited < fuel
      → Half visited pending
      → search_from fuel ops older visited pending ≡ false
      → Reached visited pending
  unfolding search_from has Reached Closed
  search_from_complete zero visited pending enough half h = absurd (omega arith)
  search_from_complete (suc fuel) visited [] enough half h =
      (visited, λ k there. ground (arith, there), half)
  search_from_complete (suc fuel) visited (current ∷ pending) enough half h =
      let parents = (value_of ops current).parents in
      elim (Bool-cases (has current visited)) [
        | inl seen ↦
            let (vs, all, closed) =
              search_from_complete fuel visited pending (omega arith)
                (Half-skip current visited pending seen half) (rw seen at h) in
            (vs, λ k there. all k (ground (arith, there, seen, text_eq.beq_iff current k)), closed)
        | inr fresh ↦ elim (Bool-cases (has older parents)) [
          | inl found ↦ absurd (ground arith)
          | inr missed ↦
              let (vs, all, closed) =
                search_from_complete fuel (current ∷ visited) (push_all parents pending)
                  (omega (
                    arith,
                    unseen_visit ops current visited fresh,
                    length-push_all parents pending,
                  ))
                  (Half-visit current visited pending missed half) (rw (fresh, missed) at h) in
              (vs, λ k there. all k (ground (arith, there, has-push_all k parents pending)), closed)
        ]
      ]

  -- Nothing in a closed set descends from the older one.
  no_descent :
      (vs : List Text) (n : Text)
      → Closed vs
      → has n vs ≡ true
      → (n == older) ≡ false
      → Descends n
      → true ≡ false
  unfolding Closed Half has
  no_descent vs n closed there other self = ground (arith, other, beq_refl {A = Text} older)
  no_descent vs n closed there other (child newer p hp d) =
      let (inside, apart) = closed n p there hp in
      no_descent vs p closed (ground (arith, inside)) apart d

  unseen_all : (m : List (Text × Operation)) → unseen m [] ≡ parent_count m
  unfolding unseen has
  unseen_all [] = refl
  unseen_all ((k, op) ∷ m) = omega (arith, unseen_all m)

  search_complete :
      (newer : Text)
      → (newer == older) ≡ false
      → Descends newer
      → search_from (suc (suc (parent_count ops))) ops older [] (newer ∷ []) ≡ true
  unfolding Half has Reached
  search_complete newer other d =
      let search = search_from (suc (suc (parent_count ops))) ops older [] (newer ∷ []) in
      elim (Bool-cases search) [
        | inl found ↦ found
        | inr missed ↦
            let (vs, all, closed) =
              search_from_complete (suc (suc (parent_count ops))) [] (newer ∷ [])
                (omega (arith, unseen_all ops)) (λ v p hv hp. absurd (ground arith)) missed in
            let inside = all newer (ground (arith, beq_refl {A = Text} newer)) in
            absurd (ground (arith, no_descent vs newer closed inside other d))
      ]

  -- In any log, of whatever shape, `ancestor` answers whether the newer operation descends from the older one: whether
  -- they are the same, or some way from parent to parent leads from the newer to the older. The rounds suffice.
  pub ancestor_iff : (newer : Text) → (ancestor ops older newer ≡ true) ↔ Descends newer
  unfolding ancestor Some has
  ancestor_iff newer = (
    λ h. elim (Bool-cases (older == newer)) [
      | inl same ↦ subst Descends ((text_eq.beq_iff older newer).0 same) self
      | inr other ↦
          let (k, there, d) = search_from_sound _ [] (newer ∷ []) (rw other at h) in
          subst Descends (sym ((text_eq.beq_iff newer k).0 (ground (arith, there)))) d
    ],
    λ d. elim (Bool-cases (older == newer)) [
      | inl same ↦ rw same refl
      | inr other ↦ rw other (search_complete newer (beq_sym {A = Text} older newer ∙ other) d)
    ],
  )
