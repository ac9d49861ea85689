-- ===== src/Community/Model/Union.antt =====
-- The log as a map in the order of its keys: in which order operations are put into it does not matter.
use disquisition.Common.{
  ◌≤◌, ◌≡◌, ◌⊎◌, inl, inr, refl, sym, ◌∙◌, ap, ap₂, subst, true, false, some, List, [], ◌∷◌, arith,
  Text, text_eq, nat_eq, ◌==◌, beq_sym, if◌then◌else◌, Bool-cases, length, if_case,
}
use disquisition.Common.Maps.{lookup, Each}
use disquisition.Community.Model.{Operation}
use disquisition.Community.Model.Log.{text_ltb, put}
use disquisition.Community.Model.State.{put_all}

text_ltb_irrefl : (s : Text) → text_ltb s s ≡ false
unfolding text_ltb
text_ltb_irrefl [] = refl
text_ltb_irrefl (a ∷ s) = ground (arith, text_ltb_irrefl s)

text_ltb_trans : (s t u : Text) → text_ltb s t ≡ true → text_ltb t u ≡ true → text_ltb s u ≡ true
unfolding text_ltb
text_ltb_trans s t [] h k = ground arith
text_ltb_trans s [] (c ∷ u) h k = ground arith
text_ltb_trans [] (b ∷ t) (c ∷ u) h k = refl
text_ltb_trans (a ∷ s) (b ∷ t) (c ∷ u) h k = ground (arith, text_ltb_trans s t u)

pub text_ltb_asym : (s t : Text) → text_ltb s t ≡ true → text_ltb t s ≡ false
text_ltb_asym s t h = elim (Bool-cases (text_ltb t s)) [
  | inr out ↦ out
  | inl back ↦ absurd (ground (arith, text_ltb_irrefl s, text_ltb_trans s t s h back))
]

-- Two texts are equal, or one comes first.
pub text_cases : (s t : Text) → (s ≡ t) ⊎ ((text_ltb s t ≡ true) ⊎ (text_ltb t s ≡ true))
unfolding text_ltb
text_cases [] [] = inl refl
text_cases [] (b ∷ t) = inr (inl refl)
text_cases (a ∷ s) [] = inr (inr refl)
text_cases (a ∷ s) (b ∷ t) = ground (arith, text_cases s t)

lt_ne : (s t : Text) → text_ltb s t ≡ true → (s == t) ≡ false
lt_ne s t h = elim (Bool-cases (s == t)) [
  | inr out ↦ out
  | inl same ↦ absurd (
      ground (
        arith,
        text_ltb_irrefl t,
        subst (λ r. text_ltb r t ≡ true) ((text_eq.beq_iff s t).0 same) h,
      ))
]

module _ {ℓ} {A : Type ℓ} where
  pub lookup-put :
      (k j : Text) (a : A) (m : List (Text × A))
      → lookup j (put k a m) ≡ (if k == j then some a else lookup j m)
  unfolding lookup put
  lookup-put k j a [] = refl
  lookup-put k j a ((i, b) ∷ m) = ground (
    arith,
    text_eq.beq_iff k j,
    text_eq.beq_iff i k,
    text_eq.beq_iff k i,
    text_eq.beq_iff i j,
    lookup-put k j a m,
  )

  -- Of two keys, the first in the order is put first.
  put_lt :
      (k j : Text) (a b : A) (m : List (Text × A))
      → text_ltb k j ≡ true
      → put k a (put j b m) ≡ put j b (put k a m)
  unfolding put
  put_lt k j a b [] h =
      rw (lt_ne k j h, h, beq_sym {A = Text} k j, lt_ne k j h, text_ltb_asym k j h) refl
  put_lt k j a b ((i, c) ∷ m) h =
      let kj = lt_ne k j h in
      let jk = beq_sym {A = Text} k j ∙ kj in
      let back = text_ltb_asym k j h in
      elim (text_cases j i) [
        | inl same ↦
            let ki = subst (λ r. text_ltb k r ≡ true) same h in
            rw
              (
                (text_eq.beq_iff j i).1 same,
                ki,
                lt_ne k i ki,
                h,
                kj,
                jk,
                back,
                (text_eq.beq_iff j i).1 same,
              )
              refl
        | inr (inl ji) ↦
            let ki = text_ltb_trans k j i h ji in
            rw (ji, lt_ne j i ji, ki, lt_ne k i ki, h, kj, jk, back, ji, lt_ne j i ji) refl
        | inr (inr ij) ↦
            let ji = text_ltb_asym i j ij in
            let j_i = beq_sym {A = Text} i j ∙ lt_ne i j ij in
            elim (text_cases k i) [
              | inl same ↦ rw (j_i, ji, (text_eq.beq_iff k i).1 same, jk, back) refl
              | inr (inl ki) ↦ rw (j_i, ji, ki, lt_ne k i ki, jk, back, j_i, ji) refl
              | inr (inr ik) ↦
                  rw (j_i, ji, text_ltb_asym i k ik, beq_sym {A = Text} i k, lt_ne i k ik, j_i, ji)
                    (ap (λ t. (i, c) ∷ t) (put_lt k j a b m h))
            ]
      ]

  -- Two entries can be put in either order if they agree.
  put-put :
      (k j : Text) (a b : A) (m : List (Text × A))
      → (k ≡ j → a ≡ b)
      → put k a (put j b m) ≡ put j b (put k a m)
  put-put k j a b m agree = elim (text_cases k j) [
    | inl same ↦
        subst (λ r. put k a (put r b m) ≡ put r b (put k a m)) same
          (subst (λ c. put k a (put k c m) ≡ put k c (put k a m)) (agree same) refl)
    | inr (inl first) ↦ put_lt k j a b m first
    | inr (inr later) ↦ sym (put_lt j k b a m later)
  ]

  -- A key that is put in at no cost was there already.
  length-put : (k : Text) (a : A) (m : List (Text × A)) → length m ≤ length (put k a m)
  unfolding put
  length-put k a [] = omega arith
  length-put k a ((i, c) ∷ m) = ground (arith, length-put k a m)

  put_same :
      (k : Text) (a : A) (m : List (Text × A))
      → length (put k a m) ≡ length m
      → Each (λ j b. k ≡ j → a ≡ b) m
      → put k a m ≡ m
  unfolding put
  put_same k a [] h agree = absurd (ground arith)
  put_same k a ((i, c) ∷ m) h (agree, rest) = elim (Bool-cases (k == i)) [
    | inl same ↦
        let e = (text_eq.beq_iff k i).0 same in rw same (ap₂ (λ r d. (r, d) ∷ m) e (agree e))
    | inr other ↦ elim (Bool-cases (text_ltb k i)) [
      | inl first ↦ absurd (ground arith)
      | inr later ↦ rw (other, later) (ap (λ t. (i, c) ∷ t) (put_same k a m (ground arith) rest))
    ]
  ]

  Each-put :
      (P : Text → A → Type ℓ) (k : Text) (a : A) (m : List (Text × A))
      → P k a
      → Each P m
      → Each P (put k a m)
  unfolding put
  Each-put P k a [] p h = (p, tt)
  Each-put P k a ((i, c) ∷ m) p (q, h) =
      if_case (Each P) (k == i) (λ _. (p, h))
        (λ _. if_case (Each P) (text_ltb k i) (λ _. (p, (q, h))) (λ _. (q, Each-put P k a m p h)))

-- Where both logs have an operation under a key, it is the same.
abbrev pub Agree : List (Text × Operation) → List (Text × Operation) → Type 0
Agree m n = Each (λ k a. Each (λ j b. k ≡ j → a ≡ b) n) m

put-put_all :
    (k : Text) (a : Operation) (ops m : List (Text × Operation))
    → Each (λ j b. k ≡ j → a ≡ b) ops
    → put k a (put_all ops m) ≡ put_all ops (put k a m)
put-put_all k a [] m h = refl
put-put_all k a ((j, b) ∷ ops) m (agree, h) =
    put-put_all k a ops (put j b m) h ∙ ap (put_all ops) (put-put k j a b m agree)

pub put_all_comm :
    (x y m : List (Text × Operation))
    → Agree x y
    → put_all x (put_all y m) ≡ put_all y (put_all x m)
put_all_comm [] y m h = refl
put_all_comm ((k, a) ∷ x) y m (agree, h) =
    ap (put_all x) (put-put_all k a y m agree) ∙ put_all_comm x y (put k a m) h

length-put_all : (ops m : List (Text × Operation)) → length m ≤ length (put_all ops m)
length-put_all [] m = omega arith
length-put_all ((k, a) ∷ ops) m = omega (arith, length-put k a m, length-put_all ops (put k a m))

-- What adds nothing changes nothing.
pub put_all_same :
    (ops m : List (Text × Operation))
    → length (put_all ops m) ≡ length m
    → Agree ops m
    → put_all ops m ≡ m
put_all_same [] m h agree = refl
put_all_same ((k, a) ∷ ops) m h (one, agree) =
    let e : put k a m ≡ m =
      put_same k a m (omega (arith, length-put k a m, length-put_all ops (put k a m))) one in
    ap (put_all ops) e ∙ put_all_same ops m (sym (ap (λ t. length (put_all ops t)) e) ∙ h) agree

pub Each-put_all :
    (P : Text → Operation → Type 0) (ops m : List (Text × Operation))
    → Each P ops
    → Each P m
    → Each P (put_all ops m)
Each-put_all P [] m hx h = h
Each-put_all P ((k, a) ∷ ops) m (p, hx) h = Each-put_all P ops (put k a m) hx (Each-put P k a m p h)

-- A log that agrees with two agrees with both together.
pub put_all-Agree :
    (x y m : List (Text × Operation)) → Agree x y → Agree x m → Agree x (put_all y m)
put_all-Agree [] y m hy hm = tt
put_all-Agree ((k, a) ∷ x) y m (py, hy) (pm, hm) =
    (Each-put_all (λ j b. k ≡ j → a ≡ b) y m py pm, put_all-Agree x y m hy hm)
