-- ===== src/Mentions/Laws.antt =====
-- What the mentions and the query at a cursor mean.
use disquisition.Common.{
  ℕ, zero, suc, ◌+◌, ◌-◌, ◌≤◌, ◌<◌, min, ◌≡◌, inl, inr, refl, subst, Bool, true, false, not, ◌&&◌,
  ◌||◌, some, List, [], ◌∷◌, arith, Text, text_eq, ◌==◌, ltb, nat_beq, if◌then◌else◌, Bool-cases,
  length, take, drop, get_or,
}
use disquisition.Common.Int.{ℤ, pos_part}
use mathlib.Core.Option.{some-injective, none-ne-some}
use disquisition.Notifications.Rules.{Mentioned, not_mentioned, via_everyone, by_name}
use disquisition.Mentions.{
  Mention, is_everyone, mention_from, mention_of, at_sign, can_start_mention, query_back,
  mention_query_at,
}

-- Some mention names everyone.
abbrev pub any_everyone : List Mention → Bool
any_everyone [] = false
any_everyone (m ∷ ms) = is_everyone m || any_everyone ms

-- Some mention names the member.
abbrev pub any_named : List Mention → Text → Bool
any_named [] member = false
any_named (m ∷ ms) member = (not (is_everyone m) && m.member == member) || any_named ms member

mention_from-cases :
    (result : Mentioned) (ms : List Mention) (member : Text)
    → mention_from result ms member
      ≡ (if any_named ms member then by_name else if any_everyone ms then via_everyone else result)
unfolding mention_from
mention_from-cases result [] member = refl
mention_from-cases result (m ∷ ms) member =
    ground (arith, mention_from-cases result ms member, mention_from-cases via_everyone ms member)

-- A member is mentioned by name when some mention is of it, wherever it stands among the mentions; else through
-- everyone when some mention is of everyone; else not.
pub mention_of_lem :
    (ms : List Mention) (member : Text)
    → mention_of ms member ≡ (
        if any_named ms member
        then by_name
        else if any_everyone ms
        then via_everyone
        else not_mentioned)
unfolding mention_of
mention_of_lem ms member = mention_from-cases not_mentioned ms member

between : (n j : ℕ) → n ≤ j → j < suc n → n ≡ j
between n j low high = omega arith

-- From all below a bound to the bound.
up_to : (f : ℕ → Bool) (n j : ℕ) → (j < n → f j ≡ false) → f n ≡ false → j < suc n → f j ≡ false
up_to f n j below last high = elim (Bool-cases (ltb j n)) [
  | inl less ↦ below (ground arith)
  | inr not_less ↦ let same : n ≡ j = ground arith in subst (λ u. f u ≡ false) same last
]

module _ (is_letter_or_number is_space : ℕ → Bool) where
  -- An `@` at which a mention may start.
  abbrev pub starts : Text → ℕ → Bool
  starts text at =
      nat_beq (get_or text at 0) at_sign && can_start_mention is_letter_or_number is_space text at

  -- What the query finds below `n`: the last start, with no space from there on.
  abbrev pub Nearest : Text → ℕ → ℕ → Type 0
  Nearest text n at =
      (at < n)
      × (starts text at ≡ true)
      × ((j : ℕ) → at ≤ j → j < n → is_space (get_or text j 0) ≡ false)
      × ((j : ℕ) → at < j → j < n → starts text j ≡ false)

  query_back_sound :
      (text : Text) (cursor n at : ℕ) (prefix : Text)
      → query_back is_letter_or_number is_space text cursor n ≡ some (at, prefix)
      → Nearest text n at × (prefix ≡ take (cursor - at - 1) (drop (at + 1) text))
  unfolding query_back
  query_back_sound text cursor zero at prefix h = cc
  query_back_sound text cursor (suc n) at prefix h =
      elim (Bool-cases (is_space (get_or text n 0))) [
        | inl space ↦ absurd (none-ne-some _ (rw space at h))
        | inr word ↦ elim (Bool-cases (starts text n)) [
          | inl here ↦
              subst
                (λ (u : ℕ × Text).
                  Nearest text (suc n) u.0 × (u.1 ≡ take (cursor - u.0 - 1) (drop (u.0 + 1) text)))
                (some-injective _ _ (rw (word, here) at h))
                (
                  (
                    omega arith,
                    here,
                    λ j low high.
                        subst (λ u. is_space (get_or text u 0) ≡ false) (between n j low high) word,
                    λ j low high. absurd (omega arith),
                  ),
                  refl,
                )
          | inr other ↦
              let ((below, at_start, words, last), e) =
                query_back_sound text cursor n at prefix (rw (word, other) at h) in
              (
                (
                  omega arith,
                  at_start,
                  λ j low high. up_to (λ u. is_space (get_or text u 0)) n j (words j low) word high,
                  λ j low high. up_to (starts text) n j (last j low) other high,
                ),
                e,
              )
        ]
      ]

  -- A query starts at the last `@` before the cursor at which a mention may start, with no space from there to the
  -- cursor, and its prefix is the text between; a cursor past the end counts as the end, and a
  -- negative one as the start.
  pub mention_query_at_sound :
      (text : Text) (cursor : ℤ) (at : ℕ) (prefix : Text)
      → mention_query_at is_letter_or_number is_space text cursor ≡ some (at, prefix)
      → Nearest text (min (pos_part cursor) (length text)) at
        × (prefix ≡ take (min (pos_part cursor) (length text) - at - 1) (drop (at + 1) text))
  unfolding mention_query_at
  mention_query_at_sound text cursor at prefix h =
      query_back_sound text (min (pos_part cursor) (length text))
        (min (pos_part cursor) (length text)) at prefix h

  query_back_complete :
      (text : Text) (cursor n at : ℕ)
      → at < n
      → starts text at ≡ true
      → ((j : ℕ) → at ≤ j → j < n → is_space (get_or text j 0) ≡ false)
      → (found : ℕ × Text) × (query_back is_letter_or_number is_space text cursor n ≡ some found)
  unfolding query_back
  query_back_complete text cursor zero at below at_start words = absurd (omega arith)
  query_back_complete text cursor (suc n) at below at_start words =
      let word = words n (omega arith) (omega arith) in
      elim (Bool-cases (starts text n)) [
        | inl here ↦ ((n, take (cursor - n - 1) (drop (n + 1) text)), rw (word, here) refl)
        | inr other ↦ elim (Bool-cases (ltb at n)) [
          | inl earlier ↦
              let (found, e) =
                query_back_complete text cursor n at (ground arith) at_start
                  (λ j low high. words j low (omega arith)) in
              (found, rw (word, other) e)
          | inr at_end ↦
              let same : at ≡ n = ground arith in
              let again : starts text n ≡ true = subst (λ u. starts text u ≡ true) same at_start in
              absurd (ground arith)
        ]
      ]

  -- Where an `@` that may start a mention stands before the cursor, with no space from it to the cursor, a query is found.
  pub mention_query_at_complete :
      (text : Text) (cursor : ℤ) (at : ℕ)
      → at < min (pos_part cursor) (length text)
      → starts text at ≡ true
      → ((j : ℕ)
          → at ≤ j
          → j < min (pos_part cursor) (length text)
          → is_space (get_or text j 0) ≡ false)
      → (found : ℕ × Text) × (mention_query_at is_letter_or_number is_space text cursor
          ≡ some found)
  unfolding mention_query_at
  mention_query_at_complete text cursor at below at_start words =
      query_back_complete text (min (pos_part cursor) (length text))
        (min (pos_part cursor) (length text)) at below at_start words
