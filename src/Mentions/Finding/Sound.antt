-- ===== src/Mentions/Finding/Sound.antt =====
-- What `findMentions` of desktop/mentions.cpp finds.
use disquisition.Common.{
  ℕ, zero, suc, ◌+◌, ◌-◌, ◌≤◌, ◌<◌, ◌≡◌, ◌⊎◌, inl, inr, refl, sym, ◌∙◌, ap, subst, Bool, true, not,
  ◌||◌, List, [], ◌∷◌, ◌++◌, arith, Text, text_eq, nat_eq, ◌==◌, ltb, nat_beq, length, drop, get_or,
  if_case, All, All-append,
}
use disquisition.Common.{drop-drop}
use disquisition.Common.Sets.{has}
use disquisition.Mentions.{Mention, at_sign, can_start_mention}
use disquisition.Mentions.Finding.{
  matches_at, matched_at, only_exact, mentions_at, is_empty_list, find_from, find_mentions,
}
use disquisition.Mentions.Finding.Candidates.{Fits, matched_at-AllFit, matched_at_longest}

module _ (is_letter_or_number is_space : ℕ → Bool) (same_folded : Text → Text → Bool) where
  All-only_exact {ℓ} :
      (P : Text → Type ℓ) (typed : Text) (names all : List Text)
      → All P names
      → All P all
      → All P (only_exact typed names all)
  All-only_exact P typed [] all h g = g
  All-only_exact P typed (name ∷ names) all (p, h) g =
      if_case (All P) (typed == name) (λ _. (p, tt)) (λ _. All-only_exact P typed names all h g)

  -- A mention that is really there: an `@` that may start one, and after it the name of a member, or everyone's.
  pub record IsFound (body : Text) (members : List Text) (m : Mention) : Type 0 where
    pub at : nat_beq (get_or body m.start 0) at_sign ≡ true
    pub starts : can_start_mention is_letter_or_number is_space body m.start ≡ true
    pub positive : 1 ≤ m.length
    pub fits :
        Fits is_letter_or_number is_space same_folded body m.start members (m.length - 1) m.member
    pub longest :
        (name : Text)
        → has name members ≡ true
        → matches_at is_letter_or_number is_space same_folded body m.start name ≡ true
        → length name < m.length

  -- Mentions that come later name the same place, or start after the end.
  abbrev pub IsApart : Mention → Mention → Type 0
  IsApart m k = ((k.start ≡ m.start) × (k.length ≡ m.length)) ⊎ (m.start + m.length ≤ k.start)

  abbrev pub Apart : List Mention → Type 0
  Apart [] = Unit
  Apart (m ∷ ms) = All (IsApart m) ms × Apart ms

  abbrev From : ℕ → Mention → Type 0
  From from m = from ≤ m.start

  abbrev IsGood : Text → List Text → ℕ → List Mention → Type 0
  IsGood body members from ms = All (IsFound body members) ms × All (From from) ms × Apart ms

  later-From : (a b : ℕ) (ms : List Mention) → a ≤ b → All (From b) ms → All (From a) ms
  later-From a b [] le h = tt
  later-From a b (m ∷ ms) le (p, h) = (omega (arith, p, le), later-From a b ms le h)

  mentions_at-IsApart :
      (at longest : ℕ) (name : Text) (names : List Text)
      → (let m : Mention = record { start = at; length = longest + 1; member = name } in
          All (IsApart m) (mentions_at at longest names))
  mentions_at-IsApart at longest name [] = tt
  mentions_at-IsApart at longest name (t ∷ names) =
      (inl (refl, refl), mentions_at-IsApart at longest name names)

  later-IsApart :
      (at longest : ℕ) (name : Text) (ms : List Mention)
      → All (From (at + 1 + longest)) ms
      → (let m : Mention = record { start = at; length = longest + 1; member = name } in
          All (IsApart m) ms)
  later-IsApart at longest name [] h = tt
  later-IsApart at longest name (m ∷ ms) (p, h) =
      (inr (omega (arith, p)), later-IsApart at longest name ms h)

  found-IsGood :
      (body : Text) (members : List Text) (at from longest : ℕ) (names : List Text)
      (past : List Mention)
      → nat_beq (get_or body at 0) at_sign ≡ true
      → can_start_mention is_letter_or_number is_space body at ≡ true
      → All (Fits is_letter_or_number is_space same_folded body at members longest) names
      → ((name : Text)
          → has name members ≡ true
          → matches_at is_letter_or_number is_space same_folded body at name ≡ true
          → length name ≤ longest)
      → from ≤ at
      → IsGood body members (at + 1 + longest) past
      → IsGood body members from (mentions_at at longest names ++ past)
  found-IsGood body members at from longest [] past sign starts h most le (found, later, apart) =
      (found, later-From from (at + 1 + longest) past (omega (arith, le)) later, apart)
  found-IsGood body members at from longest (name ∷ names) past sign starts (p, h) most le good =
      let m : Mention = record { start = at; length = longest + 1; member = name } in
      let e : longest + 1 - 1 ≡ longest = omega arith in
      let (found, later, apart) =
        found-IsGood body members at from longest names past sign starts h most le good in
      (
        (
          record {
            at = sign;
            starts = starts;
            positive = omega arith;
            fits =
                subst (λ k. Fits is_letter_or_number is_space same_folded body at members k name)
                  (sym e) p;
            longest = λ t known match. omega (arith, most t known match);
          },
          found,
        ),
        (le, later),
        (
          All-append (IsApart m) (mentions_at at longest names) past
              (mentions_at-IsApart at longest name names)
              (later-IsApart at longest name past good.1),
          apart,
        ),
      )

  get_or-drop :
      (n : ℕ) (body : Text) (c : ℕ) (rest : Text) → drop n body ≡ c ∷ rest → get_or body n 0 ≡ c
  get_or-drop zero [] c rest h = cc
  get_or-drop zero (b ∷ body) c rest h = ap (λ t. get_or t 0 b) h
  get_or-drop (suc n) [] c rest h = cc
  get_or-drop (suc n) (b ∷ body) c rest h = get_or-drop n body c rest h

  drop_next :
      (n : ℕ) (body : Text) (c : ℕ) (rest : Text)
      → drop n body ≡ c ∷ rest
      → drop (n + 1) body ≡ rest
  drop_next n body c rest h = sym (drop-drop n 1 body) ∙ ap (drop 1) h

  find_from-IsGood :
      (body : Text) (members : List Text) (rest : Text) (at from : ℕ)
      → drop at body ≡ rest
      → IsGood body members from
          (find_from is_letter_or_number is_space same_folded body members rest at from)
  unfolding find_from
  find_from-IsGood body members [] at from e = (tt, tt, tt)
  find_from-IsGood body members (c ∷ rest) at from e =
      let m = matched_at is_letter_or_number is_space same_folded body at members in
      let next = drop_next at body c rest e in
      let sign = get_or-drop at body c rest e in
      if_case (IsGood body members from)
        (ltb at from
          || (not (nat_beq c at_sign)
              || (not (can_start_mention is_letter_or_number is_space body at)
                  || is_empty_list m.names)))
        (λ _. find_from-IsGood body members rest (at + 1) from next)
        (λ ok.
          found-IsGood body members at from m.longest _ _ (rw sign (ground (arith, ok)))
            (ground (arith, ok))
            (All-only_exact
              (Fits is_letter_or_number is_space same_folded body at members m.longest) _ m.names
              m.names (matched_at-AllFit is_letter_or_number is_space same_folded body at members)
              (matched_at-AllFit is_letter_or_number is_space same_folded body at members))
            (matched_at_longest is_letter_or_number is_space same_folded body at members)
            (ground (arith, ok))
            (find_from-IsGood body members rest (at + 1) (at + 1 + m.longest) next))

  -- Every mention that is found starts at an `@` that no word runs into, and the text after it is, up to its case, the
  -- name of a member, with no word running on, or `everyone` or `here`, for everyone; no member's name that fits there
  -- is longer; and two mentions stand at the same place, with the same length, or the later one starts after the end
  -- of the earlier one.
  pub find_mentions_sound :
      (body : Text) (members : List Text)
      → All
          (IsFound body members)
          (find_mentions is_letter_or_number is_space same_folded body members)
        × Apart (find_mentions is_letter_or_number is_space same_folded body members)
  unfolding find_mentions
  find_mentions_sound body members =
      let (found, later, apart) = find_from-IsGood body members body 0 0 refl in (found, apart)
