-- ===== src/Mentions/Finding/Candidates.antt =====
-- The names that `findMentions` of desktop/mentions.cpp keeps at one `@`.
use disquisition.Common.{
  ℕ, ◌≤◌, ◌≡◌, ◌⊎◌, inl, inr, refl, sym, ap, subst, Bool, true, not, ◌&&◌, ◌||◌, List, [], ◌∷◌,
  ◌++◌, arith, Text, text_eq, nat_eq, ◌==◌, ltb, leb, if◌then◌else◌, length, text_beq_iff,
  Bool-cases, if_case, All, All-append,
}
use disquisition.Common.{beq_refl}
use disquisition.Common.Sets.{has}
use disquisition.Mentions.Finding.{
  everyone, here, Matched, matches_at, match_members, match_all, matched_at,
}

module _ (is_letter_or_number is_space : ℕ → Bool) (same_folded : Text → Text → Bool) where
  -- A name that a matched text stands for: a member's, or the empty text for everyone.
  abbrev pub Fits : Text → ℕ → List Text → ℕ → Text → Type 0
  Fits body at members longest name =
      ((name ≡ [])
        × (((matches_at is_letter_or_number is_space same_folded body at everyone ≡ true)
              × (longest ≡ 8))
            ⊎ ((matches_at is_letter_or_number is_space same_folded body at here ≡ true)
                × (longest ≡ 4))))
      ⊎ ((has name members ≡ true)
          × (matches_at is_letter_or_number is_space same_folded body at name ≡ true)
          × (length name ≡ longest))

  abbrev pub AllFit : Text → ℕ → List Text → Matched → Type 0
  AllFit body at members m = All (Fits body at members m.longest) m.names

  match_members-AllFit :
      (body : Text) (at : ℕ) (members names : List Text) (m : Matched)
      → ((name : Text) → has name names ≡ true → has name members ≡ true)
      → AllFit body at members m
      → AllFit body at members
          (match_members is_letter_or_number is_space same_folded body at names m)
  unfolding match_members has
  match_members-AllFit body at members [] m known h = h
  match_members-AllFit body at members (name ∷ names) m known h =
      let known_here : has name members ≡ true = known name (rw (beq_refl name) refl) in
      match_members-AllFit body at members names _ (λ t e. known t (rw e (ground arith)))
        (if_case (AllFit body at members)
          (ltb (length name) m.longest
            || not (matches_at is_letter_or_number is_space same_folded body at name))
          (λ _. h)
          (λ fits.
            if_case (AllFit body at members) (ltb m.longest (length name))
              (λ _. (inr (known_here, ground (arith, fits), refl), tt))
              (λ same.
                All-append (Fits body at members m.longest) m.names (name ∷ []) h
                  (inr (known_here, ground (arith, fits), ground (arith, fits, same)), tt))))

  -- The walk never settles for less.
  match_members_longest :
      (body : Text) (at : ℕ) (names : List Text) (m : Matched)
      → m.longest ≤ (match_members is_letter_or_number is_space same_folded body at names m).longest
  unfolding match_members
  match_members_longest body at [] m = omega arith
  match_members_longest body at (name ∷ names) m =
      let go : (k : Matched)
          → m.longest ≤ k.longest
          → m.longest
            ≤ (match_members is_letter_or_number is_space same_folded body at names k).longest =
        λ k le. omega (arith, le, match_members_longest body at names k) in
      go _ (
        if_case (λ (k : Matched). m.longest ≤ k.longest)
          (ltb (length name) m.longest
            || not (matches_at is_letter_or_number is_space same_folded body at name))
          (λ _. omega arith)
          (λ _.
            if_case (λ (k : Matched). m.longest ≤ k.longest) (ltb m.longest (length name))
              (λ e. ground (arith, e)) (λ _. omega arith)))

  longest_member :
      (body : Text) (at : ℕ) (names : List Text) (m : Matched) (t : Text)
      → has t names ≡ true
      → matches_at is_letter_or_number is_space same_folded body at t ≡ true
      → length t ≤ (match_members is_letter_or_number is_space same_folded body at names m).longest
  unfolding match_members has
  longest_member body at [] m t h e = cc
  longest_member body at (name ∷ names) m t h e = elim (Bool-cases (name == t)) [
    | inl matched ↦
        let same : name ≡ t = (text_beq_iff name t).0 matched in
        let fits : matches_at is_letter_or_number is_space same_folded body at name ≡ true =
          subst (λ k. matches_at is_letter_or_number is_space same_folded body at k ≡ true)
            (sym same) e in
        let size : length t ≡ length name = ap length (sym same) in
        let next : Matched =
          if ltb (length name) m.longest
            || not (matches_at is_letter_or_number is_space same_folded body at name)
          then m
          else if ltb m.longest (length name)
          then record { longest = length name; names = name ∷ [] }
          else record m { names = m.names ++ name ∷ [] } in
        let enough : length name ≤ next.longest =
          if_case (λ (k : Matched). length name ≤ k.longest)
            (ltb (length name) m.longest
              || not (matches_at is_letter_or_number is_space same_folded body at name))
            (λ skip. ground (arith, skip, fits))
            (λ _.
              if_case (λ (k : Matched). length name ≤ k.longest) (ltb m.longest (length name))
                (λ _. omega arith) (λ f. ground (arith, f))) in
        omega (arith, size, match_members_longest body at names next, enough)
    | inr other ↦ longest_member body at names _ t (ground (arith, h, other)) e
  ]

  pub matched_at-AllFit :
      (body : Text) (at : ℕ) (members : List Text)
      → AllFit body at members (matched_at is_letter_or_number is_space same_folded body at members)
  unfolding matched_at match_all
  matched_at-AllFit body at members =
      let start : Matched = record { longest = 0; names = [] } in
      let all = match_members is_letter_or_number is_space same_folded body at members start in
      let named = match_members-AllFit body at members members start (λ t e. e) tt in
      let with_everyone = match_all is_letter_or_number is_space same_folded body at everyone all in
      let second : AllFit body at members with_everyone =
        if_case (AllFit body at members)
          (leb all.longest (length everyone)
            && matches_at is_letter_or_number is_space same_folded body at everyone)
          (λ e. (inl (refl, inl (ground (arith, e), refl)), tt)) (λ _. named) in
      if_case (AllFit body at members)
        (leb with_everyone.longest (length here)
          && matches_at is_letter_or_number is_space same_folded body at here)
        (λ e. (inl (refl, inr (ground (arith, e), refl)), tt)) (λ _. second)

  -- The names that match here are among the longest.
  pub matched_at_longest :
      (body : Text) (at : ℕ) (members : List Text) (t : Text)
      → has t members ≡ true
      → matches_at is_letter_or_number is_space same_folded body at t ≡ true
      → length t ≤ (matched_at is_letter_or_number is_space same_folded body at members).longest
  unfolding matched_at match_all
  matched_at_longest body at members t h e =
      let all =
        match_members is_letter_or_number is_space same_folded body at members
          (record { longest = 0; names = [] }) in
      let with_everyone = match_all is_letter_or_number is_space same_folded body at everyone all in
      let named = longest_member body at members (record { longest = 0; names = [] }) t h e in
      let second : length t ≤ with_everyone.longest =
        if_case (λ (k : Matched). length t ≤ k.longest)
          (leb all.longest (length everyone)
            && matches_at is_letter_or_number is_space same_folded body at everyone)
          (λ f. ground (arith, f, named)) (λ _. named) in
      if_case (λ (k : Matched). length t ≤ k.longest)
        (leb with_everyone.longest (length here)
          && matches_at is_letter_or_number is_space same_folded body at here)
        (λ f. ground (arith, f, second)) (λ _. second)
