-- ===== src/Mentions/Finding.antt =====
-- desktop/mentions.cpp: `findMentions`, which finds the members that a message names. How Qt compares two texts without
-- regard to case is a parameter.
pub mod Candidates
pub mod Sound
use disquisition.Common.{
  ℕ, zero, suc, ◌+◌, ◌-◌, ◌≤◌, ◌<◌, ◌≡◌, ◌⊎◌, inl, inr, refl, sym, ◌∙◌, ap, subst, Bool, true,
  false, not, ◌&&◌, ◌||◌, List, [], ◌∷◌, ◌++◌, arith, Text, text_eq, nat_eq, codes, ◌==◌, ltb, leb,
  nat_beq, if◌then◌else◌, length, take, drop, get_or, text_beq_iff, Bool-cases, if_case, All,
  All-append,
}
use disquisition.Common.{beq_refl, drop-drop}
use disquisition.Common.Sets.{has}
use disquisition.Mentions.{Mention, at_sign, continues_word, can_start_mention}

abbrev pub everyone : Text
everyone = codes "everyone"

abbrev pub here : Text
here = codes "here"

-- The names that match so far, all of one length.
pub record Matched : Type 0 where
  pub longest : ℕ
  pub names : List Text

abbrev pub only_exact : Text → List Text → List Text → List Text
only_exact typed [] all = all
only_exact typed (name ∷ names) all =
    if typed == name then name ∷ [] else only_exact typed names all

abbrev pub mentions_at : ℕ → ℕ → List Text → List Mention
mentions_at at longest [] = []
mentions_at at longest (name ∷ names) =
    (record { start = at; length = longest + 1; member = name }) ∷ mentions_at at longest names

abbrev pub found_at : Text → ℕ → Matched → List Mention
found_at body at m =
    mentions_at at m.longest (only_exact (take m.longest (drop (at + 1) body)) m.names m.names)

abbrev pub is_empty_list : List Text → Bool
is_empty_list [] = true
is_empty_list (t ∷ ts) = false

module _ (is_letter_or_number is_space : ℕ → Bool) (same_folded : Text → Text → Bool) where
  abbrev pub ends_word : Text → ℕ → Bool
  ends_word body end =
      nat_beq end (length body)
      || not (continues_word is_letter_or_number is_space (get_or body end 0))

  unfoldable pub matches_at : Text → ℕ → Text → Bool
  matches_at body at name =
      let end = at + 1 + length name in
      not (nat_beq (length name) 0)
      && (leb end (length body)
          && (same_folded (take (length name) (drop (at + 1) body)) name && ends_word body end))

  unfoldable pub match_members : Text → ℕ → List Text → Matched → Matched
  match_members body at [] m = m
  match_members body at (name ∷ names) m = match_members body at names (
      if ltb (length name) m.longest || not (matches_at body at name)
      then m
      else if ltb m.longest (length name)
      then record { longest = length name; names = name ∷ [] }
      else record m { names = m.names ++ name ∷ [] })

  -- The empty text stands for everyone.
  unfoldable pub match_all : Text → ℕ → Text → Matched → Matched
  match_all body at name m =
      if leb m.longest (length name) && matches_at body at name
      then record { longest = length name; names = [] ∷ [] }
      else m

  unfoldable pub matched_at : Text → ℕ → List Text → Matched
  matched_at body at members = match_all body at here (
      match_all body at everyone
        (match_members body at members (record { longest = 0; names = [] })))

  -- The loop over the `@` of the text, as a walk over its characters: `at` is the place, and `from` is where the
  -- search goes on.
  unfoldable pub find_from : Text → List Text → Text → ℕ → ℕ → List Mention
  find_from body members [] at from = []
  find_from body members (c ∷ rest) at from =
      let m = matched_at body at members in
      let on = find_from body members rest (at + 1) from in
      let past = find_from body members rest (at + 1) (at + 1 + m.longest) in
      if ltb at from
        || (not (nat_beq c at_sign)
            || (not (can_start_mention is_letter_or_number is_space body at)
                || is_empty_list m.names))
      then on
      else found_at body at m ++ past

  unfoldable pub find_mentions : Text → List Text → List Mention
  find_mentions body members = find_from body members body 0 0
