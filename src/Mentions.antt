-- ===== src/Mentions.antt =====
-- desktop/mentions.cpp: how a list of mentions names a member, and the name that is being typed at a cursor; Finding
-- has `findMentions`. Qt's classes of characters are parameters.
pub mod Laws
pub mod Attention
pub mod Finding
mod Tests
use disquisition.Common.{
  ℕ, zero, suc, ◌+◌, ◌-◌, ◌*◌, ◌/◌, ◌%◌, ◌^◌, ◌≤◌, ◌<◌, min, max, ◌≡◌, ◌≢◌, ◌↔◌, ◌⊎◌, inl, inr,
  refl, sym, ◌∙◌, ap, ap₂, subst, Bool, true, false, not, ◌&&◌, ◌||◌, Option, none, some, List, [],
  ◌∷◌, ◌++◌, arith, Text, text_eq, text_beq, Eq, ◌==◌, beq_refl, beq_sym, ltb, leb, nat_beq,
  if◌then◌else◌, Bool-cases, Option-cases, ◌>>=◌, ◌>>◌, guard, &&_true, length, take, drop, get_or,
}
use disquisition.Common.Int.{ℤ, pos_part}
use mathlib.Core.Option.{some-injective, none-ne-some}
use disquisition.Notifications.Rules.{Mentioned, not_mentioned, via_everyone, by_name}

abbrev size_of : Text → ℕ
size_of t = length t

pub record Mention : Type 0 where
  pub start : ℕ
  pub length : ℕ
  pub member : Text

unfoldable pub is_everyone : Mention → Bool
is_everyone m = nat_beq (size_of m.member) 0

-- The loop of `mentionOf`, with the result so far.
unfoldable pub mention_from : Mentioned → List Mention → Text → Mentioned
mention_from result [] member = result
mention_from result (m ∷ ms) member =
    let rest = mention_from result ms member in
    let everyone = mention_from via_everyone ms member in
    if is_everyone m then everyone else if m.member == member then by_name else rest

unfoldable pub mention_of : List Mention → Text → Mentioned
mention_of mentions member = mention_from not_mentioned mentions member

abbrev pub at_sign : ℕ
at_sign = 64

module _ (is_letter_or_number is_space : ℕ → Bool) where
  unfoldable pub continues_word : ℕ → Bool
  continues_word c = is_letter_or_number c || (nat_beq c 95 || nat_beq c 45)

  unfoldable pub can_start_mention : Text → ℕ → Bool
  can_start_mention text at = nat_beq at 0 || not (continues_word (get_or text (at - 1) 0))

  -- Back from the cursor; the number is one more than `at`.
  unfoldable pub query_back : Text → ℕ → ℕ → Option (ℕ × Text)
  query_back text cursor zero = none
  query_back text cursor (suc at) =
      let before = query_back text cursor at in
      if is_space (get_or text at 0)
      then none
      else if nat_beq (get_or text at 0) at_sign && can_start_mention text at
      then some (at, take (cursor - at - 1) (drop (at + 1) text))
      else before

  -- Where the mention starts, and what of its name stands before the cursor.
  unfoldable pub mention_query_at : Text → ℤ → Option (ℕ × Text)
  mention_query_at text cursor =
      let within = min (pos_part cursor) (length text) in query_back text within within
