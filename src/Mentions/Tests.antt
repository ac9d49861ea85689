-- ===== src/Mentions/Tests.antt =====
-- The theorems on mentions at concrete inputs.
use disquisition.Common.{
  ℕ, zero, suc, ◌≤◌, ◌<◌, ◌≡◌, refl, Bool, false, ◌&&◌, List, [], ◌∷◌, arith, Text, text_eq,
  text_beq, codes, All, leb, nat_beq, get_or,
}
use disquisition.Mentions.{Mention, mention_query_at, query_back, can_start_mention, continues_word}
use disquisition.Common.{◌↔◌, ◌⊎◌, true}
use disquisition.Notifications.Rules.{
  NotificationSettings, attention_for, mentions_only, all_messages,
}
use disquisition.Mentions.Attention.{IsMeant, attention_for-mention_of}
use disquisition.Common.Int.{pos}
use disquisition.Mentions.{mention_of}
use disquisition.Mentions.Finding.{find_mentions}
use disquisition.Mentions.Finding.Sound.{IsFound, Apart, find_mentions_sound}
use disquisition.Mentions.Laws.{Nearest, mention_query_at_sound}

abbrev mentions : List Mention
mentions =
    (record { start = 0; length = 9; member = [] })
    ∷ (record { start = 10; length = 4; member = codes "ann" })
    ∷ []

abbrev is_blank : ℕ → Bool
is_blank c = nat_beq c 32

abbrev is_lower : ℕ → Bool
is_lower c = leb 97 c && leb c 122

abbrev typed : Text
typed = codes "hi @an"

mention_query_at_sound_example : Nearest is_lower is_blank typed 6 3 × (codes "an" ≡ codes "an")
unfolding mention_query_at query_back can_start_mention continues_word
mention_query_at_sound_example =
    mention_query_at_sound is_lower is_blank typed (pos 6) 3 (codes "an") refl

-- From the `@` on there is the letter `a`, and then `n`.
letters : (j : ℕ) → 3 ≤ j → j < 6 → is_blank (get_or typed j 0) ≡ false
letters zero low high = absurd (omega arith)
letters (suc zero) low high = absurd (omega arith)
letters (suc (suc zero)) low high = absurd (omega arith)
letters (suc (suc (suc zero))) low high = refl
letters (suc (suc (suc (suc zero)))) low high = refl
letters (suc (suc (suc (suc (suc zero))))) low high = refl
letters (suc (suc (suc (suc (suc (suc j)))))) low high = absurd (omega arith)

abbrev greeting : Text
greeting = codes "hi @bob @ann"

abbrev members : List Text
members = codes "ann" ∷ codes "bob" ∷ []

find_mentions_sound_example :
    All
      (IsFound is_lower is_blank text_beq greeting members)
      (find_mentions is_lower is_blank text_beq greeting members)
    × Apart is_lower is_blank text_beq (find_mentions is_lower is_blank text_beq greeting members)
find_mentions_sound_example = find_mentions_sound is_lower is_blank text_beq greeting members

abbrev careful : NotificationSettings
careful = record { muted = false; level = mentions_only; suppress_everyone = true; activity = true }

attention_for-mention_of_example :
    let a = attention_for careful (mention_of mentions (codes "ann")) in
    ((a.mention ≡ true) ↔ ((careful.muted ≡ false) × IsMeant careful mentions (codes "ann")))
    × ((a.alert ≡ true) ↔ ((careful.muted ≡ false) × IsMeant careful mentions (codes "ann")))
    × ((a.notify ≡ true) ↔ (
        (careful.muted ≡ false)
        × (IsMeant careful mentions (codes "ann") ⊎ (careful.level ≡ all_messages))))
attention_for-mention_of_example = attention_for-mention_of careful mentions (codes "ann")
