-- ===== src/Notifications/Rules.antt =====
-- Which messages ask for attention.
pub mod Laws
use disquisition.Common.{
  ℕ, suc, ◌+◌, ◌-◌, ◌≡◌, Bool, true, false, not, ◌&&◌, ◌||◌, Option, none, some, List, [], ◌∷◌,
  ◌++◌, Text, codes, text_eq, text_beq, ◌==◌, ltb, leb, nat_beq, length, take, get_or,
  if◌then◌else◌,
}

pub data NotifyLevel : Type 0 where
  all_messages mentions_only : NotifyLevel

-- How a message names the reader.
pub data Mentioned : Type 0 where
  not_mentioned via_everyone by_name : Mentioned

pub record NotificationSettings : Type 0 where
  pub muted : Bool
  pub level : NotifyLevel
  pub suppress_everyone : Bool
  pub activity : Bool

abbrev pub defaults : NotificationSettings
defaults = record { muted = true; level = all_messages; suppress_everyone = false; activity = true }

-- The values that `QSettings` holds; a missing one is `none`.
pub record Stored : Type 0 where
  pub muted : Option Bool
  pub level : Option Text
  pub suppress_everyone : Option Bool
  pub activity : Option Bool

abbrev pub value_or {ℓ} : {A : Type ℓ} → Option A → A → A
value_or none d = d
value_or (some a) d = a

unfoldable pub level_of : Option Text → NotifyLevel
level_of none = all_messages
level_of (some s) = if s == codes "mentions" then mentions_only else all_messages

unfoldable pub level_text : NotifyLevel → Text
level_text mentions_only = codes "mentions"
level_text all_messages = codes "all"

unfoldable pub load : Stored → NotificationSettings
load s = record {
  muted = value_or s.muted defaults.muted;
  level = level_of s.level;
  suppress_everyone = value_or s.suppress_everyone defaults.suppress_everyone;
  activity = value_or s.activity defaults.activity;
}

-- Writes every value.
unfoldable pub save : NotificationSettings → Stored → Stored
save n s = record {
  muted = some n.muted;
  level = some (level_text n.level);
  suppress_everyone = some n.suppress_everyone;
  activity = some n.activity;
}

pub record MessageAttention : Type 0 where
  pub mention : Bool
  pub notify : Bool
  pub alert : Bool

abbrev pub is_all : NotifyLevel → Bool
is_all all_messages = true
is_all mentions_only = false

unfoldable pub attention_for : NotificationSettings → Mentioned → MessageAttention
attention_for s m =
    let named : Bool = elim m [
      | by_name ↦ true
      | via_everyone ↦ not s.suppress_everyone
      | not_mentioned ↦ false
    ] in
    let mention = not s.muted && named in
    record {
      mention = mention;
      notify = not s.muted && (is_all s.level || mention);
      alert = not s.muted && mention;
    }

unfoldable pub notifies_activity : NotificationSettings → Bool
notifies_activity s = not s.muted && s.activity

abbrev pub max_notification_text : ℕ
max_notification_text = 200

unfoldable pub is_high_surrogate : ℕ → Bool
is_high_surrogate c = leb 0xd800 c && leb c 0xdbff

-- What is left of a line that is cut before the unit `n`.
unfoldable pub cut_at : ℕ → Text → Text
cut_at n line = take n line ++ 0x2026 ∷ []

-- The text cut to 200 UTF-16 units, with an ellipsis. `simplified` is Qt's `QString::simplified`.
unfoldable pub notification_text : (Text → Text) → Text → Text
unfolding is_high_surrogate
notification_text simplified text =
    let line = simplified text in
    let cut = max_notification_text - 1 in
    if leb (length line) max_notification_text
    then line
    else cut_at (if is_high_surrogate (get_or line (cut - 1) 0) then cut - 1 else cut) line

-- desktop/unread_badge.cpp: a count of mentions and a mark for the rest.
pub record UnreadBadge : Type 0 where
  pub mentions : ℕ
  pub unread : Bool

abbrev pub no_badge : UnreadBadge
no_badge = record { mentions = 0; unread = false }
