-- ===== src/Notifications/Rules/Laws.antt =====
-- What the rules promise.
use disquisition.Common.{
  ℕ, ◌+◌, ◌≤◌, ◌≡◌, ◌⊎◌, refl, true, false, some, [], ◌∷◌, Text, text_eq, text_beq, arith, length,
  length-append, length-take, take,
}
use disquisition.Notifications.Rules.{
  NotificationSettings, Stored, NotifyLevel, all_messages, mentions_only, level_of, level_text,
  load, save, Mentioned, not_mentioned, via_everyone, attention_for, max_notification_text,
  notification_text, cut_at,
}

level_of-level_text : (l : NotifyLevel) → level_of (some (level_text l)) ≡ l
unfolding level_of level_text text_beq
level_of-level_text all_messages = refl
level_of-level_text mentions_only = refl

-- Saved settings are loaded again, whatever was stored before.
pub load-save : (n : NotificationSettings) (s : Stored) → load (save n s) ≡ n
unfolding load save
load-save n s = λ i. record n { level = level_of-level_text n.level i }

-- An unmuted reader is told of a message unless it is limited to mentions and the message is none: it
-- names nobody, or names everyone where that is suppressed.
pub notify_iff :
    (s : NotificationSettings) (m : Mentioned)
    → s.muted ≡ false
    → (attention_for s m).notify ≡ false
    → (s.level ≡ mentions_only)
      × ((m ≡ not_mentioned) ⊎ ((m ≡ via_everyone) × (s.suppress_everyone ≡ true)))
unfolding attention_for
notify_iff s m h e = ground arith

length-cut_at : (n : ℕ) (line : Text) → length (cut_at n line) ≤ n + 1
unfolding cut_at
length-cut_at n line = omega (arith, length-append (take n line) (0x2026 ∷ []), length-take n line)

-- A shown text has at most 200 units.
pub length-notification_text :
    (simplified : Text → Text) (text : Text)
    → length (notification_text simplified text) ≤ max_notification_text
unfolding notification_text
length-notification_text simplified text =
    ground (arith, length-cut_at 198 (simplified text), length-cut_at 199 (simplified text))
