-- ===== src/Mentions/Attention.antt =====
-- What a message asks of its reader, by the mentions that are found in it.
use disquisition.Common.{◌≡◌, ◌↔◌, ◌⊎◌, true, false, List, arith, Text, text_eq}
use disquisition.Notifications.Rules.{NotificationSettings, attention_for, all_messages}
use disquisition.Mentions.{Mention, mention_of}
use disquisition.Mentions.Laws.{any_everyone, any_named, mention_of_lem}

-- The reader is meant: by name, or with everyone, where that is not suppressed.
abbrev pub IsMeant : NotificationSettings → List Mention → Text → Type 0
IsMeant s ms reader =
    (any_named ms reader ≡ true) ⊎ ((any_everyone ms ≡ true) × (s.suppress_everyone ≡ false))

-- A message counts as a mention, and alerts, exactly if notifications are not muted and it names the reader, wherever
-- among its mentions, or names everyone and that is not suppressed; it is notified exactly if they are not muted and it
-- counts as a mention or all messages are notified.
pub attention_for-mention_of :
    (s : NotificationSettings) (ms : List Mention) (reader : Text)
    → let a = attention_for s (mention_of ms reader) in
      ((a.mention ≡ true) ↔ ((s.muted ≡ false) × IsMeant s ms reader))
      × ((a.alert ≡ true) ↔ ((s.muted ≡ false) × IsMeant s ms reader))
      × ((a.notify ≡ true) ↔ ((s.muted ≡ false) × (IsMeant s ms reader ⊎ (s.level ≡ all_messages))))
unfolding attention_for
attention_for-mention_of s ms reader = rw (mention_of_lem ms reader) (ground arith)
