-- ===== src/Notifications/Center.antt =====
-- `NotificationCenter`: the settings, the badge and the pacer behind the window. What the toolkit does
-- is a list of effects; whether the window is in view and what the clock reads are arguments of a handler.
pub mod Laws
pub mod Events
use disquisition.Common.{
  ℕ, zero, suc, ◌+◌, ◌-◌, ◌*◌, ◌/◌, ◌%◌, ◌^◌, ◌≤◌, ◌<◌, min, max, ◌≡◌, ◌≢◌, ◌↔◌, ◌⊎◌, inl, inr,
  refl, sym, ◌∙◌, ap, ap₂, subst, Bool, true, false, not, ◌&&◌, ◌||◌, Option, none, some, List, [],
  ◌∷◌, ◌++◌, arith, Text, text_eq, text_beq, codes, Eq, ◌==◌, beq_refl, beq_sym, ltb, leb, nat_beq,
  if◌then◌else◌, Bool-cases, Option-cases, ◌>>=◌, ◌>>◌, guard, &&_true, length,
}
use mathlib.Core.Option.{some-injective, none-ne-some}
use disquisition.Notifications.Rules.{
  NotificationSettings, Mentioned, Stored, MessageAttention, UnreadBadge, NotifyLevel, all_messages,
  mentions_only, no_badge, load, save, attention_for, notifies_activity, notification_text,
  level_text,
}
use disquisition.Notifications.Pacer.{
  NotificationPacer, DesktopNotification, start, offer, take_due, next_due,
  notification_cooldown_ms,
}
use disquisition.Notifications.Pacer

-- Calls of the desktop notifier, and signals.
pub data Effect : Type 0 where
  shown : DesktopNotification → Effect
  withdrawn : Effect
  badge_set : UnreadBadge → Effect
  attention_requested : Effect
  settings_changed : NotificationSettings → Effect
  badge_changed : UnreadBadge → Effect

-- `pacer_timer` is the time at which the single-shot timer fires, when it runs.
pub record NotificationCenter : Type 0 where
  pub settings : NotificationSettings
  pub stored : Stored
  pub mute_checked : Bool
  pub badge : UnreadBadge
  pub pacer : NotificationPacer
  pub pacer_timer : Option ℕ
  pub notified : Bool
  pub effects : List Effect

unfoldable pub make : Stored → NotificationCenter
make stored = record {
  settings = load stored;
  stored = stored;
  mute_checked = (load stored).muted;
  badge = no_badge;
  pacer = start notification_cooldown_ms;
  pacer_timer = none;
  notified = false;
  effects = [];
}

unfoldable pub same_level : NotifyLevel → NotifyLevel → Bool
same_level all_messages all_messages = true
same_level mentions_only mentions_only = true
same_level _ _ = false

unfoldable pub same_bool : Bool → Bool → Bool
same_bool true b = b
same_bool false b = not b

-- The settings' defaulted `==`.
unfoldable pub same_settings : NotificationSettings → NotificationSettings → Bool
same_settings a b =
    same_bool a.muted b.muted
    && (same_level a.level b.level
        && (same_bool a.suppress_everyone b.suppress_everyone && same_bool a.activity b.activity))

-- The badge's defaulted `==`.
unfoldable pub same_badge : UnreadBadge → UnreadBadge → Bool
same_badge a b = same_bool a.unread b.unread && nat_beq a.mentions b.mentions

abbrev pub emit : Effect → NotificationCenter → NotificationCenter
emit e c = record c { effects = c.effects ++ (e ∷ []) }

unfoldable pub set_badge : UnreadBadge → NotificationCenter → NotificationCenter
set_badge badge c =
    if same_badge badge c.badge
    then c
    else emit (badge_changed badge) (emit (badge_set badge) (record c { badge = badge }))

-- `if (notified_) { notified_ = false; notifier_->withdrawAll(); }`
unfoldable pub withdraw : NotificationCenter → NotificationCenter
withdraw c = if c.notified then emit withdrawn (record c { notified = false }) else c

-- Drops what waits, with the timer.
abbrev pub drop_waiting : NotificationCenter → NotificationCenter
drop_waiting c = record c { pacer = Pacer.clear c.pacer; pacer_timer = none }

unfoldable pub silence : NotificationCenter → NotificationCenter
silence c = if c.settings.muted then set_badge no_badge (withdraw c) else c

abbrev pub adopt : NotificationSettings → NotificationCenter → NotificationCenter
adopt settings c =
    silence (drop_waiting (record c { settings = settings; stored = save settings c.stored }))

unfoldable pub set_settings : NotificationSettings → NotificationCenter → NotificationCenter
set_settings settings c =
    let adopted = adopt settings c in
    if same_settings settings c.settings
    then c
    else emit (settings_changed settings) (record adopted { mute_checked = settings.muted })

abbrev pub show : DesktopNotification → NotificationCenter → NotificationCenter
show n c = record (emit (shown n) c) { notified = true }

abbrev pub schedule_at : Option ℕ → ℕ → NotificationCenter → NotificationCenter
schedule_at none now c = c
schedule_at (some due) now c = record c { pacer_timer = some (now + (due - now)) }

-- `schedulePacedNotifications`; the subtraction stops at 0, which is the source's `max(0, due - now)`.
unfoldable pub schedule_paced_notifications : ℕ → NotificationCenter → NotificationCenter
schedule_paced_notifications now c = schedule_at (next_due c.pacer) now c

abbrev pub paced :
    DesktopNotification → ℕ → NotificationPacer × Bool → NotificationCenter → NotificationCenter
paced n after (p, true) c = show n (record c { pacer = p })
paced n after (p, false) c = schedule_paced_notifications after (record c { pacer = p })

abbrev pub attended : MessageAttention → UnreadBadge → UnreadBadge
attended a b = record { unread = true; mentions = if a.mention then b.mentions + 1 else b.mentions }

unfoldable pub raise_attention : Bool → NotificationCenter → NotificationCenter
raise_attention alert c = if alert then emit attention_requested c else c

-- `simplified` is Qt's `QString::simplified`.
module _ (simplified : Text → Text) where
  -- `now` is what the clock reads at the offer, `after` what it reads when the timer is set.
  unfoldable pub notify : ℕ → ℕ → Text → Text → Text → NotificationCenter → NotificationCenter
  notify now after key title text c =
      let n : DesktopNotification = record {
        key = key;
        title = title;
        body = notification_text simplified text;
      } in
      paced n after (offer n now c.pacer) c

  unfoldable pub message_received :
      Bool → ℕ → ℕ → Text → Text → Mentioned → NotificationCenter → NotificationCenter
  message_received in_view now after sender text mentioned c =
      let a = attention_for c.settings mentioned in
      let badged = set_badge (attended a c.badge) c in
      let told = notify now after (codes "message/" ++ sender) sender text badged in
      if c.settings.muted || in_view
      then c
      else raise_attention a.alert (if a.notify then told else badged)

  unfoldable pub activity_occurred :
      Bool → ℕ → ℕ → Text → Text → NotificationCenter → NotificationCenter
  activity_occurred in_view now after member text c =
      if not in_view && notifies_activity c.settings
      then notify now after (codes "activity/" ++ member) member text c
      else c

unfoldable pub mark_read_if_in_view : Bool → NotificationCenter → NotificationCenter
mark_read_if_in_view in_view c =
    if in_view then withdraw (drop_waiting (set_badge no_badge c)) else c

unfoldable pub show_all : List DesktopNotification → NotificationCenter → NotificationCenter
show_all [] c = c
show_all (n ∷ ns) c = show_all ns (show n c)

-- The timer fires: it has stopped.
unfoldable pub show_due_notifications : ℕ → ℕ → NotificationCenter → NotificationCenter
show_due_notifications now after c =
    let r = take_due now c.pacer in
    schedule_paced_notifications after (show_all r.1 (record c { pacer = r.0; pacer_timer = none }))
