-- ===== src/Notifications/Center/Events.antt =====
-- Any sequence of the notification center's events.
use disquisition.Common.{
  ℕ, ◌≡◌, inl, inr, refl, sym, Bool, true, false, not, ◌&&◌, none, List, [], ◌∷◌, arith, Text,
  text_eq, if_case, Option-cases,
}
use disquisition.Notifications.Rules.{
  NotificationSettings, Mentioned, Stored, no_badge, notifies_activity,
}
use disquisition.Notifications.Pacer.{next_due}
use disquisition.Notifications.Center.{
  NotificationCenter, make, withdraw, set_settings, message_received, activity_occurred,
  mark_read_if_in_view, show_all, show_due_notifications, schedule_paced_notifications,
}
use disquisition.Notifications.Center.Laws.{
  Inv, make-Inv, set_settings-Inv, message_received-Inv, activity_occurred-Inv,
  mark_read_if_in_view-Inv, show_due_notifications-Inv, nothing_taken, set_badge_same,
}

-- What reaches the center: the settings dialog, a message, an activity, a change of the window, the timer.
pub data Event : Type 0 where
  configured : NotificationSettings → Event
  message : Bool → ℕ → ℕ → Text → Text → Mentioned → Event
  activity : Bool → ℕ → ℕ → Text → Text → Event
  looked : Bool → Event
  timeout : ℕ → ℕ → Event

-- Scheduling touches the timer only.
scheduled :
    (after : ℕ) (c : NotificationCenter)
    → ((schedule_paced_notifications after c).effects ≡ c.effects)
      × ((schedule_paced_notifications after c).settings ≡ c.settings)
unfolding schedule_paced_notifications
scheduled after c = elim (Option-cases (next_due c.pacer)) [
  | inl idle ↦ rw idle (refl, refl)
  | inr (d, e) ↦ rw e (refl, refl)
]

module _ (simplified : Text → Text) where
  abbrev pub handle : Event → NotificationCenter → NotificationCenter
  handle (configured s) c = set_settings s c
  handle (message in_view now after sender text m) c =
      message_received simplified in_view now after sender text m c
  handle (activity in_view now after member text) c =
      activity_occurred simplified in_view now after member text c
  handle (looked in_view) c = mark_read_if_in_view in_view c
  handle (timeout now after) c = show_due_notifications now after c

  abbrev pub handle_all : List Event → NotificationCenter → NotificationCenter
  handle_all [] c = c
  handle_all (e ∷ es) c = handle_all es (handle e c)

  handle-Inv : (e : Event) (c : NotificationCenter) → Inv c → Inv (handle e c)
  handle-Inv (configured s) c v = set_settings-Inv s c v
  handle-Inv (message in_view now after sender text m) c v =
      message_received-Inv simplified now after in_view sender text m c v
  handle-Inv (activity in_view now after member text) c v =
      activity_occurred-Inv simplified now after in_view member text c v
  handle-Inv (looked in_view) c v = mark_read_if_in_view-Inv in_view c v
  handle-Inv (timeout now after) c v = show_due_notifications-Inv now after c v

  -- The invariant holds after any events.
  pub handle_all-keeps : (es : List Event) (c : NotificationCenter) → Inv c → Inv (handle_all es c)
  handle_all-keeps [] c v = v
  handle_all-keeps (e ∷ es) c v = handle_all-keeps es (handle e c) (handle-Inv e c v)

  -- From the stored settings on, whatever happens: while the settings are muted there is no badge, nothing is
  -- shown and nothing waits; when the timer is stopped nothing waits; the menu's check mark agrees with the
  -- settings; and what is stored loads as the settings.
  pub handle_all-Inv : (stored : Stored) (es : List Event) → Inv (handle_all es (make stored))
  handle_all-Inv stored es = handle_all-keeps es (make stored) (make-Inv stored)

  -- Events other than a change of the settings.
  abbrev pub is_configured : Event → Bool
  is_configured (configured _) = true
  is_configured _ = false

  -- In a center that keeps its invariant, while muted, no message, activity, look at the window or timer run has an effect: no notification, no
  -- badge, no request for attention, no withdrawal; and the center stays muted.
  pub handle_muted :
      (e : Event) (c : NotificationCenter)
      → Inv c
      → c.settings.muted ≡ true
      → is_configured e ≡ false
      → ((handle e c).effects ≡ c.effects) × ((handle e c).settings ≡ c.settings)
  unfolding message_received activity_occurred notifies_activity mark_read_if_in_view withdraw
      show_due_notifications show_all
  handle_muted (configured s) c v m h = cc
  handle_muted (message in_view now after sender text n) c v m h = rw m (refl, refl)
  handle_muted (activity in_view now after member text) c v m h =
      if_case (λ (x : NotificationCenter). (x.effects ≡ c.effects) × (x.settings ≡ c.settings))
        (not in_view && notifies_activity c.settings) (λ told. ground arith) (λ _. (refl, refl))
  handle_muted (looked in_view) c v m h =
      let (badge, off, _) = v.silent m in
      if_case (λ (x : NotificationCenter). (x.effects ≡ c.effects) × (x.settings ≡ c.settings))
        in_view (λ _. rw (set_badge_same no_badge c (sym badge), off) (refl, refl))
        (λ _. (refl, refl))
  handle_muted (timeout now after) c v m h =
      let (_, _, idle) = v.silent m in
      rw (nothing_taken now c.pacer idle) (scheduled after (record c { pacer_timer = none }))
