-- ===== src/Notifications/Center/Laws.antt =====
-- What every event of the notification center keeps.
use disquisition.Common.{
  ℕ, ◌+◌, ◌≡◌, inl, inr, refl, sym, ◌∙◌, ap, subst, Bool, true, false, not, ◌&&◌, ◌||◌, none, some,
  List, [], ◌∷◌, ◌++◌, arith, Text, text_eq, ltb, if◌then◌else◌, Bool-cases, if_case, Option-cases,
}
use mathlib.Core.Option.{none-ne-some}
use disquisition.Common.Maps.{lookup, erase}
use disquisition.Notifications.Rules.{
  NotificationSettings, Mentioned, Stored, UnreadBadge, NotifyLevel, no_badge, load, save,
  attention_for, notifies_activity,
}
use disquisition.Notifications.Rules.Laws.{load-save}
use disquisition.Notifications.Pacer.{
  NotificationPacer, Waiting, DesktopNotification, start, offer, take_due, next_due, earliest,
  take_from,
}
use disquisition.Notifications.Pacer
use disquisition.Notifications.Pacer.Laws
use disquisition.Notifications.Pacer.Laws.{offer-Inv, take_due-Inv, start-Inv, clear-Inv}
use disquisition.Notifications.Center.{
  settings_changed, Effect, NotificationCenter, make, same_level, same_bool, same_settings,
  same_badge, set_badge, withdraw, drop_waiting, silence, set_settings, show,
  schedule_paced_notifications, paced, notify, raise_attention, attended, message_received,
  activity_occurred, mark_read_if_in_view, show_all, show_due_notifications,
}

earliest-some : (t : ℕ) (m : List (Text × Waiting)) → (d : ℕ) × (earliest (some t) m ≡ some d)
unfolding earliest
earliest-some t [] = (t, refl)
earliest-some t ((k, w) ∷ m) = earliest-some (if ltb w.due t then w.due else t) m

nothing_due : (m : List (Text × Waiting)) → earliest none m ≡ none → m ≡ []
unfolding earliest
nothing_due [] h = refl
nothing_due ((k, w) ∷ m) h = absurd (none-ne-some _ (sym h ∙ (earliest-some w.due m).1))

-- While muted there is no badge, nothing shows and nothing waits; the timer runs when something waits; the
-- menu's check mark and the stored values are the settings.
pub record Inv (c : NotificationCenter) : Type 0 where
  pub silent :
      c.settings.muted ≡ true → (c.badge ≡ no_badge) × (c.notified ≡ false) × (c.pacer.waiting ≡ [])
  pub armed : c.pacer_timer ≡ none → c.pacer.waiting ≡ []
  pub checked : c.mute_checked ≡ c.settings.muted
  pub saved : load c.stored ≡ c.settings
  pub pacing : Pacer.Laws.Inv c.pacer

same_bool_eq : (a b : Bool) → same_bool a b ≡ true → a ≡ b
unfolding same_bool
same_bool_eq a b h = ground arith

same_badge_eq : (a b : UnreadBadge) → same_badge a b ≡ true → a ≡ b
unfolding same_badge
same_badge_eq a b h = ground (arith, same_bool_eq a.unread b.unread)

set_badge-keeps : (b : UnreadBadge) (c : NotificationCenter) → (set_badge b c).badge ≡ b
unfolding set_badge
set_badge-keeps b c = elim (Bool-cases (same_badge b c.badge)) [
  | inl same ↦ rw same (sym (same_badge_eq b c.badge same))
  | inr other ↦ rw other refl
]

set_badge-eq :
    (b : UnreadBadge) (c : NotificationCenter)
    → set_badge b c ≡ record c { badge = b; effects = (set_badge b c).effects }
unfolding set_badge
set_badge-eq b c = elim (Bool-cases (same_badge b c.badge)) [
  | inl same ↦ rw same (ap (λ x. record c { badge = x }) (sym (same_badge_eq b c.badge same)))
  | inr other ↦ rw other refl
]

withdraw-eq :
    (c : NotificationCenter)
    → (es : List Effect) × (withdraw c ≡ record c { notified = false; effects = es })
unfolding withdraw
withdraw-eq c =
    if_case (λ x. (es : List Effect) × (x ≡ record c { notified = false; effects = es })) c.notified
      (λ _. (_, refl)) (λ off. (c.effects, ap (λ x. record c { notified = x }) off))

-- The same badge again changes nothing.
pub set_badge_same : (b : UnreadBadge) (c : NotificationCenter) → b ≡ c.badge → set_badge b c ≡ c
unfolding set_badge same_badge same_bool
set_badge_same b c h =
    if_case (λ x. x ≡ c) (same_badge b c.badge) (λ _. refl)
      (λ other. ground (arith, ap UnreadBadge.mentions h, ap UnreadBadge.unread h))

set_badge-Inv :
    (b : UnreadBadge) (c : NotificationCenter)
    → (c.settings.muted ≡ true → b ≡ no_badge)
    → Inv c
    → Inv (set_badge b c)
set_badge-Inv b c h v = rw (set_badge-eq b c) record {
  silent = λ m. (h m, (v.silent m).1, (v.silent m).2);
  armed = v.armed;
  checked = v.checked;
  saved = v.saved;
  pacing = v.pacing;
}

-- Scheduling arms the timer, whatever it was before.
schedule-Inv :
    (after : ℕ) (c : NotificationCenter)
    → (c.settings.muted ≡ true
        → (c.badge ≡ no_badge) × (c.notified ≡ false) × (c.pacer.waiting ≡ []))
    → c.mute_checked ≡ c.settings.muted
    → load c.stored ≡ c.settings
    → Pacer.Laws.Inv c.pacer
    → Inv (schedule_paced_notifications after c)
unfolding next_due schedule_paced_notifications
schedule-Inv after c silent checked saved pacing =
    elim (Option-cases (earliest none c.pacer.waiting)) [
      | inl none' ↦ rw none' record {
        silent = silent;
        armed = λ _. nothing_due c.pacer.waiting none';
        checked = checked;
        saved = saved;
        pacing = pacing;
      }
      | inr (d, e) ↦ rw e record {
        silent = silent;
        armed = λ h. cc;
        checked = checked;
        saved = saved;
        pacing = pacing;
      }
    ]

offer_shows-waiting :
    (n : DesktopNotification) (now : ℕ) (p : NotificationPacer)
    → p.waiting ≡ []
    → (offer n now p).1 ≡ true
    → (offer n now p).0.waiting ≡ []
unfolding offer erase
offer_shows-waiting n now p e = elim (Option-cases (lookup n.key p.last_shown)) [
  | inl first ↦ rw (first, e) (λ _. refl)
  | inr (t, last) ↦ rw last (
      if_case (λ (r : NotificationPacer × Bool). r.1 ≡ true → r.0.waiting ≡ [])
        (ltb now (t + p.cooldown_ms)) (λ _ h. cc) (λ _ _. rw e refl))
]

module _ (simplified : Text → Text) (now after : ℕ) where
  paced-Inv :
      (n : DesktopNotification) (c : NotificationCenter) (q : NotificationPacer) (shown : Bool)
      → offer n now c.pacer ≡ (q, shown)
      → c.settings.muted ≡ false
      → Inv c
      → Inv (paced n after (q, shown) c)
  paced-Inv n c q true e h v = record {
    silent = λ m. cc;
    armed = λ t.
        ap (λ r. r.0.waiting) (sym e)
        ∙ offer_shows-waiting n now c.pacer (v.armed t) (ap (λ r. r.1) e);
    checked = v.checked;
    saved = v.saved;
    pacing = subst (λ r. Pacer.Laws.Inv r.0) e (offer-Inv n now c.pacer v.pacing);
  }
  paced-Inv n c q false e h v =
      schedule-Inv after (record c { pacer = q }) (λ m. cc) v.checked v.saved
        (subst (λ r. Pacer.Laws.Inv r.0) e (offer-Inv n now c.pacer v.pacing))

  notify-Inv :
      (key title text : Text) (c : NotificationCenter)
      → c.settings.muted ≡ false
      → Inv c
      → Inv (notify simplified now after key title text c)
  unfolding notify
  notify-Inv key title text c h v = paced-Inv _ c _ _ refl h v

  raise_attention-Inv :
      (alert : Bool) (c : NotificationCenter) → Inv c → Inv (raise_attention alert c)
  unfolding raise_attention
  raise_attention-Inv alert c v =
      if_case Inv alert
        (λ _. record {
          silent = v.silent;
          armed = v.armed;
          checked = v.checked;
          saved = v.saved;
          pacing = v.pacing;
        })
        (λ _. v)

  unmuted_badge :
      (b : UnreadBadge) (c : NotificationCenter)
      → c.settings.muted ≡ false
      → (set_badge b c).settings.muted ≡ false
  unmuted_badge b c h = rw (set_badge-eq b c) h

  pub message_received-Inv :
      (in_view : Bool) (sender text : Text) (m : Mentioned) (c : NotificationCenter)
      → Inv c
      → Inv (message_received simplified in_view now after sender text m c)
  unfolding message_received
  message_received-Inv in_view sender text m c v =
      let a = attention_for c.settings m in
      let b = attended a c.badge in
      if_case Inv (c.settings.muted || in_view) (λ _. v)
        (λ away.
          let h : c.settings.muted ≡ false = ground arith in
          let w = set_badge-Inv b c (λ m. cc) v in
          raise_attention-Inv a.alert _ (
            if_case Inv a.notify
              (λ _. notify-Inv _ sender text (set_badge b c) (unmuted_badge b c h) w) (λ _. w)))

  pub activity_occurred-Inv :
      (in_view : Bool) (member text : Text) (c : NotificationCenter)
      → Inv c
      → Inv (activity_occurred simplified in_view now after member text c)
  unfolding activity_occurred notifies_activity
  activity_occurred-Inv in_view member text c v =
      if_case Inv (not in_view && notifies_activity c.settings)
        (λ away. notify-Inv _ member text c (ground arith) v) (λ _. v)

dropped-Inv :
    (c : NotificationCenter)
    → (c.settings.muted ≡ true → (c.badge ≡ no_badge) × (c.notified ≡ false))
    → c.mute_checked ≡ c.settings.muted
    → load c.stored ≡ c.settings
    → Inv (drop_waiting c)
unfolding Pacer.clear
dropped-Inv c silent checked saved = record {
  silent = λ m. ((silent m).0, (silent m).1, refl);
  armed = λ _. refl;
  checked = checked;
  saved = saved;
  pacing = clear-Inv c.pacer;
}

undropped-Inv :
    (c : NotificationCenter)
    → (c.settings.muted ≡ true → (c.badge ≡ no_badge) × (c.notified ≡ false))
    → c.mute_checked ≡ c.settings.muted
    → load c.stored ≡ c.settings
    → drop_waiting c ≡ c
    → Inv c
undropped-Inv c silent checked saved e = subst Inv e (dropped-Inv c silent checked saved)

pub mark_read_if_in_view-Inv :
    (in_view : Bool) (c : NotificationCenter) → Inv c → Inv (mark_read_if_in_view in_view c)
unfolding mark_read_if_in_view
mark_read_if_in_view-Inv in_view c v =
    let w = set_badge-Inv no_badge c (λ _. refl) v in
    if_case Inv in_view
      (λ _.
        let (es, e) = withdraw-eq (drop_waiting (set_badge no_badge c)) in
        rw e (
          dropped-Inv (record (set_badge no_badge c) { notified = false; effects = es })
            (λ m. ((w.silent m).0, refl)) w.checked w.saved))
      (λ _. v)

same_level_eq : (a b : NotifyLevel) → same_level a b ≡ true → a ≡ b
unfolding same_level
same_level_eq a b h = ground arith

same_settings_eq : (a b : NotificationSettings) → same_settings a b ≡ true → a ≡ b
unfolding same_settings
same_settings_eq a b h = ground (
  arith,
  same_bool_eq a.muted b.muted,
  same_level_eq a.level b.level,
  same_bool_eq a.suppress_everyone b.suppress_everyone,
  same_bool_eq a.activity b.activity,
)

silence-eq :
    (c : NotificationCenter)
    → (badge : UnreadBadge) × (notified : Bool) × (es : List Effect) × (silence c
        ≡ record c { badge = badge; notified = notified; effects = es })
      × (c.settings.muted ≡ true → (badge ≡ no_badge) × (notified ≡ false))
unfolding silence
silence-eq c =
    if_case
      (λ x.
        (badge : UnreadBadge) × (notified : Bool) × (es : List Effect) × (x
          ≡ record c { badge = badge; notified = notified; effects = es })
        × (c.settings.muted ≡ true → (badge ≡ no_badge) × (notified ≡ false)))
      c.settings.muted
      (λ _.
        let w = withdraw c in
        let (es, e) = withdraw-eq c in
        let all = (set_badge no_badge w).effects in
        (
          no_badge,
          false,
          all,
          set_badge-eq no_badge w
              ∙ ap {A = NotificationCenter} (λ x. record x { badge = no_badge; effects = all }) e,
          λ _. (refl, refl),
        ))
      (λ loud. (c.badge, c.notified, c.effects, refl, λ m. cc))

pub set_settings-Inv :
    (settings : NotificationSettings) (c : NotificationCenter)
    → Inv c
    → Inv (set_settings settings c)
unfolding set_settings Pacer.clear
set_settings-Inv settings c v =
    let d = drop_waiting (record c { settings = settings; stored = save settings c.stored }) in
    let (badge, notified, es, e, silent) = silence-eq d in
    if_case Inv (same_settings settings c.settings) (λ _. v)
      (λ _. rw e (
        undropped-Inv
          (record d {
            badge = badge;
            notified = notified;
            effects = es ++ (settings_changed settings ∷ []);
            mute_checked = settings.muted;
          })
          silent refl (load-save settings c.stored) refl))

show_all-eq :
    (ns : List DesktopNotification) (c : NotificationCenter)
    → (notified : Bool) × (es : List Effect) × (show_all ns c
        ≡ record c { notified = notified; effects = es })
      × (ns ≡ [] → notified ≡ c.notified)
unfolding show_all
show_all-eq [] c = (c.notified, c.effects, refl, λ _. refl)
show_all-eq (n ∷ ns) c =
    let (notified, es, e, _) = show_all-eq ns (show n c) in (notified, es, e, λ h. cc)

pub nothing_taken : (now : ℕ) (p : NotificationPacer) → p.waiting ≡ [] → take_due now p ≡ (p, [])
unfolding take_due take_from
nothing_taken now p e = rw e refl

pub show_due_notifications-Inv :
    (now after : ℕ) (c : NotificationCenter) → Inv c → Inv (show_due_notifications now after c)
unfolding show_due_notifications
show_due_notifications-Inv now after c v =
    let r = take_due now c.pacer in
    let d = record c { pacer = r.0; pacer_timer = none } in
    let (notified, es, e, same) = show_all-eq r.1 d in
    rw e (
      schedule-Inv after (record d { notified = notified; effects = es })
        (λ m.
          let (badge, off, idle) = v.silent m in
          let taken = nothing_taken now c.pacer idle in
          (badge, same (ap (λ x. x.1) taken) ∙ off, ap (λ x. x.0.waiting) taken ∙ idle))
        v.checked v.saved (take_due-Inv now c.pacer v.pacing))

pub make-Inv : (stored : Stored) → Inv (make stored)
unfolding make
make-Inv stored = record {
  silent = λ _. (refl, refl, refl);
  armed = λ _. refl;
  checked = refl;
  saved = refl;
  pacing = start-Inv _;
}
