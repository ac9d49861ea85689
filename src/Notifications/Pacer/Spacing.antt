-- ===== src/Notifications/Pacer/Spacing.antt =====
-- The shows of a key over any sequence of offers and timer runs.
use disquisition.Common.{
  ℕ, ◌+◌, ◌≤◌, ◌<◌, ◌≡◌, inl, inr, refl, ◌∙◌, subst, false, Option, none, some, List, [], ◌∷◌,
  arith, Text, text_eq, ◌==◌, ltb, if◌then◌else◌, Bool-cases, Option-cases, lt→ltb,
}
use disquisition.Common.Maps.{lookup, lookup-insert, lookup-insert_self}
use disquisition.Notifications.Pacer.{
  DesktopNotification, NotificationPacer, show_now, put_off, offer, take_due,
}
use disquisition.Notifications.Pacer.Laws.{
  Inv, shown_for, offer-Inv, put_off-Inv, take_due-Inv, cooldown-take_from, shown-take_from,
  last-take_from, IsNamed-entries,
}

pub data Event : Type 0 where
  offered : DesktopNotification → Event
  timer : Event

-- One event at a time, with what it shows.
abbrev pub step : ℕ → Event → NotificationPacer → NotificationPacer × List DesktopNotification
step now (offered n) p = let r = offer n now p in (r.0, if r.1 then n ∷ [] else [])
step now timer p = take_due now p

abbrev stamped : ℕ → List DesktopNotification → List ℕ → List ℕ
stamped now [] later = later
stamped now (n ∷ ns) later = now ∷ stamped now ns later

-- When a key is shown.
abbrev pub show_times : Text → List (ℕ × Event) → NotificationPacer → List ℕ
show_times k [] p = []
show_times k ((now, e) ∷ es) p =
    let r = step now e p in stamped now (shown_for k r.1) (show_times k es r.0)

-- Consecutive times are `c` apart, the first from the last before them.
abbrev pub Spaced : ℕ → Option ℕ → List ℕ → Type 0
Spaced c last [] = Unit
Spaced c none (t ∷ ts) = Spaced c (some t) ts
Spaced c (some s) (t ∷ ts) = (s + c ≤ t) × Spaced c (some t) ts

abbrev IsPaced : ℕ → Option ℕ → ℕ → Type 0
IsPaced c none now = Unit
IsPaced c (some s) now = s + c ≤ now

-- A step shows nothing for a key, or one notification a cooldown after the last.
data Shows (k : Text) (now : ℕ) (p : NotificationPacer)
    (r : NotificationPacer × List DesktopNotification) : Type 0 where
  nothing : shown_for k r.1 ≡ [] → lookup k r.0.last_shown ≡ lookup k p.last_shown → Shows k now p r
  once :
      (n : DesktopNotification)
      → shown_for k r.1 ≡ n ∷ []
      → lookup k r.0.last_shown ≡ some now
      → IsPaced p.cooldown_ms (lookup k p.last_shown) now
      → Shows k now p r

step-Inv : (now : ℕ) (e : Event) (p : NotificationPacer) → Inv p → Inv (step now e p).0
step-Inv now (offered n) p v = offer-Inv n now p v
step-Inv now timer p v = take_due-Inv now p v

cooldown-step :
    (now : ℕ) (e : Event) (p : NotificationPacer) → (step now e p).0.cooldown_ms ≡ p.cooldown_ms
unfolding offer take_due
cooldown-step now (offered n) p = elim (Option-cases (lookup n.key p.last_shown)) [
  | inl first ↦ rw first refl
  | inr (t, e) ↦ rw e (ground arith)
]
cooldown-step now timer p = cooldown-take_from now p.waiting p

Shows-now :
    (k : Text) (now : ℕ) (n : DesktopNotification) (p : NotificationPacer)
    → IsPaced p.cooldown_ms (lookup n.key p.last_shown) now
    → Shows k now p (show_now n.key now p, n ∷ [])
Shows-now k now n p paced = elim (Bool-cases (n.key == k)) [
  | inl same ↦ once n (rw same refl) (rw (lookup-insert n.key k now p.last_shown, same) refl) (
      subst (λ u. IsPaced p.cooldown_ms (lookup u p.last_shown) now)
        ((text_eq.beq_iff n.key k).0 same) paced)
  | inr other ↦ nothing (rw other refl) (rw (lookup-insert n.key k now p.last_shown, other) refl)
]

offer-Shows :
    (k : Text) (now : ℕ) (n : DesktopNotification) (p : NotificationPacer)
    → Shows k now p (step now (offered n) p)
unfolding offer
offer-Shows k now n p = elim (Option-cases (lookup n.key p.last_shown)) [
  | inl first ↦ rw first (Shows-now k now n p (rw first tt))
  | inr (t, e) ↦ rw e (elim (Bool-cases (ltb now (t + p.cooldown_ms))) [
    | inl soon ↦ rw soon (nothing refl refl)
    | inr late ↦ rw late (Shows-now k now n p (rw e (ground arith)))
  ])
]

take_due-Shows :
    (k : Text) (now : ℕ) (p : NotificationPacer) → Inv p → Shows k now p (take_due now p)
unfolding take_due
take_due-Shows k now p v =
    let shown = shown-take_from k now p.waiting p v.keys (IsNamed-entries p v) in
    let last = last-take_from k now p.waiting p v.keys in
    elim (Option-cases (lookup k p.waiting)) [
      | inl none' ↦ nothing (shown ∙ rw none' refl) (last ∙ rw none' refl)
      | inr (w, e) ↦ elim (Bool-cases (ltb now w.due)) [
        | inl early ↦ nothing (shown ∙ rw (e, early) refl) (last ∙ rw (e, early) refl)
        | inr late ↦
            let (t, was, due) = v.paced k w e in
            once w.notification (shown ∙ rw (e, late) refl) (last ∙ rw (e, late) refl)
              (rw was (ground arith))
      ]
    ]

step-Shows :
    (k : Text) (now : ℕ) (e : Event) (p : NotificationPacer) → Inv p → Shows k now p (step now e p)
step-Shows k now (offered n) p v = offer-Shows k now n p
step-Shows k now timer p v = take_due-Shows k now p v

Spaced-next :
    (c : ℕ) (last : Option ℕ) (now : ℕ) (ts : List ℕ)
    → IsPaced c last now
    → Spaced c (some now) ts
    → Spaced c last (now ∷ ts)
Spaced-next c none now ts h s = s
Spaced-next c (some t) now ts h s = (h, s)

-- In a pacer that keeps its invariant, whatever is offered and whenever the timer runs, two shows of one key are at least the cooldown apart,
-- the first of them counted from the last show before.
pub show_times-Spaced :
    (k : Text) (es : List (ℕ × Event)) (p : NotificationPacer)
    → Inv p
    → Spaced p.cooldown_ms (lookup k p.last_shown) (show_times k es p)
show_times-Spaced k [] p v = tt
show_times-Spaced k ((now, e) ∷ es) p v =
    let rest =
      subst
        (λ c. Spaced c (lookup k (step now e p).0.last_shown) (show_times k es (step now e p).0))
        (cooldown-step now e p) (show_times-Spaced k es (step now e p).0 (step-Inv now e p v)) in
    elim (step-Shows k now e p v) [
      | nothing quiet same ↦ rw quiet (rw same at rest)
      | once n shown last paced ↦ rw shown (Spaced-next _ _ now _ paced (rw last at rest))
    ]

put_off_within :
    (n : DesktopNotification) (now t : ℕ) (p : NotificationPacer)
    → lookup n.key p.last_shown ≡ some t
    → now < t + p.cooldown_ms
    → offer n now p ≡ (put_off n t p, false)
unfolding offer
put_off_within n now t p last soon = rw (last, lt→ltb now (t + p.cooldown_ms) soon) refl

-- In a pacer that keeps its invariant, an offer within the cooldown shows nothing at once; a later timer run shows that very notification, once,
-- as soon as the cooldown is over, and nothing for its key before.
pub take_due-offer :
    (n : DesktopNotification) (now t later : ℕ) (p : NotificationPacer)
    → Inv p
    → lookup n.key p.last_shown ≡ some t
    → now < t + p.cooldown_ms
    → ((offer n now p).1 ≡ false)
      × (shown_for n.key (take_due later (offer n now p).0).1
          ≡ (if ltb later (t + p.cooldown_ms) then [] else n ∷ []))
unfolding take_due
take_due-offer n now t later p v last soon =
    let q = put_off n t p in
    let w = put_off-Inv n t p v last in
    rw (put_off_within n now t p last soon) (
      refl,
      shown-take_from n.key later q.waiting q w.keys (IsNamed-entries q w)
          ∙ rw
              (lookup-insert_self n.key (record { notification = n; due = t + p.cooldown_ms })
                p.waiting)
              refl,
    )
