-- ===== src/Notifications/Pacer/Laws.antt =====
-- Shows of one key are a cooldown apart, and what waits is shown when it is due, with its latest text.
use disquisition.Common.{
  ℕ, ◌+◌, ◌≡◌, inl, inr, refl, sym, ◌∙◌, ap, subst, Option, none, some, List, [], ◌∷◌, arith, Text,
  text_eq, ◌==◌, ltb, if◌then◌else◌, Bool-cases, Option-cases,
}
use disquisition.Common.Maps.{
  lookup, IsMap, erase-IsMap, insert-IsMap, lookup-insert, lookup-erase, Each, Each-map, Each-entry,
}
use mathlib.Core.Option.{some-injective, none-ne-some}
use disquisition.Notifications.Pacer.{
  clear, DesktopNotification, Waiting, NotificationPacer, start, show_now, put_off, offer,
  take_from, take_due,
}

-- The notifications of a list for a key.
abbrev pub shown_for : Text → List DesktopNotification → List DesktopNotification
shown_for k [] = []
shown_for k (n ∷ ns) = if n.key == k then n ∷ shown_for k ns else shown_for k ns

-- What of the waiting entries is due for a key.
abbrev pub due_for : ℕ → Option Waiting → List DesktopNotification
due_for now none = []
due_for now (some w) = if ltb now w.due then [] else w.notification ∷ []

-- A waiting entry stands under its key, and is due a cooldown after the key was last shown.
pub record Inv (p : NotificationPacer) : Type 0 where
  pub keys : IsMap p.waiting
  pub named : (k : Text) (w : Waiting) → lookup k p.waiting ≡ some w → w.notification.key ≡ k
  pub paced :
      (k : Text) (w : Waiting)
      → lookup k p.waiting ≡ some w
      → (t : ℕ) × (lookup k p.last_shown ≡ some t) × (w.due ≡ t + p.cooldown_ms)

-- The time of the last show after what is due was shown.
abbrev pub last_after : ℕ → List DesktopNotification → Option ℕ → Option ℕ
last_after now [] last = last
last_after now (n ∷ ns) last = some now

-- What is left waiting.
abbrev pub left_after : List DesktopNotification → Option Waiting → Option Waiting
left_after [] w = w
left_after (n ∷ ns) w = none

abbrev pub IsNamed : List (Text × Waiting) → Type 0
IsNamed [] = Unit
IsNamed ((k, w) ∷ m) = (w.notification.key ≡ k) × IsNamed m

module _ (k : Text) (now : ℕ) where
  -- The walk, seen from one key.
  pub shown-take_from :
      (m : List (Text × Waiting)) (p : NotificationPacer)
      → IsMap m
      → IsNamed m
      → shown_for k (take_from now m p).1 ≡ due_for now (lookup k m)
  unfolding take_from lookup
  shown-take_from [] p h n = refl
  shown-take_from ((j, w) ∷ m) p (fresh, h) (named, n) = ground (
    arith,
    text_eq.beq_iff j k,
    text_eq.beq_iff w.notification.key k,
    shown-take_from m p h n,
    shown-take_from m (show_now j now p) h n,
  )

  pub last-take_from :
      (m : List (Text × Waiting)) (p : NotificationPacer)
      → IsMap m
      → lookup k (take_from now m p).0.last_shown
        ≡ last_after now (due_for now (lookup k m)) (lookup k p.last_shown)
  unfolding take_from lookup
  last-take_from [] p h = refl
  last-take_from ((j, w) ∷ m) p (fresh, h) = ground (
    arith,
    text_eq.beq_iff j k,
    lookup-insert j k now p.last_shown,
    last-take_from m p h,
    last-take_from m (show_now j now p) h,
  )

  waiting-take_from :
      (m : List (Text × Waiting)) (p : NotificationPacer)
      → IsMap m
      → lookup k (take_from now m p).0.waiting
        ≡ left_after (due_for now (lookup k m)) (lookup k p.waiting)
  unfolding take_from lookup
  waiting-take_from [] p h = refl
  waiting-take_from ((j, w) ∷ m) p (fresh, h) = ground (
    arith,
    text_eq.beq_iff j k,
    lookup-erase j k p.waiting,
    waiting-take_from m p h,
    waiting-take_from m (show_now j now p) h,
  )

keys-take_from :
    (now : ℕ) (m : List (Text × Waiting)) (p : NotificationPacer)
    → IsMap p.waiting
    → IsMap (take_from now m p).0.waiting
unfolding take_from
keys-take_from now [] p h = h
keys-take_from now ((j, w) ∷ m) p h = elim (Bool-cases (ltb now w.due)) [
  | inl later ↦ rw later (keys-take_from now m p h)
  | inr due ↦ rw due (keys-take_from now m (show_now j now p) (erase-IsMap j p.waiting h))
]

pub cooldown-take_from :
    (now : ℕ) (m : List (Text × Waiting)) (p : NotificationPacer)
    → (take_from now m p).0.cooldown_ms ≡ p.cooldown_ms
unfolding take_from
cooldown-take_from now [] p = refl
cooldown-take_from now ((j, w) ∷ m) p =
    ground (arith, cooldown-take_from now m p, cooldown-take_from now m (show_now j now p))

-- What is kept waiting was waiting, and nothing was shown for it.
left_kept :
    (d : List DesktopNotification) (o : Option Waiting) (w : Waiting)
    → left_after d o ≡ some w
    → (o ≡ some w) × (d ≡ [])
left_kept [] o w h = (h, refl)
left_kept (n ∷ ns) o w h = cc

entries-IsNamed : (m : List (Text × Waiting)) → Each (λ k w. w.notification.key ≡ k) m → IsNamed m
entries-IsNamed [] h = tt
entries-IsNamed ((k, w) ∷ m) (p, h) = (p, entries-IsNamed m h)

pub IsNamed-entries : (p : NotificationPacer) → Inv p → IsNamed p.waiting
IsNamed-entries p v = entries-IsNamed p.waiting (
    Each-map (λ k w. lookup k p.waiting ≡ some w) (λ k w. w.notification.key ≡ k) p.waiting v.named
      (Each-entry p.waiting v.keys))

pub kept :
    (now : ℕ) (p : NotificationPacer) (k : Text) (w : Waiting)
    → Inv p
    → lookup k (take_from now p.waiting p).0.waiting ≡ some w
    → (lookup k p.waiting ≡ some w) × (due_for now (lookup k p.waiting) ≡ [])
kept now p k w v e =
    left_kept (due_for now (lookup k p.waiting)) (lookup k p.waiting) w
      (sym (waiting-take_from k now p.waiting p v.keys) ∙ e)

-- The invariant holds after what is due was taken.
pub take_due-Inv : (now : ℕ) (p : NotificationPacer) → Inv p → Inv (take_due now p).0
unfolding take_due
take_due-Inv now p v = record {
  keys = keys-take_from now p.waiting p v.keys;
  named = λ k w e. v.named k w (kept now p k w v e).0;
  paced = λ k w e.
      let (was, quiet) = kept now p k w v e in
      let (t, last, due) = v.paced k w was in
      (
        t,
        rw (last-take_from k now p.waiting p v.keys, quiet) last,
        due ∙ ap (λ c. t + c) (sym (cooldown-take_from now p.waiting p)),
      );
}

pub show_now-Inv : (key : Text) (now : ℕ) (p : NotificationPacer) → Inv p → Inv (show_now key now p)
show_now-Inv key now p v = record {
  keys = erase-IsMap key p.waiting v.keys;
  named = λ k w e. ground (arith, text_eq.beq_iff key k, lookup-erase key k p.waiting, v.named k w);
  paced = λ k w e. elim (Bool-cases (key == k)) [
    | inl same ↦ absurd (none-ne-some w (rw (lookup-erase key k p.waiting, same) at e))
    | inr other ↦
        rw (lookup-insert key k now p.last_shown, other)
          (v.paced k w (rw (lookup-erase key k p.waiting, other) at e))
  ];
}

pub put_off-Inv :
    (n : DesktopNotification) (t : ℕ) (p : NotificationPacer)
    → Inv p
    → lookup n.key p.last_shown ≡ some t
    → Inv (put_off n t p)
put_off-Inv n t p v last = record {
  keys = insert-IsMap n.key _ p.waiting v.keys;
  named = λ k w e. elim (Bool-cases (n.key == k)) [
    | inl same ↦
        subst (λ u. u.notification.key ≡ k)
          (some-injective _ _ (rw (lookup-insert n.key k _ p.waiting, same) at e))
          ((text_eq.beq_iff n.key k).0 same)
    | inr other ↦ v.named k w (rw (lookup-insert n.key k _ p.waiting, other) at e)
  ];
  paced = λ k w e. elim (Bool-cases (n.key == k)) [
    | inl same ↦ (
      t,
      subst (λ u. lookup u p.last_shown ≡ some t) ((text_eq.beq_iff n.key k).0 same) last,
      ap (λ u. u.due)
          (sym (some-injective _ _ (rw (lookup-insert n.key k _ p.waiting, same) at e))),
    )
    | inr other ↦ v.paced k w (rw (lookup-insert n.key k _ p.waiting, other) at e)
  ];
}

-- The invariant holds after an offer.
pub offer-Inv :
    (n : DesktopNotification) (now : ℕ) (p : NotificationPacer) → Inv p → Inv (offer n now p).0
unfolding offer
offer-Inv n now p v = elim (Option-cases (lookup n.key p.last_shown)) [
  | inl first ↦ rw first (show_now-Inv n.key now p v)
  | inr (t, e) ↦ rw e (elim (Bool-cases (ltb now (t + p.cooldown_ms))) [
    | inl soon ↦ rw soon (put_off-Inv n t p v e)
    | inr late ↦ rw late (show_now-Inv n.key now p v)
  ])
]

pub start-Inv : (cooldown_ms : ℕ) → Inv (start cooldown_ms)
start-Inv c = record {
  keys = tt;
  named = λ k w e. absurd (none-ne-some w (unfold lookup in e));
  paced = λ k w e. absurd (none-ne-some w (unfold lookup in e));
}

pub clear-Inv : (p : NotificationPacer) → Inv (clear p)
unfolding clear
clear-Inv p = record {
  keys = tt;
  named = λ k w e. absurd (none-ne-some w (unfold lookup in e));
  paced = λ k w e. absurd (none-ne-some w (unfold lookup in e));
}
