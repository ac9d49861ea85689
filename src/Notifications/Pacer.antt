-- ===== src/Notifications/Pacer.antt =====
-- `NotificationPacer`: the first notification for a key shows at once, then at most one per cooldown.
-- Times are milliseconds of a clock that starts at zero.
pub mod Laws
pub mod Spacing
use disquisition.Common.{
  ℕ, ◌+◌, ◌≡◌, Bool, true, false, Option, none, some, List, [], ◌∷◌, Text, text_eq, Eq, ◌==◌, ltb,
  leb, min, if◌then◌else◌,
}
use disquisition.Common.Maps.{lookup, insert, erase}

pub record DesktopNotification : Type 0 where
  pub key : Text
  pub title : Text
  pub body : Text

pub record Waiting : Type 0 where
  pub notification : DesktopNotification
  pub due : ℕ

pub record NotificationPacer : Type 0 where
  pub cooldown_ms : ℕ
  pub last_shown : List (Text × ℕ)
  pub waiting : List (Text × Waiting)

abbrev pub notification_cooldown_ms : ℕ
notification_cooldown_ms = 5000

abbrev pub start : ℕ → NotificationPacer
start cooldown_ms = record { cooldown_ms = cooldown_ms; last_shown = []; waiting = [] }

-- A notification is shown now, and nothing waits for its key.
abbrev pub show_now : Text → ℕ → NotificationPacer → NotificationPacer
show_now key now p = record p {
  last_shown = insert key now p.last_shown;
  waiting = erase key p.waiting;
}

abbrev pub put_off : DesktopNotification → ℕ → NotificationPacer → NotificationPacer
put_off n last p = record p {
  waiting = insert n.key (record { notification = n; due = last + p.cooldown_ms }) p.waiting;
}

abbrev offer_found :
    DesktopNotification → ℕ → NotificationPacer → Option ℕ → NotificationPacer × Bool
offer_found n now p none = (show_now n.key now p, true)
offer_found n now p (some last) =
    if ltb now (last + p.cooldown_ms)
    then (put_off n last p, false)
    else (show_now n.key now p, true)

unfoldable pub offer : DesktopNotification → ℕ → NotificationPacer → NotificationPacer × Bool
offer n now p = offer_found n now p (lookup n.key p.last_shown)

-- The walk over the waiting entries, with those not yet seen.
unfoldable pub take_from :
    ℕ → List (Text × Waiting) → NotificationPacer → NotificationPacer × List DesktopNotification
take_from now [] p = (p, [])
take_from now ((key, w) ∷ m) p =
    let later = take_from now m p in
    let shown = take_from now m (show_now key now p) in
    if ltb now w.due then later else (shown.0, w.notification ∷ shown.1)

unfoldable pub take_due : ℕ → NotificationPacer → NotificationPacer × List DesktopNotification
take_due now p = take_from now p.waiting p

-- The earliest time at which something is due.
unfoldable pub earliest : Option ℕ → List (Text × Waiting) → Option ℕ
earliest next [] = next
earliest none ((key, w) ∷ m) = earliest (some w.due) m
earliest (some next) ((key, w) ∷ m) = earliest (some (if ltb w.due next then w.due else next)) m

unfoldable pub next_due : NotificationPacer → Option ℕ
unfolding earliest
next_due p = earliest none p.waiting

unfoldable pub clear : NotificationPacer → NotificationPacer
clear p = record p { last_shown = []; waiting = [] }
