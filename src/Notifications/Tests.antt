-- ===== src/Notifications/Tests.antt =====
-- The theorems on notifications at concrete inputs, and runs of the code.
use disquisition.Common.{◌≡◌, refl, true, false, none, [], ◌∷◌, arith, text_eq, text_beq, codes}
use disquisition.Common.Maps.{lookup, insert, erase}
use disquisition.Notifications.Rules.{NotificationSettings, Stored, mentions_only, by_name, load}
use disquisition.Notifications.Pacer.{
  DesktopNotification, NotificationPacer, start, show_now, offer, take_due, take_from,
}
use disquisition.Notifications.Pacer.Laws.{shown_for, start-Inv, show_now-Inv}
use disquisition.Notifications.Pacer.Spacing
use disquisition.Notifications.Pacer.Spacing.{show_times, Spaced, show_times-Spaced, take_due-offer}
use disquisition.Notifications.Center.{make}
use disquisition.Notifications.Center.Laws.{Inv, make-Inv}
use disquisition.Notifications.Center.Events.{
  Event, message, handle, handle_all, handle_all-Inv, handle_muted,
}

abbrev nothing_stored : Stored
nothing_stored = record { muted = none; level = none; suppress_everyone = none; activity = none }

abbrev loud : NotificationSettings
loud = record { muted = false; level = mentions_only; suppress_everyone = true; activity = true }

abbrev hello : DesktopNotification
hello = record { key = codes "message/ann"; title = codes "ann"; body = codes "hello" }

abbrev bye : DesktopNotification
bye = record hello { body = codes "bye" }

show_times-Spaced_example : Spaced 5000 none (
    show_times
      (codes "message/ann")
      ((100, Spacing.offered hello) ∷ (200, Spacing.offered bye) ∷ (6000, Spacing.timer) ∷ [])
      (start 5000))
unfolding lookup
show_times-Spaced_example =
    show_times-Spaced (codes "message/ann")
      ((100, Spacing.offered hello) ∷ (200, Spacing.offered bye) ∷ (6000, Spacing.timer) ∷ [])
      (start 5000) (start-Inv 5000)

-- The second text is shown when the timer runs.
shown_twice :
    show_times
      (codes "message/ann")
      ((100, Spacing.offered hello) ∷ (200, Spacing.offered bye) ∷ (6000, Spacing.timer) ∷ [])
      (start 5000)
    ≡ 100 ∷ 6000 ∷ []
unfolding offer take_due take_from lookup insert erase text_beq
shown_twice = refl

abbrev after_hello : NotificationPacer
after_hello = show_now (codes "message/ann") 100 (start 5000)

take_due-offer_example :
    ((offer bye 200 after_hello).1 ≡ false)
    × (shown_for (codes "message/ann") (take_due 6000 (offer bye 200 after_hello).0).1 ≡ bye ∷ [])
take_due-offer_example =
    take_due-offer bye 200 100 6000 after_hello
      (show_now-Inv (codes "message/ann") 100 (start 5000) (start-Inv 5000))
      (unfold lookup insert text_beq in refl) (omega arith)

abbrev a_message : Event
a_message = message false 10 20 (codes "ann") (codes "hello") by_name

handle_all-Inv_example :
    Inv (handle_all (λ t. t) (a_message ∷ a_message ∷ []) (make nothing_stored))
handle_all-Inv_example = handle_all-Inv (λ t. t) nothing_stored (a_message ∷ a_message ∷ [])

handle_muted_example :
    ((handle (λ t. t) a_message (make nothing_stored)).effects ≡ (make nothing_stored).effects)
    × ((handle (λ t. t) a_message (make nothing_stored)).settings ≡ (make nothing_stored).settings)
handle_muted_example =
    handle_muted (λ t. t) a_message (make nothing_stored) (make-Inv nothing_stored)
      (unfold make load in refl) refl
