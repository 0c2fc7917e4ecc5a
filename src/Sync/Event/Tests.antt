-- ===== src/Sync/Event/Tests.antt =====
-- Runs of the event (aquic-core/src/sync/util/event.rs).
use aquic.Base.{◌≡◌, true, arith, refl}
use aquic.Sync.Event.{EventState, EventListener, new, listen, poll, notify_all, drop, is_linked}
use aquic.Sync.Event.Invariant.{
  IsEvent, listens, drops, here, operations_keep-IsEvent, no_lost_wakeup,
}

abbrev one : EventState
one = (listen new).0

abbrev listener : EventListener
listener = record { target_epoch = 0; waiter = 0 }

one-IsEvent : IsEvent one
one-IsEvent = (operations_keep-IsEvent.1 new operations_keep-IsEvent.0).0

-- The other listener is made and dropped between the poll with the waker 5 and the notification.
abbrev later : EventState
later = drop (listen (poll one listener 5).0).0 (record { target_epoch = 0; waiter = 1 })

no_lost_wakeup_example :
    (is_linked 5 (notify_all later).woken ≡ true) × ((poll (notify_all later) listener 6).1 ≡ true)
unfolding listen poll
no_lost_wakeup_example =
    no_lost_wakeup one later listener 5 6 one-IsEvent (omega arith) refl
      (listens (drops (record { target_epoch = 0; waiter = 1 }) (omega arith) here))
