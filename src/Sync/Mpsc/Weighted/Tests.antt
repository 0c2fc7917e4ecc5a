-- ===== src/Sync/Mpsc/Weighted/Tests.antt =====
-- Runs of the weighted channel (aquic-core/src/sync/mpsc/weighted).
use aquic.Base.{ℕ, ◌+◌, ◌≤◌, ◌<◌, ◌≡◌, refl, ◌⊎◌, inl, true, [], ◌∷◌, arith, done}
use aquic.Sync.Event.{EventState, EventListener, listen, poll, notify_all, is_linked}
use aquic.Sync.Event.Invariant.{IsEvent, operations_keep-IsEvent}
use aquic.Sync.Event
use aquic.Sync.Mpsc.Unbounded.{Received, ok}
use aquic.Sync.Mpsc.Unbounded
use aquic.Sync.Mpsc.Weighted.{Channel, sent, full, waits, channel, send_round, try_send, try_recv}
use aquic.Sync.Mpsc.Weighted.Flow.{
  IsChannel, Admitted, Released, send_lem, recv_lem, waiting_sender_lem,
}

-- The bound is 10; items of weight 4 and 5 are queued, and one listener was made.
abbrev busy : Channel ℕ
busy = record (channel 10) {
  queue = record Unbounded.channel { deque = (7, 4) ∷ (8, 5) ∷ [] };
  occupation = 9;
  event = (listen Event.new).0;
}

busy-IsChannel : IsChannel busy
busy-IsChannel = record {
  exists = refl;
  occupied = refl;
  within = inl (omega arith);
  positive = omega arith;
  small = omega arith;
}

send_lem_example :
    ((busy.occupation ≡ 0) ⊎ (9 + 1 ≤ 10)
      → (c' : Channel ℕ) × (try_send busy 3 1 ≡ (c', sent))
        × (send_round busy 3 1 ≡ (c', sent))
        × Admitted busy 3 1 c')
    × (0 < 9
        → 10 < 9 + 1
        → (try_send busy 3 1 ≡ (busy, full))
          × (send_round busy 3 1
              ≡ (record busy { event = (listen busy.event).0 }, waits (listen busy.event).1)))
send_lem_example = send_lem busy 3 1 busy-IsChannel

recv_lem_example :
    (c' : Channel ℕ) × (try_recv true busy ≡ done (c', ok 7)) × Released busy ((8, 5) ∷ []) 4 c'
recv_lem_example = recv_lem true busy 7 4 ((8, 5) ∷ []) busy-IsChannel refl

abbrev listener : EventListener
listener = record { target_epoch = 0; waiter = 0 }

busy-IsEvent : IsEvent busy.event
busy-IsEvent = (operations_keep-IsEvent.1 Event.new operations_keep-IsEvent.0).0

waiting_sender_lem_example :
    (c' : Channel ℕ) × (try_recv true (record busy { event = (poll busy.event listener 6).0 })
      ≡ done (c', ok 7))
    × (is_linked 6 c'.event.woken ≡ true)
    × ((poll c'.event listener 6).1 ≡ true)
unfolding listen poll
waiting_sender_lem_example =
    waiting_sender_lem true busy listener 6 6 7 4 ((8, 5) ∷ []) busy-IsChannel busy-IsEvent
      (omega arith) refl refl (omega arith)
