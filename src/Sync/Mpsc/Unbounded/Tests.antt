-- ===== src/Sync/Mpsc/Unbounded/Tests.antt =====
-- Runs of the unbounded channel (aquic-core/src/sync/mpsc/unbounded/st.rs).
use aquic.Base.{ℕ, ◌≡◌, refl, true, false, some, List, [], ◌∷◌, ◌++◌, ◌==◌, if◌then◌else◌}
use aquic.Sync.Event.{is_linked}
use aquic.Sync.Mpsc.Unbounded.{
  Shared, ok, empty, closed, channel, send, drop_sender, try_recv, poll_recv, drop_receiver,
}
use aquic.Sync.Mpsc.Unbounded.Fifo.{fifo_lem, pending_lem}

-- Two items are queued.
abbrev two_items : Shared ℕ
two_items = record channel { deque = 7 ∷ 8 ∷ [] }

fifo_lem_example :
    ((value : ℕ)
      → (s' : Shared ℕ) × (send two_items value ≡ (s', true))
        × (s'.deque ≡ two_items.deque ++ value ∷ []))
    × ((value : ℕ) (rest : List ℕ)
        → two_items.deque ≡ value ∷ rest
        → (cx : ℕ)
        → (try_recv two_items ≡ (record two_items { deque = rest }, ok value))
          × (poll_recv two_items cx ≡ (record two_items { deque = rest }, ok value)))
    × (two_items.deque ≡ [] → try_recv two_items ≡ (two_items, if 1 == 0 then closed else empty))
    × ((value : ℕ) → send (drop_receiver two_items) value ≡ (drop_receiver two_items, false))
fifo_lem_example = fifo_lem two_items refl

abbrev waiting : Shared ℕ
waiting = record channel { receiver_waker = some 5 }

pending_lem_example :
    ((value : ℕ)
      → (t : Shared ℕ) × (send waiting value ≡ (t, true))
        × (is_linked 5 t.woken ≡ true)
        × ((try_recv t).1 ≡ ok value))
    × (two_items.senders ≡ 1
        → (is_linked 5 (drop_sender waiting).woken ≡ true)
          × ((try_recv (drop_sender waiting)).1 ≡ closed))
unfolding poll_recv
pending_lem_example = pending_lem channel waiting 5 refl refl
