-- ===== src/Sync/Stream/Draining.antt =====
-- What is received once a stream direction is finished (aquic-core/src/sync/stream.rs).
use aquic.Base.{
  ℕ, ◌+◌, ◌≤◌, ◌<◌, ◌≡◌, refl, ap, ◌∙◌, ◌⊎◌, Bool, true, false, none, some, List, [], ◌∷◌, ◌++◌,
  arith, ◌==◌, done,
}
use aquic.Stream.Types.{Spec, Error, finish, Payload, is_fin, estimate}
use aquic.Sync.Mpsc.Unbounded.{Received, ok, empty, closed}
use aquic.Sync.Mpsc.Unbounded
use aquic.Sync.Event.{notify_all}
use aquic.Sync.Mpsc.Unbounded.Fifo.{fifo_lem}
use aquic.Sync.Mpsc.Weighted
use aquic.Sync.Mpsc.Weighted.Flow.{IsChannel, Released, recv_lem, send_lem}
use aquic.Sync.Mpmc.Oneshot
use aquic.Sync.Mpmc.Oneshot.Kept.{try_open}
use aquic.Sync.Stream.{
  Channel, Answer, ready, failed, close, close_answer, fail, settle, close_finish, after_send,
  send_item, after_recv, receive, recv, try_recv, item_rx_fallback_error,
}
use aquic.Sync.Stream.Closing.{
  IsClosed, send_full, recv-closed, try_recv-closed, Reach, IsClosed-stays,
}

not_zero : (n : ℕ) → 0 < n → (n == 0) ≡ false
not_zero n p = ground arith

items-end :
    {T : Type 0} (debug : Bool) (items : Weighted.Channel T)
    → items.queue.receiver_exists ≡ true
    → items.queue.deque ≡ []
    → items.queue.senders ≡ 0
    → Weighted.try_recv debug items ≡ done (items, closed)
unfolding Weighted.try_recv Weighted.received
items-end {T} debug items exists none_left no_sender =
    let at_end : Unbounded.try_recv items.queue ≡ (items.queue, closed) =
      (fifo_lem items.queue exists).2 none_left ∙ rw no_sender refl in
    ap
      (λ (r : Unbounded.Shared (T × ℕ) × Received (T × ℕ)).
        Weighted.received debug (record items { queue = r.0 }) r.1)
      at_end

module _ {S : Spec} where
  close-closed :
      (c : Channel S) (e new : Error S)
      → IsClosed e c
      → 0 < c.errors.receiver_count
      → close c new ≡ (c, e)
  unfolding close close_answer
  close-closed c e new h some_receiver =
      ap
        (λ (r : Oneshot.Shared (Error S) × Oneshot.Sent (Error S)).
          (record c { errors = r.0 }, close_answer new r.1))
        (send_full c.errors e new h some_receiver)

  close_finish-closed :
      {A : Type 0} (c : Channel S) (fin : Bool) (value : A)
      → IsClosed finish c
      → 0 < c.errors.receiver_count
      → close_finish c fin value ≡ (c, ready value)
  unfolding close_finish
  close_finish-closed c false value h some_receiver = refl
  close_finish-closed c true value h some_receiver =
      ap (settle value) (close-closed c finish finish h some_receiver)

  receive-item :
      (debug : Bool) (c : Channel S) (items : Weighted.Channel (Payload S.StreamItem))
      (payload : Payload S.StreamItem)
      → IsClosed finish c
      → 0 < c.errors.receiver_count
      → Weighted.try_recv debug c.items ≡ done (items, ok payload)
      → receive debug c ≡ done (record c { items = items }, ready payload)
  unfolding receive after_recv
  receive-item debug c items payload h some_receiver e = rw e (
      ap done
        (close_finish-closed (record c { items = items }) (is_fin payload) payload h some_receiver))

  receive-end :
      (debug : Bool) (c : Channel S)
      → IsClosed finish c
      → 0 < c.errors.receiver_count
      → Weighted.try_recv debug c.items ≡ done (c.items, closed)
      → receive debug c ≡ done (c, failed finish)
  unfolding receive after_recv
  receive-end debug c h some_receiver e = rw e (
      ap (λ (r : Channel S × Error S). done (r.0, failed r.1))
        (close-closed c finish item_rx_fallback_error h some_receiver))

  -- After the direction is finished, `recv` still hands out the queued items in order, and answers
  -- `Finish` once none is left and the sender is dropped. But `try_recv` answers `Finish` at once, and
  -- leaves the items.
  pub drain_lem :
      (debug : Bool) (c : Channel S)
      → IsClosed finish c
      → 0 < c.errors.receiver_count
      → IsChannel c.items
      → ((payload : Payload S.StreamItem) (weight : ℕ) (rest : List (Payload S.StreamItem × ℕ))
          → c.items.queue.deque ≡ (payload, weight) ∷ rest
          → (items : Weighted.Channel (Payload S.StreamItem)) × (recv debug c
              ≡ done (record c { items = items }, ready payload))
            × Released c.items rest weight items)
        × (c.items.queue.deque ≡ []
            → c.items.queue.senders ≡ 0
            → recv debug c ≡ done (c, failed finish))
        × (try_recv debug c ≡ done (c, failed finish))
  drain_lem debug c h some_receiver v = (
    λ payload weight rest first.
        let (items, e, r) = recv_lem debug c.items payload weight rest v first in
        (
          items,
          recv-closed debug c finish h ∙ receive-item debug c items payload h some_receiver e,
          r,
        ),
    λ none_left no_sender.
        recv-closed debug c finish h
        ∙ receive-end debug c h some_receiver
            (items-end debug c.items v.exists none_left no_sender),
    try_recv-closed debug c finish h
        ∙ ap (λ (r : Channel S × Error S). done (r.0, failed r.1))
            (close-closed c finish finish h some_receiver),
  )

  unfoldable pub finished : Channel S → Weighted.Channel (Payload S.StreamItem) → Channel S
  finished c items = record c {
    items = items;
    errors = record c.errors { container = some finish; event = notify_all c.errors.event };
  }

  finished-IsClosed :
      (c : Channel S) (items : Weighted.Channel (Payload S.StreamItem))
      → IsClosed finish (finished c items)
  unfolding finished
  finished-IsClosed c items = refl

  close-open :
      (c : Channel S) (items : Weighted.Channel (Payload S.StreamItem))
      → c.errors.container ≡ none
      → 0 < c.errors.receiver_count
      → close (record c { items = items }) finish ≡ (finished c items, finish)
  unfolding close close_answer Oneshot.send finished
  close-open c items e h = simp (not_zero c.errors.receiver_count h, e) refl

  pub send_item-open :
      (c : Channel S) (payload : Payload S.StreamItem)
      (items : Weighted.Channel (Payload S.StreamItem))
      → c.errors.container ≡ none
      → 0 < c.errors.sender_count
      → 0 < c.errors.receiver_count
      → Weighted.send_round c.items payload (estimate S payload) ≡ (items, Weighted.sent)
      → is_fin payload ≡ true
      → send_item c payload ≡ (finished c items, ready tt)
  unfolding send_item after_send close_finish
  send_item-open c payload items open_yet some_sender some_receiver e fin =
      rw (try_open c.errors open_yet some_sender, send_item)
        (rw (e, fin) (ap (settle tt) (close-open c items open_yet some_receiver)))

  -- Sending a payload with the `FIN` flag on an open direction, with room for it, succeeds and queues
  -- the payload. From then on, whatever happens, no `try_recv` hands out an item.
  pub finish_hides_items :
      (debug : Bool) (c d : Channel S) (payload : Payload S.StreamItem)
      → c.errors.container ≡ none
      → 0 < c.errors.sender_count
      → 0 < c.errors.receiver_count
      → IsChannel c.items
      → (c.items.occupation ≡ 0) ⊎ (c.items.occupation + estimate S payload ≤ c.items.bound)
      → is_fin payload ≡ true
      → Reach (send_item c payload).0 d
      → ((send_item c payload).1 ≡ ready tt)
        × ((send_item c payload).0.items.queue.deque
            ≡ c.items.queue.deque ++ (payload, estimate S payload) ∷ [])
        × (try_recv debug d ≡ done (fail d finish))
  unfolding finished
  finish_hides_items debug c d payload open_yet some_sender some_receiver v room fin r =
      let (items, tried, e, a) = (send_lem c.items payload (estimate S payload) v).0 room in
      let done_by = send_item-open c payload items open_yet some_sender some_receiver e fin in
      (
        ap (λ (r : Channel S × Answer S (Unit {0})). r.1) done_by,
        ap (λ (r : Channel S × Answer S (Unit {0})). r.0.items.queue.deque) done_by ∙ a.queued,
        try_recv-closed debug d finish (
            IsClosed-stays (send_item c payload).0 d finish r (
              ap (λ (r : Channel S × Answer S (Unit {0})). r.0.errors.container) done_by
              ∙ finished-IsClosed c items)),
      )
