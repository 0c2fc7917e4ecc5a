-- ===== src/Sync/Stream/Receiving.antt =====
-- Receiving from a stream direction that is open (aquic-core/src/sync/stream.rs).
use aquic.Base.{
  ℕ, ◌<◌, ◌≡◌, refl, ap, ◌∙◌, Bool, false, none, List, [], ◌∷◌, arith, ◌==◌, done, ◌>>=◌,
}
use aquic.Stream.Types.{Spec, Payload, is_fin}
use aquic.Sync.Mpsc.Unbounded.{Received, empty}
use aquic.Sync.Mpsc.Unbounded
use aquic.Sync.Mpsc.Unbounded.Fifo.{fifo_lem}
use aquic.Sync.Mpsc.Weighted
use aquic.Sync.Mpsc.Weighted.Flow.{IsChannel, recv_lem}
use aquic.Sync.Stream.{Channel, ready, pending, close_finish, after_recv, receive, recv, try_recv}
use aquic.Sync.Mpmc.Oneshot.Kept.{try_open}

module _ {S : Spec} where
  -- The direction is open, and its sender is there.
  pub record IsOpen (c : Channel S) : Type 0 where
    pub items : IsChannel c.items
    pub unclosed : c.errors.container ≡ none
    pub some_error_sender : 0 < c.errors.sender_count
    pub some_sender : 0 < c.items.queue.senders

  -- Whether it blocks or not, an open channel is received from.
  pub open-receives :
      (debug : Bool) (c : Channel S)
      → IsOpen c
      → (recv debug c ≡ receive debug c) × (try_recv debug c ≡ receive debug c)
  unfolding recv try_recv
  open-receives debug c o =
      let no_error = try_open c.errors o.unclosed o.some_error_sender in
      (rw (no_error, recv) refl, rw (no_error, try_recv) refl)

  pub receive-first :
      (debug : Bool) (c : Channel S) (payload : Payload S.StreamItem) (weight : ℕ)
      (rest : List (Payload S.StreamItem × ℕ))
      → IsOpen c
      → c.items.queue.deque ≡ (payload, weight) ∷ rest
      → is_fin payload ≡ false
      → (c' : Channel S) × (receive debug c ≡ done (c', ready payload))
        × IsOpen c'
        × (c'.items.queue.deque ≡ rest)
  unfolding receive after_recv close_finish
  receive-first debug c payload weight rest o first more_to_come =
      let (items, e, r) = recv_lem debug c.items payload weight rest o.items first in
      (
        record c { items = items },
        rw e (simp more_to_come refl),
        record {
          items = r.sound;
          unclosed = o.unclosed;
          some_error_sender = o.some_error_sender;
          some_sender = omega (arith, r.senders, o.some_sender);
        },
        r.queued,
      )

  pub receive-nothing :
      (debug : Bool) (c : Channel S)
      → IsOpen c
      → c.items.queue.deque ≡ []
      → receive debug c ≡ done (c, pending)
  unfolding receive after_recv Weighted.try_recv Weighted.received
  receive-nothing debug c o none_left =
      let at_end : Unbounded.try_recv c.items.queue ≡ (c.items.queue, empty) =
        (fifo_lem c.items.queue o.items.exists).2 none_left
        ∙ rw (some_left c.items.queue.senders o.some_sender) refl in
      ap
        (λ (r : Unbounded.Shared (Payload S.StreamItem × ℕ) × Received (Payload S.StreamItem × ℕ)).
          Weighted.received debug (record c.items { queue = r.0 }) r.1
          >>= (λ x. done (after_recv c x)))
        at_end
    where
      some_left : (n : ℕ) → 0 < n → (n == 0) ≡ false
      some_left n h = ground arith
