-- ===== src/Sync/Dgram/Open.antt =====
-- A direction of datagrams that is open (aquic-core/src/sync/dgram.rs).
use aquic.Base.{
  ℕ, ◌<◌, ◌≡◌, refl, ap, ◌∙◌, Bool, false, none, List, [], ◌∷◌, arith, ◌==◌, done, ◌>>=◌,
}
use aquic.Sync.Mpsc.Unbounded.{Received, empty}
use aquic.Sync.Mpsc.Unbounded
use aquic.Sync.Mpsc.Unbounded.Fifo.{fifo_lem}
use aquic.Sync.Mpsc.Weighted
use aquic.Sync.Mpsc.Weighted.Flow.{IsChannel, recv_lem}
use aquic.Sync.Mpmc.Oneshot.Kept.{try_open}
use aquic.Sync.Dgram.{Channel, ready, pending, error, after_recv, recv}

-- A channel that nothing closed and where a sender of errors is there
pub record IsOpen {T : Type 0} (c : Channel T) : Type 0 where
  pub items : IsChannel c.items
  pub unclosed : c.errors.container ≡ none
  pub some_sender : 0 < c.errors.sender_count

module _ {T : Type 0} where
  pub no_error : (c : Channel T) → IsOpen c → error c ≡ none
  no_error c o = rw (try_open c.errors o.unclosed o.some_sender, error) refl

  pub recv-first :
      (debug : Bool) (c : Channel T) (item : T) (weight : ℕ) (rest : List (T × ℕ))
      → IsOpen c
      → c.items.queue.deque ≡ (item, weight) ∷ rest
      → (c' : Channel T) × (recv debug c ≡ done (c', ready item))
        × IsOpen c'
        × (c'.items.queue.deque ≡ rest)
        × (c'.items.queue.senders ≡ c.items.queue.senders)
  unfolding recv after_recv
  recv-first debug c item weight rest o first =
      let (items, e, r) = recv_lem debug c.items item weight rest o.items first in
      (
        record c { items = items },
        rw (no_error c o, recv) (rw e refl),
        record { items = r.sound; unclosed = o.unclosed; some_sender = o.some_sender },
        r.queued,
        r.senders,
      )

  pub recv-nothing :
      (debug : Bool) (c : Channel T)
      → IsOpen c
      → c.items.queue.deque ≡ []
      → 0 < c.items.queue.senders
      → recv debug c ≡ done (c, pending)
  unfolding recv after_recv Weighted.try_recv Weighted.received
  recv-nothing debug c o none_left some_sender =
      let at_end : Unbounded.try_recv c.items.queue ≡ (c.items.queue, empty) =
        (fifo_lem c.items.queue o.items.exists).2 none_left
        ∙ rw (some_left c.items.queue.senders some_sender) refl in
      rw (no_error c o, recv)
        (ap
          (λ (r : Unbounded.Shared (T × ℕ) × Received (T × ℕ)).
            Weighted.received debug (record c.items { queue = r.0 }) r.1
            >>= (λ x. done (after_recv c x)))
          at_end)
    where
      some_left : (n : ℕ) → 0 < n → (n == 0) ≡ false
      some_left n h = ground arith
