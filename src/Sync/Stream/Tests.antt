-- ===== src/Sync/Stream/Tests.antt =====
-- Runs of the stream channel (aquic-core/src/sync/stream.rs).
use aquic.Base.{ℕ, ◌≡◌, refl, inl, true, false, some, List, [], ◌∷◌, arith, done}
use aquic.Stream.Types.{Spec, finish, reset, connection, Payload, item, last, fin_only}
use aquic.Sync.Mpsc.Unbounded
use aquic.Sync.Mpsc.Weighted
use aquic.Sync.Mpsc.Weighted.Flow.{IsChannel, Released}
use aquic.Sync.Mpmc.Oneshot
use aquic.Sync.Stream.{
  Channel, ready, failed, channel, fail, close, send_item, recv, try_recv, drop_sender,
}
use aquic.Sync.Stream.Closing.{IsClosed, IsClosed-stays, more, here, closes, drops_sender}
use aquic.Sync.Stream.Draining.{drain_lem, finish_hides_items}

-- Items and codes are numbers, and an item weighs what it is.
abbrev numbers : Spec
numbers = record {
  StreamItem = ℕ;
  StreamCode = ℕ;
  StreamEncoderError = ℕ;
  StreamDecoderError = ℕ;
  estimate = λ n. n;
}

abbrev fresh : Channel numbers
fresh = channel 10 Oneshot.channel Oneshot.channel

abbrev stopped : Channel numbers
stopped = record fresh { errors = record Oneshot.channel { container = some (reset 3) } }

IsClosed-stays_example : IsClosed (reset 3) (drop_sender false (close stopped connection).0)
IsClosed-stays_example =
    IsClosed-stays stopped _ (reset 3) (more (more here (closes connection)) (drops_sender false))
      refl

-- An item and the end are queued, and the direction is finished.
abbrev finished_early : Channel numbers
finished_early = record fresh {
  items = record (Weighted.channel 10) {
    queue = record Unbounded.channel { deque = (item 4, 4) ∷ (fin_only, 0) ∷ []; senders = 0 };
    occupation = 4;
  };
  errors = record Oneshot.channel { container = some finish };
}

early-IsChannel : IsChannel finished_early.items
early-IsChannel = record {
  exists = refl;
  occupied = refl;
  within = inl (omega arith);
  positive = omega arith;
  small = omega arith;
}

drain_lem_example :
    ((payload : Payload ℕ) (weight : ℕ) (rest : List (Payload ℕ × ℕ))
      → finished_early.items.queue.deque ≡ (payload, weight) ∷ rest
      → (items : Weighted.Channel (Payload ℕ)) × (recv true finished_early
          ≡ done (record finished_early { items = items }, ready payload))
        × Released finished_early.items rest weight items)
    × (finished_early.items.queue.deque ≡ []
        → finished_early.items.queue.senders ≡ 0
        → recv true finished_early ≡ done (finished_early, failed finish))
    × (try_recv true finished_early ≡ done (finished_early, failed finish))
drain_lem_example = drain_lem true finished_early refl (omega arith) early-IsChannel

fresh-IsChannel : IsChannel fresh.items
fresh-IsChannel = record {
  exists = refl;
  occupied = refl;
  within = inl (omega arith);
  positive = omega arith;
  small = omega arith;
}

finish_hides_items_example :
    ((send_item fresh (last 7)).1 ≡ ready tt)
    × ((send_item fresh (last 7)).0.items.queue.deque ≡ (last 7, 7) ∷ [])
    × (try_recv false (send_item fresh (last 7)).0
        ≡ done (fail (send_item fresh (last 7)).0 finish))
finish_hides_items_example =
    finish_hides_items false fresh (send_item fresh (last 7)).0 (last 7) refl (omega arith)
      (omega arith) fresh-IsChannel (inl refl) refl here
