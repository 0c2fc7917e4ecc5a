-- ===== src/Stream/Outgoing/Tests.antt =====
-- Runs of an outgoing stream (aquic-core/src/stream/outgoing.rs).
use aquic.Base.{
  ℕ, ◌≡◌, refl, inl, true, false, none, some, List, [], ◌∷◌, ◌++◌, arith, leb, ◌==◌, if◌then◌else◌,
  length, done, panic,
}
use aquic.Stream.Types.{Spec, encoder, finish, reset, hang_up, item, last, fin_only}
use aquic.Stream.Bridge.{terminate, unexpected_error}
use aquic.Sync.Mpsc.Unbounded
use aquic.Sync.Mpsc.Weighted
use aquic.Sync.Mpsc.Weighted.Flow.{IsChannel}
use aquic.Sync.Mpmc.Oneshot
use aquic.Sync.Stream.{Channel, failed, channel}
use aquic.Sync.Stream.Receiving.{IsOpen}
use aquic.Stream.Outgoing.{
  EncoderApi, Outgoing, asks, returns, new, io_round, recv_from_app, poll_write, close,
}
use aquic.Stream.Endings.{Ended}
use aquic.Stream.Outgoing.Closing.{write_ends}
use aquic.Stream.Outgoing.Batches.{batch}
use aquic.Stream.Outgoing.Rounds.{round_lem}
use aquic.Stream.Outgoing.Ended.{finished_early_lem}

-- Items and codes are numbers, and an item weighs what it is.
abbrev numbers : Spec
numbers = record {
  StreamItem = ℕ;
  StreamCode = ℕ;
  StreamEncoderError = ℕ;
  StreamDecoderError = ℕ;
  estimate = λ n. n;
}

-- An encoder that collects numbers, is flushed at two of them, and refuses 13.
abbrev pairs : EncoderApi numbers
pairs = record {
  Encoder = List ℕ;
  encode = λ enc payload. elim payload [
    | item n ↦ (enc ++ n ∷ [], if n == 13 then some n else none)
    | last n ↦ (enc ++ n ∷ [], none)
    | fin_only ↦ (enc, none)
  ];
  should_flush = λ enc. leb 2 (length enc);
  stream_code = λ n. n;
}

-- Three items are queued.
abbrev three_items : Channel numbers
three_items = record (channel {S = numbers} 10 Oneshot.channel Oneshot.channel) {
  items = record (Weighted.channel 10) {
    queue = record Unbounded.channel { deque = (item 4, 4) ∷ (item 1, 1) ∷ (item 2, 2) ∷ [] };
    occupation = 7;
  };
}

three_items-IsChannel : IsChannel three_items.items
three_items-IsChannel = record {
  exists = refl;
  occupied = refl;
  within = inl (omega arith);
  positive = omega arith;
  small = omega arith;
}

abbrev writer : Outgoing numbers pairs
writer = new [] three_items

three_items-IsOpen : IsOpen three_items
three_items-IsOpen = record {
  items = three_items-IsChannel;
  unclosed = refl;
  some_error_sender = omega arith;
  some_sender = omega arith;
}

abbrev finished_writer : Outgoing numbers pairs
finished_writer =
    new [] (record three_items { errors = record Oneshot.channel { container = some finish } })

abbrev reset_writer : Outgoing numbers pairs
reset_writer =
    new [] (record three_items { errors = record Oneshot.channel { container = some (reset 3) } })

batch_test : batch pairs [] three_items.items.queue.deque ≡ (4 ∷ 1 ∷ [], none, (item 2, 2) ∷ [])
batch_test = refl

round_lem_example :
    (let r = batch pairs [] three_items.items.queue.deque in
      (r.1 ≡ none
        → (s' : Outgoing numbers pairs) × (io_round true writer ≡ done (s', asks r.0))
          × (s'.encoder ≡ none)
          × (s'.items.items.queue.deque ≡ r.2))
      × ((e : ℕ)
          → r.1 ≡ some e
          → (s' : Outgoing numbers pairs) × (io_round true writer
              ≡ done (s', returns (some (encoder e))))
            × (s'.items.items.queue.deque ≡ r.2)))
round_lem_example =
    round_lem true writer [] (item 4) 4 ((item 1, 1) ∷ (item 2, 2) ∷ []) three_items-IsOpen refl
      refl refl (refl, (refl, (refl, tt)))

finished_early_lem_example :
    (recv_from_app true finished_writer ≡ panic)
    × ((s' : Outgoing numbers pairs) × (recv_from_app false finished_writer
          ≡ done (s', failed (hang_up unexpected_error)))
        × (s'.items.items.queue.deque ≡ (item 1, 1) ∷ (item 2, 2) ∷ []))
finished_early_lem_example =
    finished_early_lem finished_writer [] (item 4) 4 ((item 1, 1) ∷ (item 2, 2) ∷ []) refl
      (omega arith) three_items-IsChannel refl refl refl refl refl refl

-- The application reset the stream with the code 3, and the task answers it.
write_ends_example :
    (poll_write none reset_writer ≡ some (reset 3))
    × ((s' : Outgoing numbers pairs) × (close true reset_writer (reset 3) ≡ done s')
        × Ended [] s'.items s'.commands (reset 3) (terminate 3 ∷ []))
write_ends_example = (
  (write_ends true reset_writer (reset 3) (omega arith) (omega arith)).0 refl (omega arith) refl
      refl,
  ((write_ends true reset_writer (reset 3) (omega arith) (omega arith)).1 refl).0 refl,
)
