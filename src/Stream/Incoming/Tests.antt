-- ===== src/Stream/Incoming/Tests.antt =====
-- Runs of an incoming stream (aquic-core/src/stream/incoming.rs).
use aquic.Base.{
  ℕ, ◌≡◌, refl, inl, true, false, none, some, List, [], ◌∷◌, arith, ◌==◌, if◌then◌else◌, done,
}
use aquic.Stream.Types.{Spec, stop, item, fin_only}
use aquic.Stream.Bridge.{accepted, terminate}
use aquic.Sync.Mpmc.Oneshot
use aquic.Sync.Stream.{Channel, channel}
use aquic.Sync.Stream.Sending.{IsSendable}
use aquic.Stream.Endings.{Ended}
use aquic.Stream.Incoming.{
  decoded, starved, DecoderApi, Incoming, asks, new, io_round, answered, io_loop, poll_read,
  poll_read, close,
}
use aquic.Stream.Incoming.Machine.{IsPlaced, here, more, rounds, answers, Reach-IsPlaced}
use aquic.Stream.Incoming.Delivery.{yields, ends, Delivered, next_behind, delivery_lem}
use aquic.Stream.Incoming.Closing.{read_ends}

-- Items and codes are numbers, and an item weighs what it is.
abbrev numbers : Spec
numbers = record {
  StreamItem = ℕ;
  StreamCode = ℕ;
  StreamEncoderError = ℕ;
  StreamDecoderError = ℕ;
  estimate = λ n. n;
}

-- A decoder that holds numbers, of which 0 is the end.
abbrev counts : DecoderApi numbers
counts = record {
  Decoder = List ℕ;
  decode = λ held. elim held [
    | [] ↦ ([], starved)
    | n ∷ ns ↦ (ns, decoded (if n == 0 then fin_only else item n))
  ];
  stream_code = λ n. n;
}

abbrev idle : Channel numbers
idle = channel 10 Oneshot.channel Oneshot.channel

idle-IsSendable : IsSendable idle
idle-IsSendable = record {
  items = record {
    exists = refl;
    occupied = refl;
    within = inl (omega arith);
    positive = omega arith;
    small = omega arith;
  };
  unclosed = refl;
  some_sender = omega arith;
  some_receiver = omega arith;
}

abbrev reader : Incoming numbers counts
reader = new [] idle

-- The backend was asked.
abbrev asking : Incoming numbers counts
asking = record reader { stream_decoder = none; decoder_drained = false }

asks_first : io_round reader ≡ (asking, asks [])
unfolding io_round
asks_first = refl

Reach-IsPlaced_example : IsPlaced (answered asking (accepted (3 ∷ [])))
unfolding io_round
Reach-IsPlaced_example =
    Reach-IsPlaced true [] idle (answered asking (accepted (3 ∷ [])))
      (more (more here rounds) (answers (accepted (3 ∷ []))))

delivery_lem_example :
    (s' : Incoming numbers counts) × (io_loop 7 true (answered asking (accepted (4 ∷ 1 ∷ 0 ∷ [])))
      ≡ done (s', next_behind counts none))
    × Delivered {A = List ℕ} idle s'.items (item 4 ∷ item 1 ∷ fin_only ∷ []) none
delivery_lem_example =
    delivery_lem true 7 asking (4 ∷ 1 ∷ 0 ∷ []) (item 4 ∷ item 1 ∷ fin_only ∷ []) none
      (yields refl refl (yields refl refl (ends refl refl))) refl refl idle-IsSendable (omega arith)
      (omega arith)

abbrev stopped_reader : Incoming numbers counts
stopped_reader =
    new [] (record idle { errors = record Oneshot.channel { container = some (stop 3) } })

-- The application stopped the stream with the code 3, and the task answers it.
read_ends_example :
    (poll_read none stopped_reader ≡ some (stop 3))
    × ((s' : Incoming numbers counts) × (close true stopped_reader (stop 3) ≡ done s')
        × Ended [] s'.items s'.commands (stop 3) (terminate 3 ∷ []))
read_ends_example = (
  (read_ends true stopped_reader (stop 3) (omega arith) (omega arith)).0 refl (omega arith) refl
      refl,
  ((read_ends true stopped_reader (stop 3) (omega arith) (omega arith)).1 refl).0 refl,
)
