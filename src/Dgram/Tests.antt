-- ===== src/Dgram/Tests.antt =====
-- Runs of the tasks of datagrams (aquic-core/src/dgram/{incoming,outgoing}.rs).
use aquic.Base.{
  ℕ, ◌≡◌, refl, inl, true, none, some, List, [], ◌∷◌, ◌++◌, map, arith, leb, length, done,
}
use aquic.Stream.Bridge.{accepted}
use aquic.Sync.Mpsc.Unbounded
use aquic.Sync.Mpsc.Weighted
use aquic.Sync.Dgram.{end, connection, Channel, channel}
use aquic.Sync.Dgram.Open.{IsOpen}
use aquic.Dgram.Incoming
use aquic.Dgram.Incoming.Lossy.{lossy_lem}
use aquic.Dgram.Outgoing
use aquic.Dgram.Outgoing.Batches.{dgram_round_lem}
use aquic.Dgram.Ends.{dgram_ends}

-- A decoder holds numbers, and an item weighs what it is.
abbrev held : Incoming.DecoderApi
held = record {
  DgramItem = ℕ;
  Decoder = List ℕ;
  decode = λ ns. elim ns [ [] ↦ ([], none) | n ∷ ns' ↦ (ns', some n) ];
  estimate = λ n. n;
}

-- An encoder that collects numbers, and is flushed at two of them.
abbrev pairs : Outgoing.EncoderApi
pairs = record {
  DgramItem = ℕ;
  Encoder = List ℕ;
  encode = λ enc n. enc ++ n ∷ [];
  should_flush = λ enc. leb 2 (length enc);
}

abbrev idle : Channel ℕ
idle = channel 5

idle-IsOpen : IsOpen idle
idle-IsOpen = record {
  items = record {
    exists = refl;
    occupied = refl;
    within = inl (omega arith);
    positive = omega arith;
    small = omega arith;
  };
  unclosed = refl;
  some_sender = omega arith;
}

-- The first decoder holds two items, and the second item does not fit.
lossy_lem_example :
    (s' : Incoming.Incoming held) × (dec' : List ℕ) × (Incoming.io_loop true
        (map accepted ((4 ∷ 1 ∷ []) ∷ (3 ∷ []) ∷ []))
        (Incoming.new [] idle)
      ≡ done (s', Incoming.asks dec'))
    × (s'.items.items.queue.deque ≡ (4, 4) ∷ [])
lossy_lem_example =
    lossy_lem true (Incoming.new [] idle) [] ((4 ∷ 1 ∷ []) ∷ (3 ∷ []) ∷ []) idle-IsOpen refl

abbrev three_items : Channel ℕ
three_items = record idle {
  items = record (Weighted.channel 10) {
    queue = record Unbounded.channel { deque = (4, 4) ∷ (1, 1) ∷ (2, 2) ∷ [] };
    occupation = 7;
  };
}

three_items-IsOpen : IsOpen three_items
three_items-IsOpen = record {
  items = record {
    exists = refl;
    occupied = refl;
    within = inl (omega arith);
    positive = omega arith;
    small = omega arith;
  };
  unclosed = refl;
  some_sender = omega arith;
}

abbrev writer : Outgoing.Outgoing pairs
writer = Outgoing.new [] three_items

dgram_round_lem_example :
    (s' : Outgoing.Outgoing pairs) × (Outgoing.io_round true writer
      ≡ done (s', Outgoing.asks (4 ∷ 1 ∷ [])))
    × (s'.encoder ≡ none)
    × (s'.items.items.queue.deque ≡ (2, 2) ∷ [])
dgram_round_lem_example =
    dgram_round_lem true writer [] 4 4 ((1, 1) ∷ (2, 2) ∷ []) three_items-IsOpen (omega arith) refl
      refl

abbrev reader : Incoming.Incoming held
reader = Incoming.new [] idle

abbrev cancelled_reader : Incoming.Incoming held
cancelled_reader = record reader { cancel = record reader.cancel { container = some connection } }

dgram_ends_example :
    (cancelled_reader.cancel.container ≡ none
      → (Incoming.close cancelled_reader connection).items.errors.container ≡ some connection)
    × (writer.cancel.container ≡ none
        → (Outgoing.close writer connection).items.errors.container ≡ some connection)
    × (cancelled_reader.cancel.container ≡ some connection
        → (Incoming.poll_read none cancelled_reader ≡ some connection)
          × ((Incoming.close cancelled_reader connection).items.errors.container ≡ some end))
    × (writer.cancel.container ≡ some connection
        → (Outgoing.poll_write none writer ≡ some connection)
          × ((Outgoing.close writer connection).items.errors.container ≡ some end))
dgram_ends_example =
    dgram_ends cancelled_reader writer connection refl refl (omega arith) (omega arith)
      (omega arith) (omega arith)
