-- ===== src/Stream/Outgoing.antt =====
-- aquic-core/src/stream/outgoing.rs: from an application to a backend.
--
-- An `async` method runs up to its next `await` that is not ready: `recv_from_app` up to a blocking `recv`,
-- `write_to_stream` up to the answer of the backend. The traces are left out.
pub mod Closing
pub mod Items
pub mod Batches
pub mod Rounds
pub mod Ended
mod Tests
use aquic.Base.{
  ℕ, zero, suc, ◌+◌, ◌-◌, ◌*◌, ◌/◌, ◌%◌, ◌^◌, ◌≤◌, ◌<◌, min, max, ◌≡◌, refl, sym, ap, ◌∙◌, subst,
  ◌≢◌, ◌↔◌, ◌⊎◌, inl, inr, Bool, true, false, not, ◌&&◌, ◌||◌, Option, none, some, List, [], ◌∷◌,
  ◌++◌, map, arith, ltb, leb, ◌==◌, if◌then◌else◌, ltb→lt, lt→ltb, le→ltb, leb→le, le→leb, lt→leb,
  ==_iff, tests, ltb-cases, ==-cases, Bool-cases, Option-cases, length, get_elem?, get_or, set,
  replicate, All, length-append, length-set, length-replicate, get_or-set_self, get_or-set_ne, take,
  drop, take_append, drop_append, append_injective, take_append_at, drop_append_at, take-drop,
  length-take, length-drop, word, wrapping_add, Outcome, done, panic, ◌>>=◌, add_word, sub_word,
  add_word-eq, sub_word-eq,
}
use aquic.Stream.Types.{
  Spec, Message, Error, finish, stop, reset, decoder, encoder, connection, hang_up, Payload, is_fin,
}
use aquic.Stream.Bridge.{
  Command, set_priority, terminate, terminate_due_encoder, hangup, Response, no_response, accepted,
  refused, items_unavailable, unexpected_error, backend_unavailable, backend_unexpected,
  unexpected_codec, dpanic_or_hangup, cancel_event, app_event, select,
}
use aquic.Sync.Mpsc.Unbounded.{Received, ok, empty, closed}
use aquic.Sync.Mpmc.Oneshot
use aquic.Sync.Stream.{
  Channel, Answer, ready, failed, pending, recv, try_recv, priority_once, receiver_terminate,
  drop_receiver,
}
use aquic.Sync.Stream
use aquic.Backend.Error

-- What the trait `Encoder` of aquic-core/src/stream/codec.rs and the conversions of the codes promise.
pub record EncoderApi (S : Spec) : Type 1 where
  pub Encoder : Type 0
  pub encode : Encoder → Payload S.StreamItem → Encoder × Option S.StreamEncoderError
  pub should_flush : Encoder → Bool
  pub stream_code : ℕ → S.StreamCode

pub record Outgoing (S : Spec) (C : EncoderApi S) : Type 0 where
  pub encoder : Option C.Encoder
  pub items : Channel S
  pub cancel : Oneshot.Shared (Error S)
  pub stream_finished : Bool
  -- what the backend was told
  pub commands : List (Command S)

-- Where the loop of the task is: at its top, waiting for an item, waiting for the backend, or behind its
-- return.
pub data Next (S : Spec) (C : EncoderApi S) : Type 0 where
  again waits : Next S C
  asks : C.Encoder → Next S C
  returns : Option (Error S) → Next S C

module _ {S : Spec} where
  -- The errors of the item channel, as `recv_item` hands them on
  unfoldable pub recv_error : Bool → Error S → Outcome (Error S)
  recv_error debug (hang_up m) = done (hang_up items_unavailable)
  recv_error debug (reset code) = done (reset code)
  recv_error debug finish = dpanic_or_hangup debug unexpected_error
  recv_error debug (stop code) = dpanic_or_hangup debug unexpected_error
  recv_error debug (decoder e) = dpanic_or_hangup debug unexpected_error
  recv_error debug (encoder e) = dpanic_or_hangup debug unexpected_error
  recv_error debug connection = dpanic_or_hangup debug unexpected_error

  -- An error of the backend, as `write_to_stream` hands it on
  unfoldable pub backend_error : (ℕ → S.StreamCode) → Error.Error → Error S
  backend_error code (Error.stream_stop e) = stop (code e)
  backend_error code Error.closed = connection
  backend_error code Error.unknown_connection = connection
  backend_error code Error.illegal = hang_up backend_unexpected
  backend_error code Error.buffer_size = hang_up backend_unexpected
  backend_error code Error.unknown_stream = hang_up backend_unexpected
  backend_error code Error.streams_exhausted = hang_up backend_unexpected
  backend_error code (Error.stream_reset e) = hang_up backend_unexpected
  backend_error code Error.dgram_disabled = hang_up backend_unexpected
  backend_error code (Error.other m) = hang_up backend_unexpected

  -- What the application's error stops the task with.
  abbrev pub keeps : Error S → Bool
  keeps (reset code) = true
  keeps (hang_up m) = true
  keeps finish = false
  keeps (stop code) = false
  keeps (decoder e) = false
  keeps (encoder e) = false
  keeps connection = false

module _ {S : Spec} {C : EncoderApi S} where
  -- The cancellation has the sender and the receiver of the record, and the clones that `write` makes.
  abbrev pub new : C.Encoder → Channel S → Outgoing S C
  new enc items = record {
    encoder = some enc;
    items = items;
    cancel = Oneshot.clone_receiver (Oneshot.clone_sender Oneshot.channel);
    stream_finished = false;
    commands = [];
  }

  -- `encoder.encode(payload)`, with the flag of the end
  unfoldable pub encode_payload :
      Outgoing S C → C.Encoder × Option S.StreamEncoderError → Bool → Outgoing S C × Answer S Bool
  encode_payload s (enc, none) fin =
      (record s { encoder = some enc; stream_finished = fin }, ready true)
  encode_payload s (enc, some e) fin =
      (record s { encoder = some enc; stream_finished = fin }, failed (encoder e))

  -- The rest of `recv_item`, behind the receive; `pending` of a receive that does not block is `Ok(None)`.
  unfoldable pub after_receive :
      Bool
      → Bool
      → Outgoing S C
      → C.Encoder
      → Channel S × Answer S (Payload S.StreamItem)
      → Outcome (Outgoing S C × Answer S Bool)
  unfolding recv_error encode_payload
  after_receive debug blocking s enc (items, ready payload) =
      done (encode_payload (record s { items = items }) (C.encode enc payload) (is_fin payload))
  after_receive debug blocking s enc (items, failed e) =
      recv_error debug e >>= (λ e'. done (record s { items = items }, failed e'))
  after_receive debug blocking s enc (items, pending) =
      done (record s { items = items }, if blocking then pending else ready false)

  unfoldable pub recv_item : Bool → Bool → Outgoing S C → Outcome (Outgoing S C × Answer S Bool)
  unfolding after_receive
  recv_item debug blocking s = if s.stream_finished then done (s, ready false) else elim s.encoder [
    | none ↦ done (s, ready false)
    | some enc ↦
        (if blocking then recv debug s.items else try_recv debug s.items)
        >>= after_receive debug blocking s enc
  ]

  -- `encoder.should_flush()`, of an encoder that is there
  abbrev pub flushes : Outgoing S C → Bool
  flushes s = elim s.encoder [ none ↦ false | some enc ↦ C.should_flush enc ]

  -- What the loop does with the answer of `recv_item`.
  abbrev pub continue :
      (Outgoing S C → Outcome (Outgoing S C × Answer S (Unit {0})))
      → Outgoing S C × Answer S Bool
      → Outcome (Outgoing S C × Answer S (Unit {0}))
  continue next (s, ready true) = next s
  continue next (s, ready false) = done (s, ready tt)
  continue next (s, failed e) = done (s, failed e)
  continue next (s, pending) = done (s, pending)

  -- The loop of `recv_from_app`; without fuel it panics.
  unfoldable pub recv_more : ℕ → Bool → Outgoing S C → Outcome (Outgoing S C × Answer S (Unit {0}))
  unfolding recv_item
  recv_more zero debug s = panic
  recv_more (suc fuel) debug s =
      if s.stream_finished || flushes s
      then done (s, ready tt)
      else (recv_item debug false s >>= continue (recv_more fuel debug))

  -- Each round of the loop takes an item out of the channel, but for the last one.
  unfoldable pub recv_from_app : Bool → Outgoing S C → Outcome (Outgoing S C × Answer S (Unit {0}))
  unfolding recv_item recv_more
  recv_from_app debug s =
      if s.stream_finished
      then done (s, ready tt)
      else (recv_item debug true s
          >>= continue (recv_more (suc (length s.items.items.queue.deque)) debug))

  -- The part of `write_to_stream` before its `await`: the encoder goes to the backend.
  unfoldable pub give_encoder : Outgoing S C → Outgoing S C × Option C.Encoder
  give_encoder s =
      let (items, priority) = priority_once s.items in
      let told : List (Command S) = elim priority [
        | ok p ↦ s.commands ++ set_priority p ∷ []
        | empty ↦ s.commands
        | closed ↦ s.commands
      ] in
      (record s { encoder = none; items = items; commands = told }, s.encoder)

  -- The part behind the `await`.
  unfoldable pub take_encoder :
      Outgoing S C → Response C.Encoder → Outgoing S C × Answer S (Unit {0})
  unfolding backend_error
  take_encoder s no_response = (s, failed (hang_up backend_unavailable))
  take_encoder s (accepted enc) = (record s { encoder = some enc }, ready tt)
  take_encoder s (refused e) = (s, failed (backend_error C.stream_code e))

  -- `io_loop`, between the places where it waits
  abbrev pub round_end : Outgoing S C → Outgoing S C × Next S C
  round_end s = if s.stream_finished then (s, returns none) else (s, again)

  abbrev pub write_start : Outgoing S C × Option C.Encoder → Outgoing S C × Next S C
  write_start (s, some enc) = (s, asks enc)
  write_start (s, none) = round_end s

  abbrev pub after_app : Outgoing S C × Answer S (Unit {0}) → Outgoing S C × Next S C
  after_app (s, ready u) = write_start (give_encoder s)
  after_app (s, failed e) = (s, returns (some e))
  after_app (s, pending) = (s, waits)

  unfoldable pub io_round : Bool → Outgoing S C → Outcome (Outgoing S C × Next S C)
  unfolding recv_from_app give_encoder
  io_round debug s = recv_from_app debug s >>= (λ r. done (after_app r))

  abbrev pub after_write : Outgoing S C × Answer S (Unit {0}) → Outgoing S C × Next S C
  after_write (s, ready u) = round_end s
  after_write (s, failed e) = (s, returns (some e))
  after_write (s, pending) = (s, again)

  unfoldable pub answered : Outgoing S C → Response C.Encoder → Outgoing S C × Next S C
  unfolding take_encoder
  answered s response = after_write (take_encoder s response)

  -- A poll of the future of `write`: the error that it calls `close` with. `io` is the poll of `io_loop`,
  -- whose `Ok` is `Finish`.
  unfoldable pub poll_write : Option (Error S) → Outgoing S C → Option (Error S)
  poll_write io s = select io (cancel_event s.cancel) (app_event keeps s.items.errors)

  -- The `match` of `close`: who is told what.
  unfoldable pub tell : Bool → Outgoing S C → Error S → Outcome (Outgoing S C)
  tell debug s finish = done s
  tell debug s (stop code) = done (record s { items = receiver_terminate s.items code })
  tell debug s (reset code) = done (record s { commands = s.commands ++ terminate code ∷ [] })
  tell debug s (encoder e) = done (record s {
    items = Stream.terminate_due_encoder s.items e;
    commands = s.commands ++ terminate_due_encoder e ∷ [];
  })
  tell debug s connection = done (record s { items = Stream.terminate_due_connection s.items })
  tell debug s (hang_up m) =
      done (record s { items = Stream.hangup s.items m; commands = s.commands ++ hangup m ∷ [] })
  tell debug s (decoder e) =
      if debug
      then panic
      else done (record s {
        items = Stream.hangup s.items unexpected_codec;
        commands = s.commands ++ hangup unexpected_codec ∷ [];
      })

  -- `close`, and then the drops of the fields
  abbrev pub drop_fields : Outgoing S C → Outgoing S C
  drop_fields s = record s {
    items = drop_receiver false s.items;
    cancel = Oneshot.drop_receiver (Oneshot.drop_sender s.cancel);
  }

  -- What `close` does once it knows whether it is the first to cancel.
  unfoldable pub close_first :
      Bool
      → Outgoing S C
      → Error S
      → Oneshot.Shared (Error S) × Oneshot.Sent (Error S)
      → Outcome (Outgoing S C)
  unfolding tell
  close_first debug s error (cancel, Oneshot.sent) = tell debug (record s { cancel = cancel }) error
  close_first debug s error (cancel, Oneshot.full e) = done s
  close_first debug s error (cancel, Oneshot.send_closed) = done s

  unfoldable pub close : Bool → Outgoing S C → Error S → Outcome (Outgoing S C)
  unfolding close_first
  close debug s error =
      close_first debug s error (Oneshot.send s.cancel error) >>= (λ s'. done (drop_fields s'))
