-- ===== src/Stream/Incoming.antt =====
-- aquic-core/src/stream/incoming.rs: from a backend to an application.
--
-- The task is cut at the two places where it waits: for the answer of the backend to a decoder, and for
-- room in the channel of the items. `Next` says where it is. The traces are left out.
pub mod Delivery
pub mod Machine
pub mod Closing
mod Tests
use aquic.Base.{
  ℕ, zero, suc, ◌+◌, ◌-◌, ◌*◌, ◌/◌, ◌%◌, ◌^◌, ◌≤◌, ◌<◌, min, max, ◌≡◌, refl, sym, ap, ◌∙◌, subst,
  ◌≢◌, ◌↔◌, ◌⊎◌, inl, inr, Bool, true, false, not, ◌&&◌, ◌||◌, Option, none, some, List, [], ◌∷◌,
  ◌++◌, map, arith, ltb, leb, ◌==◌, if◌then◌else◌, ltb→lt, lt→ltb, le→ltb, leb→le, le→leb, lt→leb,
  ==_iff, tests, ltb-cases, ==-cases, Bool-cases, Option-cases, length, get_elem?, get_or, set,
  replicate, All, length-append, length-set, length-replicate, get_or-set_self, get_or-set_ne, take,
  drop, take_append, drop_append, append_injective, take_append_at, drop_append_at, take-drop,
  length-take, length-drop, word, wrapping_add, Outcome, done, panic, ◌>>=◌, add_word, sub_word,
  add_word-eq, sub_word-eq,
}
use aquic.Stream.Types.{
  Spec, Error, finish, stop, reset, decoder, encoder, connection, hang_up, Payload, is_fin,
}
use aquic.Stream.Bridge.{
  Command, terminate, terminate_due_decoder, hangup, Response, no_response, accepted, refused,
  items_unavailable, unexpected_error, backend_unavailable, backend_unexpected, unexpected_codec,
  dpanic_or_hangup, cancel_event, app_event, select,
}
use aquic.Sync.Mpmc.Oneshot
use aquic.Sync.Stream.{
  Channel, Answer, ready, failed, pending, send_item, sender_terminate, drop_sender,
}
use aquic.Sync.Stream
use aquic.Backend.Error

-- What a decoder answers: an item, that it has none yet, or an error.
pub data Decoded (S : Spec) : Type 0 where
  decoded : Payload S.StreamItem → Decoded S
  starved : Decoded S
  decode_failed : S.StreamDecoderError → Decoded S

-- What the trait `Decoder` of aquic-core/src/stream/codec.rs and the conversions of the codes promise.
pub record DecoderApi (S : Spec) : Type 1 where
  pub Decoder : Type 0
  pub decode : Decoder → Decoder × Decoded S
  pub stream_code : ℕ → S.StreamCode

pub record Incoming (S : Spec) (D : DecoderApi S) : Type 0 where
  -- `decoder` of the source, whose name is an error's here
  pub stream_decoder : Option D.Decoder
  pub items : Channel S
  pub cancel : Oneshot.Shared (Error S)
  pub decoder_drained : Bool
  pub stream_finished : Bool
  -- what the backend was told
  pub commands : List (Command S)

-- Where the loop of the task is: at its top, waiting for the backend or for the application, or behind
-- its return.
pub data Next (S : Spec) (D : DecoderApi S) : Type 0 where
  again : Next S D
  asks : D.Decoder → Next S D
  sends : Payload S.StreamItem → Next S D
  returns : Option (Error S) → Next S D

module _ {S : Spec} where
  -- An error of the backend, as `read_from_stream` hands it on
  unfoldable pub backend_error : (ℕ → S.StreamCode) → Error.Error → Error S
  backend_error code (Error.stream_reset e) = reset (code e)
  backend_error code Error.closed = connection
  backend_error code Error.unknown_connection = connection
  backend_error code Error.illegal = hang_up backend_unexpected
  backend_error code Error.buffer_size = hang_up backend_unexpected
  backend_error code Error.unknown_stream = hang_up backend_unexpected
  backend_error code Error.streams_exhausted = hang_up backend_unexpected
  backend_error code (Error.stream_stop e) = hang_up backend_unexpected
  backend_error code Error.dgram_disabled = hang_up backend_unexpected
  backend_error code (Error.other m) = hang_up backend_unexpected

  -- An error of the item channel, as `send_to_app` hands it on
  unfoldable pub send_error : Bool → Error S → Outcome (Error S)
  send_error debug (stop code) = done (stop code)
  send_error debug (hang_up m) = done (hang_up items_unavailable)
  send_error debug finish = dpanic_or_hangup debug unexpected_error
  send_error debug (reset code) = dpanic_or_hangup debug unexpected_error
  send_error debug (decoder e) = dpanic_or_hangup debug unexpected_error
  send_error debug (encoder e) = dpanic_or_hangup debug unexpected_error
  send_error debug connection = dpanic_or_hangup debug unexpected_error

  -- What the application's error stops the task with.
  abbrev pub keeps : Error S → Bool
  keeps (stop code) = true
  keeps (hang_up m) = true
  keeps finish = false
  keeps (reset code) = false
  keeps (decoder e) = false
  keeps (encoder e) = false
  keeps connection = false

module _ {S : Spec} {D : DecoderApi S} where
  -- The cancellation has the sender and the receiver of the record, and the clones that `read` makes.
  abbrev pub new : D.Decoder → Channel S → Incoming S D
  new dec items = record {
    stream_decoder = some dec;
    items = items;
    cancel = Oneshot.clone_receiver (Oneshot.clone_sender Oneshot.channel);
    decoder_drained = true;
    stream_finished = false;
    commands = [];
  }

  -- `read_from_stream` before its `await`: the decoder goes to the backend, if there is one to give.
  unfoldable pub give_decoder : Incoming S D → Incoming S D × Option D.Decoder
  give_decoder s =
      if s.stream_finished || not s.decoder_drained then (s, none) else elim s.stream_decoder [
        | none ↦ (s, none)
        | some dec ↦ (record s { stream_decoder = none; decoder_drained = false }, some dec)
      ]

  -- The part behind the `await`
  unfoldable pub take_decoder :
      Incoming S D → Response D.Decoder → Incoming S D × Answer S (Unit {0})
  unfolding backend_error
  take_decoder s no_response = (s, failed (hang_up backend_unavailable))
  take_decoder s (accepted dec) = (record s { stream_decoder = some dec }, ready tt)
  take_decoder s (refused e) = (s, failed (backend_error D.stream_code e))

  -- What `decode` does with the decoder's answer.
  unfoldable pub after_decode :
      Incoming S D → D.Decoder × Decoded S → Incoming S D × Answer S (Option (Payload S.StreamItem))
  after_decode s (dec, decoded payload) = (
    record s {
      stream_decoder = some dec;
      stream_finished = if is_fin payload then true else s.stream_finished;
    },
    ready (some payload),
  )
  after_decode s (dec, starved) =
      (record s { stream_decoder = some dec; decoder_drained = true }, ready none)
  after_decode s (dec, decode_failed e) =
      (record s { stream_decoder = some dec }, failed (decoder e))

  unfoldable pub decode : Incoming S D → Incoming S D × Answer S (Option (Payload S.StreamItem))
  unfolding after_decode
  decode s =
      if s.stream_finished || s.decoder_drained then (s, ready none) else elim s.stream_decoder [
        | none ↦ (s, ready none)
        | some dec ↦ after_decode s (D.decode dec)
      ]

  -- One poll of `send_to_app`
  abbrev pub after_send :
      Bool
      → Incoming S D
      → Channel S × Answer S (Unit {0})
      → Outcome (Incoming S D × Answer S (Unit {0}))
  after_send debug s (items, ready u) = done (record s { items = items }, ready tt)
  after_send debug s (items, failed e) =
      send_error debug e >>= (λ e'. done (record s { items = items }, failed e'))
  after_send debug s (items, pending) = done (record s { items = items }, pending)

  unfoldable pub send_to_app :
      Bool → Incoming S D → Payload S.StreamItem → Outcome (Incoming S D × Answer S (Unit {0}))
  unfolding send_error
  send_to_app debug s payload = after_send debug s (send_item s.items payload)

  -- The end of a round of `io_loop`
  abbrev pub round_end : Incoming S D → Incoming S D × Next S D
  round_end s = if s.stream_finished then (s, returns none) else (s, again)

  -- The round from `decode` on, up to where it waits
  abbrev pub after_decoded :
      Incoming S D × Answer S (Option (Payload S.StreamItem)) → Incoming S D × Next S D
  after_decoded (s, ready (some payload)) = (s, sends payload)
  after_decoded (s, ready none) = round_end s
  after_decoded (s, failed e) = (s, returns (some e))
  after_decoded (s, pending) = (s, again)

  unfoldable pub decode_round : Incoming S D → Incoming S D × Next S D
  unfolding decode
  decode_round s = after_decoded (decode s)

  -- The round from its top
  unfoldable pub io_round : Incoming S D → Incoming S D × Next S D
  unfolding give_decoder decode_round
  io_round s =
      if s.decoder_drained
      then (let (s', given) = give_decoder s in
          elim given [ some dec ↦ (s', asks dec) | none ↦ decode_round s' ])
      else decode_round s

  -- The round once the backend has answered
  abbrev pub after_read : Incoming S D × Answer S (Unit {0}) → Incoming S D × Next S D
  after_read (s, ready u) = decode_round s
  after_read (s, failed e) = (s, returns (some e))
  after_read (s, pending) = (s, again)

  unfoldable pub answered : Incoming S D → Response D.Decoder → Incoming S D × Next S D
  unfolding take_decoder decode_round
  answered s response = after_read (take_decoder s response)

  -- The round once the application's channel was polled
  abbrev pub after_sent :
      Payload S.StreamItem → Incoming S D × Answer S (Unit {0}) → Incoming S D × Next S D
  after_sent payload (s, ready u) = round_end s
  after_sent payload (s, failed e) = (s, returns (some e))
  after_sent payload (s, pending) = (s, sends payload)

  unfoldable pub sent :
      Bool → Incoming S D → Payload S.StreamItem → Outcome (Incoming S D × Next S D)
  unfolding send_to_app
  sent debug s payload = send_to_app debug s payload >>= (λ r. done (after_sent payload r))

  -- `io_loop`, up to where it waits: for the backend, or, while there is fuel, for room in the channel
  unfoldable pub io_loop : ℕ → Bool → Incoming S D × Next S D → Outcome (Incoming S D × Next S D)
  unfolding io_round sent
  io_loop zero debug t = done t
  io_loop (suc fuel) debug (s, again) = io_loop fuel debug (io_round s)
  io_loop (suc fuel) debug (s, sends payload) = sent debug s payload >>= io_loop fuel debug
  io_loop (suc fuel) debug (s, asks dec) = done (s, asks dec)
  io_loop (suc fuel) debug (s, returns e) = done (s, returns e)

  -- `poll_read` and `close` as those of the outgoing direction
  unfoldable pub poll_read : Option (Error S) → Incoming S D → Option (Error S)
  poll_read io s = select io (cancel_event s.cancel) (app_event keeps s.items.errors)

  unfoldable pub tell : Bool → Incoming S D → Error S → Outcome (Incoming S D)
  tell debug s finish = done s
  tell debug s (stop code) = done (record s { commands = s.commands ++ terminate code ∷ [] })
  tell debug s (reset code) = done (record s { items = sender_terminate s.items code })
  tell debug s (decoder e) = done (record s {
    items = Stream.terminate_due_decoder s.items e;
    commands = s.commands ++ terminate_due_decoder e ∷ [];
  })
  tell debug s connection = done (record s { items = Stream.terminate_due_connection s.items })
  tell debug s (hang_up m) =
      done (record s { items = Stream.hangup s.items m; commands = s.commands ++ hangup m ∷ [] })
  tell debug s (encoder e) =
      if debug
      then panic
      else done (record s {
        items = Stream.hangup s.items unexpected_codec;
        commands = s.commands ++ hangup unexpected_codec ∷ [];
      })

  -- The drops of the fields
  abbrev pub drop_fields : Incoming S D → Incoming S D
  drop_fields s = record s {
    items = drop_sender false s.items;
    cancel = Oneshot.drop_receiver (Oneshot.drop_sender s.cancel);
  }

  unfoldable pub close_first :
      Bool
      → Incoming S D
      → Error S
      → Oneshot.Shared (Error S) × Oneshot.Sent (Error S)
      → Outcome (Incoming S D)
  unfolding tell
  close_first debug s error (cancel, Oneshot.sent) = tell debug (record s { cancel = cancel }) error
  close_first debug s error (cancel, Oneshot.full e) = done s
  close_first debug s error (cancel, Oneshot.send_closed) = done s

  unfoldable pub close : Bool → Incoming S D → Error S → Outcome (Incoming S D)
  unfolding close_first
  close debug s error =
      close_first debug s error (Oneshot.send s.cancel error) >>= (λ s'. done (drop_fields s'))
