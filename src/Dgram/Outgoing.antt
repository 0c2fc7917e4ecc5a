-- ===== src/Dgram/Outgoing.antt =====
-- aquic-core/src/dgram/outgoing.rs: from an application to a backend.
--
-- An `async` method runs up to its next `await` that is not ready: `recv_from_app` up to a blocking `recv`,
-- `send_to_backend` up to the answer of the backend. The traces are left out.
pub mod Batches
use aquic.Base.{
  ℕ, zero, suc, ◌+◌, ◌-◌, ◌*◌, ◌/◌, ◌%◌, ◌^◌, ◌≤◌, ◌<◌, min, max, ◌≡◌, refl, sym, ap, ◌∙◌, subst,
  ◌≢◌, ◌↔◌, ◌⊎◌, inl, inr, Bool, true, false, not, ◌&&◌, ◌||◌, Option, none, some, List, [], ◌∷◌,
  ◌++◌, map, arith, ltb, leb, ◌==◌, if◌then◌else◌, ltb→lt, lt→ltb, le→ltb, leb→le, le→leb, lt→leb,
  ==_iff, tests, ltb-cases, ==-cases, Bool-cases, Option-cases, length, get_elem?, get_or, set,
  replicate, All, length-append, length-set, length-replicate, get_or-set_self, get_or-set_ne, take,
  drop, take_append, drop_append, append_injective, take_append_at, drop_append_at, take-drop,
  length-take, length-drop, word, wrapping_add, Outcome, done, panic, ◌>>=◌, add_word, sub_word,
  add_word-eq, sub_word-eq,
}
use aquic.Stream.Bridge.{Response, no_response, accepted, refused}
use aquic.Sync.Mpmc.Oneshot
use aquic.Sync.Dgram.{
  Error, hang_up, Channel, Answer, ready, failed, pending, recv, try_recv, drop_receiver,
}
use aquic.Dgram.Bridge.{
  item_error, backend_error, backend_unavailable, cancel_event, app_event, select, close_first,
}

-- What the trait `Encoder` of aquic-core/src/dgram/codec.rs promises.
pub record EncoderApi : Type 1 where
  pub DgramItem : Type 0
  pub Encoder : Type 0
  pub encode : Encoder → DgramItem → Encoder
  pub should_flush : Encoder → Bool

pub record Outgoing (C : EncoderApi) : Type 0 where
  pub encoder : Option C.Encoder
  pub items : Channel C.DgramItem
  pub cancel : Oneshot.Shared Error

-- Where the loop of the task is: at its top, waiting for an item, waiting for the backend, or behind its
-- return.
pub data Next (C : EncoderApi) : Type 0 where
  again waits : Next C
  asks : C.Encoder → Next C
  returns : Error → Next C

module _ {C : EncoderApi} where
  -- The cancellation has the sender and the receiver of the record, and the clones that `write` makes.
  abbrev pub new : C.Encoder → Channel C.DgramItem → Outgoing C
  new enc items = record {
    encoder = some enc;
    items = items;
    cancel = Oneshot.clone_receiver (Oneshot.clone_sender Oneshot.channel);
  }

  -- The rest of `recv_item`, behind the receive; `pending` of a receive that does not block is `Ok(None)`.
  unfoldable pub after_receive :
      Bool
      → Bool
      → Outgoing C
      → C.Encoder
      → Channel C.DgramItem × Answer C.DgramItem
      → Outcome (Outgoing C × Answer Bool)
  unfolding item_error
  after_receive debug blocking s enc (items, ready item) =
      done (record s { items = items; encoder = some (C.encode enc item) }, ready true)
  after_receive debug blocking s enc (items, failed e) =
      item_error debug e >>= (λ e'. done (record s { items = items }, failed e'))
  after_receive debug blocking s enc (items, pending) =
      done (record s { items = items }, if blocking then pending else ready false)

  unfoldable pub recv_item : Bool → Bool → Outgoing C → Outcome (Outgoing C × Answer Bool)
  unfolding after_receive
  recv_item debug blocking s = elim s.encoder [
    | none ↦ done (s, ready false)
    | some enc ↦
        (if blocking then recv debug s.items else try_recv debug s.items)
        >>= after_receive debug blocking s enc
  ]

  -- `encoder.should_flush()`, of an encoder that is there
  abbrev pub flushes : Outgoing C → Bool
  flushes s = elim s.encoder [ none ↦ false | some enc ↦ C.should_flush enc ]

  -- What the loop does with the answer of `recv_item`: `next` goes on, unless the encoder is full.
  abbrev pub continue :
      (Outgoing C → Outcome (Outgoing C × Answer (Unit {0})))
      → Outgoing C × Answer Bool
      → Outcome (Outgoing C × Answer (Unit {0}))
  continue next (s, ready true) = if flushes s then done (s, ready tt) else next s
  continue next (s, ready false) = done (s, ready tt)
  continue next (s, failed e) = done (s, failed e)
  continue next (s, pending) = done (s, pending)

  -- The loop of `recv_from_app`; without fuel it panics.
  unfoldable pub recv_more : ℕ → Bool → Outgoing C → Outcome (Outgoing C × Answer (Unit {0}))
  unfolding recv_item
  recv_more zero debug s = panic
  recv_more (suc fuel) debug s = recv_item debug false s >>= continue (recv_more fuel debug)

  -- Each round of the loop takes an item out of the channel, but for the last one.
  unfoldable pub recv_from_app : Bool → Outgoing C → Outcome (Outgoing C × Answer (Unit {0}))
  unfolding recv_item recv_more
  recv_from_app debug s = elim s.encoder [
    | none ↦ done (s, ready tt)
    | some enc ↦
        recv_item debug true s
        >>= continue (recv_more (suc (length s.items.items.queue.deque)) debug)
  ]

  -- `send_to_backend` before its `await`: the encoder goes to the backend.
  unfoldable pub give_encoder : Outgoing C → Outgoing C × Option C.Encoder
  give_encoder s = (record s { encoder = none }, s.encoder)

  -- The part behind the `await`
  unfoldable pub take_encoder : Outgoing C → Response C.Encoder → Outgoing C × Option Error
  unfolding backend_error
  take_encoder s no_response = (s, some (hang_up backend_unavailable))
  take_encoder s (accepted enc) = (record s { encoder = some enc }, none)
  take_encoder s (refused e) = (s, some (backend_error e))

  -- `io_loop`, between the places where it waits
  abbrev pub write_start : Outgoing C × Option C.Encoder → Outgoing C × Next C
  write_start (s, some enc) = (s, asks enc)
  write_start (s, none) = (s, again)

  abbrev pub after_app : Outgoing C × Answer (Unit {0}) → Outgoing C × Next C
  after_app (s, ready u) = write_start (give_encoder s)
  after_app (s, failed e) = (s, returns e)
  after_app (s, pending) = (s, waits)

  unfoldable pub io_round : Bool → Outgoing C → Outcome (Outgoing C × Next C)
  unfolding recv_from_app give_encoder
  io_round debug s = recv_from_app debug s >>= (λ r. done (after_app r))

  abbrev pub after_write : Outgoing C × Option Error → Outgoing C × Next C
  after_write (s, none) = (s, again)
  after_write (s, some e) = (s, returns e)

  unfoldable pub answered : Outgoing C → Response C.Encoder → Outgoing C × Next C
  unfolding take_encoder
  answered s response = after_write (take_encoder s response)

  -- A poll of the future of `write`, with the poll of `io_loop`
  unfoldable pub poll_write : Option Error → Outgoing C → Option Error
  poll_write io s = select io (cancel_event s.cancel) (app_event s.items.errors)

  -- `close`, and then the drops of the fields
  unfoldable pub close : Outgoing C → Error → Outgoing C
  unfolding close_first
  close s error =
      let (cancel, first) = Oneshot.send s.cancel error in
      record s {
        items = drop_receiver false (close_first s.items error first);
        cancel = Oneshot.drop_receiver (Oneshot.drop_sender cancel);
      }
