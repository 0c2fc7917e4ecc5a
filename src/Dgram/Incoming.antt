-- ===== src/Dgram/Incoming.antt =====
-- aquic-core/src/dgram/incoming.rs: from a backend to an application.
--
-- The task is cut where it waits for the answer of the backend to a decoder. The traces are left out.
pub mod Lossy
use aquic.Base.{
  ℕ, zero, suc, ◌+◌, ◌-◌, ◌*◌, ◌/◌, ◌%◌, ◌^◌, ◌≤◌, ◌<◌, min, max, ◌≡◌, refl, sym, ap, ◌∙◌, subst,
  ◌≢◌, ◌↔◌, ◌⊎◌, inl, inr, Bool, true, false, not, ◌&&◌, ◌||◌, Option, none, some, List, [], ◌∷◌,
  ◌++◌, map, arith, ltb, leb, ◌==◌, if◌then◌else◌, ltb→lt, lt→ltb, le→ltb, leb→le, le→leb, lt→leb,
  ==_iff, tests, ltb-cases, ==-cases, Bool-cases, Option-cases, length, get_elem?, get_or, set,
  replicate, All, length-append, length-set, length-replicate, get_or-set_self, get_or-set_ne, take,
  drop, take_append, drop_append, append_injective, take_append_at, drop_append_at, take-drop,
  length-take, length-drop, word, wrapping_add, Outcome, done, panic, ◌>>=◌, add_word, sub_word,
  add_word-eq, sub_word-eq,
}
use aquic.Stream.Bridge.{Response, no_response, accepted, refused}
use aquic.Sync.Mpmc.Oneshot
use aquic.Sync.Dgram.{
  Error, hang_up, Channel, Answer, ready, failed, pending, try_send, drop_sender,
}
use aquic.Dgram.Bridge.{
  item_error, backend_error, backend_unavailable, cancel_event, app_event, select, close_first,
}

-- What the trait `Decoder` of aquic-core/src/dgram/codec.rs and the weight of an item promise.
pub record DecoderApi : Type 1 where
  pub DgramItem : Type 0
  pub Decoder : Type 0
  pub decode : Decoder → Decoder × Option DgramItem
  pub estimate : DgramItem → ℕ

pub record Incoming (D : DecoderApi) : Type 0 where
  pub decoder : Option D.Decoder
  pub items : Channel D.DgramItem
  pub cancel : Oneshot.Shared Error
  pub decoder_drained : Bool

-- Where the loop of the task is: it asks the backend, is at its top, or has returned.
pub data Next (D : DecoderApi) : Type 0 where
  again : Next D
  asks : D.Decoder → Next D
  returns : Error → Next D

module _ {D : DecoderApi} where
  -- The cancellation has the sender and the receiver of the record, and the clones that `read` makes.
  abbrev pub new : D.Decoder → Channel D.DgramItem → Incoming D
  new dec items = record {
    decoder = some dec;
    items = items;
    cancel = Oneshot.clone_receiver (Oneshot.clone_sender Oneshot.channel);
    decoder_drained = false;
  }

  -- `recv_dgrams` before its `await`
  unfoldable pub give_decoder : Incoming D → Incoming D × Option D.Decoder
  give_decoder s = elim s.decoder [
    | none ↦ (s, none)
    | some dec ↦ (record s { decoder = none; decoder_drained = false }, some dec)
  ]

  -- The part behind the `await`
  unfoldable pub take_decoder : Incoming D → Response D.Decoder → Incoming D × Option Error
  unfolding backend_error
  take_decoder s no_response = (s, some (hang_up backend_unavailable))
  take_decoder s (accepted dec) = (record s { decoder = some dec }, none)
  take_decoder s (refused e) = (s, some (backend_error e))

  unfoldable pub decode_dgram : Incoming D → Incoming D × Option D.DgramItem
  decode_dgram s = elim s.decoder [
    | none ↦ (s, none)
    | some dec ↦ let (dec', item) = D.decode dec in (record s { decoder = some dec' }, item)
  ]

  -- What `send_item` does with the answer of the channel: a full one loses the item.
  abbrev pub after_send :
      Bool
      → Incoming D
      → Channel D.DgramItem × Answer (Unit {0})
      → Outcome (Incoming D × Option Error)
  after_send debug s (items, ready u) = done (record s { items = items }, none)
  after_send debug s (items, pending) = done (record s { items = items }, none)
  after_send debug s (items, failed e) =
      item_error debug e >>= (λ e'. done (record s { items = items }, some e'))

  unfoldable pub send_item : Bool → Incoming D → D.DgramItem → Outcome (Incoming D × Option Error)
  unfolding item_error
  send_item debug s item = after_send debug s (try_send D.estimate s.items item)

  abbrev pub round_end : Incoming D × Option Error → Incoming D × Next D
  round_end (s, none) = (s, again)
  round_end (s, some e) = (s, returns e)

  -- The round of `io_loop` behind `recv_dgrams`
  unfoldable pub decode_round :
      Bool → Incoming D × Option D.DgramItem → Outcome (Incoming D × Next D)
  unfolding send_item
  decode_round debug (s, none) = done (s, again)
  decode_round debug (s, some item) = send_item debug s item >>= (λ r. done (round_end r))

  -- The round from its top
  unfoldable pub io_round : Bool → Incoming D → Outcome (Incoming D × Next D)
  unfolding give_decoder decode_dgram decode_round
  io_round debug s =
      let (s', given) = give_decoder s in
      elim given [ some dec ↦ done (s', asks dec) | none ↦ decode_round debug (decode_dgram s') ]

  -- The round once the backend has answered
  abbrev pub after_read : Bool → Incoming D × Option Error → Outcome (Incoming D × Next D)
  after_read debug (s, none) = decode_round debug (decode_dgram s)
  after_read debug (s, some e) = done (s, returns e)

  unfoldable pub answered : Bool → Incoming D → Response D.Decoder → Outcome (Incoming D × Next D)
  unfolding take_decoder decode_dgram decode_round
  answered debug s response = after_read debug (take_decoder s response)

  -- Going on from the top of the loop, or from where it asks
  abbrev pub on_again :
      (Incoming D → Outcome (Incoming D × Next D))
      → Incoming D × Next D
      → Outcome (Incoming D × Next D)
  on_again next (s, again) = next s
  on_again next (s, asks dec) = done (s, asks dec)
  on_again next (s, returns e) = done (s, returns e)

  abbrev pub on_asks :
      (Incoming D → Outcome (Incoming D × Next D))
      → Incoming D × Next D
      → Outcome (Incoming D × Next D)
  on_asks next (s, again) = done (s, again)
  on_asks next (s, asks dec) = next s
  on_asks next (s, returns e) = done (s, returns e)

  -- `io_loop`, by the answers of the backend, one for each time it is asked
  unfoldable pub io_loop :
      Bool → List (Response D.Decoder) → Incoming D → Outcome (Incoming D × Next D)
  unfolding answered io_round
  io_loop debug [] s = io_round debug s
  io_loop debug (response ∷ responses) s =
      io_round debug s
      >>= on_asks (λ s'. answered debug s' response >>= on_again (io_loop debug responses))

  -- A poll of the future of `read`, with the poll of `io_loop`
  unfoldable pub poll_read : Option Error → Incoming D → Option Error
  poll_read io s = select io (cancel_event s.cancel) (app_event s.items.errors)

  -- `close`, and then the drops of the fields
  unfoldable pub close : Incoming D → Error → Incoming D
  unfolding close_first
  close s error =
      let (cancel, first) = Oneshot.send s.cancel error in
      record s {
        items = drop_sender false (close_first s.items error first);
        cancel = Oneshot.drop_receiver (Oneshot.drop_sender cancel);
      }
