-- ===== src/Sync/Stream.antt =====
-- aquic-core/src/sync/stream.rs: the channel of one direction of a stream.
--
-- `Channel` holds what the two ends share: the weighted channel of the items, the watch channel of the
-- priority with the receiver's place in it, and the oneshot channels of `Shared`. `send_item` and `recv`
-- are one poll of their futures. A poll that is not ready leaves the channel as it is: the listeners
-- that it registers with the events are not modelled here, nor is the guard of the oneshot channel that
-- its `recv` holds while it waits, nor that this future is polled again after it was ready. A priority is
-- a number.
pub mod Closing
pub mod Draining
pub mod Ending
pub mod Receiving
pub mod Sending
mod Tests
use aquic.Base.{
  ℕ, zero, suc, ◌+◌, ◌-◌, ◌*◌, ◌/◌, ◌%◌, ◌^◌, ◌≤◌, ◌<◌, min, max, ◌≡◌, refl, sym, ap, ◌∙◌, subst,
  ◌≢◌, ◌↔◌, ◌⊎◌, inl, inr, Bool, true, false, not, ◌&&◌, ◌||◌, Option, none, some, List, [], ◌∷◌,
  ◌++◌, map, arith, ltb, leb, ◌==◌, if◌then◌else◌, ltb→lt, lt→ltb, le→ltb, leb→le, le→leb, lt→leb,
  ==_iff, tests, ltb-cases, ==-cases, Bool-cases, Option-cases, length, get_elem?, get_or, set,
  replicate, All, length-append, length-set, length-replicate, get_or-set_self, get_or-set_ne, take,
  drop, take_append, drop_append, append_injective, take_append_at, drop_append_at, take-drop,
  length-take, length-drop, word, wrapping_add, Outcome, done, panic, ◌>>=◌, add_word, sub_word,
  add_word-eq, sub_word-eq,
}
use aquic.Stream.Types.{
  Spec, Message, error_receiver_unavailable, item_sender_unavailable, item_receiver_unavailable,
  dropped_by_panic, dropped_open, Error, finish, stop, reset, decoder, encoder, connection, hang_up,
  Payload, item, last, fin_only, is_fin, estimate, is_finish,
}
use aquic.Sync.Mpsc.Unbounded.{Received, ok, empty, closed}
use aquic.Sync.Mpsc.Unbounded
use aquic.Sync.Mpsc.Weighted
use aquic.Sync.Mpmc.Oneshot
use aquic.Sync.Mpmc.Watch

pub record Channel (S : Spec) : Type 0 where
  pub items : Weighted.Channel (Payload S.StreamItem)
  pub priority : Watch.Shared ℕ
  pub priority_receiver : Watch.Receiver
  pub errors : Oneshot.Shared (Error S)
  pub conn_establish : Oneshot.Shared (Unit {0})
  pub conn_shutdown_warn : Oneshot.Shared ℕ

-- What a poll answers: the future is ready, with a value or an error, or it is not.
pub data Answer (S : Spec) (A : Type 0) : Type 0 where
  ready : A → Answer S A
  failed : Error S → Answer S A
  pending : Answer S A

module _ {S : Spec} where
  abbrev pub channel : ℕ → Oneshot.Shared (Unit {0}) → Oneshot.Shared ℕ → Channel S
  channel bound conn_establish conn_shutdown_warn = record {
    items = Weighted.channel bound;
    priority = Watch.channel.0;
    priority_receiver = (Watch.channel {T = ℕ}).1;
    errors = Oneshot.channel;
    conn_establish = conn_establish;
    conn_shutdown_warn = conn_shutdown_warn;
  }

  abbrev pub err_rx_fallback_error : Error S
  err_rx_fallback_error = hang_up error_receiver_unavailable

  abbrev pub item_rx_fallback_error : Error S
  item_rx_fallback_error = hang_up item_receiver_unavailable

  -- `close`, which both ends have.
  close_answer : Error S → Oneshot.Sent (Error S) → Error S
  close_answer error Oneshot.sent = error
  close_answer error Oneshot.send_closed = err_rx_fallback_error
  close_answer error (Oneshot.full actual_error) = actual_error

  unfoldable pub close : Channel S → Error S → Channel S × Error S
  unfolding close_answer
  close c error =
      let (errors, answer) = Oneshot.send c.errors error in
      (record c { errors = errors }, close_answer error answer)

  -- `Err(self.close(error))`
  abbrev pub fail : {A : Type 0} → Channel S → Error S → Channel S × Answer S A
  fail c error = let (c', e) = close c error in (c', failed e)

  -- What `send_item` and `recv` do with an item that closes the direction.
  abbrev pub settle : {A : Type 0} → A → Channel S × Error S → Channel S × Answer S A
  settle value r = if is_finish r.1 then (r.0, ready value) else (r.0, failed r.1)

  unfoldable pub close_finish : {A : Type 0} → Channel S → Bool → A → Channel S × Answer S A
  close_finish c fin value = if fin then settle value (close c finish) else (c, ready value)

  -- The answer of the error channel to a poll, in the sender: the error that ends the future.
  abbrev pub error_event : Received (Error S) → Option (Error S)
  error_event (ok e) = some e
  error_event closed = some err_rx_fallback_error
  error_event empty = none

  -- `Sender::send_item`
  after_send :
      Channel S
      → Bool
      → Weighted.Channel (Payload S.StreamItem) × Weighted.Sent
      → Channel S × Answer S (Unit {0})
  after_send c fin (items, Weighted.sent) = close_finish (record c { items = items }) fin tt
  after_send c fin (items, Weighted.send_closed) =
      fail (record c { items = items }) (hang_up item_sender_unavailable)
  after_send c fin (items, Weighted.full) = (c, pending)
  after_send c fin (items, Weighted.waits l) = (c, pending)

  unfoldable pub send_item : Channel S → Payload S.StreamItem → Channel S × Answer S (Unit {0})
  unfolding after_send
  send_item c payload = elim (error_event (Oneshot.try_recv c.errors)) [
    | some err ↦ fail c err
    | none ↦
        after_send c (is_fin payload) (Weighted.send_round c.items payload (estimate S payload))
  ]

  -- `Sender::send`, `Sender::send_final` and `Sender::finish`, which consume the sender but for the first
  abbrev pub send : Channel S → S.StreamItem → Channel S × Answer S (Unit {0})
  send c value = send_item c (item value)

  abbrev pub send_final : Channel S → S.StreamItem → Channel S × Answer S (Unit {0})
  send_final c value = send_item c (last value)

  abbrev pub send_fin : Channel S → Channel S × Answer S (Unit {0})
  send_fin c = send_item c fin_only

  -- `Sender::terminate` and its kin, and those of the receiver
  abbrev pub sender_terminate : Channel S → S.StreamCode → Channel S
  sender_terminate c error = (close c (reset error)).0

  abbrev pub terminate_due_decoder : Channel S → S.StreamDecoderError → Channel S
  terminate_due_decoder c error = (close c (decoder error)).0

  abbrev pub terminate_due_connection : Channel S → Channel S
  terminate_due_connection c = (close c connection).0

  abbrev pub hangup : Channel S → Message → Channel S
  hangup c message = (close c (hang_up message)).0

  abbrev pub receiver_terminate : Channel S → S.StreamCode → Channel S
  receiver_terminate c error = (close c (stop error)).0

  abbrev pub terminate_due_encoder : Channel S → S.StreamEncoderError → Channel S
  terminate_due_encoder c error = (close c (encoder error)).0

  -- `error` of both ends
  abbrev pub error : Channel S → Option (Error S)
  error c = error_event (Oneshot.try_recv c.errors)

  -- `Sender::set_priority`; a debug build panics on overflow of the version.
  unfoldable pub set_priority : Bool → Channel S → ℕ → Outcome (Channel S)
  set_priority debug c priority = do
    (shared, is_sent) ← Watch.send debug c.priority priority
    done (record c { priority = shared })

  -- `Receiver::priority_once`
  unfoldable pub priority_once : Channel S → Channel S × Received ℕ
  priority_once c =
      let (receiver, value) = Watch.try_recv c.priority c.priority_receiver in
      (record c { priority_receiver = receiver }, value)

  -- `Receiver::is_conn_established`
  unfoldable pub is_conn_established : Channel S → Bool
  is_conn_established c = elim (Oneshot.try_recv c.conn_establish) [
    | ok u ↦ true
    | closed ↦ false
    | empty ↦ false
  ]

  -- What `recv` and `try_recv` do with what the item channel hands over.
  unfoldable pub after_recv :
      Channel S
      → Weighted.Channel (Payload S.StreamItem) × Received (Payload S.StreamItem)
      → Channel S × Answer S (Payload S.StreamItem)
  after_recv c (items, ok payload) =
      close_finish (record c { items = items }) (is_fin payload) payload
  after_recv c (items, empty) = (record c { items = items }, pending)
  after_recv c (items, closed) = fail (record c { items = items }) item_rx_fallback_error

  unfoldable pub receive : Bool → Channel S → Outcome (Channel S × Answer S (Payload S.StreamItem))
  unfolding after_recv
  receive debug c = do r ← Weighted.try_recv debug c.items; done (after_recv c r)

  -- `Receiver::recv`: its error future passes over `Finish`.
  unfoldable pub recv : Bool → Channel S → Outcome (Channel S × Answer S (Payload S.StreamItem))
  unfolding receive
  recv debug c =
      let items = receive debug c in
      elim (error_event (Oneshot.try_recv c.errors)) [
        | none ↦ items
        | some err ↦ if is_finish err then items else done (fail c err)
      ]

  -- `Receiver::try_recv`: `pending` is its `Ok(None)`.
  unfoldable pub try_recv : Bool → Channel S → Outcome (Channel S × Answer S (Payload S.StreamItem))
  unfolding receive
  try_recv debug c =
      let items = receive debug c in
      elim (error_event (Oneshot.try_recv c.errors)) [ none ↦ items | some err ↦ done (fail c err) ]

  -- The error of `Drop for Sender` and `Drop for Receiver`
  abbrev pub drop_error : Bool → Error S
  drop_error panicking = if panicking then hang_up dropped_by_panic else hang_up dropped_open

  -- `Drop for Sender`, and then those of its fields
  abbrev pub drop_sender : Bool → Channel S → Channel S
  drop_sender panicking c =
      let c' = (close c (drop_error panicking)).0 in
      record c' {
        items = record c'.items { queue = Unbounded.drop_sender c'.items.queue };
        priority = Watch.drop_sender c'.priority;
      }

  -- `Drop for Receiver`, and then those of its fields
  abbrev pub drop_receiver : Bool → Channel S → Channel S
  drop_receiver panicking c =
      let c' = (close c (drop_error panicking)).0 in
      record c' {
        items = Weighted.drop_receiver c'.items;
        priority = Watch.drop_receiver c'.priority;
      }
