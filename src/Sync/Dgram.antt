-- ===== src/Sync/Dgram.antt =====
-- aquic-core/src/sync/dgram.rs: the channel of one direction of datagrams, with the errors of
-- aquic-core/src/dgram/mod.rs.
--
-- `Channel` holds what the two ends share: the weighted channel of the items, the oneshot channel of the
-- error, and the watch channel of the maximal datagram size with the sender's place in it. `send` and
-- `recv` are one poll of their futures: a poll that is not ready leaves the channel as it is. `estimate`
-- is the weight that `Estimate` gives an item. A text of a hang-up is told by where it is written.
pub mod Ending
pub mod Open
mod Tests
use aquic.Base.{
  ℕ, zero, suc, ◌+◌, ◌-◌, ◌*◌, ◌/◌, ◌%◌, ◌^◌, ◌≤◌, ◌<◌, min, max, ◌≡◌, refl, sym, ap, ◌∙◌, subst,
  ◌≢◌, ◌↔◌, ◌⊎◌, inl, inr, Bool, true, false, not, ◌&&◌, ◌||◌, Option, none, some, List, [], ◌∷◌,
  ◌++◌, map, arith, ltb, leb, ◌==◌, if◌then◌else◌, ltb→lt, lt→ltb, le→ltb, leb→le, le→leb, lt→leb,
  ==_iff, tests, ltb-cases, ==-cases, Bool-cases, Option-cases, length, get_elem?, get_or, set,
  replicate, All, length-append, length-set, length-replicate, get_or-set_self, get_or-set_ne, take,
  drop, take_append, drop_append, append_injective, take_append_at, drop_append_at, take-drop,
  length-take, length-drop, word, wrapping_add, Outcome, done, panic, ◌>>=◌, add_word, sub_word,
  add_word-eq, sub_word-eq,
}
use aquic.Sync.Mpsc.Unbounded.{Received, ok, empty, closed}
use aquic.Sync.Mpsc.Unbounded
use aquic.Sync.Mpsc.Weighted
use aquic.Sync.Mpmc.Oneshot
use aquic.Sync.Mpmc.Watch

pub data Message : Type 0 where
  error_receiver_unavailable item_sender_unavailable item_receiver_unavailable dropped_by_panic :
      Message
  other : ℕ → Message

pub data Error : Type 0 where
  end connection : Error
  hang_up : Message → Error

pub record Channel (T : Type 0) : Type 0 where
  pub items : Weighted.Channel T
  pub errors : Oneshot.Shared Error
  pub max_dgram_size : Watch.Shared ℕ
  pub max_dgram_size_receiver : Watch.Receiver

-- What a poll or an attempt answers: a value, an error, or nothing yet.
pub data Answer (A : Type 0) : Type 0 where
  ready : A → Answer A
  failed : Error → Answer A
  pending : Answer A

abbrev pub err_rx_fallback_error : Error
err_rx_fallback_error = hang_up error_receiver_unavailable

-- `close`, which both ends have.
close_answer : Error → Oneshot.Sent Error → Error
close_answer error Oneshot.sent = error
close_answer error Oneshot.send_closed = err_rx_fallback_error
close_answer error (Oneshot.full actual_error) = actual_error

-- The error of `Drop for Sender` and `Drop for Receiver`
abbrev pub drop_error : Bool → Error
drop_error panicking = if panicking then hang_up dropped_by_panic else end

module _ {T : Type 0} where
  -- Each end has a sender and a receiver of errors.
  abbrev pub channel : ℕ → Channel T
  channel bound = record {
    items = Weighted.channel bound;
    errors = Oneshot.clone_receiver (Oneshot.clone_sender Oneshot.channel);
    max_dgram_size = Watch.channel.0;
    max_dgram_size_receiver = (Watch.channel {T = ℕ}).1;
  }

  unfoldable pub close : Channel T → Error → Channel T × Error
  unfolding close_answer
  close c error =
      let (errors, answer) = Oneshot.send c.errors error in
      (record c { errors = errors }, close_answer error answer)

  -- `Err(self.close(error))`
  abbrev pub fail : {A : Type 0} → Channel T → Error → Channel T × Answer A
  fail c error = let (c', e) = close c error in (c', failed e)

  -- `error` of both ends, and the error that ends their futures
  abbrev pub error : Channel T → Option Error
  error c = elim (Oneshot.try_recv c.errors) [
    | ok err ↦ some err
    | closed ↦ some err_rx_fallback_error
    | empty ↦ none
  ]

  -- What `send` and `try_send` do with the answer of the item channel.
  unfoldable pub after_send :
      Channel T → Weighted.Channel T × Weighted.Sent → Channel T × Answer (Unit {0})
  after_send c (items, Weighted.sent) = (record c { items = items }, ready tt)
  after_send c (items, Weighted.send_closed) =
      fail (record c { items = items }) (hang_up item_sender_unavailable)
  after_send c (items, Weighted.full) = (c, pending)
  after_send c (items, Weighted.waits l) = (c, pending)

  -- `Sender::send`
  unfoldable pub send : (T → ℕ) → Channel T → T → Channel T × Answer (Unit {0})
  unfolding after_send
  send estimate c item = elim (error c) [
    | some err ↦ fail c err
    | none ↦ after_send c (Weighted.send_round c.items item (estimate item))
  ]

  -- `Sender::try_send`: `pending` is its `Ok(false)`.
  unfoldable pub try_send : (T → ℕ) → Channel T → T → Channel T × Answer (Unit {0})
  unfolding after_send
  try_send estimate c item = elim (error c) [
    | some err ↦ (c, failed err)
    | none ↦ after_send c (Weighted.try_send c.items item (estimate item))
  ]

  unfoldable pub after_recv : Channel T → Weighted.Channel T × Received T → Channel T × Answer T
  after_recv c (items, ok item) = (record c { items = items }, ready item)
  after_recv c (items, empty) = (record c { items = items }, pending)
  after_recv c (items, closed) =
      fail (record c { items = items }) (hang_up item_receiver_unavailable)

  -- `Receiver::recv`
  unfoldable pub recv : Bool → Channel T → Outcome (Channel T × Answer T)
  unfolding after_recv
  recv debug c =
      let items : Outcome (Channel T × Answer T) =
        Weighted.try_recv debug c.items >>= (λ r. done (after_recv c r)) in
      elim (error c) [ none ↦ items | some err ↦ done (fail c err) ]

  -- `Receiver::try_recv`: `pending` is its `Ok(None)`.
  abbrev pub try_recv : Bool → Channel T → Outcome (Channel T × Answer T)
  try_recv debug c = recv debug c

  abbrev pub terminate_due_connection : Channel T → Channel T
  terminate_due_connection c = (close c connection).0

  abbrev pub hangup : Channel T → Message → Channel T
  hangup c message = (close c (hang_up message)).0

  -- `Receiver::set_max_dgram_size`; a debug build panics on overflow of the version.
  unfoldable pub set_max_dgram_size : Bool → Channel T → ℕ → Outcome (Channel T)
  set_max_dgram_size debug c value = do
    (shared, is_sent) ← Watch.send debug c.max_dgram_size value
    done (record c { max_dgram_size = shared })

  -- `Drop for Sender`, and then those of its fields
  abbrev pub drop_sender : Bool → Channel T → Channel T
  drop_sender panicking c =
      let c' = (close c (drop_error panicking)).0 in
      record c' {
        items = record c'.items { queue = Unbounded.drop_sender c'.items.queue };
        errors = Oneshot.drop_receiver (Oneshot.drop_sender c'.errors);
        max_dgram_size = Watch.drop_receiver c'.max_dgram_size;
      }

  -- `Drop for Receiver`, and then those of its fields
  abbrev pub drop_receiver : Bool → Channel T → Channel T
  drop_receiver panicking c =
      let c' = (close c (drop_error panicking)).0 in
      record c' {
        items = Weighted.drop_receiver c'.items;
        errors = Oneshot.drop_receiver (Oneshot.drop_sender c'.errors);
        max_dgram_size = Watch.drop_sender c'.max_dgram_size;
      }
