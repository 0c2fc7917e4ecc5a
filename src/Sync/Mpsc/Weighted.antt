-- ===== src/Sync/Mpsc/Weighted.antt =====
-- aquic-core/src/sync/mpsc/weighted (has_capacity of mod.rs, and st.rs): the channel of one thread whose
-- items have a weight, and whose senders wait while too much of it is queued.
--
-- One round of the loop of `send` is `send_round`: it waits with a listener of the event, or is done.
-- `recv` of a queued item and `try_recv` are one definition, since they differ in the source only in
-- how they wait for an item. A subtraction below 0 panics in a debug
-- build, and wraps in a release build.
pub mod Flow
mod Tests
use aquic.Base.{
  ℕ, zero, suc, ◌+◌, ◌-◌, ◌*◌, ◌/◌, ◌%◌, ◌^◌, ◌≤◌, ◌<◌, min, max, ◌≡◌, refl, sym, ap, ◌∙◌, subst,
  ◌≢◌, ◌↔◌, ◌⊎◌, inl, inr, Bool, true, false, not, ◌&&◌, ◌||◌, Option, none, some, List, [], ◌∷◌,
  ◌++◌, map, arith, ltb, leb, ◌==◌, if◌then◌else◌, ltb→lt, lt→ltb, le→ltb, leb→le, le→leb, lt→leb,
  ==_iff, tests, Bool-cases, Option-cases, length, get_elem?, get_or, set, replicate, All,
  length-append, length-set, length-replicate, get_or-set_self, get_or-set_ne, word, wrapping_add,
  Outcome, done, panic, ◌>>=◌, add_word, sub_word, add_word-eq, sub_word-eq,
}
use aquic.Sync.Event.{EventState, EventListener, listen, notify_all}
use aquic.Sync.Mpsc.Unbounded.{Received, ok, empty, closed}
use aquic.Sync.Mpsc.Unbounded
use aquic.Sync.Event

abbrev pub has_capacity : ℕ → ℕ → ℕ → Bool
has_capacity current_occupation item_weight bound =
    if current_occupation == 0
    then true
    else if ltb (current_occupation + item_weight) word
    then leb (current_occupation + item_weight) bound
    else false

-- `Shared`, beside the unbounded channel that carries the items.
pub record Channel {ℓ} (T : Type ℓ) : Type ℓ where
  pub queue : Unbounded.Shared (T × ℕ)
  pub event : EventState
  pub occupation : ℕ
  pub bound : ℕ

pub data Sent : Type 0 where
  sent full send_closed : Sent
  waits : EventListener → Sent

module _ {ℓ} {T : Type ℓ} where
  abbrev pub channel : ℕ → Channel T
  channel bound = record {
    queue = Unbounded.channel;
    event = Event.new;
    occupation = 0;
    bound = max bound 1;
  }

  -- What both ways to send do once there is room.
  unfoldable pub admit : Channel T → T → ℕ → Channel T × Sent
  admit c value weight =
      let (queue, is_sent) = Unbounded.send c.queue (value, weight) in
      if is_sent
      then (record c { queue = queue; occupation = c.occupation + weight }, sent)
      else (record c { queue = queue; occupation = 0; event = notify_all c.event }, send_closed)

  unfoldable pub send_round : Channel T → T → ℕ → Channel T × Sent
  unfolding admit
  send_round c value weight =
      if Unbounded.sender_is_closed c.queue
      then (c, send_closed)
      else if has_capacity c.occupation weight c.bound
      then admit c value weight
      else (record c { event = (listen c.event).0 }, waits (listen c.event).1)

  unfoldable pub try_send : Channel T → T → ℕ → Channel T × Sent
  unfolding admit
  try_send c value weight =
      if Unbounded.sender_is_closed c.queue
      then (c, send_closed)
      else if not (has_capacity c.occupation weight c.bound)
      then (c, full)
      else admit c value weight

  -- What both ways to receive do once an item of that weight was taken.
  unfoldable pub release : Bool → Channel T → ℕ → Outcome (Channel T)
  release debug c weight = do
    occupation ← sub_word debug c.occupation weight
    done (
        if has_capacity occupation weight c.bound
        then record c { occupation = occupation; event = notify_all c.event }
        else record c { occupation = occupation })

  -- What `recv` and `try_recv` do with what the unbounded channel hands over.
  unfoldable pub received : Bool → Channel T → Received (T × ℕ) → Outcome (Channel T × Received T)
  received debug c (ok (value, weight)) = do c' ← release debug c weight; done (c', ok value)
  received debug c empty = done (c, empty)
  received debug c closed = done (c, closed)

  unfoldable pub try_recv : Bool → Channel T → Outcome (Channel T × Received T)
  try_recv debug c =
      let (queue, item) = Unbounded.try_recv c.queue in
      received debug (record c { queue = queue }) item

  -- `Drop for Receiver`, and then that of its unbounded receiver.
  abbrev pub drop_receiver : Channel T → Channel T
  drop_receiver c = record c {
    occupation = 0;
    event = notify_all c.event;
    queue = Unbounded.drop_receiver c.queue;
  }
