-- ===== src/Sync/Mpsc/Unbounded.antt =====
-- aquic-core/src/sync/mpsc/unbounded/st.rs: the unbounded channel of one thread.
--
-- The `Rc` that the ends share counts them: `senders` and the receiver, if it is there. `woken` lists
-- the wakers that were woken. A poll of `recv` with the waker `cx` is `poll_recv`.
pub mod Fifo
mod Tests
use aquic.Base.{
  ℕ, zero, suc, ◌+◌, ◌-◌, ◌*◌, ◌/◌, ◌%◌, ◌^◌, ◌≤◌, ◌<◌, min, max, ◌≡◌, refl, sym, ap, ◌∙◌, subst,
  ◌≢◌, ◌↔◌, ◌⊎◌, inl, inr, Bool, true, false, not, ◌&&◌, ◌||◌, Option, none, some, List, [], ◌∷◌,
  ◌++◌, map, arith, ltb, leb, ◌==◌, if◌then◌else◌, ltb→lt, lt→ltb, le→ltb, leb→le, le→leb, lt→leb,
  ==_iff, tests, Bool-cases, Option-cases, length, get_elem?, get_or, set, replicate, All,
  length-append, length-set, length-replicate, get_or-set_self, get_or-set_ne, word, wrapping_add,
  Outcome, done, panic, ◌>>=◌, add_word, sub_word, add_word-eq, sub_word-eq,
}

-- `TryRecvError` of aquic-core/src/sync/mod.rs, and the value that is received otherwise.
pub data Received {ℓ} (T : Type ℓ) : Type ℓ where
  ok : T → Received T
  empty closed : Received T

pub record Shared {ℓ} (T : Type ℓ) : Type ℓ where
  pub deque : List T
  pub receiver_waker : Option ℕ
  pub receiver_exists : Bool
  pub senders : ℕ
  pub woken : List ℕ

module _ {ℓ} {T : Type ℓ} where
  abbrev pub channel : Shared T
  channel = record {
    deque = [];
    receiver_waker = none;
    receiver_exists = true;
    senders = 1;
    woken = [];
  }

  -- `Rc::strong_count`
  abbrev pub strong_count : Shared T → ℕ
  strong_count s = s.senders + (if s.receiver_exists then 1 else 0)

  -- `if let Some(waker) = shared.receiver_waker.take() { waker.wake(); }`
  pub wake : Shared T → Shared T
  wake s = elim s.receiver_waker [
    | none ↦ s
    | some k ↦ record s { receiver_waker = none; woken = s.woken ++ k ∷ [] }
  ]

  -- `send`; the flag is false where the value comes back in a `SendError`.
  unfoldable pub send : Shared T → T → Shared T × Bool
  unfolding wake
  send s value =
      if not s.receiver_exists
      then (s, false)
      else (wake (record s { deque = s.deque ++ value ∷ [] }), true)

  abbrev pub sender_is_closed : Shared T → Bool
  sender_is_closed s = not s.receiver_exists

  -- `Clone for Sender`
  abbrev pub clone_sender : Shared T → Shared T
  clone_sender s = record s { senders = s.senders + 1 }

  -- `Drop for Sender`; its `Rc` goes last.
  unfoldable pub drop_sender : Shared T → Shared T
  unfolding wake
  drop_sender s =
      let s' = if (strong_count s == 2) && s.receiver_exists then wake s else s in
      record s' { senders = s'.senders - 1 }

  abbrev pub is_closed : Shared T → Bool
  is_closed s = strong_count s == 1

  unfoldable pub try_recv : Shared T → Shared T × Received T
  try_recv s = elim s.deque [
    | value ∷ deque ↦ (record s { deque = deque }, ok value)
    | [] ↦ if is_closed s then (s, closed) else (s, empty)
  ]

  -- A poll of `recv`: ready with the value or the end, or pending.
  unfoldable pub poll_recv : Shared T → ℕ → Shared T × Received T
  poll_recv s cx = elim s.deque [
    | value ∷ deque ↦ (record s { deque = deque }, ok value)
    | [] ↦ if is_closed s then (s, closed) else (record s { receiver_waker = some cx }, empty)
  ]

  -- `Drop for Receiver`
  abbrev pub drop_receiver : Shared T → Shared T
  drop_receiver s = record s { deque = []; receiver_waker = none; receiver_exists = false }
