-- ===== src/Sync/Mpsc/Rpc.antt =====
-- aquic-core/src/sync/mpsc/rpc/st.rs: calls of another task, with a place for each response.
--
-- The slot map of the crate `slotmap` is a list with a slot for each key that was given out: a key is
-- never given out again. `borrowed` tells whether a guard of the `RefCell` is alive, `woken` collects the
-- wakers that were called.
pub mod Responses
mod Tests
use aquic.Base.{
  ℕ, zero, suc, ◌+◌, ◌-◌, ◌*◌, ◌/◌, ◌%◌, ◌^◌, ◌≤◌, ◌<◌, min, max, ◌≡◌, refl, sym, ap, ◌∙◌, subst,
  ◌≢◌, ◌↔◌, ◌⊎◌, inl, inr, Bool, true, false, not, ◌&&◌, ◌||◌, Option, none, some, List, [], ◌∷◌,
  ◌++◌, map, arith, ltb, leb, ◌==◌, if◌then◌else◌, ltb→lt, lt→ltb, le→ltb, leb→le, le→leb, lt→leb,
  ==_iff, tests, ltb-cases, ==-cases, Bool-cases, Option-cases, length, get_elem?, get_or, set,
  replicate, All, length-append, length-set, length-replicate, get_or-set_self, get_or-set_ne, take,
  drop, take_append, drop_append, append_injective, take_append_at, drop_append_at, take-drop,
  length-take, length-drop, word, wrapping_add, Outcome, done, panic, ◌>>=◌, add_word, sub_word,
  add_word-eq, sub_word-eq,
}
use aquic.Sync.Mpsc.Unbounded

pub data State (R : Type 0) : Type 0 where
  pending : Option ℕ → State R
  ready : R → State R
  hang_up : State R

pub data SendError : Type 0 where
  send_closed no_response : SendError

-- The arguments, and the key of the callback if there is one.
pub record Call (T : Type 0) : Type 0 where
  pub args : T
  pub callback : Option ℕ

pub record Remote (T R : Type 0) : Type 0 where
  pub sender : Unbounded.Shared (Call T)
  pub storage : List (Option (State R))
  pub borrowed : Bool
  pub woken : List ℕ

-- What a poll of a response answers.
pub data Response (R : Type 0) : Type 0 where
  value : R → Response R
  failed : SendError → Response R
  waits : Response R

module _ {T R : Type 0} where
  abbrev pub new : Unbounded.Shared (Call T) → Remote T R
  new sender = record { sender = sender; storage = []; borrowed = false; woken = [] }

  -- `storage.get_mut(key)`
  abbrev pub get_mut : Remote T R → ℕ → Option (State R)
  get_mut s key = get_or s.storage key none

  abbrev pub put : Remote T R → ℕ → Option (State R) → Remote T R
  put s key state = record s { storage = set s.storage key state }

  -- `borrow_mut`, which panics on a second guard
  abbrev pub borrow_mut : {A : Type 0} → Remote T R → A → Outcome A
  borrow_mut s a = if s.borrowed then panic else done a

  -- The part of `send` before its `await`: the guard of the storage is still alive there. The callback
  -- of a call that is not sent is dropped while the guard is alive, so that it changes nothing.
  unfoldable pub start : Remote T R → T → Outcome (Remote T R × Option ℕ)
  start s args =
      let key = length s.storage in
      let inserted = s.storage ++ some (pending none) ∷ [] in
      let (sender, is_sent) =
        Unbounded.send s.sender (record { args = args; callback = some key }) in
      borrow_mut s (
        if is_sent
        then (record s { sender = sender; storage = inserted; borrowed = true }, some key)
        else (record s { sender = sender; storage = set inserted key none }, none))

  unfoldable pub send_and_forget : Remote T R → T → Remote T R × Bool
  send_and_forget s args =
      let (sender, is_sent) = Unbounded.send s.sender (record { args = args; callback = none }) in
      (record s { sender = sender }, is_sent)

  -- `waker.take()`, and its wake
  abbrev pub wake : Remote T R → Option ℕ → Remote T R
  wake s none = s
  wake s (some cx) = record s { woken = s.woken ++ cx ∷ [] }

  -- A pending state changed, with its waker called; other states stay.
  unfoldable pub settle : Remote T R → ℕ → State R → Remote T R
  settle s key state = elim (get_mut s key) [
    | none ↦ s
    | some (pending waker) ↦ wake (put s key (some state)) waker
    | some (ready r) ↦ s
    | some hang_up ↦ s
  ]

  -- `Drop for Callback`, which `try_borrow_mut` stops
  unfoldable pub drop_callback : Remote T R → ℕ → Remote T R
  unfolding settle
  drop_callback s key = if s.borrowed then s else settle s key hang_up

  -- `Callback::on_result`, and the drop of the callback that it consumes
  unfoldable pub on_result : Remote T R → ℕ → R → Outcome (Remote T R)
  unfolding settle drop_callback
  on_result s key result = borrow_mut s (drop_callback (settle s key (ready result)) key)

  -- `ResponseFuture::poll`
  unfoldable pub poll_state : Remote T R → ℕ → ℕ → Option (State R) → Remote T R × Response R
  poll_state s key cx none = (s, failed no_response)
  poll_state s key cx (some (pending waker)) = (put s key (some (pending (some cx))), waits)
  poll_state s key cx (some (ready r)) = (put s key none, value r)
  poll_state s key cx (some hang_up) = (s, failed no_response)

  unfoldable pub poll : Remote T R → ℕ → ℕ → Outcome (Remote T R × Response R)
  unfolding poll_state
  poll s key cx = borrow_mut s (poll_state s key cx (get_mut s key))

  -- `Drop for ResponseFuture`
  unfoldable pub drop_response : Remote T R → ℕ → Remote T R
  drop_response s key = if s.borrowed then s else put s key none

  -- `send` up to the first poll of its response.
  abbrev pub first_poll : ℕ → Remote T R × Option ℕ → Outcome (Remote T R × Response R)
  first_poll cx (s, none) = done (s, failed send_closed)
  first_poll cx (s, some key) = poll s key cx

  unfoldable pub send : Remote T R → T → ℕ → Outcome (Remote T R × Response R)
  unfolding start
  send s args cx = start s args >>= first_poll cx
