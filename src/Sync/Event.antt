-- ===== src/Sync/Event.antt =====
-- aquic-core/src/sync/util/event.rs: the event that the single-threaded channels wait on.
--
-- A waker is a number. `waiters` holds the state of every waiter ever made, which the source keeps in
-- the listeners, and `list` the linked ones by their places there. `woken` lists the wakers that were
-- woken, in order.
pub mod Links
pub mod Waiting
pub mod Wakeups
pub mod Invariant
mod Tests
use aquic.Base.{
  ℕ, zero, suc, ◌+◌, ◌-◌, ◌*◌, ◌/◌, ◌%◌, ◌^◌, ◌≤◌, ◌<◌, min, max, ◌≡◌, refl, sym, ap, ◌∙◌, subst,
  ◌≢◌, ◌↔◌, ◌⊎◌, inl, inr, Bool, true, false, not, ◌&&◌, ◌||◌, Option, none, some, List, [], ◌∷◌,
  ◌++◌, map, arith, ltb, leb, ◌==◌, if◌then◌else◌, ltb→lt, lt→ltb, le→ltb, leb→le, le→leb, lt→leb,
  ==_iff, tests, Bool-cases, Option-cases, length, get_elem?, get_or, set, replicate, All,
  length-append, length-set, length-replicate, get_or-set_self, get_or-set_ne, word, wrapping_add,
  Outcome, done, panic, ◌>>=◌, add_word, sub_word, add_word-eq, sub_word-eq,
}

pub record WaiterState : Type 0 where
  pub waker : Option ℕ
  pub notified : Bool

abbrev pub new_waiter : WaiterState
new_waiter = record { waker = none; notified = false }

pub record EventState : Type 0 where
  pub list : List ℕ
  pub epoch : ℕ
  pub waiters : List WaiterState
  pub woken : List ℕ

pub record EventListener : Type 0 where
  pub target_epoch : ℕ
  pub waiter : ℕ

abbrev pub new : EventState
new = record { list = []; epoch = 0; waiters = []; woken = [] }

unfoldable pub listen : EventState → EventState × EventListener
listen s = (
  record s { waiters = s.waiters ++ new_waiter ∷ [] },
  record { target_epoch = s.epoch; waiter = length s.waiters },
)

abbrev pub state_of : EventState → ℕ → WaiterState
state_of s w = get_or s.waiters w new_waiter

-- `if let Some(waker) = w_state.waker.take() { waker.wake(); }`
abbrev pub taken : Option ℕ → List ℕ
taken none = []
taken (some k) = k ∷ []

-- The loop of `notify_all` over the list.
pub notify_each : List ℕ → EventState → EventState
notify_each [] s = record s { list = [] }
notify_each (w ∷ list) s = notify_each list (record s {
  waiters = set s.waiters w (record { waker = none; notified = true });
  woken = s.woken ++ taken (state_of s w).waker;
})

unfoldable pub notify_all : EventState → EventState
notify_all s = notify_each s.list (record s { epoch = wrapping_add s.epoch 1 })

-- `LinkedListLink::is_linked`
pub is_linked : ℕ → List ℕ → Bool
is_linked w [] = false
is_linked w (x ∷ list) = (w == x) || is_linked w list

-- `Cursor::remove`
pub remove : ℕ → List ℕ → List ℕ
remove w [] = []
remove w (x ∷ list) = if w == x then list else x ∷ remove w list

-- `EventListener::poll` with the waker `cx`; the result says whether it is ready.
unfoldable pub poll : EventState → EventListener → ℕ → EventState × Bool
poll s l cx =
    if not (s.epoch == l.target_epoch)
    then (s, true)
    else if (state_of s l.waiter).notified
    then (s, true)
    else (
      record s {
        waiters = set s.waiters l.waiter (record (state_of s l.waiter) { waker = some cx });
        list = if is_linked l.waiter s.list then s.list else s.list ++ l.waiter ∷ [];
      },
      false,
    )

-- `Drop for EventListener`
unfoldable pub drop : EventState → EventListener → EventState
drop s l = if is_linked l.waiter s.list then record s { list = remove l.waiter s.list } else s
