-- ===== src/Sync/Event/Waiting.antt =====
-- That an event wakes every listener that waits on it (aquic-core/src/sync/util/event.rs).
use aquic.Base.{
  ℕ, ◌<◌, ◌≡◌, refl, sym, ap, ◌∙◌, subst, ◌≢◌, ◌⊎◌, inl, inr, true, false, none, some, List, [],
  ◌∷◌, ◌++◌, arith, ◌==◌, if◌then◌else◌, ==_iff, Bool-cases, length, set, length-set,
  get_or-set_self, get_or-set_ne,
}
use aquic.Sync.Event.{
  EventState, EventListener, WaiterState, new_waiter, state_of, taken, notify_each, is_linked, poll,
}
use aquic.Sync.Event.Links.{Distinct, is_linked-append, is_linked-single}

-- One round of the loop of `notify_all`.
abbrev notified_one : ℕ → EventState → EventState
notified_one w s = record s {
  waiters = set s.waiters w (record { waker = none; notified = true });
  woken = s.woken ++ taken (state_of s w).waker;
}

pub notify_each_list : (list : List ℕ) (s : EventState) → (notify_each list s).list ≡ []
unfolding notify_each
notify_each_list [] s = refl
notify_each_list (w ∷ list) s = notify_each_list list (notified_one w s)

pub notify_each_epoch : (list : List ℕ) (s : EventState) → (notify_each list s).epoch ≡ s.epoch
unfolding notify_each
notify_each_epoch [] s = refl
notify_each_epoch (w ∷ list) s = notify_each_epoch list (notified_one w s)

pub notify_each_length :
    (list : List ℕ) (s : EventState) → length (notify_each list s).waiters ≡ length s.waiters
unfolding notify_each
notify_each_length [] s = refl
notify_each_length (w ∷ list) s =
    notify_each_length list (notified_one w s)
    ∙ length-set s.waiters w (record { waker = none; notified = true })

-- What was woken stays so.
notify_each_keeps :
    (list : List ℕ) (s : EventState) (k : ℕ)
    → is_linked k s.woken ≡ true
    → is_linked k (notify_each list s).woken ≡ true
unfolding notify_each
notify_each_keeps [] s k h = h
notify_each_keeps (w ∷ list) s k h =
    notify_each_keeps list (notified_one w s) k
      (is_linked-append k s.woken (taken (state_of s w).waker) ∙ rw h refl)

one_other : (s : EventState) (w x : ℕ) → w ≢ x → state_of (notified_one w s) x ≡ state_of s x
one_other s w x h =
    get_or-set_ne s.waiters w x (record { waker = none; notified = true }) new_waiter h

one_self :
    (s : EventState) (w : ℕ)
    → w < length s.waiters
    → state_of (notified_one w s) w ≡ record { waker = none; notified = true }
one_self s w h = get_or-set_self s.waiters w (record { waker = none; notified = true }) new_waiter h

pub not_same : (a b : ℕ) → (a == b) ≡ false → b ≢ a
not_same a b e p = ground arith

-- A waiter outside the list keeps its state.
pub notify_each_other :
    (list : List ℕ) (s : EventState) (x : ℕ)
    → is_linked x list ≡ false
    → state_of (notify_each list s) x ≡ state_of s x
unfolding notify_each is_linked
notify_each_other [] s x h = refl
notify_each_other (w ∷ list) s x h =
    notify_each_other list (notified_one w s) x (ground arith)
    ∙ one_other s w x (not_same x w (ground arith))

pub same_name : (a b : ℕ) → (a == b) ≡ true → a ≡ b
same_name a b e = (==_iff a b).0 e

at_head :
    (list : List ℕ) (s : EventState) (w k : ℕ)
    → is_linked w list ≡ false
    → w < length s.waiters
    → (state_of s w).waker ≡ some k
    → (state_of (notify_each list (notified_one w s)) w ≡ record { waker = none; notified = true })
      × (is_linked k (notify_each list (notified_one w s)).woken ≡ true)
at_head list s w k apart made has = (
  notify_each_other list (notified_one w s) w apart ∙ one_self s w made,
  notify_each_keeps list (notified_one w s) k (
      is_linked-append k s.woken (taken (state_of s w).waker)
      ∙ rw has (rw (is_linked-single k k) (ground arith))),
)

-- A waiter of the list is notified, and its waker woken.
pub notify_each_self :
    (list : List ℕ) (s : EventState) (x k : ℕ)
    → Distinct list
    → x < length s.waiters
    → (state_of s x).waker ≡ some k
    → is_linked x list ≡ true
    → (state_of (notify_each list s) x ≡ record { waker = none; notified = true })
      × (is_linked k (notify_each list s).woken ≡ true)
unfolding notify_each is_linked Distinct
notify_each_self [] s x k d made has h = absurd (ground arith)
notify_each_self (w ∷ list) s x k d made has h = elim (Bool-cases (x == w)) [
  | inl e ↦
      subst
        (λ y.
          (state_of (notify_each list (notified_one w s)) y
            ≡ record { waker = none; notified = true })
          × (is_linked k (notify_each list (notified_one w s)).woken ≡ true))
        (sym (same_name x w e))
        (at_head list s w k d.0 (subst (λ y. y < length s.waiters) (same_name x w e) made)
          (subst (λ y. (state_of s y).waker ≡ some k) (same_name x w e) has))
  | inr e ↦
      notify_each_self list (notified_one w s) x k d.1
        (omega (arith, length-set s.waiters w (record { waker = none; notified = true })))
        (ap (λ (t : WaiterState). t.waker) (one_other s w x (not_same x w e)) ∙ has) (ground arith)
]

-- What the operations do to the states and the list.
pub poll_ready :
    (s : EventState) (l : EventListener) (cx : ℕ)
    → (s.epoch ≢ l.target_epoch) ⊎ ((state_of s l.waiter).notified ≡ true)
    → poll s l cx ≡ (s, true)
unfolding poll
poll_ready s l cx (inl h) = ground arith
poll_ready s l cx (inr h) = rw h (ground arith)

abbrev pub waiting_state : EventState → EventListener → ℕ → EventState
waiting_state s l cx = record s {
  waiters = set s.waiters l.waiter (record (state_of s l.waiter) { waker = some cx });
  list = if is_linked l.waiter s.list then s.list else s.list ++ l.waiter ∷ [];
}

pub poll_pending :
    (s : EventState) (l : EventListener) (cx : ℕ)
    → s.epoch ≡ l.target_epoch
    → (state_of s l.waiter).notified ≡ false
    → poll s l cx ≡ (waiting_state s l cx, false)
unfolding poll
poll_pending s l cx e h = rw h (ground arith)
