-- ===== src/Sync/Event/Wakeups.antt =====
-- No wakeup of the event is lost (aquic-core/src/sync/util/event.rs).
use aquic.Base.{
  ℕ, zero, suc, ◌<◌, ◌≡◌, refl, sym, ap, ◌∙◌, subst, ◌≢◌, ◌⊎◌, inl, inr, Bool, true, false, ◌||◌,
  some, List, [], ◌∷◌, ◌++◌, arith, ◌==◌, Bool-cases, length, get_or, length-append, length-set,
  get_or-set_self, get_or-set_ne, wrapping_add,
}
use aquic.Sync.Event.{
  EventState, EventListener, WaiterState, new_waiter, listen, state_of, notify_all, is_linked, poll,
  drop,
}
use aquic.Sync.Event.Links.{Distinct, is_linked-append, is_linked-single, is_linked-remove}
use aquic.Sync.Event.Waiting.{notify_each_self, poll_ready, poll_pending, waiting_state, same_name}

-- The listener of waiter `w` waits, with the waker `k`.
pub record Waits (w k : ℕ) (s : EventState) : Type 0 where
  pub linked : is_linked w s.list ≡ true
  pub made : w < length s.waiters
  pub has_waker : (state_of s w).waker ≡ some k
  pub pending : (state_of s w).notified ≡ false

get_or-append :
    (xs : List WaiterState) (i : ℕ)
    → get_or (xs ++ new_waiter ∷ []) i new_waiter ≡ get_or xs i new_waiter
get_or-append [] zero = refl
get_or-append [] (suc i) = refl
get_or-append (x ∷ xs) zero = refl
get_or-append (x ∷ xs) (suc i) = get_or-append xs i

pub listen-Waits : (w k : ℕ) (s : EventState) → Waits w k s → Waits w k (listen s).0
unfolding listen
listen-Waits w k s v = record {
  linked = v.linked;
  made = omega (arith, v.made, length-append s.waiters (new_waiter ∷ []));
  has_waker = ap (λ (t : WaiterState). t.waker) (get_or-append s.waiters w) ∙ v.has_waker;
  pending = ap (λ (t : WaiterState). t.notified) (get_or-append s.waiters w) ∙ v.pending;
}

pub drop-Waits :
    (w k : ℕ) (s : EventState) (l : EventListener)
    → Distinct s.list
    → l.waiter ≢ w
    → Waits w k s
    → Waits w k (drop s l)
unfolding drop
drop-Waits w k s l d other v = elim (Bool-cases (is_linked l.waiter s.list)) [
  | inl e ↦ rw e (record {
    linked = is_linked-remove w l.waiter s.list d ∙ rw v.linked (ground arith);
    made = v.made;
    has_waker = v.has_waker;
    pending = v.pending;
  })
  | inr e ↦ rw e v
]

pub waiting_state-linked :
    (w : ℕ) (s : EventState) (l : EventListener) (cx : ℕ)
    → is_linked w (waiting_state s l cx).list ≡ (is_linked w s.list || (w == l.waiter))
waiting_state-linked w s l cx = elim (Bool-cases (is_linked l.waiter s.list)) [
  | inl e ↦ rw e (elim (Bool-cases (w == l.waiter)) [
    | inl same ↦
        subst (λ x. is_linked x s.list ≡ (is_linked x s.list || (x == l.waiter)))
          (sym (same_name w l.waiter same)) (rw e refl)
    | inr other ↦ rw other (ground arith)
  ])
  | inr e ↦ rw e (is_linked-append w s.list (l.waiter ∷ []) ∙ rw (is_linked-single w l.waiter) refl)
]

pub waiting-Waits :
    (w k : ℕ) (s : EventState) (l : EventListener) (cx : ℕ)
    → l.waiter ≢ w
    → Waits w k s
    → Waits w k (waiting_state s l cx)
waiting-Waits w k s l cx other v =
    let same =
      get_or-set_ne s.waiters l.waiter w (record (state_of s l.waiter) { waker = some cx })
        new_waiter other in
    record {
      linked = waiting_state-linked w s l cx ∙ rw v.linked refl;
      made = omega (
        arith,
        v.made,
        length-set s.waiters l.waiter (record (state_of s l.waiter) { waker = some cx }),
      );
      has_waker = ap (λ (t : WaiterState). t.waker) same ∙ v.has_waker;
      pending = ap (λ (t : WaiterState). t.notified) same ∙ v.pending;
    }

-- The two ways that `poll` ends.
pub poll-cases :
    (s : EventState) (l : EventListener) (cx : ℕ)
    → (poll s l cx ≡ (s, true))
      ⊎ ((poll s l cx ≡ (waiting_state s l cx, false))
          × (s.epoch ≡ l.target_epoch)
          × ((state_of s l.waiter).notified ≡ false))
poll-cases s l cx = elim (Bool-cases (s.epoch == l.target_epoch)) [
  | inr e ↦ inl (poll_ready s l cx (inl (λ p. ground arith)))
  | inl e ↦ elim (Bool-cases (state_of s l.waiter).notified) [
    | inl n ↦ inl (poll_ready s l cx (inr n))
    | inr n ↦ inr (poll_pending s l cx (same_name _ _ e) n, same_name _ _ e, n)
  ]
]

pub poll-Waits :
    (w k : ℕ) (s : EventState) (l : EventListener) (cx : ℕ)
    → l.waiter ≢ w
    → Waits w k s
    → Waits w k (poll s l cx).0
poll-Waits w k s l cx other v = elim (poll-cases s l cx) [
  | inl e ↦ rw e v
  | inr e ↦ rw e.0 (waiting-Waits w k s l cx other v)
]

pub ready_pending : false ≢ true
ready_pending e = absurd cc

pub own_state :
    (s : EventState) (l : EventListener) (cx : ℕ)
    → l.waiter < length s.waiters
    → state_of (waiting_state s l cx) l.waiter ≡ record (state_of s l.waiter) { waker = some cx }
own_state s l cx made =
    get_or-set_self s.waiters l.waiter (record (state_of s l.waiter) { waker = some cx }) new_waiter
      made

pub own_waiting-Waits :
    (s : EventState) (l : EventListener) (cx : ℕ)
    → l.waiter < length s.waiters
    → (state_of s l.waiter).notified ≡ false
    → Waits l.waiter cx (waiting_state s l cx)
own_waiting-Waits s l cx made n = record {
  linked = waiting_state-linked l.waiter s l cx ∙ ground arith;
  made = omega (
    arith,
    made,
    length-set s.waiters l.waiter (record (state_of s l.waiter) { waker = some cx }),
  );
  has_waker = ap (λ (t : WaiterState). t.waker) (own_state s l cx made);
  pending = ap (λ (t : WaiterState). t.notified) (own_state s l cx made) ∙ n;
}

-- The own poll that is pending.
pub own_poll-Waits :
    (s : EventState) (l : EventListener) (cx : ℕ)
    → l.waiter < length s.waiters
    → (poll s l cx).1 ≡ false
    → Waits l.waiter cx (poll s l cx).0
own_poll-Waits s l cx made h = elim (poll-cases s l cx) [
  | inl e ↦ absurd (ready_pending (sym h ∙ ap (λ (r : EventState × Bool). r.1) e))
  | inr (e, same, n) ↦ rw e (own_waiting-Waits s l cx made n)
]

pub notify_all-Waits :
    (w k : ℕ) (s : EventState)
    → Distinct s.list
    → Waits w k s
    → (is_linked k (notify_all s).woken ≡ true) × ((state_of (notify_all s) w).notified ≡ true)
unfolding notify_all
notify_all-Waits w k s d v =
    let (same, woken) =
      notify_each_self s.list (record s { epoch = wrapping_add s.epoch 1 }) w k d v.made v.has_waker
        v.linked in
    (woken, ap (λ (t : WaiterState). t.notified) same)
