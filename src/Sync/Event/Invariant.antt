-- ===== src/Sync/Event/Invariant.antt =====
-- The well-formed events, and that no wakeup is lost (aquic-core/src/sync/util/event.rs).
use native.Mathlib.Nat.{mod-lt}
use aquic.Base.{
  ℕ, ◌+◌, ◌<◌, ◌≡◌, sym, ap, ◌∙◌, subst, ◌≢◌, inl, inr, Bool, true, false, not, ◌&&◌, ◌||◌, [], ◌∷◌,
  ◌++◌, arith, ◌==◌, if◌then◌else◌, Bool-cases, length, word, wrapping_add,
}
use aquic.Sync.Event.{
  EventState, EventListener, new, listen, state_of, notify_all, is_linked, remove, poll, drop,
}
use aquic.Sync.Event.Links.{Distinct, Distinct-append, Distinct-remove, is_linked-remove}
use aquic.Sync.Event.Waiting.{
  notify_each_list, notify_each_epoch, poll_ready, waiting_state, same_name, not_same,
}
use aquic.Sync.Event.Wakeups.{
  Waits, listen-Waits, drop-Waits, waiting_state-linked, poll-cases, poll-Waits, own_poll-Waits,
  own_waiting-Waits, ready_pending, notify_all-Waits, waiting-Waits,
}

-- No waiter is linked twice, and each linked one waits, with a waker.
pub record IsEvent (s : EventState) : Type 0 where
  pub distinct : Distinct s.list
  pub waiting : (w : ℕ) → is_linked w s.list ≡ true → (k : ℕ) × Waits w k s
  pub small : s.epoch < word

new-IsEvent : IsEvent new
unfolding is_linked Distinct
new-IsEvent = record { distinct = tt; waiting = λ w h. absurd (grind arith); small = omega arith }

listen-IsEvent : (s : EventState) → IsEvent s → IsEvent (listen s).0
unfolding listen
listen-IsEvent s v = record {
  distinct = v.distinct;
  waiting = λ w h. let (k, waits) = v.waiting w h in (k, listen-Waits w k s waits);
  small = v.small;
}

removed-IsEvent :
    (s : EventState) (l : EventListener)
    → is_linked l.waiter s.list ≡ true
    → IsEvent s
    → IsEvent (record s { list = remove l.waiter s.list })
removed-IsEvent s l e v = record {
  distinct = Distinct-remove l.waiter s.list v.distinct;
  waiting = λ w h.
      let both : (is_linked w s.list && not (w == l.waiter)) ≡ true =
        sym (is_linked-remove w l.waiter s.list v.distinct) ∙ h in
      let (k, waits) = v.waiting w (ground arith) in
      (
        k,
        record {
          linked = h;
          made = waits.made;
          has_waker = waits.has_waker;
          pending = waits.pending;
        },
      );
  small = v.small;
}

drop-IsEvent : (s : EventState) (l : EventListener) → IsEvent s → IsEvent (drop s l)
unfolding drop
drop-IsEvent s l v = elim (Bool-cases (is_linked l.waiter s.list)) [
  | inl e ↦ rw e (removed-IsEvent s l e v)
  | inr e ↦ rw e v
]

waiting_state-Distinct :
    (s : EventState) (l : EventListener)
    → Distinct s.list
    → Distinct (if is_linked l.waiter s.list then s.list else s.list ++ l.waiter ∷ [])
waiting_state-Distinct s l d = elim (Bool-cases (is_linked l.waiter s.list)) [
  | inl e ↦ rw e d
  | inr e ↦ rw e (Distinct-append s.list l.waiter d e)
]

waiting_state-IsEvent :
    (s : EventState) (l : EventListener) (cx : ℕ)
    → l.waiter < length s.waiters
    → (state_of s l.waiter).notified ≡ false
    → IsEvent s
    → IsEvent (waiting_state s l cx)
waiting_state-IsEvent s l cx made n v = record {
  distinct = waiting_state-Distinct s l v.distinct;
  waiting = λ w h. elim (Bool-cases (w == l.waiter)) [
    | inl e ↦ (
      cx,
      subst (λ x. Waits x cx (waiting_state s l cx)) (sym (same_name w l.waiter e))
          (own_waiting-Waits s l cx made n),
    )
    | inr e ↦
        let before : (is_linked w s.list || (w == l.waiter)) ≡ true =
          sym (waiting_state-linked w s l cx) ∙ h in
        let (k, waits) = v.waiting w (ground arith) in
        (k, waiting-Waits w k s l cx (not_same w l.waiter e) waits)
  ];
  small = v.small;
}

poll-IsEvent :
    (s : EventState) (l : EventListener) (cx : ℕ)
    → l.waiter < length s.waiters
    → IsEvent s
    → IsEvent (poll s l cx).0
poll-IsEvent s l cx made v = elim (poll-cases s l cx) [
  | inl e ↦ rw e v
  | inr e ↦ rw e.0 (waiting_state-IsEvent s l cx made e.2 v)
]

notify_all_list : (s : EventState) → (notify_all s).list ≡ []
unfolding notify_all
notify_all_list s = notify_each_list s.list (record s { epoch = wrapping_add s.epoch 1 })

notify_all_epoch : (s : EventState) → (notify_all s).epoch ≡ wrapping_add s.epoch 1
unfolding notify_all
notify_all_epoch s = notify_each_epoch s.list (record s { epoch = wrapping_add s.epoch 1 })

notify_all-IsEvent : (s : EventState) → IsEvent (notify_all s)
unfolding is_linked Distinct
notify_all-IsEvent s = record {
  distinct = rw (notify_all_list s) tt;
  waiting = λ w h. absurd (ready_pending (sym (ap (is_linked w) (notify_all_list s)) ∙ h));
  small = omega (arith, notify_all_epoch s, mod-lt (s.epoch + 1) {m = word} (omega arith));
}

-- A new event, and what a listener, a poll, a dropped listener and a notification leave of it, has no
-- waiter linked twice; each linked one was made, has a waker and was not notified. A notification
-- leaves none linked.
pub operations_keep-IsEvent :
    IsEvent new
    × ((s : EventState)
        → IsEvent s
        → IsEvent (listen s).0
          × ((l : EventListener) (cx : ℕ) → l.waiter < length s.waiters → IsEvent (poll s l cx).0)
          × ((l : EventListener) → IsEvent (drop s l))
          × IsEvent (notify_all s)
          × ((notify_all s).list ≡ []))
operations_keep-IsEvent = (
  new-IsEvent,
  λ s v. (
    listen-IsEvent s v,
    λ l cx made. poll-IsEvent s l cx made v,
    λ l. drop-IsEvent s l v,
    notify_all-IsEvent s,
    notify_all_list s,
  ),
)

-- What can happen between a poll of the waiter `w` and a notification.
pub data Others (w : ℕ) : EventState → EventState → Type 0 where
  here : {s : EventState} → Others w s s
  listens : {s t : EventState} → Others w (listen s).0 t → Others w s t
  polls :
      {s t : EventState} (l : EventListener) (cx : ℕ)
      → l.waiter < length s.waiters
      → l.waiter ≢ w
      → Others w (poll s l cx).0 t
      → Others w s t
  drops :
      {s t : EventState} (l : EventListener) → l.waiter ≢ w → Others w (drop s l) t → Others w s t

Others-Waits :
    (w k : ℕ) (s t : EventState) → IsEvent s → Waits w k s → Others w s t → IsEvent t × Waits w k t
Others-Waits w k s t v waits (here) = (v, waits)
Others-Waits w k s t v waits (listens o) =
    Others-Waits w k _ t (listen-IsEvent s v) (listen-Waits w k s waits) o
Others-Waits w k s t v waits (polls l cx made ne o) =
    Others-Waits w k _ t (poll-IsEvent s l cx made v) (poll-Waits w k s l cx ne waits) o
Others-Waits w k s t v waits (drops l ne o) =
    Others-Waits w k _ t (drop-IsEvent s l v) (drop-Waits w k s l v.distinct ne waits) o

-- A listener whose poll was pending with the waker `cx` is woken by the next notification, whatever
-- the other listeners do in between, and its next poll is ready.
pub no_lost_wakeup :
    (s t : EventState) (l : EventListener) (cx cx' : ℕ)
    → IsEvent s
    → l.waiter < length s.waiters
    → (poll s l cx).1 ≡ false
    → Others l.waiter (poll s l cx).0 t
    → (is_linked cx (notify_all t).woken ≡ true) × ((poll (notify_all t) l cx').1 ≡ true)
no_lost_wakeup s t l cx cx' v made pending o =
    let (vt, waits) =
      Others-Waits l.waiter cx (poll s l cx).0 t (poll-IsEvent s l cx made v)
        (own_poll-Waits s l cx made pending) o in
    let (woken, notified) = notify_all-Waits l.waiter cx t vt.distinct waits in
    (woken, ap (λ (r : EventState × Bool). r.1) (poll_ready (notify_all t) l cx' (inr notified)))

next_epoch : (n : ℕ) → n < word → wrapping_add n 1 ≢ n
next_epoch n h e = ground arith

-- A notification between `listen` and the first poll is seen by that poll.
notified_before_poll :
    (s : EventState) (cx : ℕ)
    → IsEvent s
    → (poll (notify_all (listen s).0) (listen s).1 cx).1 ≡ true
unfolding listen
notified_before_poll s cx v =
    ap (λ (r : EventState × Bool). r.1)
      (poll_ready (notify_all (listen s).0) (listen s).1 cx
        (inl (λ e. next_epoch s.epoch v.small (sym (notify_all_epoch (listen s).0) ∙ e))))
