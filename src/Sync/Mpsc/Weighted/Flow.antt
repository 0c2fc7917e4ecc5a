-- ===== src/Sync/Mpsc/Weighted/Flow.antt =====
-- What the weighted channel admits, and whom it wakes (aquic-core/src/sync/mpsc/weighted).
use aquic.Base.{
  ℕ, ◌+◌, ◌-◌, ◌≤◌, ◌<◌, ◌≡◌, refl, sym, ap, ◌∙◌, subst, ◌↔◌, ◌⊎◌, inl, inr, Bool, true, false,
  List, [], ◌∷◌, ◌++◌, arith, if◌then◌else◌, Bool-cases, length, All, word, Outcome, done, ◌>>=◌,
  sub_word-eq,
}
use aquic.Sync.Event.{EventState, EventListener, listen, notify_all, poll, is_linked}
use aquic.Sync.Event.Invariant.{IsEvent, here, no_lost_wakeup}
use aquic.Sync.Mpsc.Unbounded.{Received, ok, empty, closed}
use aquic.Sync.Mpsc.Unbounded
use aquic.Sync.Mpsc.Unbounded.Fifo.{send-queued, fifo_lem}
use aquic.Sync.Mpsc.Weighted.{
  Channel, has_capacity, sent, full, waits, admit, send_round, try_send, release, received,
  try_recv,
}

-- The condition of `has_capacity`.
has_capacity_iff :
    (occupation weight bound : ℕ)
    → bound < word
    → (has_capacity occupation weight bound ≡ true)
      ↔ ((occupation ≡ 0) ⊎ (occupation + weight ≤ bound))
has_capacity_iff occupation weight bound h = ground arith

module _ {ℓ} {T : Type ℓ} where
  abbrev pub total : List (T × ℕ) → ℕ
  total [] = 0
  total (x ∷ items) = x.1 + total items

  -- The weights of what is queued add up to the occupation, which is within the bound, or due to one
  -- item.
  pub record IsChannel (c : Channel T) : Type ℓ where
    pub exists : c.queue.receiver_exists ≡ true
    pub occupied : c.occupation ≡ total c.queue.deque
    pub within :
        (c.occupation ≤ c.bound) ⊎ All (λ x. (x.1 ≡ 0) ⊎ (x.1 ≡ c.occupation)) c.queue.deque
    pub positive : 0 < c.bound
    pub small : c.bound < word

  total-append :
      (items : List (T × ℕ)) (v : T) (w : ℕ) → total (items ++ (v, w) ∷ []) ≡ total items + w
  total-append [] v w = omega arith
  total-append (x ∷ items) v w = omega (arith, total-append items v w)

  empty_weights :
      (items : List (T × ℕ))
      → total items ≡ 0
      → (n : ℕ) → All (λ (x : T × ℕ). (x.1 ≡ 0) ⊎ (x.1 ≡ n)) items
  empty_weights [] e n = tt
  empty_weights (x ∷ items) e n = (inl (omega arith), empty_weights items (omega arith) n)

  All-append :
      (P : T × ℕ → Type 0) (items : List (T × ℕ)) (x : T × ℕ)
      → All P items
      → P x
      → All P (items ++ x ∷ [])
  All-append P [] x a p = (p, tt)
  All-append P (y ∷ items) x a p = (a.0, All-append P items x a.1 p)

  -- Sending, in every case.
  admitted-IsChannel :
      (c : Channel T) (q : Unbounded.Shared (T × ℕ)) (value : T) (weight : ℕ)
      → IsChannel c
      → has_capacity c.occupation weight c.bound ≡ true
      → q.deque ≡ c.queue.deque ++ (value, weight) ∷ []
      → q.receiver_exists ≡ true
      → IsChannel (record c { queue = q; occupation = c.occupation + weight })
  admitted-IsChannel c q value weight v room e exists = record {
    exists = exists;
    occupied = omega (arith, v.occupied, total-append c.queue.deque value weight, ap total e);
    within = elim ((has_capacity_iff c.occupation weight c.bound v.small).0 room) [
      | inl zero_before ↦ inr (
          subst (All (λ (x : T × ℕ). (x.1 ≡ 0) ⊎ (x.1 ≡ c.occupation + weight))) (sym e) (
            All-append (λ (x : T × ℕ). (x.1 ≡ 0) ⊎ (x.1 ≡ c.occupation + weight)) c.queue.deque
              (value, weight)
              (empty_weights c.queue.deque (omega (arith, v.occupied)) (c.occupation + weight))
              (inr (omega arith))))
      | inr fits ↦ inl fits
    ];
    positive = v.positive;
    small = v.small;
  }

  -- What became of an item.
  pub record Admitted (c : Channel T) (value : T) (weight : ℕ) (c' : Channel T) : Type ℓ where
    pub queued : c'.queue.deque ≡ c.queue.deque ++ (value, weight) ∷ []
    pub occupation : c'.occupation ≡ c.occupation + weight
    pub bound : c'.bound ≡ c.bound
    pub sound : IsChannel c'

  try_send-Admitted :
      (c : Channel T) (value : T) (weight : ℕ)
      → IsChannel c
      → has_capacity c.occupation weight c.bound ≡ true
      → (c' : Channel T) × (try_send c value weight ≡ (c', sent))
        × (send_round c value weight ≡ (c', sent))
        × Admitted c value weight c'
  unfolding try_send send_round admit
  try_send-Admitted c value weight v room =
      let (q, e, queued, exists) = send-queued c.queue (value, weight) v.exists in
      let c' = record c { queue = q; occupation = c.occupation + weight } in
      (
        c',
        simp (v.exists, room, e) refl,
        simp (v.exists, room, e) refl,
        record {
          queued = queued;
          occupation = refl;
          bound = refl;
          sound = admitted-IsChannel c q value weight v room queued exists;
        },
      )

  -- While the receiver is there, an item is admitted, behind the queued ones, exactly if the channel
  -- holds no weight or stays within its bound. Otherwise `try_send` is full and leaves the channel, and
  -- a round of `send` waits for the event.
  pub send_lem :
      (c : Channel T) (value : T) (weight : ℕ)
      → IsChannel c
      → ((c.occupation ≡ 0) ⊎ (c.occupation + weight ≤ c.bound)
          → (c' : Channel T) × (try_send c value weight ≡ (c', sent))
            × (send_round c value weight ≡ (c', sent))
            × Admitted c value weight c')
        × (0 < c.occupation
            → c.bound < c.occupation + weight
            → (try_send c value weight ≡ (c, full))
              × (send_round c value weight
                  ≡ (record c { event = (listen c.event).0 }, waits (listen c.event).1)))
  unfolding try_send send_round
  send_lem c value weight v = (
    λ room.
        try_send-Admitted c value weight v
          ((has_capacity_iff c.occupation weight c.bound v.small).1 room),
    λ some_weight over.
        let refused : has_capacity c.occupation weight c.bound ≡ false = ground arith in
        (rw (v.exists, refused) refl, rw (v.exists, refused) refl),
  )

  -- What is left behind an item is within the bound again, or still due to one item.
  rest-within :
      (occupation bound w : ℕ) (v : T) (rest : List (T × ℕ))
      → occupation ≡ w + total rest
      → (occupation ≤ bound) ⊎ All (λ x. (x.1 ≡ 0) ⊎ (x.1 ≡ occupation)) ((v, w) ∷ rest)
      → (occupation - w ≤ bound) ⊎ All (λ x. (x.1 ≡ 0) ⊎ (x.1 ≡ occupation - w)) rest
  rest-within occupation bound w v rest e (inl h) = inl (omega arith)
  rest-within occupation bound w v rest e (inr (inl none_taken, h)) =
      inr (subst (λ n. All (λ (x : T × ℕ). (x.1 ≡ 0) ⊎ (x.1 ≡ n)) rest) (omega arith) h)
  rest-within occupation bound w v rest e (inr (inr all_taken, h)) = inl (omega arith)

  -- A round that frees some weight leaves room for that weight.
  freed_room :
      (occupation bound w : ℕ) (v : T) (rest : List (T × ℕ))
      → bound < word
      → 0 < w
      → occupation ≡ w + total rest
      → (occupation ≤ bound) ⊎ All (λ x. (x.1 ≡ 0) ⊎ (x.1 ≡ occupation)) ((v, w) ∷ rest)
      → has_capacity (occupation - w) w bound ≡ true
  freed_room occupation bound w v rest small some_weight e (inl h) =
      (has_capacity_iff (occupation - w) w bound small).1 (inr (omega arith))
  freed_room occupation bound w v rest small some_weight e (inr h) =
      (has_capacity_iff (occupation - w) w bound small).1 (inl (omega (arith, h.0)))

  -- The channel once an item of that weight was taken.
  abbrev released : Channel T → ℕ → Channel T
  released c w = record c {
    occupation = c.occupation - w;
    event = if has_capacity (c.occupation - w) w c.bound then notify_all c.event else c.event;
  }

  release-done :
      (debug : Bool) (c : Channel T) (w : ℕ)
      → w ≤ c.occupation
      → release debug c w ≡ done (released c w)
  unfolding release
  release-done debug c w h =
      simp (sub_word-eq debug c.occupation w h)
        (elim (Bool-cases (has_capacity (c.occupation - w) w c.bound)) [
          | inl e ↦ simp e refl
          | inr e ↦ simp e refl
        ])

  try_recv-done :
      (debug : Bool) (c : Channel T) (q : Unbounded.Shared (T × ℕ)) (value : T) (w : ℕ)
      → Unbounded.try_recv c.queue ≡ (q, ok (value, w))
      → w ≤ c.occupation
      → try_recv debug c ≡ done (released (record c { queue = q }) w, ok value)
  unfolding try_recv received
  try_recv-done debug c q value w e h =
      ap (λ r. received debug (record c { queue = r.0 }) r.1) e
      ∙ ap (λ (o : Outcome (Channel T)). o >>= λ c'. done (c', ok value))
          (release-done debug (record c { queue = q }) w h)

  pub record Released (c : Channel T) (rest : List (T × ℕ)) (weight : ℕ) (c' : Channel T)
      : Type ℓ where
    pub queued : c'.queue.deque ≡ rest
    pub occupation : c'.occupation + weight ≡ c.occupation
    pub notified : 0 < weight → c'.event ≡ notify_all c.event
    pub senders : c'.queue.senders ≡ c.queue.senders
    pub sound : IsChannel c'

  -- Receiving takes the first item and its weight, without a panic, and notifies the waiting senders
  -- if that weight is not 0.
  pub recv_lem :
      (debug : Bool) (c : Channel T) (value : T) (weight : ℕ) (rest : List (T × ℕ))
      → IsChannel c
      → c.queue.deque ≡ (value, weight) ∷ rest
      → (c' : Channel T) × (try_recv debug c ≡ done (c', ok value)) × Released c rest weight c'
  recv_lem debug c value weight rest v first =
      let taken = record c.queue { deque = rest } in
      let e : c.occupation ≡ weight + total rest = omega (arith, v.occupied, ap total first) in
      let before =
        subst
          (λ items.
            (c.occupation ≤ c.bound) ⊎ All (λ (x : T × ℕ). (x.1 ≡ 0) ⊎ (x.1 ≡ c.occupation)) items)
          first v.within in
      (
        released (record c { queue = taken }) weight,
        try_recv-done debug c taken value weight
            (((fifo_lem c.queue v.exists).1 (value, weight) rest first 0).0) (omega arith),
        record {
          queued = refl;
          occupation = omega arith;
          notified = λ some_weight.
              simp (freed_room c.occupation c.bound weight value rest v.small some_weight e before)
                refl;
          senders = refl;
          sound = record {
            exists = v.exists;
            occupied = omega arith;
            within = rest-within c.occupation c.bound weight value rest e before;
            positive = v.positive;
            small = v.small;
          };
        },
      )

  -- A sender that waits with the listener `l`, and whose poll with the waker `cx` was pending, is woken
  -- by the first receive that frees some weight, and its listener is then ready.
  pub waiting_sender_lem :
      (debug : Bool) (c : Channel T) (l : EventListener) (cx cx' : ℕ) (value : T) (weight : ℕ)
      (rest : List (T × ℕ))
      → IsChannel c
      → IsEvent c.event
      → l.waiter < length c.event.waiters
      → (poll c.event l cx).1 ≡ false
      → c.queue.deque ≡ (value, weight) ∷ rest
      → 0 < weight
      → (c' : Channel T) × (try_recv debug (record c { event = (poll c.event l cx).0 })
          ≡ done (c', ok value))
        × (is_linked cx c'.event.woken ≡ true)
        × ((poll c'.event l cx').1 ≡ true)
  waiting_sender_lem debug c l cx cx' value weight rest v event made pending first some_weight =
      let polled = record c { event = (poll c.event l cx).0 } in
      let sound : IsChannel polled = record {
        exists = v.exists;
        occupied = v.occupied;
        within = v.within;
        positive = v.positive;
        small = v.small;
      } in
      let (c', e, r) = recv_lem debug polled value weight rest sound first in
      let (woken, ready) =
        no_lost_wakeup c.event (poll c.event l cx).0 l cx cx' event made pending here in
      let same = sym (r.notified some_weight) in
      (
        c',
        e,
        subst (λ (t : EventState). is_linked cx t.woken ≡ true) same woken,
        subst (λ (t : EventState). (poll t l cx').1 ≡ true) same ready,
      )
