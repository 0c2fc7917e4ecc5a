-- ===== src/Sync/Stream/Closing.antt =====
-- The first error closes a stream direction for good (aquic-core/src/sync/stream.rs).
use aquic.Base.{
  ℕ, ◌<◌, ◌≡◌, refl, sym, ap, ◌∙◌, subst, inl, inr, Bool, true, false, some, arith, ◌==◌,
  if◌then◌else◌, Bool-cases, Outcome, done, panic, ◌>>=◌,
}
use aquic.Stream.Types.{Spec, Error, finish, Payload, is_fin, is_finish}
use aquic.Sync.Mpsc.Unbounded.{Received, ok, empty, closed}
use aquic.Sync.Mpsc.Weighted
use aquic.Sync.Mpmc.Oneshot
use aquic.Sync.Mpmc.Watch
use aquic.Sync.Stream.{
  Channel, Answer, close, fail, close_finish, send_item, set_priority, priority_once, after_recv,
  receive, recv, try_recv, drop_sender, drop_receiver,
}

-- The direction is closed with `e`.
abbrev pub IsClosed : {S : Spec} → Error S → Channel S → Type 0
IsClosed e c = c.errors.container ≡ some e

send_keeps :
    {A : Type 0} (s : Oneshot.Shared A) (old new : A)
    → s.container ≡ some old
    → (Oneshot.send s new).0 ≡ s
unfolding Oneshot.send
send_keeps s old new e = elim (Bool-cases (s.receiver_count == 0)) [
  | inl z ↦ simp z refl
  | inr z ↦ simp (z, e) refl
]

pub send_full :
    {A : Type 0} (s : Oneshot.Shared A) (old new : A)
    → s.container ≡ some old
    → 0 < s.receiver_count
    → Oneshot.send s new ≡ (s, Oneshot.full old)
unfolding Oneshot.send
send_full s old new e h = simp (no_zero s.receiver_count h, e) refl
  where
    no_zero : (n : ℕ) → 0 < n → (n == 0) ≡ false
    no_zero n p = ground arith

pub try_closed :
    {A : Type 0} (s : Oneshot.Shared A) (old : A)
    → s.container ≡ some old
    → Oneshot.try_recv s ≡ ok old
unfolding Oneshot.try_recv
try_closed s old e = rw (e, Oneshot.try_recv) refl

module _ {S : Spec} where
  close_keeps : (c : Channel S) (e new : Error S) → IsClosed e c → IsClosed e (close c new).0
  unfolding close
  close_keeps c e new h =
      ap (λ (s : Oneshot.Shared (Error S)). s.container) (send_keeps c.errors e new h) ∙ h

  close_finish_keeps :
      {A : Type 0} (c : Channel S) (e : Error S) (fin : Bool) (value : A)
      → IsClosed e c
      → IsClosed e (close_finish c fin value).0
  unfolding close_finish
  close_finish_keeps c e false value h = h
  close_finish_keeps c e true value h = elim (Bool-cases (is_finish (close c finish).1)) [
    | inl y ↦ rw y (close_keeps c e finish h)
    | inr n ↦ rw n (close_keeps c e finish h)
  ]

  send_item_keeps :
      (c : Channel S) (e : Error S) (payload : Payload S.StreamItem)
      → IsClosed e c
      → IsClosed e (send_item c payload).0
  unfolding send_item
  send_item_keeps c e payload h = rw (try_closed c.errors e h, send_item) (close_keeps c e e h)

  after_recv_keeps :
      (c : Channel S) (e : Error S) (items : Weighted.Channel (Payload S.StreamItem))
      (r : Received (Payload S.StreamItem))
      → IsClosed e c
      → IsClosed e (after_recv c (items, r)).0
  unfolding after_recv
  after_recv_keeps c e items (ok payload) h =
      close_finish_keeps (record c { items = items }) e (is_fin payload) payload h
  after_recv_keeps c e items empty h = h
  after_recv_keeps c e items closed h = close_keeps (record c { items = items }) e _ h

  receive_keeps :
      (debug : Bool) (c c' : Channel S) (e : Error S) (a : Answer S (Payload S.StreamItem))
      → IsClosed e c
      → receive debug c ≡ done (c', a)
      → IsClosed e c'
  unfolding receive
  receive_keeps debug c c' e a h r = after (Weighted.try_recv debug c.items) r
    where
      after :
          (o : Outcome (Weighted.Channel (Payload S.StreamItem) × Received (Payload S.StreamItem)))
          → (o >>= λ x. done (after_recv c x)) ≡ done (c', a)
          → IsClosed e c'
      after (done (items, x)) p =
          subst
            (λ (o : Outcome (Channel S × Answer S (Payload S.StreamItem))). elim o [
              | done y ↦ IsClosed e y.0
              | panic ↦ Unit {0}
            ])
            p (after_recv_keeps c e items x h)
      after panic p = absurd cc

  -- The answers of the two ways to receive, once the direction is closed.
  pub recv-closed :
      (debug : Bool) (c : Channel S) (e : Error S)
      → IsClosed e c
      → recv debug c ≡ (if is_finish e then receive debug c else done (fail c e))
  unfolding recv
  recv-closed debug c e h = rw (try_closed c.errors e h, recv) refl

  pub try_recv-closed :
      (debug : Bool) (c : Channel S) (e : Error S)
      → IsClosed e c
      → try_recv debug c ≡ done (fail c e)
  unfolding try_recv
  try_recv-closed debug c e h = rw (try_closed c.errors e h, try_recv) refl

  done_fail_keeps :
      (c c' : Channel S) (e : Error S) (a : Answer S (Payload S.StreamItem))
      → IsClosed e c
      → done (fail c e) ≡ done (c', a)
      → IsClosed e c'
  done_fail_keeps c c' e a h p =
      subst
        (λ (o : Outcome (Channel S × Answer S (Payload S.StreamItem))). elim o [
          | done y ↦ IsClosed e y.0
          | panic ↦ Unit {0}
        ])
        p (close_keeps c e e h)

  recv_keeps :
      (debug : Bool) (c c' : Channel S) (e : Error S) (a : Answer S (Payload S.StreamItem))
      → IsClosed e c
      → recv debug c ≡ done (c', a)
      → IsClosed e c'
  recv_keeps debug c c' e a h r = elim (Bool-cases (is_finish e)) [
    | inl y ↦ receive_keeps debug c c' e a h (sym (recv-closed debug c e h ∙ rw y refl) ∙ r)
    | inr n ↦ done_fail_keeps c c' e a h (sym (recv-closed debug c e h ∙ rw n refl) ∙ r)
  ]

  -- What the two ends do: one constructor for each operation that changes the channel.
  pub data Step : Channel S → Channel S → Type 0 where
    sends : {c : Channel S} (payload : Payload S.StreamItem) → Step c (send_item c payload).0
    receives :
        {c c' : Channel S} (debug : Bool) (a : Answer S (Payload S.StreamItem))
        → recv debug c ≡ done (c', a)
        → Step c c'
    tries :
        {c c' : Channel S} (debug : Bool) (a : Answer S (Payload S.StreamItem))
        → try_recv debug c ≡ done (c', a)
        → Step c c'
    closes : {c : Channel S} (e : Error S) → Step c (close c e).0
    sets_priority :
        {c c' : Channel S} (debug : Bool) (p : ℕ) → set_priority debug c p ≡ done c' → Step c c'
    takes_priority : {c : Channel S} → Step c (priority_once c).0
    drops_sender : {c : Channel S} (panicking : Bool) → Step c (drop_sender panicking c)
    drops_receiver : {c : Channel S} (panicking : Bool) → Step c (drop_receiver panicking c)

  pub data Reach (c : Channel S) : Channel S → Type 0 where
    here : Reach c c
    more : {d d' : Channel S} → Reach c d → Step d d' → Reach c d'

  set_priority_keeps :
      (debug : Bool) (c c' : Channel S) (e : Error S) (p : ℕ)
      → IsClosed e c
      → set_priority debug c p ≡ done c'
      → IsClosed e c'
  unfolding set_priority
  set_priority_keeps debug c c' e p h r = after (Watch.send debug c.priority p) r
    where
      after :
          (o : Outcome (Watch.Shared ℕ × Bool))
          → (o >>= λ x. done (record c { priority = x.0 })) ≡ done c'
          → IsClosed e c'
      after (done (shared, sent)) q =
          subst (λ (o : Outcome (Channel S)). elim o [ done y ↦ IsClosed e y | panic ↦ Unit {0} ]) q
            h
      after panic q = absurd cc

  Step-keeps : {c c' : Channel S} → Step c c' → (e : Error S) → IsClosed e c → IsClosed e c'
  unfolding priority_once
  Step-keeps (sends {c} payload) e h = send_item_keeps c e payload h
  Step-keeps (receives {c} {c'} debug a r) e h = recv_keeps debug c c' e a h r
  Step-keeps (tries {c} {c'} debug a r) e h =
      done_fail_keeps c c' e a h (sym (try_recv-closed debug c e h) ∙ r)
  Step-keeps (closes {c} new) e h = close_keeps c e new h
  Step-keeps (sets_priority {c} {c'} debug p r) e h = set_priority_keeps debug c c' e p h r
  Step-keeps (takes_priority {c}) e h = h
  Step-keeps (drops_sender {c} panicking) e h = close_keeps c e _ h
  Step-keeps (drops_receiver {c} panicking) e h = close_keeps c e _ h

  -- Once the direction is closed with an error, it stays closed with that error, whatever the two ends
  -- do after it.
  pub IsClosed-stays : (c d : Channel S) (e : Error S) → Reach c d → IsClosed e c → IsClosed e d
  IsClosed-stays c _ e here h = h
  IsClosed-stays c _ e (more {d} r st) h = Step-keeps st e (IsClosed-stays c d e r h)
