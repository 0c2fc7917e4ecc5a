-- ===== src/Sync/Mpmc/Oneshot/First.antt =====
-- What the ends of the oneshot channel see (aquic-core/src/sync/mpmc/oneshot/st.rs).
use aquic.Base.{ℕ, ◌-◌, ◌<◌, ◌≡◌, refl, inl, inr, false, none, some, arith, ◌==◌, Bool-cases}
use aquic.Sync.Event.{notify_all}
use aquic.Sync.Mpsc.Unbounded.{ok}
use aquic.Sync.Mpmc.Oneshot.{Shared, sent, full, send, try_recv, drop_sender}

module _ {ℓ} {T : Type ℓ} where
  -- While a receiver is there, the first value that is sent stays: the waiting receivers are notified,
  -- each receiver gets it however often it asks and whichever senders are dropped, and a later send
  -- fails with it.
  first_wins :
      (s : Shared T) (value later : T)
      → s.container ≡ none
      → 0 < s.receiver_count
      → (s' : Shared T) × (send s value ≡ (s', sent))
        × (s'.event ≡ notify_all s.event)
        × (try_recv s' ≡ ok value)
        × (send s' later ≡ (s', full value))
        × (try_recv (drop_sender s') ≡ ok value)
  unfolding send try_recv drop_sender
  first_wins s value later e some_receiver = (
    record s { container = some value; event = notify_all s.event },
    simp (le_not s.receiver_count some_receiver, e) refl,
    refl,
    refl,
    simp (le_not s.receiver_count some_receiver) refl,
    elim (Bool-cases (s.sender_count - 1 == 0)) [ inl z ↦ simp z refl | inr z ↦ simp z refl ],
  )
    where
      le_not : (n : ℕ) → 0 < n → (n == 0) ≡ false
      le_not n p = ground arith
