-- ===== src/Sync/Mpsc/Rpc/Responses.antt =====
-- What becomes of a call (aquic-core/src/sync/mpsc/rpc/st.rs).
use aquic.Base.{ℕ, ◌≡◌, refl, inl, inr, true, Bool-cases, panic}
use aquic.Sync.Mpsc.Rpc.{Remote, start, poll, send}
use aquic.Sync.Mpsc.Unbounded

module _ {T R : Type 0} where
  -- A call panics as soon as its response is polled, since the guard of the storage is still alive.
  pub send_panics :
      (s : Remote T R) (args : T) (cx : ℕ)
      → s.sender.receiver_exists ≡ true
      → send s args cx ≡ panic
  unfolding send start poll Unbounded.send
  send_panics s args cx h = elim (Bool-cases s.borrowed) [
    | inl e ↦ simp (h, e) refl
    | inr e ↦ simp (h, e) refl
  ]
