-- ===== src/Sync/Mpmc/Oneshot/Kept.antt =====
-- What a send and a drop leave in the oneshot channel (aquic-core/src/sync/mpmc/oneshot/st.rs).
use aquic.Base.{
  ◌-◌, ◌<◌, ◌≡◌, refl, inl, inr, Option, none, some, arith, ◌==◌, ==-cases, Bool-cases,
  Option-cases,
}
use aquic.Sync.Mpsc.Unbounded.{empty}
use aquic.Sync.Mpmc.Oneshot

module _ {ℓ} {A : Type ℓ} where
  -- The value of a channel after another one was sent: the first stays.
  abbrev pub final_value : Option A → A → A
  final_value none new = new
  final_value (some old) new = old

  pub drop_sender-container :
      (s : Oneshot.Shared A) → (Oneshot.drop_sender s).container ≡ s.container
  unfolding Oneshot.drop_sender
  drop_sender-container s = elim (Bool-cases (s.sender_count - 1 == 0)) [
    | inl e ↦ simp e refl
    | inr e ↦ simp e refl
  ]

  pub drop_sender-receivers :
      (s : Oneshot.Shared A) → (Oneshot.drop_sender s).receiver_count ≡ s.receiver_count
  unfolding Oneshot.drop_sender
  drop_sender-receivers s = elim (Bool-cases (s.sender_count - 1 == 0)) [
    | inl e ↦ simp e refl
    | inr e ↦ simp e refl
  ]

  pub send-container :
      (s : Oneshot.Shared A) (new : A)
      → 0 < s.receiver_count
      → (Oneshot.send s new).0.container ≡ some (final_value s.container new)
  unfolding Oneshot.send
  send-container s new n = elim (==-cases s.receiver_count 0) [
    | inl (e, zero_left) ↦ absurd (omega arith)
    | inr (e, some_left) ↦ elim (Option-cases s.container) [
      | inl open_yet ↦ simp (e, open_yet) refl
      | inr (old, shut) ↦ simp (e, shut) refl
    ]
  ]

  pub send-receivers :
      (s : Oneshot.Shared A) (new : A) → (Oneshot.send s new).0.receiver_count ≡ s.receiver_count
  unfolding Oneshot.send
  send-receivers s new = elim (==-cases s.receiver_count 0) [
    | inl (e, zero_left) ↦ simp e refl
    | inr (e, some_left) ↦ elim (Option-cases s.container) [
      | inl open_yet ↦ simp (e, open_yet) refl
      | inr (old, shut) ↦ simp (e, shut) refl
    ]
  ]

  pub send-free :
      (s : Oneshot.Shared A) (new : A)
      → s.container ≡ none
      → 0 < s.receiver_count
      → (Oneshot.send s new).1 ≡ Oneshot.sent
  unfolding Oneshot.send
  send-free s new free n = rw (free, Oneshot.send) (ground arith)

  pub try_open :
      (s : Oneshot.Shared A) → s.container ≡ none → 0 < s.sender_count → Oneshot.try_recv s ≡ empty
  unfolding Oneshot.try_recv
  try_open s e h = rw (e, Oneshot.try_recv) (ground arith)
