-- ===== src/Sync/Mpmc/Oneshot.antt =====
-- aquic-core/src/sync/mpmc/oneshot/st.rs: the channel of one thread that takes one value.
--
-- The asynchronous `recv`, a loop of `try_recv` that waits on the event, is not modelled.
pub mod First
pub mod Kept
use aquic.Base.{
  ℕ, zero, suc, ◌+◌, ◌-◌, ◌*◌, ◌/◌, ◌%◌, ◌^◌, ◌≤◌, ◌<◌, min, max, ◌≡◌, refl, sym, ap, ◌∙◌, subst,
  ◌≢◌, ◌↔◌, ◌⊎◌, inl, inr, Bool, true, false, not, ◌&&◌, ◌||◌, Option, none, some, List, [], ◌∷◌,
  ◌++◌, map, arith, ltb, leb, ◌==◌, if◌then◌else◌, ltb→lt, lt→ltb, le→ltb, leb→le, le→leb, lt→leb,
  ==_iff, tests, ltb-cases, ==-cases, Bool-cases, Option-cases, length, get_elem?, get_or, set,
  replicate, All, length-append, length-set, length-replicate, get_or-set_self, get_or-set_ne, take,
  drop, take_append, drop_append, append_injective, take_append_at, drop_append_at, take-drop,
  length-take, length-drop, word, wrapping_add, Outcome, done, panic, ◌>>=◌, add_word, sub_word,
  add_word-eq, sub_word-eq,
}
use aquic.Sync.Event.{EventState, EventListener, listen, notify_all}
use aquic.Sync.Event
use aquic.Sync.Mpsc.Unbounded.{Received, ok, empty, closed}

pub record Shared {ℓ} (T : Type ℓ) : Type ℓ where
  pub container : Option T
  pub event : EventState
  pub sender_count : ℕ
  pub receiver_count : ℕ

-- `SendError` of oneshot/mod.rs, and the success.
pub data Sent {ℓ} (T : Type ℓ) : Type ℓ where
  sent : Sent T
  full : T → Sent T
  send_closed : Sent T

module _ {ℓ} {T : Type ℓ} where
  abbrev pub channel : Shared T
  channel = record { container = none; event = Event.new; sender_count = 1; receiver_count = 1 }

  -- `send`: the value stays out if one is there, which comes back.
  unfoldable pub send : Shared T → T → Shared T × Sent T
  send s value = if s.receiver_count == 0 then (s, send_closed) else elim s.container [
    | some current_value ↦ (s, full current_value)
    | none ↦ (record s { container = some value; event = notify_all s.event }, sent)
  ]

  abbrev pub sender_is_closed : Shared T → Bool
  sender_is_closed s = s.receiver_count == 0

  abbrev pub clone_sender : Shared T → Shared T
  clone_sender s = record s { sender_count = s.sender_count + 1 }

  -- `Drop for Sender`; the count is at least 1 then.
  unfoldable pub drop_sender : Shared T → Shared T
  drop_sender s =
      let s' = record s { sender_count = s.sender_count - 1 } in
      if s'.sender_count == 0 then record s' { event = notify_all s'.event } else s'

  unfoldable pub try_recv : Shared T → Received T
  try_recv s = elim s.container [
    | some value ↦ ok value
    | none ↦ if s.sender_count == 0 then closed else empty
  ]

  abbrev pub receiver_is_closed : Shared T → Bool
  receiver_is_closed s = s.sender_count == 0

  abbrev pub clone_receiver : Shared T → Shared T
  clone_receiver s = record s { receiver_count = s.receiver_count + 1 }

  abbrev pub drop_receiver : Shared T → Shared T
  drop_receiver s = record s { receiver_count = s.receiver_count - 1 }
