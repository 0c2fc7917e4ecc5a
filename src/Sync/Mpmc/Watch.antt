-- ===== src/Sync/Mpmc/Watch.antt =====
-- aquic-core/src/sync/mpmc/watch/st.rs: the channel of one thread that keeps the latest value.
--
-- A receiver is its `last_seen_version`. The asynchronous `recv`, a loop of `try_recv` that waits on the
-- event, is not modelled.
pub mod Versions
use aquic.Base.{
  ℕ, zero, suc, ◌+◌, ◌-◌, ◌*◌, ◌/◌, ◌%◌, ◌^◌, ◌≤◌, ◌<◌, min, max, ◌≡◌, refl, sym, ap, ◌∙◌, subst,
  ◌≢◌, ◌↔◌, ◌⊎◌, inl, inr, Bool, true, false, not, ◌&&◌, ◌||◌, Option, none, some, List, [], ◌∷◌,
  ◌++◌, map, arith, ltb, leb, ◌==◌, if◌then◌else◌, ltb→lt, lt→ltb, le→ltb, leb→le, le→leb, lt→leb,
  ==_iff, tests, Bool-cases, Option-cases, length, get_elem?, get_or, set, replicate, All,
  length-append, length-set, length-replicate, get_or-set_self, get_or-set_ne, word, wrapping_add,
  Outcome, done, panic, ◌>>=◌, add_word, sub_word, add_word-eq, sub_word-eq,
}
use aquic.Sync.Event.{EventState, EventListener, listen, notify_all}
use aquic.Sync.Event
use aquic.Sync.Mpsc.Unbounded.{Received, ok, empty, closed}

abbrev pub initial_sender_version : ℕ
initial_sender_version = 0

abbrev pub initial_receiver_version : ℕ
initial_receiver_version = word - 1

pub record Item {ℓ} (T : Type ℓ) : Type ℓ where
  pub value : T
  pub version : ℕ

pub record Shared {ℓ} (T : Type ℓ) : Type ℓ where
  pub item : Option (Item T)
  pub event : EventState
  pub sender_count : ℕ
  pub receiver_count : ℕ

pub record Receiver : Type 0 where
  pub last_seen_version : ℕ

module _ {ℓ} {T : Type ℓ} where
  abbrev pub channel : Shared T × Receiver
  channel = (
    record { item = none; event = Event.new; sender_count = 1; receiver_count = 1 },
    record { last_seen_version = initial_receiver_version },
  )

  -- The version of the next item; a debug build panics on overflow.
  unfoldable pub next_version : Bool → Option (Item T) → Outcome ℕ
  next_version debug none = done initial_sender_version
  next_version debug (some item) = add_word debug item.version 1

  -- `send`; the flag is false where the value comes back in a `SendError`.
  unfoldable pub send : Bool → Shared T → T → Outcome (Shared T × Bool)
  unfolding next_version
  send debug s value = if s.receiver_count == 0 then done (s, false) else (do
    version ← next_version debug s.item
    done (
      record s {
        item = some (record { value = value; version = version });
        event = notify_all s.event;
      },
      true,
    ))

  abbrev pub sender_is_closed : Shared T → Bool
  sender_is_closed s = s.receiver_count == 0

  abbrev pub clone_sender : Shared T → Shared T
  clone_sender s = record s { sender_count = s.sender_count + 1 }

  -- `Drop for Sender`; the count is at least 1 then.
  unfoldable pub drop_sender : Shared T → Shared T
  drop_sender s =
      let s' = record s { sender_count = s.sender_count - 1 } in
      if s'.sender_count == 0 then record s' { event = notify_all s'.event } else s'

  -- What `try_recv_inner` answers where it takes no item.
  abbrev pub no_item : Shared T → Received T
  no_item s = if s.sender_count == 0 then closed else empty

  unfoldable pub try_recv_inner : Shared T → Receiver → Bool → Receiver × Received T
  try_recv_inner s r ignore_version = elim s.item [
    | none ↦ (r, no_item s)
    | some item ↦
        if ignore_version || not (r.last_seen_version == item.version)
        then (record { last_seen_version = item.version }, ok item.value)
        else (r, no_item s)
  ]

  unfoldable pub try_recv : Shared T → Receiver → Receiver × Received T
  unfolding try_recv_inner
  try_recv s r = try_recv_inner s r false

  unfoldable pub try_recv_any : Shared T → Receiver → Receiver × Received T
  unfolding try_recv_inner
  try_recv_any s r = try_recv_inner s r true

  -- `Clone for Receiver`
  abbrev pub clone_receiver : Shared T → Receiver → Shared T × Receiver
  clone_receiver s r = (record s { receiver_count = s.receiver_count + 1 }, r)

  abbrev pub drop_receiver : Shared T → Shared T
  drop_receiver s = record s { receiver_count = s.receiver_count - 1 }
