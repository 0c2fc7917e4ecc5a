-- ===== src/Sync/Mpmc/Watch/Versions.antt =====
-- What the receivers of the watch channel see (aquic-core/src/sync/mpmc/watch/st.rs).
use aquic.Base.{
  ℕ, ◌+◌, ◌-◌, ◌<◌, ◌≡◌, refl, ◌⊎◌, inl, Bool, true, false, Option, none, some, arith, ◌==◌, word,
  done, add_word-eq,
}
use aquic.Sync.Event.{notify_all}
use aquic.Sync.Mpsc.Unbounded.{ok}
use aquic.Sync.Mpmc.Watch.{
  Shared, Item, Receiver, send, next_version, try_recv, try_recv_any, try_recv_inner, no_item,
}

module _ {ℓ} {T : Type ℓ} where
  -- The receiver has seen no version from the next one on.
  abbrev pub next_of : Option (Item T) → ℕ
  next_of none = 0
  next_of (some item) = item.version + 1

  abbrev pub IsBehind : Shared T → Receiver → Type 0
  IsBehind s r = (r.last_seen_version < next_of s.item) ⊎ (r.last_seen_version ≡ word - 1)

  -- What `send` makes of the channel.
  abbrev pub sent_to : Shared T → T → Shared T
  sent_to s value = record s {
    item = some (record { value = value; version = next_of s.item });
    event = notify_all s.event;
  }

  next_version-done :
      (debug : Bool) (item : Option (Item T))
      → next_of item < word
      → next_version debug item ≡ done (next_of item)
  unfolding next_version
  next_version-done debug none h = refl
  next_version-done debug (some item) h = add_word-eq debug item.version 1 h

  send-done :
      (debug : Bool) (s : Shared T) (value : T)
      → 0 < s.receiver_count
      → next_of s.item < word
      → send debug s value ≡ done (sent_to s value, true)
  unfolding send
  send-done debug s value some_receiver h =
      simp (le_not s.receiver_count some_receiver, next_version-done debug s.item h) refl
    where
      le_not : (n : ℕ) → 0 < n → (n == 0) ≡ false
      le_not n p = ground arith

  -- A value that is sent is the one that each receiver gets next, once: right after it, the receiver
  -- finds nothing new, though `try_recv_any` still gives the value.
  latest_once :
      (debug : Bool) (s : Shared T) (r : Receiver) (value : T)
      → 0 < s.receiver_count
      → next_of s.item + 1 < word
      → IsBehind s r
      → let s' = sent_to s value in
        let seen : Receiver = record { last_seen_version = next_of s.item } in
        (send debug s value ≡ done (s', true))
        × (try_recv s' r ≡ (seen, ok value))
        × (try_recv s' seen ≡ (seen, no_item s'))
        × (try_recv_any s' seen ≡ (seen, ok value))
        × IsBehind s' seen
  unfolding try_recv try_recv_any try_recv_inner
  latest_once debug s r value some_receiver h behind = (
    send-done debug s value some_receiver (omega arith),
    simp (new_version (next_of s.item) r.last_seen_version h behind) refl,
    simp (same_version (next_of s.item)) refl,
    refl,
    inl (omega arith),
  )
    where
      new_version :
          (n seen : ℕ) → n + 1 < word → (seen < n) ⊎ (seen ≡ word - 1) → (seen == n) ≡ false
      new_version n seen h b = ground arith

      same_version : (n : ℕ) → (n == n) ≡ true
      same_version n = ground arith
