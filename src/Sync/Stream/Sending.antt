-- ===== src/Sync/Stream/Sending.antt =====
-- Sending to a stream direction that is open and has room (aquic-core/src/sync/stream.rs).
use aquic.Base.{ℕ, ◌+◌, ◌≤◌, ◌<◌, ◌≡◌, refl, ◌⊎◌, true, false, none, some, [], ◌∷◌, ◌++◌}
use aquic.Stream.Types.{Spec, finish, Payload, is_fin, estimate}
use aquic.Sync.Mpsc.Weighted.Flow.{IsChannel, send_lem}
use aquic.Sync.Stream.{Channel, ready, after_send, close_finish, send_item}
use aquic.Sync.Mpmc.Oneshot.Kept.{try_open}
use aquic.Sync.Stream.Draining.{finished, send_item-open}

module _ {S : Spec} where
  pub record IsSendable (c : Channel S) : Type 0 where
    pub items : IsChannel c.items
    pub unclosed : c.errors.container ≡ none
    pub some_sender : 0 < c.errors.sender_count
    pub some_receiver : 0 < c.errors.receiver_count

  abbrev pub HasRoom : Channel S → ℕ → Type 0
  HasRoom c weight = (c.items.occupation ≡ 0) ⊎ (c.items.occupation + weight ≤ c.items.bound)

  -- A payload that is not the last one
  pub send-more :
      (c : Channel S) (payload : Payload S.StreamItem)
      → IsSendable c
      → is_fin payload ≡ false
      → HasRoom c (estimate S payload)
      → (c' : Channel S) × (send_item c payload ≡ (c', ready tt))
        × IsSendable c'
        × (c'.items.queue.deque ≡ c.items.queue.deque ++ (payload, estimate S payload) ∷ [])
        × (c'.items.occupation ≡ c.items.occupation + estimate S payload)
        × (c'.items.bound ≡ c.items.bound)
  unfolding send_item after_send close_finish
  send-more c payload v more_to_come room =
      let (items, tried, e, a) = (send_lem c.items payload (estimate S payload) v.items).0 room in
      (
        record c { items = items },
        rw (try_open c.errors v.unclosed v.some_sender, send_item) (rw (e, more_to_come) refl),
        record {
          items = a.sound;
          unclosed = v.unclosed;
          some_sender = v.some_sender;
          some_receiver = v.some_receiver;
        },
        a.queued,
        a.occupation,
        a.bound,
      )

  -- The last payload
  pub send-last :
      (c : Channel S) (payload : Payload S.StreamItem)
      → IsSendable c
      → is_fin payload ≡ true
      → HasRoom c (estimate S payload)
      → (c' : Channel S) × (send_item c payload ≡ (c', ready tt))
        × (c'.errors.container ≡ some finish)
        × (c'.items.queue.deque ≡ c.items.queue.deque ++ (payload, estimate S payload) ∷ [])
  unfolding finished
  send-last c payload v fin room =
      let (items, tried, e, a) = (send_lem c.items payload (estimate S payload) v.items).0 room in
      (
        finished c items,
        send_item-open c payload items v.unclosed v.some_sender v.some_receiver e fin,
        refl,
        a.queued,
      )
