-- ===== src/Stream/Outgoing/Items.antt =====
-- What one round of `recv_from_app` does (aquic-core/src/stream/outgoing.rs).
use aquic.Base.{
  ℕ, suc, ◌≡◌, refl, sym, ap, ◌∙◌, ◌⊎◌, inl, inr, Bool, true, false, ◌||◌, none, some, List, [],
  ◌∷◌, if◌then◌else◌, Bool-cases, Option-cases, length, done, ◌>>=◌,
}
use aquic.Stream.Types.{Spec, encoder, Payload, is_fin}
use aquic.Sync.Stream.{Channel, ready, failed, recv, try_recv}
use aquic.Sync.Stream.Receiving.{IsOpen, open-receives, receive-first, receive-nothing}
use aquic.Stream.Outgoing.{
  EncoderApi, Outgoing, encode_payload, after_receive, recv_item, flushes, continue, recv_more,
  recv_from_app,
}

module _ {S : Spec} {C : EncoderApi S} where
  pub encode_payload_cases :
      (s : Outgoing S C) (enc : C.Encoder) (payload : Payload S.StreamItem)
      → (((C.encode enc payload).1 ≡ none)
          × (encode_payload s (C.encode enc payload) false ≡ (
            record s { encoder = some (C.encode enc payload).0; stream_finished = false },
            ready true,
          )))
        ⊎ ((e : S.StreamEncoderError) × ((C.encode enc payload).1 ≡ some e)
            × (encode_payload s (C.encode enc payload) false ≡ (
              record s { encoder = some (C.encode enc payload).0; stream_finished = false },
              failed (encoder e),
            )))
  unfolding encode_payload
  encode_payload_cases s enc payload = elim (Option-cases (C.encode enc payload).1) [
    | inl fine ↦ inl (fine, ap (λ r. encode_payload s ((C.encode enc payload).0, r) false) fine)
    | inr (e, wrong) ↦
        inr (e, wrong, ap (λ r. encode_payload s ((C.encode enc payload).0, r) false) wrong)
  ]

  -- One item: received, and then encoded.
  pub item_lem :
      (debug blocking : Bool) (s : Outgoing S C) (enc : C.Encoder) (payload : Payload S.StreamItem)
      (weight : ℕ) (rest : List (Payload S.StreamItem × ℕ))
      → IsOpen s.items
      → s.stream_finished ≡ false
      → s.encoder ≡ some enc
      → s.items.items.queue.deque ≡ (payload, weight) ∷ rest
      → is_fin payload ≡ false
      → (c' : Channel S) × (recv_item debug blocking s
          ≡ done (encode_payload (record s { items = c' }) (C.encode enc payload) false))
        × IsOpen c'
        × (c'.items.queue.deque ≡ rest)
  unfolding recv_item after_receive
  item_lem debug blocking s enc payload weight rest o running there first more_to_come =
      let (c', e, o', queued) =
        receive-first debug s.items payload weight rest o first more_to_come in
      let both : (if blocking then recv debug s.items else try_recv debug s.items)
          ≡ done (c', ready payload) =
        elim (Bool-cases blocking) [
          | inl b ↦ rw b ((open-receives debug s.items o).0 ∙ e)
          | inr b ↦ rw b ((open-receives debug s.items o).1 ∙ e)
        ] in
      (c', simp (running, there, both, more_to_come) refl, o', queued)

  pub nothing_lem :
      (debug : Bool) (s : Outgoing S C) (enc : C.Encoder)
      → IsOpen s.items
      → s.stream_finished ≡ false
      → s.encoder ≡ some enc
      → s.items.items.queue.deque ≡ []
      → recv_item debug false s ≡ done (s, ready false)
  unfolding recv_item after_receive
  nothing_lem debug s enc o running there none_left =
      simp
        (
          running,
          there,
          (open-receives debug s.items o).1 ∙ receive-nothing debug s.items o none_left,
        )
        (ap (λ enc'. done (record s { encoder = enc'; stream_finished = false }, ready false))
            (sym there)
          ∙ ap (λ fin. done (record s { stream_finished = fin }, ready false)) (sym running))

  -- What `recv_item` gives to the loop, by the first item of the queue.
  pub more_goes :
      (fuel : ℕ) (debug : Bool) (s : Outgoing S C) (enc : C.Encoder)
      → s.stream_finished ≡ false
      → s.encoder ≡ some enc
      → C.should_flush enc ≡ false
      → recv_more (suc fuel) debug s ≡ (recv_item debug false s >>= continue (recv_more fuel debug))
  unfolding recv_more
  more_goes fuel debug s enc running there no_flush = goes (s.stream_finished || flushes s) (
      ap (λ b. b || flushes s) running
      ∙ ap (λ o. elim o [ none ↦ false | some e ↦ C.should_flush e ]) there
      ∙ no_flush)
    where
      goes :
          (b : Bool)
          → b ≡ false
          → (if b
              then done (s, ready tt)
              else (recv_item debug false s >>= continue (recv_more fuel debug)))
            ≡ (recv_item debug false s >>= continue (recv_more fuel debug))
      goes b e = rw e refl

  pub more_stops :
      (fuel : ℕ) (debug : Bool) (s : Outgoing S C) (enc : C.Encoder)
      → s.stream_finished ≡ false
      → s.encoder ≡ some enc
      → C.should_flush enc ≡ true
      → recv_more (suc fuel) debug s ≡ done (s, ready tt)
  unfolding recv_more
  more_stops fuel debug s enc running there flush = goes (s.stream_finished || flushes s) (
      ap (λ b. b || flushes s) running
      ∙ ap (λ o. elim o [ none ↦ false | some e ↦ C.should_flush e ]) there
      ∙ flush)
    where
      goes :
          (b : Bool)
          → b ≡ true
          → (if b
              then done (s, ready tt)
              else (recv_item debug false s >>= continue (recv_more fuel debug)))
            ≡ done (s, ready tt)
      goes b e = rw e refl

  pub app_goes :
      (debug : Bool) (s : Outgoing S C)
      → s.stream_finished ≡ false
      → recv_from_app debug s ≡ (
          recv_item debug true s
          >>= continue (recv_more (suc (length s.items.items.queue.deque)) debug))
  unfolding recv_from_app
  app_goes debug s running = goes s.stream_finished running
    where
      goes :
          (b : Bool)
          → b ≡ false
          → (if b
              then done (s, ready tt)
              else (recv_item debug true s
                  >>= continue (recv_more (suc (length s.items.items.queue.deque)) debug)))
            ≡ (recv_item debug true s
                >>= continue (recv_more (suc (length s.items.items.queue.deque)) debug))
      goes b e = rw e refl
