-- ===== src/Stream/Outgoing/Rounds.antt =====
-- A round of the loop of an outgoing stream (aquic-core/src/stream/outgoing.rs).
use aquic.Base.{ℕ, ◌≡◌, refl, ap, ◌∙◌, Bool, false, none, some, List, ◌∷◌, All, done, ◌>>=◌}
use aquic.Stream.Types.{Spec, encoder, Payload, is_fin}
use aquic.Sync.Stream.{priority_once}
use aquic.Sync.Stream.Receiving.{IsOpen}
use aquic.Stream.Outgoing.{
  EncoderApi, Outgoing, give_encoder, asks, returns, after_app, write_start, io_round,
}
use aquic.Stream.Outgoing.Batches.{batch, batch_answer, recv_from_app_lem}

module _ {S : Spec} {C : EncoderApi S} where
  -- Where no encoding fails, a round of the loop takes one batch and hands the encoder that holds it to
  -- the backend, while the direction is open and something is queued: it neither panics nor runs out of
  -- fuel, it always encodes the first item, and it leaves the rest of the batch queued. Where an encoding
  -- fails, the loop returns with that error.
  pub round_lem :
      (debug : Bool) (s : Outgoing S C) (enc : C.Encoder) (payload : Payload S.StreamItem)
      (weight : ℕ) (rest : List (Payload S.StreamItem × ℕ))
      → IsOpen s.items
      → s.stream_finished ≡ false
      → s.encoder ≡ some enc
      → s.items.items.queue.deque ≡ (payload, weight) ∷ rest
      → All (λ x. is_fin x.0 ≡ false) s.items.items.queue.deque
      → (let r = batch C enc ((payload, weight) ∷ rest) in
          (r.1 ≡ none
            → (s' : Outgoing S C) × (io_round debug s ≡ done (s', asks r.0))
              × (s'.encoder ≡ none)
              × (s'.items.items.queue.deque ≡ r.2))
          × ((e : S.StreamEncoderError)
              → r.1 ≡ some e
              → (s' : Outgoing S C) × (io_round debug s ≡ done (s', returns (some (encoder e))))
                × (s'.items.items.queue.deque ≡ r.2)))
  unfolding io_round give_encoder priority_once
  round_lem debug s enc payload weight rest o running there first nf =
      let (s1, e, b) = recv_from_app_lem debug s enc payload weight rest o running there first nf in
      (
        λ fine. (
          (give_encoder s1).0,
          ap (λ o. o >>= (λ r. done (after_app r))) (e ∙ ap (λ a. done (s1, batch_answer a)) fine)
              ∙ ap (λ given. done (write_start ((give_encoder s1).0, given))) b.encoded,
          refl,
          b.queued,
        ),
        λ wrong h. (
          s1,
          ap (λ o. o >>= (λ r. done (after_app r))) (e ∙ ap (λ a. done (s1, batch_answer a)) h),
          b.queued,
        ),
      )
