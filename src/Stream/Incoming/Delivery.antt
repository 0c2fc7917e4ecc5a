-- ===== src/Stream/Incoming/Delivery.antt =====
-- What the task of an incoming stream hands to the application (aquic-core/src/stream/incoming.rs).
use aquic.Base.{
  ℕ, zero, suc, ◌+◌, ◌*◌, ◌≤◌, ◌<◌, ◌≡◌, refl, sym, ap, ◌∙◌, inr, Bool, true, false, Option, none,
  some, List, [], ◌∷◌, ◌++◌, arith, if◌then◌else◌, length, done, ◌>>=◌,
}
use mathlib.Core.List.{append-nil, append_assoc}
use aquic.Stream.Types.{Spec, Error, finish, Payload, is_fin, estimate}
use aquic.Stream.Bridge.{accepted}
use aquic.Sync.Stream.{Channel, ready, send_item}
use aquic.Sync.Stream.Sending.{IsSendable, send-more, send-last}
use aquic.Stream.Incoming.{
  Decoded, decoded, starved, DecoderApi, Incoming, Next, asks, returns, take_decoder, after_decode,
  round_end, after_decoded, decode_round, answered, after_sent, after_send, send_to_app, sent,
  io_loop,
}
use aquic.Stream.Incoming.Machine.{decode-goes, round_end-running, round_end-ended, io_round_cases}

module _ (S : Spec) where
  abbrev pub weighed : List (Payload S.StreamItem) → List (Payload S.StreamItem × ℕ)
  weighed [] = []
  weighed (payload ∷ payloads) = (payload, estimate S payload) ∷ weighed payloads

  abbrev pub total_weight : List (Payload S.StreamItem) → ℕ
  total_weight [] = 0
  total_weight (payload ∷ payloads) = estimate S payload + total_weight payloads

module _ {S : Spec} where
  -- The error of the channel: the direction is finished behind the last payload.
  abbrev pub error_behind : {A : Type 0} → Option A → Option (Error S)
  error_behind none = some finish
  error_behind (some dec) = none

  -- The queue got the payloads, in order.
  pub record Delivered {A : Type 0} (c c' : Channel S) (payloads : List (Payload S.StreamItem))
      (left : Option A) : Type 0 where
    pub queued : c'.items.queue.deque ≡ c.items.queue.deque ++ weighed S payloads
    pub error : c'.errors.container ≡ error_behind left

module _ {S : Spec} (D : DecoderApi S) where
  -- The backend is asked once more, if the last payload was not there.
  abbrev pub next_behind : Option D.Decoder → Next S D
  next_behind none = returns none
  next_behind (some dec) = asks dec

  -- A decoder yields these payloads, and then either starves, as that decoder, or has yielded the last.
  pub data Decodes : D.Decoder → List (Payload S.StreamItem) → Option D.Decoder → Type 0 where
    starves : {dec dec' : D.Decoder} → D.decode dec ≡ (dec', starved) → Decodes dec [] (some dec')
    yields :
        {dec dec' : D.Decoder} {payload : Payload S.StreamItem}
        {payloads : List (Payload S.StreamItem)} {left : Option D.Decoder}
        → D.decode dec ≡ (dec', decoded payload)
        → is_fin payload ≡ false
        → Decodes dec' payloads left
        → Decodes dec (payload ∷ payloads) left
    ends :
        {dec dec' : D.Decoder} {payload : Payload S.StreamItem}
        → D.decode dec ≡ (dec', decoded payload)
        → is_fin payload ≡ true
        → Decodes dec (payload ∷ []) none

module _ {S : Spec} {D : DecoderApi S} where
  -- With the decoder in the task, one that has not drained: a round starts with `decode`.
  pub record IsBusy (s : Incoming S D) (dec : D.Decoder) : Type 0 where
    pub there : s.stream_decoder ≡ some dec
    pub running : s.stream_finished ≡ false
    pub full : s.decoder_drained ≡ false
    pub sendable : IsSendable s.items

  decode_round-busy :
      (s : Incoming S D) (dec dec' : D.Decoder) (answer : Decoded S)
      → IsBusy s dec
      → D.decode dec ≡ (dec', answer)
      → decode_round s ≡ after_decoded (after_decode s (dec', answer))
  unfolding decode_round
  decode_round-busy s dec dec' answer b e =
      ap (λ r. after_decoded r)
        (decode-goes s dec b.there b.running b.full ∙ ap (λ r. after_decode s r) e)

  -- The state behind a payload that `decode` has handed out, and that the application has got
  after_item : Incoming S D → D.Decoder → Bool → Channel S → Incoming S D
  after_item s dec fin items = record s {
    stream_decoder = some dec;
    stream_finished = if fin then true else s.stream_finished;
    items = items;
  }

  -- A payload is decoded and sent.
  item_round :
      (debug : Bool) (fuel : ℕ) (s : Incoming S D) (dec dec' : D.Decoder)
      (payload : Payload S.StreamItem) (items : Channel S)
      → IsBusy s dec
      → D.decode dec ≡ (dec', decoded payload)
      → send_item s.items payload ≡ (items, ready tt)
      → io_loop (suc fuel) debug (decode_round s)
        ≡ io_loop fuel debug (round_end (after_item s dec' (is_fin payload) items))
  unfolding io_loop after_decode sent send_to_app after_item
  item_round debug fuel s dec dec' payload items b e sent_by =
      ap (λ r. io_loop (suc fuel) debug r) (decode_round-busy s dec dec' (decoded payload) b e)
      ∙ ap
          (λ x.
            after_send debug (after_item s dec' (is_fin payload) s.items) x
            >>= (λ r. done (after_sent payload r))
            >>= io_loop fuel debug)
          sent_by

  io_loop-asks :
      (fuel : ℕ) (debug : Bool) (s : Incoming S D) (dec : D.Decoder)
      → io_loop fuel debug (s, asks dec) ≡ done (s, asks dec)
  unfolding io_loop
  io_loop-asks zero debug s dec = refl
  io_loop-asks (suc fuel) debug s dec = refl

  io_loop-returns :
      (fuel : ℕ) (debug : Bool) (s : Incoming S D) (e : Option (Error S))
      → io_loop fuel debug (s, returns e) ≡ done (s, returns e)
  unfolding io_loop
  io_loop-returns zero debug s e = refl
  io_loop-returns (suc fuel) debug s e = refl

  busy_lem :
      (debug : Bool) (fuel : ℕ) (s : Incoming S D) (dec : D.Decoder)
      (payloads : List (Payload S.StreamItem)) (left : Option D.Decoder)
      → Decodes D dec payloads left
      → IsBusy s dec
      → s.items.items.occupation + total_weight S payloads ≤ s.items.items.bound
      → 2 * length payloads < fuel
      → (s' : Incoming S D) × (io_loop fuel debug (decode_round s) ≡ done (s', next_behind D left))
        × Delivered s.items s'.items payloads left
  unfolding io_loop after_decode after_item
  busy_lem debug zero s dec payloads left d b room h = absurd (omega arith)
  busy_lem debug (suc fuel) s dec _ _ (starves {dec' = dec'} e) b room h =
      let s1 : Incoming S D = record s { stream_decoder = some dec'; decoder_drained = true } in
      let s2 : Incoming S D = record s1 { stream_decoder = none; decoder_drained = false } in
      (
        s2,
        ap (λ r. io_loop (suc fuel) debug r)
              (decode_round-busy s dec dec' starved b e ∙ round_end-running s1 b.running)
            ∙ ap (λ r. io_loop fuel debug r) ((io_round_cases s1 dec' refl b.running).0 refl)
            ∙ io_loop-asks fuel debug s2 dec',
        record { queued = sym (append-nil _); error = b.sendable.unclosed },
      )
  busy_lem debug (suc (suc fuel)) s dec _ left
        (yields {dec' = dec'} {payload = payload} {payloads = payloads} e more_to_come d) b room h =
      let (c', sent_by, sendable, queued, occupation, bound) =
        send-more s.items payload b.sendable more_to_come (inr (omega arith)) in
      let s1 : Incoming S D = after_item s dec' (is_fin payload) c' in
      let running : s1.stream_finished ≡ false =
        ap (λ fin. if fin then true else s.stream_finished) more_to_come ∙ b.running in
      let busy : IsBusy s1 dec' = record {
        there = refl;
        running = running;
        full = b.full;
        sendable = sendable;
      } in
      let (s', ran, delivered) =
        busy_lem debug fuel s1 dec' payloads left d busy (omega arith) (omega arith) in
      (
        s',
        item_round debug (suc fuel) s dec dec' payload c' b e sent_by
            ∙ ap (λ r. io_loop (suc fuel) debug r) (round_end-running s1 running)
            ∙ ap (λ r. io_loop fuel debug r) ((io_round_cases s1 dec' refl running).1 b.full)
            ∙ ran,
        record {
          queued =
              delivered.queued
              ∙ ap (λ queue. queue ++ weighed S payloads) queued
              ∙ append_assoc s.items.items.queue.deque ((payload, estimate S payload) ∷ [])
                  (weighed S payloads);
          error = delivered.error;
        },
      )
  busy_lem debug (suc (suc fuel)) s dec _ _ (ends {dec' = dec'} {payload = payload} e fin) b room
        h =
      let (c', sent_by, error, queued) =
        send-last s.items payload b.sendable fin (inr (omega arith)) in
      let s1 : Incoming S D = after_item s dec' (is_fin payload) c' in
      let ended : s1.stream_finished ≡ true =
        ap (λ fin. if fin then true else s.stream_finished) fin in
      (
        s1,
        item_round debug (suc fuel) s dec dec' payload c' b e sent_by
            ∙ ap (λ r. io_loop (suc fuel) debug r) (round_end-ended s1 ended)
            ∙ io_loop-returns (suc fuel) debug s1 none,
        record { queued = queued; error = error },
      )
  busy_lem debug (suc zero) s dec _ left (yields e more_to_come d) b room h = absurd (omega arith)
  busy_lem debug (suc zero) s dec _ _ (ends e fin) b room h = absurd (omega arith)

  -- The backend hands the decoder back, and it yields some payloads, for which the channel has room, and
  -- then starves or yields the last one. Then the loop queues these payloads for the application, in
  -- order, and asks the backend again, with the decoder, or has finished the direction and returns.
  -- Two rounds of fuel for each payload and one more are enough.
  pub delivery_lem :
      (debug : Bool) (fuel : ℕ) (s : Incoming S D) (dec : D.Decoder)
      (payloads : List (Payload S.StreamItem)) (left : Option D.Decoder)
      → Decodes D dec payloads left
      → s.stream_finished ≡ false
      → s.decoder_drained ≡ false
      → IsSendable s.items
      → s.items.items.occupation + total_weight S payloads ≤ s.items.items.bound
      → 2 * length payloads < fuel
      → (s' : Incoming S D) × (io_loop fuel debug (answered s (accepted dec))
          ≡ done (s', next_behind D left))
        × Delivered s.items s'.items payloads left
  unfolding answered take_decoder
  delivery_lem debug fuel s dec payloads left d running full sendable room h =
      busy_lem debug fuel (record s { stream_decoder = some dec }) dec payloads left d
        (record { there = refl; running = running; full = full; sendable = sendable }) room h
