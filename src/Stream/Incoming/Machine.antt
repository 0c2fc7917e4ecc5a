-- ===== src/Stream/Incoming/Machine.antt =====
-- Where the decoder is while the task of an incoming stream runs (aquic-core/src/stream/incoming.rs).
use aquic.Base.{
  ◌≡◌, refl, sym, ap, subst, inl, inr, Bool, true, false, not, ◌||◌, Option, none, some,
  if◌then◌else◌, Bool-cases, Outcome, done, panic, ◌>>=◌,
}
use aquic.Stream.Types.{Spec, Error, Payload, is_fin}
use aquic.Stream.Bridge.{Response, no_response, accepted, refused}
use aquic.Sync.Mpmc.Oneshot
use aquic.Sync.Stream.{Channel, Answer, ready, failed, pending, send_item}
use aquic.Stream.Incoming.{
  Decoded, decoded, starved, decode_failed, DecoderApi, Incoming, Next, again, asks, sends, returns,
  new, give_decoder, take_decoder, after_decode, decode, round_end, after_decoded, decode_round,
  io_round, answered, after_sent, after_send, send_error, send_to_app, sent,
}

module _ {S : Spec} {D : DecoderApi S} where
  -- The decoder is with the task, or with the backend while that is asked; an item that is sent is the
  -- last one exactly if the stream has ended; and the loop goes on only if it has not.
  abbrev pub IsPlaced : Incoming S D × Next S D → Type 0
  IsPlaced (s, again) =
      (dec : D.Decoder) × (s.stream_decoder ≡ some dec) × (s.stream_finished ≡ false)
  IsPlaced (s, asks dec) =
      (s.stream_decoder ≡ none) × (s.decoder_drained ≡ false) × (s.stream_finished ≡ false)
  IsPlaced (s, sends payload) =
      (dec : D.Decoder) × (s.stream_decoder ≡ some dec)
      × (s.decoder_drained ≡ false)
      × (s.stream_finished ≡ is_fin payload)
  IsPlaced (s, returns none) = s.stream_finished ≡ true
  IsPlaced (s, returns (some e)) = Unit {0}

  -- A step of the task, or of the others that share its channels with it.
  pub data Step (debug : Bool) : Incoming S D × Next S D → Incoming S D × Next S D → Type 0 where
    rounds : {s : Incoming S D} → Step debug (s, again) (io_round s)
    answers :
        {s : Incoming S D} {dec : D.Decoder} (response : Response D.Decoder)
        → Step debug (s, asks dec) (answered s response)
    polls :
        {s : Incoming S D} {payload : Payload S.StreamItem} {t : Incoming S D × Next S D}
        → sent debug s payload ≡ done t
        → Step debug (s, sends payload) t
    others :
        {s : Incoming S D} {n : Next S D} (items : Channel S) (cancel : Oneshot.Shared (Error S))
        → Step debug (s, n) (record s { items = items; cancel = cancel }, n)

  pub data Reach (debug : Bool) (t : Incoming S D × Next S D)
      : Incoming S D × Next S D → Type 0 where
    here : Reach debug t t
    more : {u v : Incoming S D × Next S D} → Reach debug t u → Step debug u v → Reach debug t v

  pub decode-goes :
      (s : Incoming S D) (dec : D.Decoder)
      → s.stream_decoder ≡ some dec
      → s.stream_finished ≡ false
      → s.decoder_drained ≡ false
      → decode s ≡ after_decode s (D.decode dec)
  unfolding decode
  decode-goes s dec there running full =
      go s.stream_decoder there s.stream_finished running s.decoder_drained full
    where
      go :
          (o : Option D.Decoder)
          → o ≡ some dec
          → (a : Bool) → a ≡ false
          → (b : Bool) → b ≡ false
          → (let keep : Incoming S D × Answer S (Option (Payload S.StreamItem)) = (s, ready none) in
              if a || b
              then keep
              else elim o [ none ↦ keep | some d ↦ after_decode s (D.decode d) ])
            ≡ after_decode s (D.decode dec)
      go o eo a ea b eb = rw (eo, ea, eb) refl

  pub round_end-running : (s : Incoming S D) → s.stream_finished ≡ false → round_end s ≡ (s, again)
  round_end-running s running = go s.stream_finished running
    where
      go :
          (b : Bool)
          → b ≡ false
          → (if◌then◌else◌ {A = Incoming S D × Next S D} b (s, returns none) (s, again))
            ≡ (s, again)
      go b e = rw e refl

  pub round_end-ended :
      (s : Incoming S D) → s.stream_finished ≡ true → round_end s ≡ (s, returns none)
  round_end-ended s ended = go s.stream_finished ended
    where
      go :
          (b : Bool)
          → b ≡ true
          → (if◌then◌else◌ {A = Incoming S D × Next S D} b (s, returns none) (s, again))
            ≡ (s, returns none)
      go b e = rw e refl

  after_decode-IsPlaced :
      (s : Incoming S D) (r : D.Decoder × Decoded S)
      → s.stream_finished ≡ false
      → s.decoder_drained ≡ false
      → IsPlaced (after_decoded (after_decode s r))
  unfolding after_decode
  after_decode-IsPlaced s (dec, decoded payload) running full = (
    dec,
    refl,
    full,
    (elim (Bool-cases (is_fin payload)) [ inl e ↦ rw e refl | inr e ↦ rw e running ]),
  )
  after_decode-IsPlaced s (dec, starved) running full =
      subst IsPlaced
        (sym (
          round_end-running (record s { stream_decoder = some dec; decoder_drained = true })
            running))
        (dec, refl, running)
  after_decode-IsPlaced s (dec, decode_failed e) running full = tt

  decode_round-IsPlaced :
      (s : Incoming S D) (dec : D.Decoder)
      → s.stream_decoder ≡ some dec
      → s.stream_finished ≡ false
      → s.decoder_drained ≡ false
      → IsPlaced (decode_round s)
  unfolding decode_round
  decode_round-IsPlaced s dec there running full =
      subst (λ r. IsPlaced (after_decoded r)) (sym (decode-goes s dec there running full))
        (after_decode-IsPlaced s (D.decode dec) running full)

  -- The two ways a round starts.
  pub io_round_cases :
      (s : Incoming S D) (dec : D.Decoder)
      → s.stream_decoder ≡ some dec
      → s.stream_finished ≡ false
      → (s.decoder_drained ≡ true
          → io_round s ≡ (record s { stream_decoder = none; decoder_drained = false }, asks dec))
        × (s.decoder_drained ≡ false → io_round s ≡ decode_round s)
  unfolding io_round give_decoder
  io_round_cases s dec there running = (
    λ drained. starts s.decoder_drained drained (give_decoder s) (gives drained),
    λ full. rw full refl,
  )
    where
      given : Incoming S D
      given = record s { stream_decoder = none; decoder_drained = false }

      gives-go :
          (o : Option D.Decoder)
          → o ≡ some dec
          → (a b : Bool) → a ≡ false
          → b ≡ true
          → (let keep : Incoming S D × Option D.Decoder = (s, none) in
              if a || not b then keep else elim o [ none ↦ keep | some d ↦ (given, some d) ])
            ≡ (given, some dec)
      gives-go o eo a b ea eb = rw (eo, ea, eb) refl

      gives : s.decoder_drained ≡ true → give_decoder s ≡ (given, some dec)
      gives drained =
          gives-go s.stream_decoder there s.stream_finished s.decoder_drained running drained

      starts :
          (b : Bool)
          → b ≡ true
          → (g : Incoming S D × Option D.Decoder) → g ≡ (given, some dec)
          → (if b
              then elim g.1 [ some d ↦ (g.0, asks d) | none ↦ decode_round g.0 ]
              else decode_round s)
            ≡ (given, asks dec)
      starts b eb g eg = rw eb (ap (λ x. from x.0 x.1) eg)
        where
          from : Incoming S D → Option D.Decoder → Incoming S D × Next S D
          from s' o = elim o [ some d ↦ (s', asks d) | none ↦ decode_round s' ]

  abbrev OutcomeIsPlaced : Outcome (Incoming S D × Next S D) → Type 0
  OutcomeIsPlaced (done t) = IsPlaced t
  OutcomeIsPlaced panic = Unit {0}

  after_sent-IsPlaced :
      (debug : Bool) (s : Incoming S D) (payload : Payload S.StreamItem)
      (x : Channel S × Answer S (Unit {0}))
      → IsPlaced (s, sends payload)
      → OutcomeIsPlaced (after_send debug s x >>= (λ r. done (after_sent payload r)))
  after_sent-IsPlaced debug s payload (items, ready u) (dec, there, full, last_one) =
      elim (Bool-cases s.stream_finished) [
        | inl ended ↦
            subst IsPlaced (sym (round_end-ended (record s { items = items }) ended)) ended
        | inr running ↦
            subst IsPlaced (sym (round_end-running (record s { items = items }) running))
              (dec, there, running)
      ]
  after_sent-IsPlaced debug s payload (items, failed e) p = stopped (send_error debug e)
    where
      stopped :
          (o : Outcome (Error S))
          → OutcomeIsPlaced (
              o
              >>= (λ e'. done (record s { items = items }, failed e'))
              >>= (λ r. done (after_sent payload r)))
      stopped (done e') = tt
      stopped panic = tt
  after_sent-IsPlaced debug s payload (items, pending) p = p

  sent-IsPlaced :
      (debug : Bool) (s : Incoming S D) (payload : Payload S.StreamItem)
      → IsPlaced (s, sends payload)
      → OutcomeIsPlaced (sent debug s payload)
  unfolding sent send_to_app
  sent-IsPlaced debug s payload p =
      after_sent-IsPlaced debug s payload (send_item s.items payload) p

  Step-IsPlaced :
      (debug : Bool) (t u : Incoming S D × Next S D) → Step debug t u → IsPlaced t → IsPlaced u
  unfolding answered take_decoder
  Step-IsPlaced debug (s, again) _ rounds (dec, there, running) =
      let (drains, goes) = io_round_cases s dec there running in
      elim (Bool-cases s.decoder_drained) [
        | inl drained ↦ subst IsPlaced (sym (drains drained)) (refl, refl, running)
        | inr full ↦
            subst IsPlaced (sym (goes full)) (decode_round-IsPlaced s dec there running full)
      ]
  Step-IsPlaced debug (s, asks dec) _ (answers no_response) p = tt
  Step-IsPlaced debug (s, asks dec) _ (answers (accepted d)) (none_here, full, running) =
      decode_round-IsPlaced (record s { stream_decoder = some d }) d refl running full
  Step-IsPlaced debug (s, asks dec) _ (answers (refused e)) p = tt
  Step-IsPlaced debug (s, sends payload) t (polls e) p =
      subst OutcomeIsPlaced e (sent-IsPlaced debug s payload p)
  Step-IsPlaced debug (s, again) _ (others items cancel) p = p
  Step-IsPlaced debug (s, asks dec) _ (others items cancel) p = p
  Step-IsPlaced debug (s, sends payload) _ (others items cancel) p = p
  Step-IsPlaced debug (s, returns none) _ (others items cancel) p = p
  Step-IsPlaced debug (s, returns (some e)) _ (others items cancel) p = p

  -- From the start on, whatever the backend and the application answer and whatever is done to the
  -- channels: while the backend is asked, the task has no decoder, and at every other place of the loop
  -- it has one; the loop goes on only while the last item is not decoded; an item that is being sent is
  -- the last exactly if it is marked so; and the loop returns without an error only behind the last one.
  pub Reach-IsPlaced :
      (debug : Bool) (dec : D.Decoder) (items : Channel S) (t : Incoming S D × Next S D)
      → Reach debug (new dec items, again) t
      → IsPlaced t
  Reach-IsPlaced debug dec items _ here = (dec, refl, refl)
  Reach-IsPlaced debug dec items t (more {u} r step) =
      Step-IsPlaced debug u t step (Reach-IsPlaced debug dec items u r)
