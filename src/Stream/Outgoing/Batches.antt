-- ===== src/Stream/Outgoing/Batches.antt =====
-- What `recv_from_app` of aquic-core/src/stream/outgoing.rs takes from an application at once.
use aquic.Base.{
  ℕ, zero, suc, ◌<◌, ◌≡◌, refl, sym, ap, ◌∙◌, subst, inl, inr, Bool, true, false, Option, none,
  some, List, [], ◌∷◌, arith, if◌then◌else◌, Bool-cases, length, All, Outcome, done, ◌>>=◌,
}
use aquic.Stream.Types.{Spec, encoder, Payload, is_fin}
use aquic.Sync.Stream.{Answer, ready, failed}
use aquic.Sync.Stream.Receiving.{IsOpen}
use aquic.Stream.Outgoing.{EncoderApi, Outgoing, recv_item, continue, recv_more, recv_from_app}
use aquic.Stream.Outgoing.Items.{
  encode_payload_cases, item_lem, nothing_lem, more_goes, more_stops, app_goes,
}

module _ {S : Spec} where
  abbrev pub batch_answer : Option S.StreamEncoderError → Answer S (Unit {0})
  batch_answer none = ready tt
  batch_answer (some e) = failed (encoder e)

module _ {S : Spec} (C : EncoderApi S) where
  -- The batch, described on the queue alone: items are encoded in order until one fails, the encoder
  -- wants to be flushed, or none is left. Then what remains is the queue.
  abbrev pub batch :
      C.Encoder
      → List (Payload S.StreamItem × ℕ)
      → C.Encoder × Option S.StreamEncoderError × List (Payload S.StreamItem × ℕ)
  batch enc [] = (enc, none, [])
  batch enc (x ∷ queue) =
      let (enc', answer) = C.encode enc x.0 in
      elim answer [
        | some e ↦ (enc', some e, queue)
        | none ↦ if C.should_flush enc' then (enc', none, queue) else batch enc' queue
      ]

  -- What the loop takes, where the encoder `enc` may want to be flushed already.
  abbrev more :
      C.Encoder
      → List (Payload S.StreamItem × ℕ)
      → C.Encoder × Option S.StreamEncoderError × List (Payload S.StreamItem × ℕ)
  more enc queue = if C.should_flush enc then (enc, none, queue) else batch enc queue

  batch-fails :
      (enc : C.Encoder) (payload : Payload S.StreamItem) (weight : ℕ)
      (rest : List (Payload S.StreamItem × ℕ)) (e : S.StreamEncoderError)
      → (C.encode enc payload).1 ≡ some e
      → batch enc ((payload, weight) ∷ rest) ≡ ((C.encode enc payload).0, some e, rest)
  batch-fails enc payload weight rest e h = rw (h, batch) refl

  batch-goes :
      (enc : C.Encoder) (payload : Payload S.StreamItem) (weight : ℕ)
      (rest : List (Payload S.StreamItem × ℕ))
      → (C.encode enc payload).1 ≡ none
      → batch enc ((payload, weight) ∷ rest) ≡ more (C.encode enc payload).0 rest
  batch-goes enc payload weight rest h = rw (h, batch) refl

module _ {S : Spec} {C : EncoderApi S} where
  -- `s` took a batch, and is `s'`.
  pub record Batched (s s' : Outgoing S C)
      (r : C.Encoder × Option S.StreamEncoderError × List (Payload S.StreamItem × ℕ)) : Type 0 where
    pub encoded : s'.encoder ≡ some r.0
    pub queued : s'.items.items.queue.deque ≡ r.2
    pub stays_open : IsOpen s'.items
    pub unfinished : s'.stream_finished ≡ false
    pub untold : s'.commands ≡ s.commands

  abbrev pub Took :
      Outgoing S C
      → Outcome (Outgoing S C × Answer S (Unit {0}))
      → C.Encoder × Option S.StreamEncoderError × List (Payload S.StreamItem × ℕ)
      → Type 0
  Took s o r = (s' : Outgoing S C) × (o ≡ done (s', batch_answer r.1)) × Batched s s' r

  -- The first item, and then what `next` takes.
  item_and_rest :
      (debug blocking : Bool) (s : Outgoing S C) (enc : C.Encoder) (payload : Payload S.StreamItem)
      (weight : ℕ) (rest : List (Payload S.StreamItem × ℕ))
      (next : Outgoing S C → Outcome (Outgoing S C × Answer S (Unit {0})))
      → IsOpen s.items
      → s.stream_finished ≡ false
      → s.encoder ≡ some enc
      → s.items.items.queue.deque ≡ (payload, weight) ∷ rest
      → is_fin payload ≡ false
      → ((s1 : Outgoing S C)
          → IsOpen s1.items
          → s1.stream_finished ≡ false
          → s1.encoder ≡ some (C.encode enc payload).0
          → s1.items.items.queue.deque ≡ rest
          → s1.commands ≡ s.commands
          → Took s1 (next s1) (more C (C.encode enc payload).0 rest))
      → Took s
          (recv_item debug blocking s >>= continue next)
          (batch C enc ((payload, weight) ∷ rest))
  item_and_rest debug blocking s enc payload weight rest next o running there first more_to_come
        after =
      let (c', e, o', queued) =
        item_lem debug blocking s enc payload weight rest o running there first more_to_come in
      let enc' = (C.encode enc payload).0 in
      let s1 : Outgoing S C = record s {
        encoder = some enc';
        items = c';
        stream_finished = false;
      } in
      elim (encode_payload_cases (record s { items = c' }) enc payload) [
        | inl (fine, encoded) ↦
            let (s', e', b) = after s1 o' refl refl queued refl in
            subst (λ r. Took s (recv_item debug blocking s >>= continue next) r)
              (sym (batch-goes C enc payload weight rest fine))
              (
                s',
                ap (λ o. o >>= continue next) (e ∙ ap (λ r. done r) encoded) ∙ e',
                record {
                  encoded = b.encoded;
                  queued = b.queued;
                  stays_open = b.stays_open;
                  unfinished = b.unfinished;
                  untold = b.untold;
                },
              )
        | inr (wrong, h, encoded) ↦
            subst (λ r. Took s (recv_item debug blocking s >>= continue next) r)
              (sym (batch-fails C enc payload weight rest wrong h))
              (
                s1,
                ap (λ o. o >>= continue next) (e ∙ ap (λ r. done r) encoded),
                record {
                  encoded = refl;
                  queued = queued;
                  stays_open = o';
                  unfinished = refl;
                  untold = refl;
                },
              )
      ]

  more_lem :
      (fuel : ℕ) (debug : Bool) (s : Outgoing S C) (enc : C.Encoder)
      (queue : List (Payload S.StreamItem × ℕ))
      → IsOpen s.items
      → s.stream_finished ≡ false
      → s.encoder ≡ some enc
      → s.items.items.queue.deque ≡ queue
      → All (λ x. is_fin x.0 ≡ false) queue
      → length queue < fuel
      → Took s (recv_more fuel debug s) (more C enc queue)
  more_lem zero debug s enc queue o running there q nf h = absurd (omega arith)
  more_lem (suc fuel) debug s enc queue o running there q nf h =
      elim (Bool-cases (C.should_flush enc)) [
        | inl flush ↦
            subst
              (λ b.
                Took s (recv_more (suc fuel) debug s)
                  (if b then (enc, none, queue) else batch C enc queue))
              (sym flush)
              (
                s,
                more_stops fuel debug s enc running there flush,
                record {
                  encoded = there;
                  queued = q;
                  stays_open = o;
                  unfinished = running;
                  untold = refl;
                },
              )
        | inr no_flush ↦
            subst
              (λ b.
                Took s (recv_more (suc fuel) debug s)
                  (if b then (enc, none, queue) else batch C enc queue))
              (sym no_flush)
              (subst (λ r. Took s r (batch C enc queue))
                (sym (more_goes fuel debug s enc running there no_flush))
                (rest (more_lem fuel debug) queue q nf h))
      ]
    where
      rest :
          ((s1 : Outgoing S C) (enc1 : C.Encoder) (queue : List (Payload S.StreamItem × ℕ))
            → IsOpen s1.items
            → s1.stream_finished ≡ false
            → s1.encoder ≡ some enc1
            → s1.items.items.queue.deque ≡ queue
            → All (λ x. is_fin x.0 ≡ false) queue
            → length queue < fuel
            → Took s1 (recv_more fuel debug s1) (more C enc1 queue))
          → (queue : List (Payload S.StreamItem × ℕ)) → s.items.items.queue.deque ≡ queue
          → All (λ x. is_fin x.0 ≡ false) queue
          → length queue < suc fuel
          → Took s (recv_item debug false s >>= continue (recv_more fuel debug)) (batch C enc queue)
      rest later [] q nf h = (
        s,
        ap (λ o. o >>= continue (recv_more fuel debug)) (nothing_lem debug s enc o running there q),
        record { encoded = there; queued = q; stays_open = o; unfinished = running; untold = refl },
      )
      rest later ((payload, weight) ∷ queue) q nf h =
          item_and_rest debug false s enc payload weight queue (recv_more fuel debug) o running
            there q nf.0
            (λ s1 o1 running1 there1 q1 same.
              later s1 _ queue o1 running1 there1 q1 nf.1 (omega arith))

  -- The first item is received with blocking, and the others without.
  pub recv_from_app_lem :
      (debug : Bool) (s : Outgoing S C) (enc : C.Encoder) (payload : Payload S.StreamItem)
      (weight : ℕ) (rest : List (Payload S.StreamItem × ℕ))
      → IsOpen s.items
      → s.stream_finished ≡ false
      → s.encoder ≡ some enc
      → s.items.items.queue.deque ≡ (payload, weight) ∷ rest
      → All (λ x. is_fin x.0 ≡ false) s.items.items.queue.deque
      → Took s (recv_from_app debug s) (batch C enc ((payload, weight) ∷ rest))
  recv_from_app_lem debug s enc payload weight rest o running there first nf =
      let all_nf = subst (All (λ (x : Payload S.StreamItem × ℕ). is_fin x.0 ≡ false)) first nf in
      let n = length s.items.items.queue.deque in
      let taken =
        item_and_rest debug true s enc payload weight rest (recv_more (suc n) debug) o running there
          first all_nf.0
          (λ s1 o1 running1 there1 q1 same.
            more_lem (suc n) debug s1 _ rest o1 running1 there1 q1 all_nf.1
              (omega (arith, ap length first))) in
      subst (λ r. Took s r (batch C enc ((payload, weight) ∷ rest)))
        (sym (app_goes debug s running)) taken
