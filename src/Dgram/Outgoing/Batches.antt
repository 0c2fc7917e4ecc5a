-- ===== src/Dgram/Outgoing/Batches.antt =====
-- What `recv_from_app` of aquic-core/src/dgram/outgoing.rs takes from an application at once.
use aquic.Base.{
  ℕ, zero, suc, ◌<◌, ◌≡◌, refl, sym, ap, ◌∙◌, subst, inl, inr, Bool, true, false, Option, none,
  some, List, [], ◌∷◌, arith, if◌then◌else◌, Bool-cases, length, Outcome, done, ◌>>=◌,
}
use aquic.Sync.Dgram.{Channel, Answer, ready, recv, try_recv}
use aquic.Sync.Dgram.Open.{IsOpen, recv-first, recv-nothing}
use aquic.Dgram.Outgoing.{
  EncoderApi, Outgoing, after_receive, recv_item, continue, recv_more, recv_from_app, give_encoder,
  asks, after_app, write_start, io_round,
}

module _ (C : EncoderApi) where
  -- The batch, described on the queue alone: items are encoded in order until the encoder wants to be
  -- flushed or none is left. Then what remains is the queue.
  abbrev pub batch : C.Encoder → List (C.DgramItem × ℕ) → C.Encoder × List (C.DgramItem × ℕ)
  batch enc [] = (enc, [])
  batch enc (x ∷ queue) =
      let enc' = C.encode enc x.0 in if C.should_flush enc' then (enc', queue) else batch enc' queue

module _ {C : EncoderApi} where
  -- `o` is what a call did that took a batch and left `r`.
  abbrev pub Took :
      Outcome (Outgoing C × Answer (Unit {0})) → C.Encoder × List (C.DgramItem × ℕ) → Type 0
  Took o r =
      (s' : Outgoing C) × (o ≡ done (s', ready tt))
      × (s'.encoder ≡ some r.0)
      × (s'.items.items.queue.deque ≡ r.1)
      × IsOpen s'.items

  item_lem :
      (debug blocking : Bool) (s : Outgoing C) (enc : C.Encoder) (item : C.DgramItem) (weight : ℕ)
      (rest : List (C.DgramItem × ℕ))
      → IsOpen s.items
      → s.encoder ≡ some enc
      → s.items.items.queue.deque ≡ (item, weight) ∷ rest
      → (c' : Channel C.DgramItem) × (recv_item debug blocking s
          ≡ done (record s { items = c'; encoder = some (C.encode enc item) }, ready true))
        × IsOpen c'
        × (c'.items.queue.deque ≡ rest)
        × (c'.items.queue.senders ≡ s.items.items.queue.senders)
  unfolding recv_item after_receive
  item_lem debug blocking s enc item weight rest o there first =
      let (c', e, o', queued, senders) = recv-first debug s.items item weight rest o first in
      let both : (if blocking then recv debug s.items else try_recv debug s.items)
          ≡ done (c', ready item) =
        elim (Bool-cases blocking) [ inl b ↦ rw b e | inr b ↦ rw b e ] in
      (
        c',
        rw (there, recv_item) (ap (λ o. o >>= after_receive debug blocking s enc) both),
        o',
        queued,
        senders,
      )

  nothing_lem :
      (debug : Bool) (s : Outgoing C) (enc : C.Encoder)
      → IsOpen s.items
      → s.encoder ≡ some enc
      → s.items.items.queue.deque ≡ []
      → 0 < s.items.items.queue.senders
      → recv_item debug false s ≡ done (s, ready false)
  unfolding recv_item after_receive
  nothing_lem debug s enc o there none_left some_sender =
      rw (there, recv_item)
        (ap (λ o. o >>= after_receive debug false s enc)
            (recv-nothing debug s.items o none_left some_sender)
          ∙ ap (λ enc'. done (record s { encoder = enc' }, ready false)) there)

  -- One item, and then what `next` takes
  item_and_rest :
      (debug blocking : Bool) (s : Outgoing C) (enc : C.Encoder) (item : C.DgramItem) (weight : ℕ)
      (rest : List (C.DgramItem × ℕ)) (next : Outgoing C → Outcome (Outgoing C × Answer (Unit {0})))
      → IsOpen s.items
      → s.encoder ≡ some enc
      → s.items.items.queue.deque ≡ (item, weight) ∷ rest
      → ((s1 : Outgoing C)
          → IsOpen s1.items
          → s1.encoder ≡ some (C.encode enc item)
          → s1.items.items.queue.deque ≡ rest
          → s1.items.items.queue.senders ≡ s.items.items.queue.senders
          → Took (next s1) (batch C (C.encode enc item) rest))
      → Took (recv_item debug blocking s >>= continue next) (batch C enc ((item, weight) ∷ rest))
  item_and_rest debug blocking s enc item weight rest next o there first after =
      let (c', e, o', queued, senders) =
        item_lem debug blocking s enc item weight rest o there first in
      let enc' = C.encode enc item in
      let s1 : Outgoing C = record s { items = c'; encoder = some enc' } in
      subst (λ o. Took (o >>= continue next) (batch C enc ((item, weight) ∷ rest))) (sym e)
        (elim (Bool-cases (C.should_flush enc')) [
          | inl flush ↦
              subst
                (λ b.
                  Took (if b then done (s1, ready tt) else next s1)
                    (if b then (enc', rest) else batch C enc' rest))
                (sym flush) (s1, refl, refl, queued, o')
          | inr goes_on ↦
              subst
                (λ b.
                  Took (if b then done (s1, ready tt) else next s1)
                    (if b then (enc', rest) else batch C enc' rest))
                (sym goes_on) (after s1 o' refl queued senders)
        ])

  more_lem :
      (fuel : ℕ) (debug : Bool) (s : Outgoing C) (enc : C.Encoder) (queue : List (C.DgramItem × ℕ))
      → IsOpen s.items
      → s.encoder ≡ some enc
      → s.items.items.queue.deque ≡ queue
      → 0 < s.items.items.queue.senders
      → length queue < fuel
      → Took (recv_more fuel debug s) (batch C enc queue)
  unfolding recv_more
  more_lem zero debug s enc queue o there q n h = absurd (omega arith)
  more_lem (suc fuel) debug s enc [] o there q n h = (
    s,
    ap (λ o. o >>= continue (recv_more fuel debug)) (nothing_lem debug s enc o there q n),
    there,
    q,
    o,
  )
  more_lem (suc fuel) debug s enc ((item, weight) ∷ queue) o there q n h =
      item_and_rest debug false s enc item weight queue (recv_more fuel debug) o there q
        (λ s1 o1 there1 q1 senders.
          more_lem fuel debug s1 _ queue o1 there1 q1 (omega (arith, senders)) (omega arith))

  -- The first item is received with blocking, and the others without.
  recv_from_app_lem :
      (debug : Bool) (s : Outgoing C) (enc : C.Encoder) (item : C.DgramItem) (weight : ℕ)
      (rest : List (C.DgramItem × ℕ))
      → IsOpen s.items
      → 0 < s.items.items.queue.senders
      → s.encoder ≡ some enc
      → s.items.items.queue.deque ≡ (item, weight) ∷ rest
      → Took (recv_from_app debug s) (batch C enc ((item, weight) ∷ rest))
  unfolding recv_from_app
  recv_from_app_lem debug s enc item weight rest o n there first =
      let fuel = suc (length s.items.items.queue.deque) in
      let taken =
        item_and_rest debug true s enc item weight rest (recv_more fuel debug) o there first
          (λ s1 o1 there1 q1 senders.
            more_lem fuel debug s1 _ rest o1 there1 q1 (omega (arith, senders))
              (omega (arith, ap length first))) in
      subst (λ o. Took o (batch C enc ((item, weight) ∷ rest))) (sym (asked s.encoder there)) taken
    where
      asked :
          (e : Option C.Encoder)
          → e ≡ some enc
          → (elim e [
            | none ↦ done (s, ready tt)
            | some enc' ↦
                recv_item debug true s
                >>= continue (recv_more (suc (length s.items.items.queue.deque)) debug)
          ])
            ≡ (recv_item debug true s
                >>= continue (recv_more (suc (length s.items.items.queue.deque)) debug))
      asked e h = rw h refl

  -- While the direction is open and something is queued, a round of the loop takes one batch and hands
  -- the encoder that holds it to the backend: it neither fails nor panics nor runs out of fuel, it always
  -- encodes the first item, and it leaves the rest of the batch queued.
  pub dgram_round_lem :
      (debug : Bool) (s : Outgoing C) (enc : C.Encoder) (item : C.DgramItem) (weight : ℕ)
      (rest : List (C.DgramItem × ℕ))
      → IsOpen s.items
      → 0 < s.items.items.queue.senders
      → s.encoder ≡ some enc
      → s.items.items.queue.deque ≡ (item, weight) ∷ rest
      → (let r = batch C enc ((item, weight) ∷ rest) in
          (s' : Outgoing C) × (io_round debug s ≡ done (s', asks r.0))
          × (s'.encoder ≡ none)
          × (s'.items.items.queue.deque ≡ r.1))
  unfolding io_round give_encoder
  dgram_round_lem debug s enc item weight rest o n there first =
      let (s1, e, encoded, queued, o') =
        recv_from_app_lem debug s enc item weight rest o n there first in
      (
        (give_encoder s1).0,
        ap (λ o. o >>= (λ r. done (after_app r))) e
            ∙ ap (λ given. done (write_start ((give_encoder s1).0, given))) encoded,
        refl,
        queued,
      )
