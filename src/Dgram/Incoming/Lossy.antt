-- ===== src/Dgram/Incoming/Lossy.antt =====
-- What the application gets of the datagrams (aquic-core/src/dgram/incoming.rs).
use aquic.Base.{
  ℕ, ◌+◌, ◌≤◌, ◌<◌, ◌≡◌, refl, sym, ap, ◌∙◌, ◌⊎◌, inl, inr, Bool, true, false, ◌||◌, Option, none,
  some, List, [], ◌∷◌, ◌++◌, map, arith, leb, ◌==◌, if◌then◌else◌, Bool-cases, done, ◌>>=◌,
}
use mathlib.Core.List.{append-nil, append_assoc}
use aquic.Stream.Bridge.{accepted}
use aquic.Sync.Mpsc.Weighted.Flow.{send_lem}
use aquic.Sync.Dgram.{Channel, Answer, ready, pending, error, try_send}
use aquic.Sync.Dgram
use aquic.Sync.Dgram.Open.{IsOpen, no_error}
use aquic.Dgram.Incoming.{
  DecoderApi, Incoming, again, asks, give_decoder, take_decoder, decode_dgram, send_item,
  decode_round, io_round, answered, io_loop, after_send, round_end, on_asks, on_again,
}

-- What is queued of some items while nothing is taken: each item for which there is room, behind those
-- before it.
abbrev pub kept : {T : Type 0} → (T → ℕ) → ℕ → ℕ → List (Option T) → List (T × ℕ)
kept estimate bound occupation [] = []
kept estimate bound occupation (none ∷ items) = kept estimate bound occupation items
kept estimate bound occupation (some item ∷ items) =
    if occupation == 0 || leb (occupation + estimate item) bound
    then (item, estimate item) ∷ kept estimate bound (occupation + estimate item) items
    else kept estimate bound occupation items

room_cases :
    (occupation weight bound : ℕ)
    → (((occupation == 0 || leb (occupation + weight) bound) ≡ true)
        × ((occupation ≡ 0) ⊎ (occupation + weight ≤ bound)))
      ⊎ (((occupation == 0 || leb (occupation + weight) bound) ≡ false)
          × (0 < occupation)
          × (bound < occupation + weight))
room_cases occupation weight bound =
    elim (Bool-cases (occupation == 0 || leb (occupation + weight) bound)) [
      | inl e ↦ inl (e, ground arith)
      | inr e ↦ inr (e, ground arith, ground arith)
    ]

module _ {T : Type 0} where
  kept-fits :
      (estimate : T → ℕ) (bound occupation : ℕ) (item : T) (items : List (Option T))
      → (occupation == 0 || leb (occupation + estimate item) bound) ≡ true
      → kept estimate bound occupation (some item ∷ items)
        ≡ (item, estimate item) ∷ kept estimate bound (occupation + estimate item) items
  kept-fits estimate bound occupation item items test =
      ap
        (λ b.
          if b
          then (item, estimate item) ∷ kept estimate bound (occupation + estimate item) items
          else kept estimate bound occupation items)
        test

  kept-over :
      (estimate : T → ℕ) (bound occupation : ℕ) (item : T) (items : List (Option T))
      → (occupation == 0 || leb (occupation + estimate item) bound) ≡ false
      → kept estimate bound occupation (some item ∷ items) ≡ kept estimate bound occupation items
  kept-over estimate bound occupation item items test =
      ap
        (λ b.
          if b
          then (item, estimate item) ∷ kept estimate bound (occupation + estimate item) items
          else kept estimate bound occupation items)
        test

  -- An item is offered to the channel.
  offer_lem :
      (estimate : T → ℕ) (c : Channel T) (item : T)
      → IsOpen c
      → ((c.items.occupation ≡ 0) ⊎ (c.items.occupation + estimate item ≤ c.items.bound)
          → (c' : Channel T) × (try_send estimate c item ≡ (c', ready tt))
            × IsOpen c'
            × (c'.items.queue.deque ≡ c.items.queue.deque ++ (item, estimate item) ∷ [])
            × (c'.items.occupation ≡ c.items.occupation + estimate item)
            × (c'.items.bound ≡ c.items.bound))
        × (0 < c.items.occupation
            → c.items.bound < c.items.occupation + estimate item
            → try_send estimate c item ≡ (c, pending))
  unfolding try_send Dgram.after_send
  offer_lem estimate c item o =
      let (fits, over) = send_lem c.items item (estimate item) o.items in
      (
        λ room.
            let (items, tried, e, a) = fits room in
            (
              record c { items = items },
              rw (no_error c o, try_send) (rw tried refl),
              record { items = a.sound; unclosed = o.unclosed; some_sender = o.some_sender },
              a.queued,
              a.occupation,
              a.bound,
            ),
        λ some_weight too_much. rw (no_error c o, try_send) (rw (over some_weight too_much).0 refl),
      )

  -- `c'` holds what `c` would hold in the end, if the item came first.
  pub record Offered (estimate : T → ℕ) (c c' : Channel T) (item : Option T) : Type 0 where
    pub open_yet : IsOpen c'
    pub bound : c'.items.bound ≡ c.items.bound
    pub queued :
        (items : List (Option T))
        → c'.items.queue.deque ++ kept estimate c'.items.bound c'.items.occupation items
          ≡ c.items.queue.deque ++ kept estimate c.items.bound c.items.occupation (item ∷ items)

module _ {D : DecoderApi} where
  sent_lem :
      (debug : Bool) (s : Incoming D) (item : D.DgramItem)
      → IsOpen s.items
      → (c' : Channel D.DgramItem) × (send_item debug s item ≡ done (record s { items = c' }, none))
        × Offered D.estimate s.items c' (some item)
  unfolding send_item
  sent_lem debug s item o =
      let (fits, over) = offer_lem D.estimate s.items item o in
      elim (room_cases s.items.items.occupation (D.estimate item) s.items.items.bound) [
        | inl (test, room) ↦
            let (c', e, o', queued, occupation, bound) = fits room in
            (
              c',
              ap (λ r. after_send debug s r) e,
              record {
                open_yet = o';
                bound = bound;
                queued = λ items.
                    ap (λ queue. queue ++ kept D.estimate c'.items.bound c'.items.occupation items)
                      queued
                    ∙ ap
                        (λ n.
                          (s.items.items.queue.deque ++ (item, D.estimate item) ∷ [])
                          ++ kept D.estimate n c'.items.occupation items)
                        bound
                    ∙ ap
                        (λ n.
                          (s.items.items.queue.deque ++ (item, D.estimate item) ∷ [])
                          ++ kept D.estimate s.items.items.bound n items)
                        occupation
                    ∙ append_assoc s.items.items.queue.deque ((item, D.estimate item) ∷ []) _
                    ∙ ap (λ l. s.items.items.queue.deque ++ l)
                        (sym (
                          kept-fits D.estimate s.items.items.bound s.items.items.occupation item
                            items test));
              },
            )
        | inr (test, some_weight, too_much) ↦ (
          s.items,
          ap (λ r. after_send debug s r) (over some_weight too_much),
          record {
            open_yet = o;
            bound = refl;
            queued = λ items.
                ap (λ l. s.items.items.queue.deque ++ l)
                  (sym (
                    kept-over D.estimate s.items.items.bound s.items.items.occupation item items
                      test));
          },
        )
      ]

  decode_round_lem :
      (debug : Bool) (s : Incoming D) (item : Option D.DgramItem)
      → IsOpen s.items
      → (c' : Channel D.DgramItem) × (decode_round debug (s, item)
          ≡ done (record s { items = c' }, again))
        × Offered D.estimate s.items c' item
  unfolding decode_round
  decode_round_lem debug s none o =
      (s.items, refl, record { open_yet = o; bound = refl; queued = λ items. refl })
  decode_round_lem debug s (some item) o =
      let (c', e, r) = sent_lem debug s item o in
      (c', ap (λ o. o >>= (λ r. done (round_end r))) e, r)

  asks_lem :
      (debug : Bool) (s : Incoming D) (dec : D.Decoder)
      → s.decoder ≡ some dec
      → io_round debug s ≡ done (record s { decoder = none; decoder_drained = false }, asks dec)
  unfolding io_round give_decoder
  asks_lem debug s dec there = rw (there, io_round) (rw (there, give_decoder) refl)

  -- One answer of the backend, and one item at most.
  answered_lem :
      (debug : Bool) (s : Incoming D) (dec : D.Decoder)
      → IsOpen s.items
      → (s' : Incoming D) × (answered debug s (accepted dec) ≡ done (s', again))
        × (s'.decoder ≡ some (D.decode dec).0)
        × Offered D.estimate s.items s'.items (D.decode dec).1
  unfolding answered take_decoder decode_dgram
  answered_lem debug s dec o =
      let (c', e, r) =
        decode_round_lem debug (record s { decoder = some (D.decode dec).0 }) (D.decode dec).1 o in
      (record s { decoder = some (D.decode dec).0; items = c' }, e, refl, r)

  -- While the direction is open and the application takes nothing, the loop takes one item out of each
  -- decoder that the backend hands back, whatever else that decoder holds. Of these items it queues, in
  -- order, those for which there is room, and loses the others; it neither fails nor panics, and asks
  -- the backend again.
  pub lossy_lem :
      (debug : Bool) (s : Incoming D) (dec : D.Decoder) (decoders : List D.Decoder)
      → IsOpen s.items
      → s.decoder ≡ some dec
      → (s' : Incoming D) × (dec' : D.Decoder) × (io_loop debug (map accepted decoders) s
          ≡ done (s', asks dec'))
        × (s'.items.items.queue.deque
            ≡ s.items.items.queue.deque
              ++ kept D.estimate s.items.items.bound s.items.items.occupation
                  (map (λ d. (D.decode d).1) decoders))
  unfolding io_loop
  lossy_lem debug s dec [] o there =
      (_, dec, asks_lem debug s dec there, sym (append-nil s.items.items.queue.deque))
  lossy_lem debug s dec (d ∷ decoders) o there =
      let given : Incoming D = record s { decoder = none; decoder_drained = false } in
      let (s1, e, there1, r) = answered_lem debug given d o in
      let (s', dec', ran, queued) = lossy_lem debug s1 (D.decode d).0 decoders r.open_yet there1 in
      (
        s',
        dec',
        ap
              (λ o.
                o
                >>= on_asks (λ s'.
                  answered debug s' (accepted d)
                  >>= on_again (io_loop debug (map accepted decoders))))
              (asks_lem debug s dec there)
            ∙ ap (λ o. o >>= on_again (io_loop debug (map accepted decoders))) e
            ∙ ran,
        queued ∙ r.queued (map (λ d. (D.decode d).1) decoders),
      )
