-- ===== src/Dgram/Ends.antt =====
-- How the tasks of datagrams end (aquic-core/src/dgram/{incoming,outgoing}.rs).
use aquic.Base.{◌<◌, ◌≡◌, refl, sym, ap, ◌∙◌, subst, false, Option, none, some, arith}
use aquic.Sync.Mpmc.Oneshot
use aquic.Sync.Mpmc.Oneshot.Kept.{final_value, send-free}
use aquic.Sync.Stream.Closing.{send_full, try_closed}
use aquic.Sync.Dgram.{
  Error, end, connection, hang_up, Channel, drop_error, drop_sender, drop_receiver,
}
use aquic.Sync.Dgram
use aquic.Sync.Dgram.Ending.{close-container, close-counts, dropped-container}
use aquic.Dgram.Bridge.{cancel_event, app_event, select, tell, close_first}
use aquic.Dgram.Incoming
use aquic.Dgram.Outgoing

cancel_event-taken :
    (cancel : Oneshot.Shared Error) (e : Error)
    → cancel.container ≡ some e
    → cancel_event cancel ≡ some e
cancel_event-taken cancel e h = rw (try_closed cancel e h, cancel_event) refl

module _ {T : Type 0} where
  -- What the other end reads
  EndsWith : Error → Channel T → Type 0
  EndsWith e c =
      ((drop_sender false c).errors.container ≡ some e)
      × ((drop_receiver false c).errors.container ≡ some e)

  dropped-EndsWith :
      (c : Channel T) → c.errors.container ≡ none → 0 < c.errors.receiver_count → EndsWith end c
  unfolding EndsWith
  dropped-EndsWith c open_yet n =
      let (a, b) = dropped-container false c n in
      let same = ap (λ (o : Option Error). some (final_value o end)) open_yet in
      (a ∙ same, b ∙ same)

  closed-EndsWith :
      (c : Channel T) (e : Error)
      → c.errors.container ≡ none
      → 0 < c.errors.receiver_count
      → EndsWith e (Dgram.close c e).0
  unfolding EndsWith
  closed-EndsWith c e open_yet n =
      let (a, b) = dropped-container false (Dgram.close c e).0 (omega (arith, close-counts c e)) in
      let same =
        ap (λ (o : Option Error). some (final_value o end))
          (close-container c e n ∙ ap (λ (o : Option Error). some (final_value o e)) open_yet) in
      (a ∙ same, b ∙ same)

  tell-EndsWith :
      (c : Channel T) (e : Error)
      → c.errors.container ≡ none
      → 0 < c.errors.receiver_count
      → EndsWith e (tell c e)
  unfolding tell
  tell-EndsWith c end open_yet n = dropped-EndsWith c open_yet n
  tell-EndsWith c connection open_yet n = closed-EndsWith c connection open_yet n
  tell-EndsWith c (hang_up m) open_yet n = closed-EndsWith c (hang_up m) open_yet n

  -- The two ways to close: as the first, and after someone else.
  first-EndsWith :
      (c : Channel T) (cancel : Oneshot.Shared Error) (e : Error)
      → c.errors.container ≡ none
      → 0 < c.errors.receiver_count
      → 0 < cancel.receiver_count
      → (cancel.container ≡ none → EndsWith e (close_first c e (Oneshot.send cancel e).1))
        × (cancel.container ≡ some e → EndsWith end (close_first c e (Oneshot.send cancel e).1))
  unfolding close_first
  first-EndsWith c cancel e open_yet n some_receiver = (
    λ free.
        subst (λ r. EndsWith e (close_first c e r)) (sym (send-free cancel e free some_receiver))
          (tell-EndsWith c e open_yet n),
    λ taken.
        subst
          (λ (r : Oneshot.Shared Error × Oneshot.Sent Error). EndsWith end (close_first c e r.1))
          (sym (send_full cancel e e taken some_receiver)) (dropped-EndsWith c open_yet n),
  )

module _ {D : Incoming.DecoderApi} {C : Outgoing.EncoderApi} where
  -- A task that is the first to cancel leaves the application the error that it closes with. A task that
  -- sees the cancellation of someone else leaves the application the end of the direction, whatever the
  -- error of the cancellation was, as it was the lost connection.
  pub dgram_ends :
      (reader : Incoming.Incoming D) (writer : Outgoing.Outgoing C) (e : Error)
      → reader.items.errors.container ≡ none
      → writer.items.errors.container ≡ none
      → 0 < reader.items.errors.receiver_count
      → 0 < writer.items.errors.receiver_count
      → 0 < reader.cancel.receiver_count
      → 0 < writer.cancel.receiver_count
      → (reader.cancel.container ≡ none → (Incoming.close reader e).items.errors.container ≡ some e)
        × (writer.cancel.container ≡ none
            → (Outgoing.close writer e).items.errors.container ≡ some e)
        × (reader.cancel.container ≡ some e
            → (Incoming.poll_read none reader ≡ some e)
              × ((Incoming.close reader e).items.errors.container ≡ some end))
        × (writer.cancel.container ≡ some e
            → (Outgoing.poll_write none writer ≡ some e)
              × ((Outgoing.close writer e).items.errors.container ≡ some end))
  unfolding Incoming.close Outgoing.close Incoming.poll_read Outgoing.poll_write EndsWith
  dgram_ends reader writer e ro wo rn wn rc wc =
      let r = first-EndsWith reader.items reader.cancel e ro rn rc in
      let w = first-EndsWith writer.items writer.cancel e wo wn wc in
      (
        λ free. (r.0 free).0,
        λ free. (w.0 free).1,
        λ taken. (
          ap (λ event. select none event (app_event reader.items.errors))
              (cancel_event-taken reader.cancel e taken),
          (r.1 taken).0,
        ),
        λ taken. (
          ap (λ event. select none event (app_event writer.items.errors))
              (cancel_event-taken writer.cancel e taken),
          (w.1 taken).1,
        ),
      )
