-- ===== src/Sync/Dgram/Ending.antt =====
-- A direction of datagrams ends with its sender (aquic-core/src/sync/dgram.rs).
use aquic.Base.{ℕ, ◌-◌, ◌≤◌, ◌<◌, ◌≡◌, refl, ap, ◌∙◌, Bool, some, arith, done}
use aquic.Sync.Mpmc.Oneshot
use aquic.Sync.Mpmc.Oneshot.Kept.{
  final_value, drop_sender-container, drop_sender-receivers, send-container, send-receivers,
}
use aquic.Sync.Stream.Closing.{send_full, try_closed}
use aquic.Sync.Dgram.{
  Error, Channel, failed, close, close_answer, fail, error, send, try_send, recv, drop_error,
  drop_sender, drop_receiver,
}

module _ {T : Type 0} where
  error-closed : (c : Channel T) (e : Error) → c.errors.container ≡ some e → error c ≡ some e
  error-closed c e h = rw (try_closed c.errors e h, error) refl

  fail-closed :
      {A : Type 0} (c : Channel T) (e new : Error)
      → c.errors.container ≡ some e
      → 0 < c.errors.receiver_count
      → fail {A = A} c new ≡ (c, failed e)
  unfolding close close_answer
  fail-closed c e new h n = rw (send_full c.errors e new h n) refl

  -- What the ends answer once the direction is closed, whatever items are queued.
  closed_answers :
      (debug : Bool) (estimate : T → ℕ) (c : Channel T) (e : Error) (item : T)
      → c.errors.container ≡ some e
      → 0 < c.errors.receiver_count
      → (send estimate c item ≡ (c, failed e))
        × (try_send estimate c item ≡ (c, failed e))
        × (recv debug c ≡ done (c, failed e))
  unfolding send try_send recv
  closed_answers debug estimate c e item h n =
      let shut = error-closed c e h in
      (
        rw (shut, send) (fail-closed c e e h n),
        rw (shut, try_send) refl,
        rw (shut, recv) (ap (λ o. done o) (fail-closed c e e h n)),
      )

  pub close-container :
      (c : Channel T) (new : Error)
      → 0 < c.errors.receiver_count
      → (close c new).0.errors.container ≡ some (final_value c.errors.container new)
  unfolding close
  close-container c new n = send-container c.errors new n

  pub close-counts :
      (c : Channel T) (new : Error)
      → (close c new).0.errors.receiver_count ≡ c.errors.receiver_count
  unfolding close
  close-counts c new = send-receivers c.errors new

  -- Once one end is dropped, the other end gets the error of the drop, or the one that the direction was
  -- closed with before: receiving gives it however many items are queued, and sending queues nothing.
  pub ending_lem :
      (debug panicking : Bool) (estimate : T → ℕ) (c : Channel T) (item : T)
      → 2 ≤ c.errors.receiver_count
      → (let e = final_value c.errors.container (drop_error panicking) in
          (recv debug (drop_sender panicking c) ≡ done (drop_sender panicking c, failed e))
          × (send estimate (drop_receiver panicking c) item ≡ (drop_receiver panicking c, failed e))
          × (try_send estimate (drop_receiver panicking c) item
              ≡ (drop_receiver panicking c, failed e)))
  ending_lem debug panicking estimate c item n =
      let closed_one = (close c (drop_error panicking)).0 in
      let e = final_value c.errors.container (drop_error panicking) in
      let shut : (Oneshot.drop_sender closed_one.errors).container ≡ some e =
        drop_sender-container closed_one.errors
        ∙ close-container c (drop_error panicking) (omega arith) in
      let left : 0 < (Oneshot.drop_sender closed_one.errors).receiver_count - 1 =
        omega
          (arith, drop_sender-receivers closed_one.errors, close-counts c (drop_error panicking)) in
      let sending = closed_answers debug estimate (drop_receiver panicking c) e item shut left in
      (
        (closed_answers debug estimate (drop_sender panicking c) e item shut left).2,
        sending.0,
        sending.1,
      )

  -- An end that is dropped
  pub dropped-container :
      (panicking : Bool) (c : Channel T)
      → 0 < c.errors.receiver_count
      → (let e = final_value c.errors.container (drop_error panicking) in
          ((drop_sender panicking c).errors.container ≡ some e)
          × ((drop_receiver panicking c).errors.container ≡ some e))
  dropped-container panicking c n =
      let both =
        drop_sender-container (close c (drop_error panicking)).0.errors
        ∙ close-container c (drop_error panicking) n in
      (both, both)
