-- ===== src/Sync/Stream/Ending.antt =====
-- The error that a stream direction has in the end (aquic-core/src/sync/stream.rs).
use aquic.Base.{◌<◌, ◌≡◌, ap, ◌∙◌, Bool, Option, some, arith}
use aquic.Stream.Types.{Spec, Error}
use aquic.Sync.Mpmc.Oneshot.Kept.{final_value, send-container, send-receivers}
use aquic.Sync.Stream.{Channel, close, drop_error, drop_sender, drop_receiver}
use aquic.Sync.Stream.Closing.{IsClosed}

module _ {S : Spec} where
  pub close-IsClosed :
      (c : Channel S) (new : Error S)
      → 0 < c.errors.receiver_count
      → IsClosed (final_value c.errors.container new) (close c new).0
  unfolding close
  close-IsClosed c new n = send-container c.errors new n

  pub close-receivers :
      (c : Channel S) (new : Error S)
      → (close c new).0.errors.receiver_count ≡ c.errors.receiver_count
  unfolding close
  close-receivers c new = send-receivers c.errors new

  -- The error of a direction that is closed with one error, and then dropped.
  pub told_then_dropped :
      (panicking : Bool) (c : Channel S) (e : Error S)
      → 0 < c.errors.receiver_count
      → IsClosed (final_value c.errors.container e) (drop_sender panicking (close c e).0)
        × IsClosed (final_value c.errors.container e) (drop_receiver panicking (close c e).0)
  told_then_dropped panicking c e n =
      let c' = (close c e).0 in
      let both : IsClosed (final_value c.errors.container e) (close c' (drop_error panicking)).0 =
        close-IsClosed c' (drop_error panicking) (omega (arith, close-receivers c e))
        ∙ ap (λ (o : Option (Error S)). some (final_value o (drop_error panicking)))
            (close-IsClosed c e n) in
      (both, both)
