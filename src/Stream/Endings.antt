-- ===== src/Stream/Endings.antt =====
-- How the tasks of aquic-core/src/stream/{incoming,outgoing}.rs end: what the two sides are told.
use aquic.Base.{◌<◌, ◌≡◌, refl, sym, false, List, [], ◌++◌}
use mathlib.Core.List.{append-nil}
use aquic.Stream.Types.{Spec, Error}
use aquic.Stream.Bridge.{Command}
use aquic.Sync.Mpmc.Oneshot.Kept.{final_value}
use aquic.Sync.Stream.{Channel, close, drop_sender, drop_receiver, drop_error}
use aquic.Sync.Stream.Closing.{IsClosed}
use aquic.Sync.Stream.Ending.{close-IsClosed}

module _ {S : Spec} where
  -- The task ended: the application reads `e`, and the backend was told `commands`.
  pub record Ended (before : List (Command S)) (items : Channel S) (after : List (Command S))
      (e : Error S) (commands : List (Command S)) : Type 0 where
    pub app : IsClosed e items
    pub backend : after ≡ before ++ commands

  pub untold :
      {before : List (Command S)} {items : Channel S} {e : Error S}
      → IsClosed e items
      → Ended before items before e []
  untold {before} app = record { app = app; backend = sym (append-nil before) }

  pub told :
      {before : List (Command S)} {items : Channel S} {e : Error S} (commands : List (Command S))
      → IsClosed e items
      → Ended before items (before ++ commands) e commands
  told commands app = record { app = app; backend = refl }

  -- An end that is dropped: an error from before stays.
  pub dropped-IsClosed :
      (c : Channel S)
      → 0 < c.errors.receiver_count
      → IsClosed (final_value c.errors.container (drop_error false)) (drop_sender false c)
        × IsClosed (final_value c.errors.container (drop_error false)) (drop_receiver false c)
  dropped-IsClosed c n =
      let both : IsClosed (final_value c.errors.container (drop_error false))
          (close c (drop_error false)).0 =
        close-IsClosed c (drop_error false) n in
      (both, both)
