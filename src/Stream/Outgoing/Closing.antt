-- ===== src/Stream/Outgoing/Closing.antt =====
-- How the task of an outgoing stream ends (aquic-core/src/stream/outgoing.rs).
use aquic.Base.{
  ◌<◌, ◌≡◌, refl, ap, ◌∙◌, Bool, true, false, ◌&&◌, none, some, List, [], ◌∷◌, done, panic, ◌>>=◌,
}
use aquic.Stream.Types.{
  Spec, dropped_open, Error, finish, stop, reset, decoder, encoder, connection, hang_up,
}
use aquic.Stream.Bridge.{
  Command, terminate, terminate_due_encoder, hangup, unexpected_codec, cancel_event-taken,
  select-app, app_event, select,
}
use aquic.Sync.Mpmc.Oneshot
use aquic.Sync.Mpmc.Oneshot.Kept.{send-free}
use aquic.Sync.Stream.Closing.{send_full}
use aquic.Stream.Endings.{Ended, untold, told, dropped-IsClosed}
use aquic.Sync.Mpmc.Oneshot.Kept.{final_value}
use aquic.Sync.Stream.Ending.{told_then_dropped}
use aquic.Stream.Outgoing.{
  EncoderApi, Outgoing, keeps, poll_write, close, close_first, tell, drop_fields,
}

module _ {S : Spec} where
  -- The error that the task closes the direction with: the errors that the application is told, and the
  -- one of the drop.
  abbrev pub app_error : Error S → Error S
  app_error (stop code) = stop code
  app_error (encoder e) = encoder e
  app_error connection = connection
  app_error (hang_up m) = hang_up m
  app_error (decoder e) = hang_up unexpected_codec
  app_error finish = hang_up dropped_open
  app_error (reset code) = hang_up dropped_open

  -- What the backend is told.
  abbrev pub backend_commands : Error S → List (Command S)
  backend_commands (reset code) = terminate code ∷ []
  backend_commands (encoder e) = terminate_due_encoder e ∷ []
  backend_commands (hang_up m) = hangup m ∷ []
  backend_commands (decoder e) = hangup unexpected_codec ∷ []
  backend_commands finish = []
  backend_commands (stop code) = []
  backend_commands connection = []

  abbrev pub is_decoder : Error S → Bool
  is_decoder (decoder e) = true
  is_decoder finish = false
  is_decoder (stop code) = false
  is_decoder (reset code) = false
  is_decoder (encoder e) = false
  is_decoder connection = false
  is_decoder (hang_up m) = false

module _ {S : Spec} {C : EncoderApi S} where
  -- As someone else cancelled before.
  cancelled_lem :
      (debug : Bool) (s : Outgoing S C) (e : Error S)
      → s.cancel.container ≡ some e
      → 0 < s.cancel.receiver_count
      → 0 < s.items.errors.receiver_count
      → (poll_write none s ≡ some e)
        × ((s' : Outgoing S C) × (close debug s e ≡ done s')
            × Ended s.commands s'.items s'.commands
                (final_value s.items.errors.container (hang_up dropped_open))
                [])
  unfolding poll_write close close_first
  cancelled_lem debug s e taken some_receiver some_app = (
    ap (λ event. select none event (app_event keeps s.items.errors))
        (cancel_event-taken s.cancel e taken),
    (
      drop_fields s,
      rw (send_full s.cancel e e taken some_receiver, close) refl,
      untold (dropped-IsClosed s.items some_app).1,
    ),
  )

  tell_lem :
      (debug : Bool) (s : Outgoing S C) (e : Error S)
      → debug && is_decoder e ≡ false
      → 0 < s.items.errors.receiver_count
      → (s' : Outgoing S C) × (tell debug s e ≡ done s')
        × Ended s.commands
            (drop_fields s').items
            s'.commands
            (final_value s.items.errors.container (app_error e))
            (backend_commands e)
  unfolding tell
  tell_lem debug s finish fine n = (_, refl, untold (dropped-IsClosed s.items n).1)
  tell_lem debug s (stop code) fine n =
      (_, refl, untold (told_then_dropped false s.items (stop code) n).1)
  tell_lem debug s (reset code) fine n = (_, refl, told _ (dropped-IsClosed s.items n).1)
  tell_lem debug s (encoder e) fine n =
      (_, refl, told _ (told_then_dropped false s.items (encoder e) n).1)
  tell_lem debug s connection fine n =
      (_, refl, untold (told_then_dropped false s.items connection n).1)
  tell_lem debug s (hang_up m) fine n =
      (_, refl, told _ (told_then_dropped false s.items (hang_up m) n).1)
  tell_lem false s (decoder e) fine n =
      (_, refl, told _ (told_then_dropped false s.items (hang_up unexpected_codec) n).1)
  tell_lem true s (decoder e) fine n = absurd cc

  tell_panics :
      (debug : Bool) (s : Outgoing S C) (e : Error S)
      → debug && is_decoder e ≡ true
      → (tell debug s e >>= (λ s'. done (drop_fields s'))) ≡ panic
  unfolding tell
  tell_panics true s (decoder e) h = refl
  tell_panics false s e h = absurd cc
  tell_panics true s finish h = absurd cc
  tell_panics true s (stop code) h = absurd cc
  tell_panics true s (reset code) h = absurd cc
  tell_panics true s (encoder e) h = absurd cc
  tell_panics true s connection h = absurd cc
  tell_panics true s (hang_up m) h = absurd cc

  -- As the first to cancel.
  close_lem :
      (debug : Bool) (s : Outgoing S C) (e : Error S)
      → s.cancel.container ≡ none
      → 0 < s.cancel.receiver_count
      → 0 < s.items.errors.receiver_count
      → (debug && is_decoder e ≡ false
          → (s' : Outgoing S C) × (close debug s e ≡ done s')
            × Ended s.commands s'.items s'.commands
                (final_value s.items.errors.container (app_error e))
                (backend_commands e))
        × (debug && is_decoder e ≡ true → close debug s e ≡ panic)
  unfolding close close_first
  close_lem debug s e free some_receiver some_app =
      let reached : close debug s e
          ≡ tell debug (record s { cancel = (Oneshot.send s.cancel e).0 }) e
            >>= (λ s'. done (drop_fields s')) =
        ap
          (λ answer.
            close_first debug s e ((Oneshot.send s.cancel e).0, answer)
            >>= (λ s'. done (drop_fields s')))
          (send-free s.cancel e free some_receiver) in
      (
        λ fine.
            let (s', e', r) =
              tell_lem debug (record s { cancel = (Oneshot.send s.cancel e).0 }) e fine some_app in
            (drop_fields s', reached ∙ ap (λ o. o >>= (λ s'. done (drop_fields s'))) e', r),
        λ unexpected. reached ∙ tell_panics debug _ e unexpected,
      )

  -- The end of a task whose cancellation and whose stream still have a receiver. Where nobody cancelled,
  -- and the cancellation has a sender, the task sees the error that the application closed the stream
  -- with, if it is one of those that `keeps` lets through. If the task is the first to cancel, it tells
  -- the backend the commands of `backend_commands`, and closes the stream with `app_error`; only a debug
  -- build that closes with an error of a decoder panics. If someone else sent a cancellation before, the
  -- task sees it, but then tells nobody: the backend gets no command, and the stream is closed with the
  -- hang-up of the dropped channel. Whoever cancelled, an error that closed the stream before stays the
  -- one that the application reads; else it reads the new one.
  pub write_ends :
      (debug : Bool) (s : Outgoing S C) (e : Error S)
      → 0 < s.cancel.receiver_count
      → 0 < s.items.errors.receiver_count
      → (s.cancel.container ≡ none
          → 0 < s.cancel.sender_count
          → s.items.errors.container ≡ some e
          → keeps e ≡ true
          → poll_write none s ≡ some e)
        × (s.cancel.container ≡ none
            → (debug && is_decoder e ≡ false
                → (s' : Outgoing S C) × (close debug s e ≡ done s')
                  × Ended s.commands s'.items s'.commands
                      (final_value s.items.errors.container (app_error e))
                      (backend_commands e))
              × (debug && is_decoder e ≡ true → close debug s e ≡ panic))
        × (s.cancel.container ≡ some e
            → (poll_write none s ≡ some e)
              × ((s' : Outgoing S C) × (close debug s e ≡ done s')
                  × Ended s.commands s'.items s'.commands
                      (final_value s.items.errors.container (hang_up dropped_open))
                      []))
  unfolding poll_write
  write_ends debug s e some_receiver some_app = (
    λ free some_sender closed_with kept.
        select-app s.cancel s.items.errors keeps e free some_sender closed_with kept,
    λ free. close_lem debug s e free some_receiver some_app,
    λ taken. cancelled_lem debug s e taken some_receiver some_app,
  )
