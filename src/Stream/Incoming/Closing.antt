-- ===== src/Stream/Incoming/Closing.antt =====
-- How the task of an incoming stream ends (aquic-core/src/stream/incoming.rs).
use aquic.Base.{
  ◌<◌, ◌≡◌, refl, ap, ◌∙◌, Bool, true, false, ◌&&◌, none, some, List, [], ◌∷◌, done, panic, ◌>>=◌,
}
use aquic.Stream.Types.{
  Spec, dropped_open, Error, finish, stop, reset, decoder, encoder, connection, hang_up,
}
use aquic.Stream.Bridge.{
  Command, terminate, terminate_due_decoder, hangup, unexpected_codec, cancel_event-taken,
  select-app, app_event, select,
}
use aquic.Sync.Mpmc.Oneshot
use aquic.Sync.Mpmc.Oneshot.Kept.{send-free}
use aquic.Sync.Stream.Closing.{send_full}
use aquic.Stream.Endings.{Ended, untold, told, dropped-IsClosed}
use aquic.Sync.Mpmc.Oneshot.Kept.{final_value}
use aquic.Sync.Stream.Ending.{told_then_dropped}
use aquic.Stream.Incoming.{
  DecoderApi, Incoming, keeps, poll_read, close, close_first, tell, drop_fields,
}

module _ {S : Spec} where
  -- The error that the task closes the direction with: the errors that the application is told, and the
  -- one of the drop.
  abbrev pub app_error : Error S → Error S
  app_error (reset code) = reset code
  app_error (decoder e) = decoder e
  app_error connection = connection
  app_error (hang_up m) = hang_up m
  app_error (encoder e) = hang_up unexpected_codec
  app_error finish = hang_up dropped_open
  app_error (stop code) = hang_up dropped_open

  -- What the backend is told.
  abbrev pub backend_commands : Error S → List (Command S)
  backend_commands (stop code) = terminate code ∷ []
  backend_commands (decoder e) = terminate_due_decoder e ∷ []
  backend_commands (hang_up m) = hangup m ∷ []
  backend_commands (encoder e) = hangup unexpected_codec ∷ []
  backend_commands finish = []
  backend_commands (reset code) = []
  backend_commands connection = []

  abbrev pub is_encoder : Error S → Bool
  is_encoder (encoder e) = true
  is_encoder finish = false
  is_encoder (stop code) = false
  is_encoder (reset code) = false
  is_encoder (decoder e) = false
  is_encoder connection = false
  is_encoder (hang_up m) = false

module _ {S : Spec} {D : DecoderApi S} where
  -- As someone else cancelled before.
  cancelled_lem :
      (debug : Bool) (s : Incoming S D) (e : Error S)
      → s.cancel.container ≡ some e
      → 0 < s.cancel.receiver_count
      → 0 < s.items.errors.receiver_count
      → (poll_read none s ≡ some e)
        × ((s' : Incoming S D) × (close debug s e ≡ done s')
            × Ended s.commands s'.items s'.commands
                (final_value s.items.errors.container (hang_up dropped_open))
                [])
  unfolding poll_read close close_first
  cancelled_lem debug s e taken some_receiver some_app = (
    ap (λ event. select none event (app_event keeps s.items.errors))
        (cancel_event-taken s.cancel e taken),
    (
      drop_fields s,
      rw (send_full s.cancel e e taken some_receiver, close) refl,
      untold (dropped-IsClosed s.items some_app).0,
    ),
  )

  tell_lem :
      (debug : Bool) (s : Incoming S D) (e : Error S)
      → debug && is_encoder e ≡ false
      → 0 < s.items.errors.receiver_count
      → (s' : Incoming S D) × (tell debug s e ≡ done s')
        × Ended s.commands
            (drop_fields s').items
            s'.commands
            (final_value s.items.errors.container (app_error e))
            (backend_commands e)
  unfolding tell
  tell_lem debug s finish fine n = (_, refl, untold (dropped-IsClosed s.items n).0)
  tell_lem debug s (reset code) fine n =
      (_, refl, untold (told_then_dropped false s.items (reset code) n).0)
  tell_lem debug s (stop code) fine n = (_, refl, told _ (dropped-IsClosed s.items n).0)
  tell_lem debug s (decoder e) fine n =
      (_, refl, told _ (told_then_dropped false s.items (decoder e) n).0)
  tell_lem debug s connection fine n =
      (_, refl, untold (told_then_dropped false s.items connection n).0)
  tell_lem debug s (hang_up m) fine n =
      (_, refl, told _ (told_then_dropped false s.items (hang_up m) n).0)
  tell_lem false s (encoder e) fine n =
      (_, refl, told _ (told_then_dropped false s.items (hang_up unexpected_codec) n).0)
  tell_lem true s (encoder e) fine n = absurd cc

  tell_panics :
      (debug : Bool) (s : Incoming S D) (e : Error S)
      → debug && is_encoder e ≡ true
      → (tell debug s e >>= (λ s'. done (drop_fields s'))) ≡ panic
  unfolding tell
  tell_panics true s (encoder e) h = refl
  tell_panics false s e h = absurd cc
  tell_panics true s finish h = absurd cc
  tell_panics true s (stop code) h = absurd cc
  tell_panics true s (reset code) h = absurd cc
  tell_panics true s (decoder e) h = absurd cc
  tell_panics true s connection h = absurd cc
  tell_panics true s (hang_up m) h = absurd cc

  -- As the first to cancel.
  close_lem :
      (debug : Bool) (s : Incoming S D) (e : Error S)
      → s.cancel.container ≡ none
      → 0 < s.cancel.receiver_count
      → 0 < s.items.errors.receiver_count
      → (debug && is_encoder e ≡ false
          → (s' : Incoming S D) × (close debug s e ≡ done s')
            × Ended s.commands s'.items s'.commands
                (final_value s.items.errors.container (app_error e))
                (backend_commands e))
        × (debug && is_encoder e ≡ true → close debug s e ≡ panic)
  unfolding close close_first
  close_lem debug s e free some_receiver some_app =
      let reached : close debug s e
          ≡ tell debug (record s { cancel = (Oneshot.send s.cancel e).0 }) e
            >>= (λ s'. done (drop_fields s')) =
        ap
          (λ answer.
            close_first debug s e ((Oneshot.send s.cancel e).0, answer)
            >>= (λ s'. done (drop_fields s')))
          (send-free s.cancel e free some_receiver) in
      (
        λ fine.
            let (s', e', r) =
              tell_lem debug (record s { cancel = (Oneshot.send s.cancel e).0 }) e fine some_app in
            (drop_fields s', reached ∙ ap (λ o. o >>= (λ s'. done (drop_fields s'))) e', r),
        λ unexpected. reached ∙ tell_panics debug _ e unexpected,
      )

  -- The end of a task whose cancellation and whose stream still have a receiver. Where nobody cancelled,
  -- and the cancellation has a sender, the task sees the error that the application closed the stream
  -- with, if it is one of those that `keeps` lets through. If the task is the first to cancel, it tells
  -- the backend the commands of `backend_commands`, and closes the stream with `app_error`; only a debug
  -- build that closes with an error of an encoder panics. If someone else sent a cancellation before, the
  -- task sees it, but then tells nobody: the backend gets no command, and the stream is closed with the
  -- hang-up of the dropped channel. Whoever cancelled, an error that closed the stream before stays the
  -- one that the application reads; else it reads the new one.
  pub read_ends :
      (debug : Bool) (s : Incoming S D) (e : Error S)
      → 0 < s.cancel.receiver_count
      → 0 < s.items.errors.receiver_count
      → (s.cancel.container ≡ none
          → 0 < s.cancel.sender_count
          → s.items.errors.container ≡ some e
          → keeps e ≡ true
          → poll_read none s ≡ some e)
        × (s.cancel.container ≡ none
            → (debug && is_encoder e ≡ false
                → (s' : Incoming S D) × (close debug s e ≡ done s')
                  × Ended s.commands s'.items s'.commands
                      (final_value s.items.errors.container (app_error e))
                      (backend_commands e))
              × (debug && is_encoder e ≡ true → close debug s e ≡ panic))
        × (s.cancel.container ≡ some e
            → (poll_read none s ≡ some e)
              × ((s' : Incoming S D) × (close debug s e ≡ done s')
                  × Ended s.commands s'.items s'.commands
                      (final_value s.items.errors.container (hang_up dropped_open))
                      []))
  unfolding poll_read
  read_ends debug s e some_receiver some_app = (
    λ free some_sender closed_with kept.
        select-app s.cancel s.items.errors keeps e free some_sender closed_with kept,
    λ free. close_lem debug s e free some_receiver some_app,
    λ taken. cancelled_lem debug s e taken some_receiver some_app,
  )
