-- ===== src/Stream/Bridge.antt =====
-- What aquic-core/src/stream/{incoming,outgoing}.rs share: the tasks between a backend and an application.
--
-- The backend is asked through aquic-core/src/core/command/stream.rs, whose bodies are still `todo!()`: a
-- call is recorded as a `Command`, and its answer, where it has one, is an argument. Texts of a hang-up
-- are numbered.
use aquic.Base.{
  ℕ, ◌<◌, ◌≡◌, refl, Bool, true, Option, none, some, arith, if◌then◌else◌, Outcome, done, panic,
}
use aquic.Stream.Types.{Spec, Message, other, Error, hang_up}
use aquic.Sync.Mpsc.Unbounded.{ok, empty, closed}
use aquic.Sync.Mpmc.Oneshot
use aquic.Backend.Error
use aquic.Sync.Stream.Closing.{try_closed}

pub data Command (S : Spec) : Type 0 where
  set_priority : ℕ → Command S
  terminate : S.StreamCode → Command S
  terminate_due_encoder : S.StreamEncoderError → Command S
  terminate_due_decoder : S.StreamDecoderError → Command S
  hangup : Message → Command S

-- The answer of the backend to a codec that it was given.
pub data Response (C : Type 0) : Type 0 where
  no_response : Response C
  accepted : C → Response C
  refused : Error.Error → Response C

-- Where the texts are written.
abbrev pub items_unavailable : Message
items_unavailable = other 0

abbrev pub unexpected_error : Message
unexpected_error = other 1

abbrev pub backend_unavailable : Message
backend_unavailable = other 2

abbrev pub backend_unexpected : Message
backend_unexpected = other 3

abbrev pub cancel_unavailable : Message
cancel_unavailable = other 4

abbrev pub errors_unavailable : Message
errors_unavailable = other 5

abbrev pub unexpected_codec : Message
unexpected_codec = other 6

module _ {S : Spec} where
  -- `dpanic_or_hangup`
  abbrev pub dpanic_or_hangup : Bool → Message → Outcome (Error S)
  dpanic_or_hangup debug msg = if debug then panic else done (hang_up msg)

  -- A poll of the cancellation, of what the clones of its receiver read.
  abbrev pub cancel_event : Oneshot.Shared (Error S) → Option (Error S)
  cancel_event cancel = elim (Oneshot.try_recv cancel) [
    | ok e ↦ some e
    | closed ↦ some (hang_up cancel_unavailable)
    | empty ↦ none
  ]

  -- A poll of the application's error, of which `keeps` lets some through.
  abbrev pub app_event : (Error S → Bool) → Oneshot.Shared (Error S) → Option (Error S)
  app_event keeps errors = elim (Oneshot.try_recv errors) [
    | ok e ↦ if keeps e then some e else none
    | closed ↦ some (hang_up errors_unavailable)
    | empty ↦ none
  ]

  -- `select_biased!` of the three futures, with the poll of the first one
  abbrev pub select : Option (Error S) → Option (Error S) → Option (Error S) → Option (Error S)
  select (some e) cancel app = some e
  select none (some e) app = some e
  select none none app = app

  pub cancel_event-taken :
      (cancel : Oneshot.Shared (Error S)) (e : Error S)
      → cancel.container ≡ some e
      → cancel_event cancel ≡ some e
  cancel_event-taken cancel e h = rw (try_closed cancel e h, cancel_event) refl

  -- Nobody cancelled, and the application closed the stream with an error that is let through.
  pub select-app :
      (cancel errors : Oneshot.Shared (Error S)) (keeps : Error S → Bool) (e : Error S)
      → cancel.container ≡ none
      → 0 < cancel.sender_count
      → errors.container ≡ some e
      → keeps e ≡ true
      → select none (cancel_event cancel) (app_event keeps errors) ≡ some e
  unfolding Oneshot.try_recv
  select-app cancel errors keeps e free some_sender closed_with kept = ground arith
