-- ===== src/Dgram/Bridge.antt =====
-- What aquic-core/src/dgram/{incoming,outgoing}.rs share. Texts of a hang-up are numbered.
use aquic.Base.{Bool, true, false, Option, none, some, if◌then◌else◌, Outcome, done, panic}
use aquic.Sync.Mpsc.Unbounded.{ok, empty, closed}
use aquic.Sync.Mpmc.Oneshot
use aquic.Sync.Dgram.{Message, other, Error, end, connection, hang_up, Channel, close}
use aquic.Backend.Error

-- Where the texts are written.
abbrev pub items_unavailable : Message
items_unavailable = other 0

abbrev pub unexpected_error : Message
unexpected_error = other 1

abbrev pub backend_unavailable : Message
backend_unavailable = other 2

abbrev pub backend_unexpected : Message
backend_unexpected = other 3

abbrev pub cancel_unavailable : Message
cancel_unavailable = other 4

abbrev pub errors_unavailable : Message
errors_unavailable = other 5

-- `dpanic_or_hangup`
abbrev pub dpanic_or_hangup : Bool → Message → Outcome Error
dpanic_or_hangup debug msg = if debug then panic else done (hang_up msg)

-- An error of the item channel, as the task hands it on
unfoldable pub item_error : Bool → Error → Outcome Error
item_error debug end = done end
item_error debug (hang_up m) = done (hang_up items_unavailable)
item_error debug connection = dpanic_or_hangup debug unexpected_error

-- An error of the backend, as the task hands it on
unfoldable pub backend_error : Error.Error → Error
backend_error Error.closed = connection
backend_error Error.unknown_connection = connection
backend_error Error.illegal = hang_up backend_unexpected
backend_error Error.buffer_size = hang_up backend_unexpected
backend_error Error.unknown_stream = hang_up backend_unexpected
backend_error Error.streams_exhausted = hang_up backend_unexpected
backend_error (Error.stream_stop e) = hang_up backend_unexpected
backend_error (Error.stream_reset e) = hang_up backend_unexpected
backend_error Error.dgram_disabled = hang_up backend_unexpected
backend_error (Error.other m) = hang_up backend_unexpected

-- What the application's error stops the task with.
abbrev pub keeps : Error → Bool
keeps end = true
keeps (hang_up m) = true
keeps connection = false

-- A poll of the cancellation
abbrev pub cancel_event : Oneshot.Shared Error → Option Error
cancel_event cancel = elim (Oneshot.try_recv cancel) [
  | ok e ↦ some e
  | closed ↦ some (hang_up cancel_unavailable)
  | empty ↦ none
]

-- A poll of the application's error
abbrev pub app_event : Oneshot.Shared Error → Option Error
app_event errors = elim (Oneshot.try_recv errors) [
  | ok e ↦ if keeps e then some e else none
  | closed ↦ some (hang_up errors_unavailable)
  | empty ↦ none
]

-- `select_biased!` of the three futures, with the poll of the first one
abbrev pub select : Option Error → Option Error → Option Error → Option Error
select (some e) cancel app = some e
select none (some e) app = some e
select none none app = app

-- The `match` of `close`: what the application is told.
unfoldable pub tell : {T : Type 0} → Channel T → Error → Channel T
tell c end = c
tell c connection = (close c connection).0
tell c (hang_up m) = (close c (hang_up m)).0

-- What `close` does once it knows whether it is the first to cancel.
unfoldable pub close_first : {T : Type 0} → Channel T → Error → Oneshot.Sent Error → Channel T
unfolding tell
close_first c error Oneshot.sent = tell c error
close_first c error (Oneshot.full e) = c
close_first c error Oneshot.send_closed = c
