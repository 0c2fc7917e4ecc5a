-- ===== src/Lib.antt =====
-- A verification library for aquic, a QUIC library over two backends.
--
-- The crate aquic-core keeps a connection's data in a bip buffer, times its events with a wheel timer,
-- and moves items between its tasks through channels. Its server side makes connection IDs that route
-- packets and tokens that clients give back. The library models those parts of the crate that
-- have a logic of their own, from the single-threaded build.
--
-- Util/BipBuf models aquic-core/src/util/bipbuf.rs: `Buffer` is `BipBufferInner`, its cells the fields,
--   and `reserve`, `commit`, `try_commit`, `decommit` and `available` are its methods. Layout says how
--   the two regions lie, Reserve and Commits what the two operations answer, Access which bytes a slice
--   stands for. Fifo relates the buffer to the queue of its commits: Queue says how they tile the
--   regions, Append and Safety need no more, and Numbers tells whether their identifiers are in step
--   with the release that is expected next. Fresh and Stuck are about a new buffer, whose identifiers
--   are one behind until an empty commit.
-- Util/Timer models aquic-core/src/util/timer: Level is one level (level.rs), the parent the wheel
--   (mod.rs). Level/Schedule and Level/Cancel see a level as the list of what its next ticks hand out.
--   Durations, Fit and Early are about the level and the ticks that a duration gets, Wheel and Progress
--   about the ticks of the whole wheel.
-- Sync/Event models aquic-core/src/sync/util/event.rs, which the channels wait on: the intrusive list
--   is a list of places among the waiters, and a waker is a number.
-- Sync/Mpsc models aquic-core/src/sync/mpsc: Unbounded is unbounded/st.rs, Weighted is weighted/st.rs
--   with `has_capacity` of weighted/mod.rs, Rpc is rpc/st.rs: calls whose responses are polled. The
--   weighted channel sends its items through the unbounded one and lets senders wait with the event. An
--   `async` method is its poll, or one round of its loop.
-- Sync/Stream models aquic-core/src/sync/stream.rs, the channel of one direction of a stream: it sends
--   its payloads through the weighted channel, its end through an oneshot channel and its priority
--   through a watch channel. Closing has the steps of both ends and what they keep, Draining what is
--   received once the direction is finished, Ending its error in the end, and Sending and Receiving are
--   about a direction that is open. Stream/Types has the errors and the payloads
--   (aquic-core/src/stream/types/error.rs and payload.rs).
-- Sync/Dgram models aquic-core/src/sync/dgram.rs, the channel of one direction of datagrams, with the
--   errors of aquic-core/src/dgram/mod.rs; Open is about an open one, Ending about its end.
-- Stream/Outgoing models aquic-core/src/stream/outgoing.rs and Stream/Incoming models incoming.rs, the tasks
--   between a backend and the channel of an application: `io_round` and `answered` are the parts of a round
--   of `io_loop` between the places where it waits, `poll_write` and `poll_read` the `select_biased!`. The
--   codecs are parameters, `EncoderApi` and `DecoderApi`. Bridge has what both share, with the calls of the
--   backend as recorded commands, and Endings who is told what in the end. Outgoing/Items, Batches and
--   Rounds are about a round, Ended and Closing about the end; Incoming/Machine is about the places of the
--   decoder, and Delivery about what reaches the application.
-- Dgram models aquic-core/src/dgram/{incoming,outgoing}.rs, the same tasks for datagrams: Incoming/Lossy
--   sees the channel as a queue that loses what does not fit, and Ends is about both directions.
-- Backend/Error has the errors of aquic-core/src/backend/error.rs.
-- Net/Types models aquic-core/src/net/types.rs, the messages of sockets and the iterator over the packets
--   in them; Peek is about its first packet.
-- Stream/Id models aquic-core/src/stream/types/id.rs, the stream identifiers.
-- Backend/Cid models the connection IDs of aquic-core/src/backend/cid/mod.rs, Backend/Cid/Common the
--   generator of common.rs, Backend/Cid/Server the functions on bits of server.rs: the crates bitvec
--   and aes are its parameter `Crates`, and what they document is `IsCrates`. Rounds and Passes are about
--   the four passes, Generator has `ServerConnectionIdGenerator`, Layout what `build_cid` writes, and
--   Routing and Parse what `decrypt`, `parse` and `validate` make of it.
-- Backend/Quiche/Io models `write_pending` of aquic-core/src/backend/quiche/io.rs, which batches the packets
--   of a connection into messages. The library quiche is the parameter `QuicApi`, what it documents is
--   `IsQuic`, and a reservation of the bip buffer is the list of its bytes. Packets says which messages
--   carry which packets, Commits and Batching are about one message and one packet, Loop about one
--   round, and Pending about a run.
-- Backend/Token models aquic-core/src/backend/token: the parent the tokens and the stateless reset
--   packet of mod.rs, Padded the generator of padded.rs, with the key stores and random bytes as
--   arguments, and ResetToken its `generate_reset_token`. Padded/Bytes and Padded/Fields are about what
--   is written and drained, Padded/RoundTrip about a token from `generate_retry_token` to `verify_token`.
-- Util/Aead models aquic-core/src/util/aead.rs with the key store of crypto.rs, Util/Hmac models
--   hmac.rs: the algorithms are the parameters `Algorithm` and `MacAlgorithm`. Their Rotation modules are
--   about keys that change. Util/Random has the random bytes that the others take.
-- Sync/Mpmc models aquic-core/src/sync/mpmc: Oneshot is oneshot/st.rs, with First and Kept about the
--   value that stays, Watch is watch/st.rs.
-- Base holds what the others share: Boolean tests, lists with native lengths, words of 64 bits with
--   wrap-around, and `Outcome`, the result of code that can panic. Where a debug build panics and a
--   release build does not, a flag says which build it is.
--
-- Fuel: the loop of `progress` takes `now + 1 - current_clock` rounds, and each moves the clock by
-- `start_hz`, which is not 0. `log_from`, `ilog2_from` and `trailing_zeros_from` count the 128 or 64
-- bits of the word. The loop of `recv_from_app` takes an item out of the channel in each round, so that
-- one round more than the length of the queue is enough. `io_loop` of an incoming stream is run for as
-- many rounds as it is given, two for each payload and one more until the backend is asked. The loop
-- of `write_pending` puts a byte at least into its reservation in each round but the last one, so that the
-- length of the reservation bounds the rounds. All other loops are by structural recursion.
--
-- Not modelled: the asynchronous `recv` of the oneshot and the watch channel, with the guard that the
-- oneshot's holds while it waits; the overflow of an `Instant` and of a sum of numbers of bits; the
-- allocation and the pointers behind the buffer's slices; the multi-threaded channels; the wakers of a
-- stream or a datagram channel; spawning a task; the two backends, but for the part of quiche named
-- above; logging, printing and comparison.
pub mod Backend
pub mod Base
pub mod Dgram
pub mod Net
pub mod Stream
pub mod Sync
pub mod Util
