-- ===== src/Backend/Quiche/Io.antt =====
-- `IO::write_pending` of aquic-core/src/backend/quiche/io.rs: packets of a connection, batched into messages.
--
-- The library quiche is the parameter `QuicApi`. A reservation is the list of the bytes that it stands for,
-- of which a commit takes the first ones (`DerefMut` and `commit` of bipbuf.rs). An instant and a
-- duration are nanoseconds. Sums of lengths within one slice are not cut to words, as they are too small.
pub mod Packets
pub mod Commits
pub mod Batching
pub mod Loop
pub mod Pending
mod Tests
use aquic.Base.{
  ℕ, zero, suc, ◌+◌, ◌-◌, ◌*◌, ◌/◌, ◌%◌, ◌^◌, ◌≤◌, ◌<◌, min, max, ◌≡◌, refl, sym, ap, ◌∙◌, subst,
  ◌≢◌, ◌↔◌, ◌⊎◌, inl, inr, Bool, true, false, not, ◌&&◌, ◌||◌, Option, none, some, List, [], ◌∷◌,
  ◌++◌, map, arith, ltb, leb, ◌==◌, if◌then◌else◌, ltb→lt, lt→ltb, le→ltb, leb→le, le→leb, lt→leb,
  ==_iff, tests, ltb-cases, ==-cases, Bool-cases, Option-cases, length, get_elem?, get_or, set,
  replicate, All, length-append, length-set, length-replicate, get_or-set_self, get_or-set_ne, take,
  drop, take_append, drop_append, append_injective, take_append_at, drop_append_at, take-drop,
  length-take, length-drop, word, wrapping_add, Outcome, done, panic, ◌>>=◌, add_word, sub_word,
  add_word-eq, sub_word-eq,
}
use aquic.Backend.Token.Padded.{IpAddr, v4, v6, octets}
use aquic.Net.Types.{SocketAddr, SendMsg, n_ect, same_family, new_send_msg}

-- The answer of `quiche::Connection::send`: the bytes that it wrote, with `SendInfo`, or its error.
pub data SendAnswer (E : Type 0) : Type 0 where
  wrote : List ℕ → SocketAddr → SocketAddr → SendAnswer E
  nothing_left buffer_too_short : SendAnswer E
  fails : E → SendAnswer E

-- A release decision of the pacer: whether it can burst, and when it releases.
pub record Decision : Type 0 where
  pub can_burst : Bool
  pub time : ℕ → Option ℕ

pub record QuicApi : Type 1 where
  pub Connection : Type 0
  pub Error : Type 0
  pub release_decision : Connection → Option Decision
  -- with the room that there is
  pub send : Connection → ℕ → Connection × SendAnswer Error
  pub send_quantum_on_path : Connection → SocketAddr → SocketAddr → ℕ

-- `Connection::get_next_release_time` of aquic-core/src/backend/quiche/connection.rs
unfoldable pub get_next_release_time : Option Decision → ℕ → Option ℕ
get_next_release_time none now = none
get_next_release_time (some decision) now =
    if decision.can_burst then none else elim (decision.time now) [
      | none ↦ none
      | some time ↦ if leb (time - now) 50000 then none else some time
    ]

pub data Write : Type 0 where
  complete quantum no_room : Write
  pacer : ℕ → Write

-- The local type `Path` of the source
pub record SendPath : Type 0 where
  pub source : SocketAddr
  pub destination : SocketAddr
  pub quantum : ℕ
  pub quantum_consumed : ℕ

-- The locals `packet` and `path` of `write_pending`, and the messages so far
pub record Batch : Type 0 where
  pub reserve : List ℕ
  pub reserve_offset : ℕ
  pub segment_count : ℕ
  pub segment_size : ℕ
  pub path : Option SendPath
  pub out : List SendMsg

pub same_bytes : List ℕ → List ℕ → Bool
same_bytes [] [] = true
same_bytes [] (y ∷ ys) = false
same_bytes (x ∷ xs) [] = false
same_bytes (x ∷ xs) (y ∷ ys) = let rest = same_bytes xs ys in if x == y then rest else false

-- `==` of addresses
unfoldable pub same_addr : SocketAddr → SocketAddr → Bool
unfolding same_bytes
same_addr a b =
    same_family a.ip b.ip
    && same_bytes (octets a.ip) (octets b.ip)
    && (a.port == b.port)
    && (a.flowinfo == b.flowinfo)
    && (a.scope_id == b.scope_id)

unfoldable pub commit_packet : Bool → SendPath → Batch → Outcome Batch
commit_packet debug path s =
    let packet_len = s.segment_count * s.segment_size in
    if packet_len == 0 then done s else if ltb (length s.reserve) packet_len then panic else (do
      msg ←
          new_send_msg debug (take packet_len s.reserve) path.source.ip path.destination n_ect
            s.segment_count
      offset ← sub_word debug s.reserve_offset packet_len
      done (record s {
        reserve = drop packet_len s.reserve;
        reserve_offset = offset;
        segment_count = 0;
        segment_size = 0;
        out = s.out ++ msg ∷ [];
      }))

-- What a round of the loop does: it goes on, breaks, or returns the error.
pub data Turn (E : Type 0) : Type 0 where
  goes_on : Turn E
  breaks : Write → Turn E
  errs : E → Turn E

-- `self.reserve[self.reserve_offset..]`, once the bytes were written there
abbrev pub written : List ℕ → ℕ → List ℕ → List ℕ
written reserve offset bytes =
    take offset reserve ++ (bytes ++ drop (offset + length bytes) reserve)

-- The last packet becomes the active one.
abbrev pub activate : ℕ → Option SendPath → Batch → Batch
activate len path s = record s { path = path; segment_count = 1; segment_size = len }

-- The condition of the loop
abbrev pub may_write : Option SendPath → Bool
may_write none = true
may_write (some path) = ltb path.quantum_consumed path.quantum

-- Behind the loop: the last message
unfoldable pub finish_pending : Bool → Batch → Outcome (List SendMsg)
unfolding commit_packet
finish_pending debug s = elim s.path [
  | none ↦ done s.out
  | some path ↦ (do
    s' ← commit_packet debug path s
    if debug && not (s'.reserve_offset == 0) then panic else done s'.out)
]

-- The answer of `write_pending`, with the messages
pub data Written (E : Type 0) : Type 0 where
  ended : Write → List SendMsg → Written E
  failed : E → List SendMsg → Written E

module _ (Q : QuicApi) where
  abbrev pub new_path : Q.Connection → SocketAddr → SocketAddr → ℕ → SendPath
  new_path c source destination consumed = record {
    source = source;
    destination = destination;
    quantum = Q.send_quantum_on_path c source destination;
    quantum_consumed = consumed;
  }

  -- The rest of the round, behind a packet that does not go on a message of the same size and path.
  unfoldable pub start_message :
      Bool
      → Q.Connection
      → ℕ
      → SocketAddr
      → SocketAddr
      → SendPath
      → Bool
      → Batch
      → Outcome (Q.Connection × Batch × Turn Q.Error)
  unfolding commit_packet
  start_message debug c len source destination path same s = do
    s' ← commit_packet debug path s
    if debug && not (s'.reserve_offset == len)
        then panic
        else done (
          c,
          activate len (some (if same then path else new_path c source destination len)) s',
          goes_on,
        )

  -- Where the packet goes, by what the source compares: whether it is on the path, whether the message
  -- is empty, and whether its segments are as long.
  unfoldable pub place_packet :
      Bool
      → Q.Connection
      → ℕ
      → SocketAddr
      → SocketAddr
      → SendPath
      → (same first equal : Bool) → Batch
      → Outcome (Q.Connection × Batch × Turn Q.Error)
  unfolding start_message
  place_packet debug c len source destination path same first equal s =
      if same && first
      then done (c, activate len (some path) s, goes_on)
      else if same && equal
      then done (c, record s { segment_count = s.segment_count + 1 }, goes_on)
      else start_message debug c len source destination path same s

  -- The round, once `path` is there and counts the packet.
  unfoldable pub add_packet :
      Bool
      → Q.Connection
      → ℕ
      → SocketAddr
      → SocketAddr
      → SendPath
      → Batch
      → Outcome (Q.Connection × Batch × Turn Q.Error)
  unfolding place_packet same_addr
  add_packet debug c len source destination path s =
      place_packet debug c len source destination path
        (same_addr path.source source && same_addr path.destination destination)
        (s.segment_count == 0) (s.segment_size == len) (record s { path = some path })

  -- The path of the packet is made if it is the first one.
  abbrev pub path_of : Q.Connection → SocketAddr → SocketAddr → Option SendPath → SendPath
  path_of c source destination none = new_path c source destination 0
  path_of c source destination (some path) = path

  unfoldable pub after_send :
      Bool
      → Batch
      → Q.Connection × SendAnswer Q.Error
      → Outcome (Q.Connection × Batch × Turn Q.Error)
  unfolding add_packet
  after_send debug s (c, nothing_left) = done (c, s, breaks complete)
  after_send debug s (c, buffer_too_short) = done (c, s, breaks no_room)
  after_send debug s (c, fails e) = done (c, s, errs e)
  after_send debug s (c, wrote bytes source destination) =
      let len = length bytes in
      if len == 0
      then done (c, s, breaks complete)
      else (let path = path_of c source destination s.path in
          add_packet debug c len source destination
            (record path { quantum_consumed = path.quantum_consumed + len })
            (record s {
              reserve = written s.reserve s.reserve_offset bytes;
              reserve_offset = s.reserve_offset + len;
            }))

  unfoldable pub round :
      Bool → ℕ → Q.Connection → Batch → Outcome (Q.Connection × Batch × Turn Q.Error)
  unfolding after_send get_next_release_time
  round debug now c s = elim (get_next_release_time (Q.release_decision c) now) [
    | some time ↦ done (c, s, breaks (pacer time))
    | none ↦
        if ltb (length s.reserve) s.reserve_offset
        then panic
        else after_send debug s (Q.send c (length s.reserve - s.reserve_offset))
  ]

  -- What follows a round: `next` is the loop.
  abbrev pub continue :
      (Q.Connection → Batch → Outcome (Q.Connection × Written Q.Error))
      → Bool
      → Q.Connection × Batch × Turn Q.Error
      → Outcome (Q.Connection × Written Q.Error)
  continue next debug (c, s, goes_on) = next c s
  continue next debug (c, s, breaks w) = finish_pending debug s >>= (λ out. done (c, ended w out))
  continue next debug (c, s, errs e) = done (c, failed e s.out)

  -- The loop; without fuel it panics.
  unfoldable pub write_rounds :
      ℕ → Bool → ℕ → Q.Connection → Batch → Outcome (Q.Connection × Written Q.Error)
  unfolding round finish_pending
  write_rounds zero debug now c s = panic
  write_rounds (suc fuel) debug now c s =
      if may_write s.path
      then (round debug now c s >>= continue (write_rounds fuel debug now) debug)
      else (finish_pending debug s >>= (λ out. done (c, ended quantum out)))

  -- `write_pending`, with what `reserve(usize::MAX, false)` handed out. Each round but the last one puts
  -- a byte at least into the reservation.
  unfoldable pub write_pending :
      Bool
      → ℕ
      → Q.Connection
      → Option (List ℕ)
      → List SendMsg
      → Outcome (Q.Connection × Written Q.Error)
  unfolding write_rounds
  write_pending debug now c none out = done (c, ended no_room out)
  write_pending debug now c (some reserve) out =
      write_rounds (length reserve + 2) debug now c (record {
        reserve = reserve;
        reserve_offset = 0;
        segment_count = 0;
        segment_size = 0;
        path = none;
        out = out;
      })
