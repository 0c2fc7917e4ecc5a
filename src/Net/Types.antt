-- ===== src/Net/Types.antt =====
-- aquic-core/src/net/types.rs: messages that are received and sent, and the packets in them.
--
-- A buffer is the list of its bytes, an address an IP address with a port, a timestamp a number. A
-- socket address has the fields of an IPv6 one, of which `flowinfo` and `scope_id` are 0 for IPv4. The
-- iterator holds the messages that it was made of, with its place in them.
pub mod Peek
mod Tests
use native.Mathlib.Nat.{div-add-mod}
use aquic.Base.{
  ℕ, zero, suc, ◌+◌, ◌-◌, ◌*◌, ◌/◌, ◌%◌, ◌^◌, ◌≤◌, ◌<◌, min, max, ◌≡◌, refl, sym, ap, ◌∙◌, subst,
  ◌≢◌, ◌↔◌, ◌⊎◌, inl, inr, Bool, true, false, not, ◌&&◌, ◌||◌, Option, none, some, List, [], ◌∷◌,
  ◌++◌, map, arith, ltb, leb, ◌==◌, if◌then◌else◌, ltb→lt, lt→ltb, le→ltb, leb→le, le→leb, lt→leb,
  ==_iff, tests, ltb-cases, ==-cases, Bool-cases, Option-cases, length, get_elem?, get_or, set,
  replicate, All, length-append, length-set, length-replicate, get_or-set_self, get_or-set_ne, take,
  drop, take_append, drop_append, append_injective, take_append_at, drop_append_at, take-drop,
  length-take, length-drop, word, wrapping_add, Outcome, done, panic, ◌>>=◌, add_word, sub_word,
  add_word-eq, sub_word-eq,
}
use aquic.Backend.Token.Padded.{IpAddr, v4, v6, octets}

pub data Ecn : Type 0 where
  n_ect ect1 ect0 ce : Ecn

pub record SocketAddr : Type 0 where
  pub ip : IpAddr
  pub port : ℕ
  pub flowinfo : ℕ
  pub scope_id : ℕ

pub record RecvMsg : Type 0 where
  pub buf : List ℕ
  pub read : ℕ
  pub from : SocketAddr
  pub to : IpAddr
  pub ecn : Ecn
  pub segment_count : ℕ
  pub timestamp : Option ℕ

pub record SendMsg : Type 0 where
  pub buf : List ℕ
  pub from : IpAddr
  pub to : SocketAddr
  pub ecn : Ecn
  pub segment_count : ℕ

-- `is_unspecified` of an address: each octet is 0
unfoldable pub all_zero : List ℕ → Bool
all_zero [] = true
all_zero (x ∷ xs) = let rest = all_zero xs in if x == 0 then rest else false

abbrev pub unspecified : SocketAddr → Bool
unspecified addr = all_zero (octets addr.ip) || addr.port == 0

abbrev pub same_family : IpAddr → IpAddr → Bool
same_family (v4 a) (v4 b) = true
same_family (v4 a) (v6 b) = false
same_family (v6 a) (v4 b) = false
same_family (v6 a) (v6 b) = true

-- `is_multiple_of`, which holds of 0 alone where the divisor is 0
abbrev pub is_multiple_of : ℕ → ℕ → Bool
is_multiple_of n m = if m == 0 then n == 0 else n % m == 0

-- `RecvMsg::new`
unfoldable pub new_recv_msg : List ℕ → Outcome RecvMsg
new_recv_msg buf =
    if length buf == 0
    then panic
    else done (record {
      buf = buf;
      read = 0;
      from = record { ip = v4 (replicate 4 0); port = 0; flowinfo = 0; scope_id = 0 };
      to = v4 (replicate 4 0);
      ecn = n_ect;
      segment_count = 0;
      timestamp = none;
    })

-- `RecvMsg::recv`
unfoldable pub recv :
    Bool → RecvMsg → ℕ → SocketAddr → IpAddr → Ecn → ℕ → Option ℕ → Outcome RecvMsg
unfolding all_zero
recv debug msg read from to ecn segment_count timestamp =
    if unspecified from
    then panic
    else if all_zero (octets to)
    then panic
    else if ltb 1 segment_count && not (is_multiple_of read segment_count)
    then panic
    else if debug && not (same_family from.ip to)
    then panic
    else done (record msg {
      read = read;
      from = from;
      to = to;
      ecn = ecn;
      segment_count = segment_count;
      timestamp = timestamp;
    })

abbrev pub has_packet : RecvMsg → Bool
has_packet msg = not (msg.read == 0)

-- `debug_assert!(self.has_packet())`, in front of what most getters answer
abbrev pub with_packet : {A : Type 0} → Bool → RecvMsg → A → Outcome A
with_packet debug msg a = if debug && not (has_packet msg) then panic else done a

unfoldable pub segment_size : Bool → RecvMsg → Outcome ℕ
segment_size debug msg =
    with_packet debug msg
      (if msg.segment_count == 0 then msg.read else msg.read / msg.segment_count)

-- `SendMsg::new`
unfoldable pub new_send_msg : Bool → List ℕ → IpAddr → SocketAddr → Ecn → ℕ → Outcome SendMsg
unfolding all_zero
new_send_msg debug buf from to ecn segment_count =
    if length buf == 0
    then panic
    else if ltb 1 segment_count && not (is_multiple_of (length buf) segment_count)
    then panic
    else if unspecified to
    then panic
    else if debug && not (same_family from to.ip)
    then panic
    else done (record { buf = buf; from = from; to = to; ecn = ecn; segment_count = segment_count })

pub record Packet : Type 0 where
  pub from : SocketAddr
  pub to : IpAddr
  pub ecn : Ecn
  pub timestamp : Option ℕ
  pub payload : List ℕ

pub record MultiMsgFlattenIter : Type 0 where
  pub msgs : List RecvMsg
  pub msg_index : ℕ
  pub msg_offset : ℕ

abbrev pub new : List RecvMsg → MultiMsgFlattenIter
new msgs = record { msgs = msgs; msg_index = 0; msg_offset = 0 }

-- `debug_assert_eq!(a % b, 0)`: a remainder by 0 panics, and so does a remainder that is not 0.
unfoldable pub assert_divides : {A : Type 0} → Bool → ℕ → ℕ → A → Outcome A
assert_divides debug a b v = if debug && ((b == 0) || not (a % b == 0)) then panic else done v

-- `&mut msg.buf.as_slice()[range]` in the packet
unfoldable pub packet_at : RecvMsg → ℕ → ℕ → Outcome Packet
packet_at msg offset size =
    if ltb (length msg.buf) (offset + size)
    then panic
    else done (record {
      from = msg.from;
      to = msg.to;
      ecn = msg.ecn;
      timestamp = msg.timestamp;
      payload = take size (drop offset msg.buf);
    })

-- What `peek` does at a message that has bytes left.
unfoldable pub peek_msg :
    Bool → MultiMsgFlattenIter → RecvMsg → Outcome (MultiMsgFlattenIter × Option Packet)
unfolding segment_size assert_divides packet_at
peek_msg debug s msg = do
  size ← segment_size debug msg
  a ← assert_divides debug msg.read size tt
  b ← assert_divides debug msg.read s.msg_offset tt
  packet ← packet_at msg s.msg_offset size
  done (s, some packet)

-- The loop of `peek`, which goes through the messages that are left: there is a round for each of them.
unfoldable pub peek_rounds :
    ℕ → Bool → MultiMsgFlattenIter → Outcome (MultiMsgFlattenIter × Option Packet)
unfolding peek_msg
peek_rounds zero debug s = done (s, none)
peek_rounds (suc rounds) debug s =
    let rest =
      peek_rounds rounds debug (record s { msg_index = s.msg_index + 1; msg_offset = 0 }) in
    elim (get_elem? s.msgs s.msg_index) [
      | none ↦ done (s, none)
      | some msg ↦ if leb msg.read s.msg_offset then rest else peek_msg debug s msg
    ]

unfoldable pub peek : Bool → MultiMsgFlattenIter → Outcome (MultiMsgFlattenIter × Option Packet)
unfolding peek_rounds
peek debug s = peek_rounds (length s.msgs - s.msg_index) debug s

-- The end of `next`, with the offset behind the segment.
unfoldable pub next_at : Bool → MultiMsgFlattenIter → RecvMsg → ℕ → ℕ → Outcome MultiMsgFlattenIter
unfolding assert_divides
next_at debug s msg size offset =
    let s' =
      if leb msg.read offset
      then record s { msg_index = s.msg_index + 1; msg_offset = 0 }
      else record s { msg_offset = offset } in
    assert_divides debug msg.read size tt >>= (λ a. assert_divides debug msg.read s'.msg_offset s')

unfoldable pub next : Bool → MultiMsgFlattenIter → Outcome MultiMsgFlattenIter
unfolding segment_size next_at
next debug s = elim (get_elem? s.msgs s.msg_index) [
  | none ↦ done s
  | some msg ↦ do size ← segment_size debug msg; next_at debug s msg size (s.msg_offset + size)
]
