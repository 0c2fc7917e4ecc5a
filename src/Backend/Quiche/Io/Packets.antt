-- ===== src/Backend/Quiche/Io/Packets.antt =====
-- Packets, and the messages that carry them (aquic-core/src/backend/quiche/io.rs).
use aquic.Base.{
  ℕ, ◌<◌, ◌≡◌, refl, sym, ap, ◌∙◌, inl, inr, Bool, true, false, ◌&&◌, List, [], ◌∷◌, ◌++◌, ◌==◌,
  if◌then◌else◌, ==_iff, Bool-cases, length, All,
}
use mathlib.Core.List.{append-nil, append_assoc}
use aquic.Backend.Token.Padded.{IpAddr, v4, v6, octets}
use aquic.Net.Types.{SocketAddr, SendMsg, unspecified, same_family}
use aquic.Backend.Quiche.Io.{SendPath, same_bytes, same_addr}

-- What a connection wrote at once
pub record Packet : Type 0 where
  pub bytes : List ℕ
  pub from : SocketAddr
  pub to : SocketAddr

abbrev pub bytes_of : List Packet → List ℕ
bytes_of [] = []
bytes_of (q ∷ qs) = q.bytes ++ bytes_of qs

-- A packet has bytes, and addresses that a message may have.
pub record IsPacket (q : Packet) : Type 0 where
  pub some_bytes : 0 < length q.bytes
  pub addressed : unspecified q.to ≡ false
  pub family : same_family q.from.ip q.to.ip ≡ true

-- A message holds some packets as its segments, one behind the other: all are equally long, and have the
-- addresses of the message.
pub record IsMessage (m : SendMsg) (qs : List Packet) : Type 0 where
  pub size : ℕ
  pub whole : m.buf ≡ bytes_of qs
  pub count : m.segment_count ≡ length qs
  pub parts : All (λ q. (length q.bytes ≡ size) × (q.from.ip ≡ m.from) × (q.to ≡ m.to)) qs

-- `ms` are the messages `before` and then ones that carry the packets, in order and without a gap.
pub data Carries (before : List SendMsg) : List SendMsg → List Packet → Type 0 where
  nothing : Carries before before []
  message :
      {ms : List SendMsg} {ps : List Packet} (m : SendMsg) (qs : List Packet)
      → Carries before ms ps
      → IsMessage m qs
      → Carries before (ms ++ m ∷ []) (ps ++ qs)

bytes_of-append : (ps qs : List Packet) → bytes_of (ps ++ qs) ≡ bytes_of ps ++ bytes_of qs
bytes_of-append [] qs = refl
bytes_of-append (p ∷ ps) qs =
    ap (λ bytes. p.bytes ++ bytes) (bytes_of-append ps qs)
    ∙ sym (append_assoc p.bytes (bytes_of ps) (bytes_of qs))

pub bytes_of-snoc :
    (ps : List Packet) (q : Packet) → bytes_of (ps ++ q ∷ []) ≡ bytes_of ps ++ q.bytes
bytes_of-snoc ps q =
    bytes_of-append ps (q ∷ []) ∙ ap (λ bytes. bytes_of ps ++ bytes) (append-nil q.bytes)

same_bytes_sound : (xs ys : List ℕ) → same_bytes xs ys ≡ true → xs ≡ ys
unfolding same_bytes
same_bytes_sound [] [] h = refl
same_bytes_sound [] (y ∷ ys) h = absurd cc
same_bytes_sound (x ∷ xs) [] h = absurd cc
same_bytes_sound (x ∷ xs) (y ∷ ys) h = elim (Bool-cases (x == y)) [
  | inl e ↦ cc (
    (==_iff x y).0 e,
    same_bytes_sound xs ys (sym (ap (λ b. if b then same_bytes xs ys else false) e) ∙ h),
  )
  | inr e ↦ absurd cc (sym (ap (λ b. if b then same_bytes xs ys else false) e) ∙ h)
]

and_both : (a b : Bool) → a && b ≡ true → (a ≡ true) × (b ≡ true)
and_both true true h = (refl, refl)
and_both true false h = absurd cc
and_both false true h = absurd cc
and_both false false h = absurd cc

ip_sound : (a b : IpAddr) → same_family a b ≡ true → octets a ≡ octets b → a ≡ b
ip_sound (v4 a) (v4 b) h e = ap v4 e
ip_sound (v4 a) (v6 b) h e = absurd cc
ip_sound (v6 a) (v4 b) h e = absurd cc
ip_sound (v6 a) (v6 b) h e = ap v6 e

same_addr_sound : (a b : SocketAddr) → same_addr a b ≡ true → a ≡ b
unfolding same_addr
same_addr_sound a b h =
    let (to_flow, scope) = and_both _ (a.scope_id == b.scope_id) h in
    let (to_port, flow) = and_both _ (a.flowinfo == b.flowinfo) to_flow in
    let (to_ip, port) = and_both _ (a.port == b.port) to_port in
    let (family, bytes) =
      and_both (same_family a.ip b.ip) (same_bytes (octets a.ip) (octets b.ip)) to_ip in
    let ip = ip_sound a.ip b.ip family (same_bytes_sound (octets a.ip) (octets b.ip) bytes) in
    addr-eq a b ip ((==_iff a.port b.port).0 port) ((==_iff a.flowinfo b.flowinfo).0 flow)
      ((==_iff a.scope_id b.scope_id).0 scope)
  where
    addr-eq :
        (a b : SocketAddr)
        → a.ip ≡ b.ip
        → a.port ≡ b.port
        → a.flowinfo ≡ b.flowinfo
        → a.scope_id ≡ b.scope_id
        → a ≡ b
    addr-eq a b i p f s =
        ap
          (λ (x : IpAddr). record {
            ip = x;
            port = a.port;
            flowinfo = a.flowinfo;
            scope_id = a.scope_id;
          })
          i
        ∙ ap
            (λ (x : ℕ). record {
              ip = b.ip;
              port = x;
              flowinfo = a.flowinfo;
              scope_id = a.scope_id;
            })
            p
        ∙ ap (λ (x : ℕ). record { ip = b.ip; port = b.port; flowinfo = x; scope_id = a.scope_id }) f
        ∙ ap (λ (x : ℕ). record { ip = b.ip; port = b.port; flowinfo = b.flowinfo; scope_id = x }) s

-- The test of `write_pending` tells whether a packet is on the path.
pub on_path_sound :
    (p : SendPath) (source destination : SocketAddr)
    → same_addr p.source source && same_addr p.destination destination ≡ true
    → (p.source ≡ source) × (p.destination ≡ destination)
on_path_sound p source destination h =
    let (a, b) = and_both (same_addr p.source source) (same_addr p.destination destination) h in
    (same_addr_sound p.source source a, same_addr_sound p.destination destination b)
