-- ===== src/Backend/Quiche/Io/Commits.antt =====
-- What `commit_packet` of aquic-core/src/backend/quiche/io.rs makes of the packets of a message.
use aquic.Base.{
  ℕ, ◌+◌, ◌-◌, ◌*◌, ◌%◌, ◌≤◌, ◌<◌, ◌≡◌, refl, sym, ap, ◌∙◌, subst, inl, inr, Bool, true, false, not,
  ◌&&◌, List, [], ◌∷◌, ◌++◌, arith, ltb, ◌==◌, if◌then◌else◌, ==_iff, ==-cases, length, All,
  length-append, take, drop, take_append_at, drop_append_at, Outcome, done, panic, ◌>>=◌, sub_word,
  sub_word-eq,
}
use mathlib.Core.List.{append-nil}
use native.Mathlib.Nat.{mul-mod_right, mul-pos, zero-mul}
use aquic.Net.Types.{
  SocketAddr, SendMsg, n_ect, unspecified, same_family, is_multiple_of, new_send_msg,
}
use aquic.Backend.Quiche.Io.{SendPath, Batch, commit_packet}
use aquic.Backend.Quiche.Io.Packets.{Packet, bytes_of, IsPacket, Carries, message}

abbrev pub IsOn : SendPath → Packet → Type 0
IsOn p q = (p.source ≡ q.from) × (p.destination ≡ q.to)

-- The packets of one message, which all have one size and are on one path.
pub record AreSegments (p : SendPath) (size : ℕ) (qs : List Packet) : Type 0 where
  pub sized : All (λ q. length q.bytes ≡ size) qs
  pub on_path : All (IsOn p) qs
  pub packets : All IsPacket qs

pub length-bytes_of :
    (size : ℕ) (qs : List Packet)
    → All (λ q. length q.bytes ≡ size) qs
    → length (bytes_of qs) ≡ length qs * size
length-bytes_of size [] h = omega arith
length-bytes_of size (q ∷ qs) h =
    length-append q.bytes (bytes_of qs) ∙ omega (arith, h.0, length-bytes_of size qs h.1)

multiple_lem : (m n : ℕ) → 0 < m → is_multiple_of (m * n) m ≡ true
multiple_lem m n h = elim (==-cases m 0) [
  | inl (e, z) ↦ absurd (omega arith)
  | inr (e, z) ↦ rw e ((==_iff (m * n % m) 0).1 (mul-mod_right m n))
]

and_not : (a b : Bool) → b ≡ true → (a && not b) ≡ false
and_not true b h = rw h refl
and_not false b h = refl

not_zero : (n : ℕ) → 0 < n → (n == 0) ≡ false
not_zero n h = ground arith

not_less : (a b : ℕ) → b ≤ a → ltb a b ≡ false
not_less a b h = ground arith

new_send_msg-done :
    (debug : Bool) (buf : List ℕ) (from to : SocketAddr) (count size : ℕ)
    → 0 < count
    → 0 < size
    → length buf ≡ count * size
    → unspecified to ≡ false
    → same_family from.ip to.ip ≡ true
    → new_send_msg debug buf from.ip to n_ect count
      ≡ done (record { buf = buf; from = from.ip; to = to; ecn = n_ect; segment_count = count })
unfolding new_send_msg
new_send_msg-done debug buf from to count size c z e addressed family =
    go (length buf == 0) (ltb 1 count && not (is_multiple_of (length buf) count)) (unspecified to)
      (debug && not (same_family from.ip to.ip))
      (not_zero (length buf) (subst (λ l. 0 < l) (sym e) (mul-pos c z)))
      (and_not (ltb 1 count) (is_multiple_of (length buf) count)
        (ap (λ l. is_multiple_of l count) e ∙ multiple_lem count size c))
      addressed (and_not debug (same_family from.ip to.ip) family)
  where
    msg : SendMsg
    msg = record { buf = buf; from = from.ip; to = to; ecn = n_ect; segment_count = count }

    go :
        (a b c d : Bool)
        → a ≡ false
        → b ≡ false
        → c ≡ false
        → d ≡ false
        → (if a
            then panic
            else if b
            then panic
            else if c
            then panic
            else if d
            then panic
            else done msg)
          ≡ done msg
    go a b c d ea eb ec ed = rw (ea, eb, ec, ed) refl

-- The first packets of the reservation are its message; `tail` is what stands behind them.
pub commit_lem :
    (debug : Bool) (p : SendPath) (s : Batch) (qs : List Packet) (tail : List ℕ) (k : ℕ)
    → AreSegments p s.segment_size qs
    → s.reserve ≡ bytes_of qs ++ tail
    → s.reserve_offset ≡ length (bytes_of qs) + k
    → s.segment_count ≡ length qs
    → (s' : Batch) × (commit_packet debug p s ≡ done s')
      × (s'.reserve ≡ tail)
      × (s'.reserve_offset ≡ k)
      × ((before : List SendMsg) (ps : List Packet)
          → Carries before s.out ps
          → Carries before s'.out (ps ++ qs))
unfolding commit_packet
commit_lem debug p s [] tail k a filled offset count =
    let none_there : s.segment_count * s.segment_size ≡ 0 =
      ap (λ n. n * s.segment_size) count ∙ zero-mul s.segment_size in
    (
      s,
      rw ((==_iff (s.segment_count * s.segment_size) 0).1 none_there) refl,
      filled,
      omega (arith, offset),
      λ before ps c. subst (Carries before s.out) (sym (append-nil ps)) c,
    )
commit_lem debug p s (q ∷ qs) tail k a filled offset count =
    let len = s.segment_count * s.segment_size in
    let whole : length (bytes_of (q ∷ qs)) ≡ len =
      length-bytes_of s.segment_size (q ∷ qs) a.sized ∙ ap (λ n. n * s.segment_size) (sym count) in
    let positive : 0 < s.segment_size = omega (arith, a.packets.0.some_bytes, a.sized.0) in
    let some_there : 0 < s.segment_count = omega (arith, count) in
    let first : take len s.reserve ≡ bytes_of (q ∷ qs) =
      ap (take len) filled ∙ take_append_at len (bytes_of (q ∷ qs)) tail whole in
    let msg : SendMsg = record {
      buf = take len s.reserve;
      from = p.source.ip;
      to = p.destination;
      ecn = n_ect;
      segment_count = s.segment_count;
    } in
    let made =
      new_send_msg-done debug (take len s.reserve) p.source p.destination s.segment_count
        s.segment_size some_there positive (ap length first ∙ whole)
        (ap unspecified a.on_path.0.1 ∙ a.packets.0.addressed)
        (ap (λ (x : SocketAddr). same_family x.ip p.destination.ip) a.on_path.0.0
          ∙ ap (λ (x : SocketAddr). same_family q.from.ip x.ip) a.on_path.0.1
          ∙ a.packets.0.family) in
    let fits : ltb (length s.reserve) len ≡ false =
      not_less (length s.reserve) len
        (omega (arith, ap length filled, length-append (bytes_of (q ∷ qs)) tail, whole)) in
    let left : sub_word debug s.reserve_offset len ≡ done (s.reserve_offset - len) =
      sub_word-eq debug s.reserve_offset len (omega (arith, offset, whole)) in
    (
      record s {
        reserve = drop len s.reserve;
        reserve_offset = s.reserve_offset - len;
        segment_count = 0;
        segment_size = 0;
        out = s.out ++ msg ∷ [];
      },
      committed len s (len == 0) (ltb (length s.reserve) len)
          (not_zero len (mul-pos some_there positive)) fits _ made _ left,
      ap (drop len) filled ∙ drop_append_at len (bytes_of (q ∷ qs)) tail whole,
      omega (arith, offset, whole),
      λ before ps c. message msg (q ∷ qs) c (record {
        size = s.segment_size;
        whole = first;
        count = count;
        parts = parts p s.segment_size (q ∷ qs) a;
      }),
    )
  where
    committed :
        (len : ℕ) {msg : SendMsg} {n : ℕ} (s : Batch) (a b : Bool)
        → a ≡ false
        → b ≡ false
        → (m : Outcome SendMsg) → m ≡ done msg
        → (o : Outcome ℕ) → o ≡ done n
        → (if a then done s else if b then panic else (do
          msg' ← m
          offset ← o
          done (record s {
            reserve = drop len s.reserve;
            reserve_offset = offset;
            segment_count = 0;
            segment_size = 0;
            out = s.out ++ msg' ∷ [];
          })))
          ≡ done (record s {
            reserve = drop len s.reserve;
            reserve_offset = n;
            segment_count = 0;
            segment_size = 0;
            out = s.out ++ msg ∷ [];
          })
    committed len s a b ea eb m em o eo = rw (ea, eb, em, eo) refl

    parts :
        (p : SendPath) (size : ℕ) (qs : List Packet)
        → AreSegments p size qs
        → All (λ q. (length q.bytes ≡ size) × (q.from.ip ≡ p.source.ip) × (q.to ≡ p.destination)) qs
    parts p size [] a = tt
    parts p size (q ∷ qs) a = (
      (a.sized.0, ap (λ (x : SocketAddr). x.ip) (sym a.on_path.0.0), sym a.on_path.0.1),
      parts p size qs (record { sized = a.sized.1; on_path = a.on_path.1; packets = a.packets.1 }),
    )
