-- ===== src/Backend/Quiche/Io/Loop.antt =====
-- The loop of `write_pending` of aquic-core/src/backend/quiche/io.rs.
use aquic.Base.{
  ℕ, ◌+◌, ◌-◌, ◌≤◌, ◌<◌, ◌≡◌, refl, sym, ap, ◌∙◌, subst, inl, inr, Bool, true, false, not, ◌&&◌,
  Option, none, some, List, [], ◌∷◌, ◌++◌, arith, ltb, ◌==◌, if◌then◌else◌, ==_iff, ==-cases,
  length, length-append, take, drop, take_append_at, length-drop, Outcome, done, panic, ◌>>=◌,
}
use mathlib.Core.List.{append-nil}
use aquic.Net.Types.{SocketAddr, SendMsg, unspecified, same_family}
use aquic.Backend.Quiche.Io.{
  QuicApi, SendAnswer, wrote, nothing_left, buffer_too_short, fails, get_next_release_time, pacer,
  complete, SendPath, Batch, Turn, goes_on, breaks, errs, written, path_of, add_packet, after_send,
  round, finish_pending, same_addr, commit_packet,
}
use aquic.Backend.Quiche.Io.Packets.{Packet, bytes_of, IsPacket, Carries, on_path_sound}
use aquic.Backend.Quiche.Io.Commits.{AreSegments, commit_lem}
use aquic.Backend.Quiche.Io.Batching.{ArePending, Holds, place_lem}

-- What quiche documents: it writes into the room that it is given, and names addresses of a message.
pub record IsQuic (Q : QuicApi) : Type 0 where
  pub fits :
      (c c' : Q.Connection) (room : ℕ) (bytes : List ℕ) (from to : SocketAddr)
      → Q.send c room ≡ (c', wrote bytes from to)
      → length bytes ≤ room
  pub addressed :
      (c c' : Q.Connection) (room : ℕ) (bytes : List ℕ) (from to : SocketAddr)
      → Q.send c room ≡ (c', wrote bytes from to)
      → (unspecified to ≡ false) × (same_family from.ip to.ip ≡ true)

pub finish_lem :
    (debug : Bool) (before : List SendMsg) (s : Batch) (ps : List Packet) (rest : List ℕ)
    → Holds before s ps rest
    → (out : List SendMsg) × (finish_pending debug s ≡ done out) × Carries before out ps
unfolding finish_pending
finish_lem debug before s ps rest h = by_path s.path refl
  where
    behind : Option SendPath → Outcome (List SendMsg)
    behind o = elim o [
      | none ↦ done s.out
      | some path ↦ (do
        s' ← commit_packet debug path s
        if debug && not (s'.reserve_offset == 0) then panic else done s'.out)
    ]

    passes :
        {A : Type 0} {o : Outcome A} (d b : Bool) → b ≡ true → (if d && not b then panic else o) ≡ o
    passes true b h = rw h refl
    passes false b h = refl

    by_path :
        (o : Option SendPath)
        → s.path ≡ o
        → (out : List SendMsg) × (finish_pending debug s ≡ done out) × Carries before out ps
    by_path none e =
        let none_pending : h.pending ≡ [] =
          subst (λ o. ArePending o s.segment_size h.pending) e h.segments in
        (
          s.out,
          ap behind e,
          subst (Carries before s.out)
              (sym (h.split ∙ ap (λ qs. h.shipped ++ qs) none_pending ∙ append-nil h.shipped))
              h.carries,
        )
    by_path (some p) e =
        let a : AreSegments p s.segment_size h.pending =
          subst (λ o. ArePending o s.segment_size h.pending) e h.segments in
        let (s', committed, filled, offset, ship) =
          commit_lem debug p s h.pending rest 0 a h.filled (omega (arith, h.offset)) h.count in
        (
          s'.out,
          ap behind e
              ∙ ap
                  (λ (o : Outcome Batch).
                    o >>= (λ x. if debug && not (x.reserve_offset == 0) then panic else done x.out))
                  committed
              ∙ passes debug (s'.reserve_offset == 0) ((==_iff s'.reserve_offset 0).1 offset),
          subst (Carries before s'.out) (sym h.split) (ship before h.shipped h.carries),
        )

module _ (Q : QuicApi) where
  -- The connection wrote these packets one after another.
  pub data Sends (c : Q.Connection) : List Packet → Q.Connection → Type 0 where
    starts : Sends c [] c
    sends :
        {ps : List Packet} {c1 c2 : Q.Connection} (room : ℕ) (q : Packet)
        → Sends c ps c1
        → Q.send c1 room ≡ (c2, wrote q.bytes q.from q.to)
        → Sends c (ps ++ q ∷ []) c2

  -- An answer without a packet
  abbrev pub IsEmpty : SendAnswer Q.Error → Type 0
  IsEmpty (wrote bytes from to) = length bytes ≡ 0
  IsEmpty nothing_left = Unit {0}
  IsEmpty buffer_too_short = Unit {0}
  IsEmpty (fails e) = Unit {0}

  -- The connection was not asked again, or had no packet then.
  pub data Stops (c : Q.Connection) : Q.Connection → Type 0 where
    unasked : Stops c c
    asked :
        {c' : Q.Connection} {answer : SendAnswer Q.Error} (room : ℕ)
        → Q.send c room ≡ (c', answer)
        → IsEmpty answer
        → Stops c c'

abbrev with_length : SendPath → ℕ → SendPath
with_length p len = record p { quantum_consumed = p.quantum_consumed + len }

module _ (Q : QuicApi) where
  pending_on :
      (c : Q.Connection) (from to : SocketAddr) (len size : ℕ) (pending : List Packet)
      (o : Option SendPath)
      → ArePending o size pending
      → AreSegments (with_length (path_of Q c from to o) len) size pending
  pending_on c from to len size pending none e =
      subst (AreSegments (with_length (path_of Q c from to none) len) size) (sym e)
        (record { sized = tt; on_path = tt; packets = tt })
  pending_on c from to len size pending (some p) a = record {
    sized = a.sized;
    on_path = a.on_path;
    packets = a.packets;
  }

  -- A packet is written.
  wrote_lem :
      (debug : Bool) (c : Q.Connection) (before : List SendMsg) (s : Batch) (q : Packet)
      (ps : List Packet) (rest : List ℕ)
      → IsPacket q
      → Holds before s ps rest
      → length q.bytes ≤ length rest
      → (s' : Batch) × (rest' : List ℕ) × (after_send Q debug s (c, wrote q.bytes q.from q.to)
          ≡ done (c, s', goes_on))
        × Holds before s' (ps ++ q ∷ []) rest'
        × (length rest' < length rest)
  unfolding after_send add_packet
  wrote_lem debug c before s q ps rest valid h fits =
      let len = length q.bytes in
      let whole : length s.reserve ≡ s.reserve_offset + length rest =
        ap length h.filled
        ∙ length-append (bytes_of h.pending) rest
        ∙ ap (λ n. n + length rest) (sym h.offset) in
      let rest' = drop (s.reserve_offset + len) s.reserve in
      let start : take s.reserve_offset s.reserve ≡ bytes_of h.pending =
        ap (take s.reserve_offset) h.filled
        ∙ take_append_at s.reserve_offset (bytes_of h.pending) rest (sym h.offset) in
      let p = with_length (path_of Q c q.from q.to s.path) len in
      let s1 : Batch = record s {
        reserve = written s.reserve s.reserve_offset q.bytes;
        reserve_offset = s.reserve_offset + len;
        path = some p;
      } in
      let (s', e, held) =
        place_lem Q debug (same_addr p.source q.from && same_addr p.destination q.to)
          (s.segment_count == 0) (s.segment_size == len) c before p s1 q h.shipped h.pending rest'
          valid (on_path_sound p q.from q.to) ((==_iff s.segment_count 0).0)
          ((==_iff s.segment_size len).0) refl h.carries
          (pending_on c q.from q.to len s.segment_size h.pending s.path h.segments)
          (ap (λ bytes. bytes ++ (q.bytes ++ rest')) start) (ap (λ n. n + len) h.offset) h.count in
      (
        s',
        rest',
        goes _ _ (len == 0) (not_zero len valid.some_bytes) ∙ e,
        subst (λ x. Holds before s' (x ++ q ∷ []) rest') (sym h.split) held,
        omega (
          arith,
          length-drop (s.reserve_offset + len) s.reserve (omega (arith, whole)),
          whole,
          valid.some_bytes,
        ),
      )
    where
      not_zero : (n : ℕ) → 0 < n → (n == 0) ≡ false
      not_zero n h = ground arith

      goes : {A : Type 0} (x y : Outcome A) (b : Bool) → b ≡ false → (if b then x else y) ≡ y
      goes x y b h = rw h refl

  -- What a round leaves: a packet more, or the end of the loop.
  abbrev pub After :
      Q.Connection → List SendMsg → List ℕ → Q.Connection × Batch × Turn Q.Error → Type 0
  After c0 before rest (c, s, goes_on) =
      (ps : List Packet) × (rest' : List ℕ) × Sends Q c0 ps c
      × Holds before s ps rest'
      × (length rest' < length rest)
  After c0 before rest (c, s, breaks w) =
      (ps : List Packet) × (c1 : Q.Connection) × Sends Q c0 ps c1
      × Stops Q c1 c
      × Holds before s ps rest
  After c0 before rest (c, s, errs e) =
      (ps : List Packet) × (c1 : Q.Connection) × Sends Q c0 ps c1
      × Stops Q c1 c
      × Holds before s ps rest

  answer_lem :
      (debug : Bool) (q : IsQuic Q) (c0 c : Q.Connection) (before : List SendMsg) (s : Batch)
      (ps : List Packet) (rest : List ℕ) (room : ℕ) (r : Q.Connection × SendAnswer Q.Error)
      → Sends Q c0 ps c
      → Holds before s ps rest
      → room ≡ length rest
      → Q.send c room ≡ r
      → (t : Q.Connection × Batch × Turn Q.Error) × (after_send Q debug s r ≡ done t)
        × After c0 before rest t
  unfolding after_send
  answer_lem debug q c0 c before s ps rest room (c', nothing_left) trace h e sent =
      (_, refl, (ps, c, trace, asked room sent tt, h))
  answer_lem debug q c0 c before s ps rest room (c', buffer_too_short) trace h e sent =
      (_, refl, (ps, c, trace, asked room sent tt, h))
  answer_lem debug q c0 c before s ps rest room (c', fails err) trace h e sent =
      (_, refl, (ps, c, trace, asked room sent tt, h))
  answer_lem debug q c0 c before s ps rest room (c', wrote bytes from to) trace h e sent =
      elim (==-cases (length bytes) 0) [
        | inl (test, no_bytes) ↦ (
          (c', s, breaks complete),
          stops _ _ (length bytes == 0) test,
          (ps, c, trace, asked room sent no_bytes, h),
        )
        | inr (test, bytes_there) ↦
            let (addressed, family) = q.addressed c c' room bytes from to sent in
            let packet : Packet = record { bytes = bytes; from = from; to = to } in
            let valid : IsPacket packet = record {
              some_bytes = omega (arith, bytes_there);
              addressed = addressed;
              family = family;
            } in
            let (s', rest', ran, held, less) =
              wrote_lem debug c' before s packet ps rest valid h
                (omega (arith, q.fits c c' room bytes from to sent)) in
            (
              (c', s', goes_on),
              ran,
              (ps ++ packet ∷ [], rest', sends room packet trace sent, held, less),
            )
      ]
    where
      stops : {A : Type 0} (x y : Outcome A) (b : Bool) → b ≡ true → (if b then x else y) ≡ x
      stops x y b h = rw h refl

  pub round_lem :
      (debug : Bool) (now : ℕ) (q : IsQuic Q) (c0 c : Q.Connection) (before : List SendMsg)
      (s : Batch) (ps : List Packet) (rest : List ℕ)
      → Sends Q c0 ps c
      → Holds before s ps rest
      → (t : Q.Connection × Batch × Turn Q.Error) × (round Q debug now c s ≡ done t)
        × After c0 before rest t
  unfolding round
  round_lem debug now q c0 c before s ps rest trace h =
      by_time (get_next_release_time (Q.release_decision c) now)
    where
      whole : length s.reserve ≡ s.reserve_offset + length rest
      whole =
          ap length h.filled
          ∙ length-append (bytes_of h.pending) rest
          ∙ ap (λ n. n + length rest) (sym h.offset)

      not_less : (a b : ℕ) → b ≤ a → ltb a b ≡ false
      not_less a b h = ground arith

      passes : {A : Type 0} (x y : Outcome A) (b : Bool) → b ≡ false → (if b then x else y) ≡ y
      passes x y b h = rw h refl

      by_time :
          (o : Option ℕ)
          → (t : Q.Connection × Batch × Turn Q.Error) × ((elim o [
            | some time ↦ done (c, s, breaks (pacer time))
            | none ↦
                if ltb (length s.reserve) s.reserve_offset
                then panic
                else after_send Q debug s (Q.send c (length s.reserve - s.reserve_offset))
          ])
              ≡ done t)
            × After c0 before rest t
      by_time (some time) = (_, refl, (ps, c, trace, unasked, h))
      by_time none =
          let room = length s.reserve - s.reserve_offset in
          let (t, e, a) =
            answer_lem debug q c0 c before s ps rest room (Q.send c room) trace h
              (omega (arith, whole)) refl in
          (
            t,
            passes _ _ (ltb (length s.reserve) s.reserve_offset)
                  (not_less (length s.reserve) s.reserve_offset (omega (arith, whole)))
                ∙ e,
            a,
          )
