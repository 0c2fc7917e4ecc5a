-- ===== src/Net/Types/Peek.antt =====
-- What a new iterator answers (aquic-core/src/net/types.rs).
use native.Mathlib.Nat.{div-le_self}
use aquic.Base.{
  ℕ, suc, ◌+◌, ◌-◌, ◌/◌, ◌%◌, ◌≤◌, ◌<◌, ◌≡◌, refl, ap, ◌∙◌, inl, inr, Bool, true, false, not, ◌&&◌,
  ◌||◌, some, List, ◌∷◌, arith, ltb, leb, ◌==◌, if◌then◌else◌, le→ltb, lt→leb, ==-cases, Bool-cases,
  length, take, done, panic,
}
use aquic.Net.Types.{
  RecvMsg, MultiMsgFlattenIter, new, segment_size, assert_divides, packet_at, peek_msg, peek_rounds,
  peek,
}

-- How long the first segment of a message is.
abbrev pub first_size : RecvMsg → ℕ
first_size msg = if msg.segment_count == 0 then msg.read else msg.read / msg.segment_count

first_size_le : (msg : RecvMsg) → first_size msg ≤ msg.read
first_size_le msg = elim (==-cases msg.segment_count 0) [
  | inl (e, whole) ↦ rw e (omega arith)
  | inr (e, parts) ↦ rw e (div-le_self msg.read msg.segment_count)
]

segment_size-first :
    (debug : Bool) (msg : RecvMsg) → 0 < msg.read → segment_size debug msg ≡ done (first_size msg)
unfolding segment_size
segment_size-first debug msg h =
    let nonempty : (msg.read == 0) ≡ false = ground arith in simp nonempty (no_panic debug)
  where
    no_panic :
        (b : Bool)
        → (if b && not true then panic else done (first_size msg)) ≡ done (first_size msg)
    no_panic true = refl
    no_panic false = refl

peek-msg :
    (debug : Bool) (msg : RecvMsg) (msgs : List RecvMsg)
    → 0 < msg.read
    → peek debug (new (msg ∷ msgs)) ≡ peek_msg debug (new (msg ∷ msgs)) msg
unfolding peek peek_rounds
peek-msg debug msg msgs h =
    let left : leb msg.read 0 ≡ false = lt→leb _ _ h in
    let rounds : suc (length msgs) - 0 ≡ suc (length msgs) = omega arith in
    ap (λ n. peek_rounds n debug (new (msg ∷ msgs))) rounds ∙ simp left refl

peek_msg-release :
    (msg : RecvMsg) (s : MultiMsgFlattenIter)
    → s.msg_offset ≡ 0
    → 0 < msg.read
    → msg.read ≤ length msg.buf
    → peek_msg false s msg
      ≡ done (
        s,
        some (record {
          from = msg.from;
          to = msg.to;
          ecn = msg.ecn;
          timestamp = msg.timestamp;
          payload = take (first_size msg) msg.buf;
        }),
      )
unfolding peek_msg assert_divides packet_at
peek_msg-release msg s start h fits =
    let room : ltb (length msg.buf) (0 + first_size msg) ≡ false =
      le→ltb _ _ (omega (arith, first_size_le msg)) in
    rw (start, room) refl

peek_msg-debug :
    (msg : RecvMsg) (s : MultiMsgFlattenIter)
    → s.msg_offset ≡ 0
    → 0 < msg.read
    → peek_msg true s msg ≡ panic
unfolding peek_msg assert_divides
peek_msg-debug msg s start h =
    rw (segment_size-first true msg h, start)
      (elim (Bool-cases ((first_size msg == 0) || not (msg.read % first_size msg == 0))) [
        | inl e ↦ simp e refl
        | inr e ↦ simp e refl
      ])

-- A new iterator whose first message has bytes, in its buffer: a release build hands out the first segment
-- of it, and a debug build panics, since it takes a remainder by the offset 0.
pub peek_lem :
    (msg : RecvMsg) (msgs : List RecvMsg)
    → 0 < msg.read
    → msg.read ≤ length msg.buf
    → (peek false (new (msg ∷ msgs))
        ≡ done (
          new (msg ∷ msgs),
          some (record {
            from = msg.from;
            to = msg.to;
            ecn = msg.ecn;
            timestamp = msg.timestamp;
            payload = take (first_size msg) msg.buf;
          }),
        ))
      × (peek true (new (msg ∷ msgs)) ≡ panic)
peek_lem msg msgs h fits = (
  peek-msg false msg msgs h ∙ peek_msg-release msg (new (msg ∷ msgs)) refl h fits,
  peek-msg true msg msgs h ∙ peek_msg-debug msg (new (msg ∷ msgs)) refl h,
)
