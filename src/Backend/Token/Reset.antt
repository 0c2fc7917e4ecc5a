-- ===== src/Backend/Token/Reset.antt =====
-- The stateless reset packet (aquic-core/src/backend/token/mod.rs).
use Prim.Native.Nat.{bit_and, bit_or}
use mathlib.Core.List.{append_assoc}
use aquic.Base.{
  ℕ, ◌+◌, ◌-◌, ◌≤◌, ◌<◌, min, ◌≡◌, refl, sym, ap, ◌∙◌, ◌⊎◌, inl, inr, Bool, true, false, Option,
  none, some, List, ◌∷◌, ◌++◌, arith, ltb, lt→ltb, le→ltb, ltb-cases, length, length-append, drop,
  length-drop, Outcome, done, sub_word-eq,
}
use aquic.Backend.Token.{write_reset, write_stateless_reset_packet}
use aquic.Util.Random.{fill_bytes, length-fill_bytes}

-- `random_range` draws from its range.
abbrev pub IsRandomRange : (ℕ → ℕ → ℕ) → Type 0
IsRandomRange random_range = (a b : ℕ) → a ≤ b → a ≤ random_range a b × random_range a b ≤ b

-- What a client reads of a packet: its first byte, the bytes that look random, and the token at the end.
abbrev pub IsResetPacket : List ℕ → ℕ → List ℕ → Type 0
IsResetPacket reset_token n out =
    (first : ℕ) × (unpredictable : List ℕ) × (unused : List ℕ) × (out
      ≡ (first ∷ unpredictable ++ reset_token) ++ unused)
    × (n ≡ length (first ∷ unpredictable ++ reset_token))

write_reset-some :
    (k random_byte : ℕ) (random_bytes : ℕ → ℕ) (reset_token out : List ℕ)
    → length reset_token ≡ 16
    → 17 + k ≤ length out
    → (out' : List ℕ) × (write_reset k random_byte random_bytes reset_token out
        ≡ some (17 + k, out'))
      × IsResetPacket reset_token (17 + k) out'
      × (length out' ≡ length out)
unfolding write_reset
write_reset-some k random_byte random_bytes reset_token out ht fits =
    let first = bit_or (bit_and random_byte 63) 64 in
    let middle = fill_bytes k random_bytes in
    let unused = drop (17 + k) out in
    let packet : List ℕ = first ∷ middle ++ reset_token in
    let fits' : ltb (length out) (1 + k + 16) ≡ false = le→ltb _ _ (omega arith) in
    let total : length packet ≡ 17 + k =
      omega (arith, length-append (first ∷ middle) reset_token, length-fill_bytes k random_bytes) in
    let written : 1 + k + length reset_token ≡ 17 + k = omega arith in
    let behind : drop (1 + k + 16) out ≡ unused = ap (λ n. drop n out) (omega arith) in
    let joined : first ∷ middle ++ (reset_token ++ unused) ≡ packet ++ unused =
      sym (append_assoc (first ∷ middle) reset_token unused) in
    let packed : first ∷ middle ++ (reset_token ++ drop (1 + k + 16) out) ≡ packet ++ unused =
      ap (λ t. first ∷ middle ++ (reset_token ++ t)) behind ∙ joined in
    (
      packet ++ unused,
      simp fits' (
          ap (λ n. some (n, first ∷ middle ++ (reset_token ++ drop (1 + k + 16) out))) written
          ∙ ap (λ t. some (17 + k, t)) packed),
      (first, middle, unused, refl, sym total),
      omega (arith, length-append packet unused, length-drop (17 + k) out fits),
    )

module _ (debug : Bool) (peer_packet_len max_packet_len : ℕ) (reset_token : List ℕ)
    (random_range : ℕ → ℕ → ℕ) (random_byte : ℕ) (random_bytes : ℕ → ℕ) (out : List ℕ) where
  abbrev result : Outcome (Option (ℕ × List ℕ))
  result =
      write_stateless_reset_packet debug peer_packet_len max_packet_len reset_token random_range
        random_byte random_bytes out

  abbrev largest : ℕ
  largest = min (peer_packet_len - 18) (max_packet_len - 17)

  small-none : peer_packet_len ≤ 21 → 21 ≤ max_packet_len → result ≡ done none
  unfolding write_stateless_reset_packet
  small-none h h' = elim (ltb-cases peer_packet_len 21) [
    | inl (e, _) ↦ rw e refl
    | inr (e, l) ↦
        let empty : ltb (min (peer_packet_len - 18) (max_packet_len - 17)) 4 ≡ true =
          lt→ltb _ _ (omega arith) in
        rw
          (
            e,
            sub_word-eq debug peer_packet_len 18 (omega arith),
            sub_word-eq debug max_packet_len 17 (omega arith),
            empty,
          )
          refl
  ]

  large-some :
      22 ≤ peer_packet_len
      → 21 ≤ max_packet_len
      → result
        ≡ done (write_reset (random_range 4 largest) random_byte random_bytes reset_token out)
  unfolding write_stateless_reset_packet
  large-some h h' =
      let e : ltb peer_packet_len 21 ≡ false = le→ltb _ _ (omega arith) in
      let room : ltb (min (peer_packet_len - 18) (max_packet_len - 17)) 4 ≡ false =
        le→ltb _ _ (omega arith) in
      rw
        (
          e,
          sub_word-eq debug peer_packet_len 18 (omega arith),
          sub_word-eq debug max_packet_len 17 (omega arith),
          room,
        )
        refl

  -- The packet that provokes a stateless reset of 16 bytes with room for 21 is either at most 21 bytes
  -- long, and nothing is sent, or what is sent is smaller than it, has from 21 bytes to `max_packet_len`,
  -- and ends in the token.
  pub stateless_reset_lem :
      IsRandomRange random_range
      → length reset_token ≡ 16
      → 21 ≤ max_packet_len
      → max_packet_len ≤ length out
      → (peer_packet_len ≤ 21 × (result ≡ done none))
        ⊎ ((n : ℕ) × (out' : List ℕ) × (result ≡ done (some (n, out')))
            × 21 ≤ n
            × n < peer_packet_len
            × n ≤ max_packet_len
            × IsResetPacket reset_token n out'
            × (length out' ≡ length out))
  stateless_reset_lem range ht h21 fits = elim (ltb-cases peer_packet_len 22) [
    | inl (_, small) ↦ inl (omega arith, small-none (omega arith) h21)
    | inr (_, large) ↦
        let k = random_range 4 largest in
        let (low, high) = range 4 largest (omega arith) in
        let (out', e, packet, same) =
          write_reset-some k random_byte random_bytes reset_token out ht (omega arith) in
        inr (
          17 + k,
          out',
          large-some large h21 ∙ ap done e,
          omega arith,
          omega arith,
          omega arith,
          packet,
          same,
        )
  ]
