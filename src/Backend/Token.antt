-- ===== src/Backend/Token.antt =====
-- aquic-core/src/backend/token/mod.rs: tokens, and the stateless reset packet.
--
-- A `SystemTime` is a number of nanoseconds since the Unix epoch: earlier times are not modelled. Random
-- numbers are arguments.
pub mod Padded
pub mod Reset
pub mod ResetToken
mod Tests
use Prim.Native.Nat.{bit_and, bit_or}
use aquic.Base.{
  ℕ, zero, suc, ◌+◌, ◌-◌, ◌*◌, ◌/◌, ◌%◌, ◌^◌, ◌≤◌, ◌<◌, min, max, ◌≡◌, refl, sym, ap, ◌∙◌, subst,
  ◌≢◌, ◌↔◌, ◌⊎◌, inl, inr, Bool, true, false, not, ◌&&◌, ◌||◌, Option, none, some, List, [], ◌∷◌,
  ◌++◌, map, arith, ltb, leb, ◌==◌, if◌then◌else◌, ltb→lt, lt→ltb, le→ltb, leb→le, le→leb, lt→leb,
  ==_iff, tests, ltb-cases, ==-cases, Bool-cases, Option-cases, length, get_elem?, get_or, set,
  replicate, All, length-append, length-set, length-replicate, get_or-set_self, get_or-set_ne, take,
  drop, take_append, drop_append, append_injective, take_append_at, drop_append_at, take-drop,
  length-take, length-drop, word, wrapping_add, Outcome, done, panic, ◌>>=◌, add_word, sub_word,
  add_word-eq, sub_word-eq,
}
use aquic.Backend.Cid.{ConnectionId}
use aquic.Util.Random.{fill_bytes}

pub data TokenKind : Type 0 where
  retry identity : TokenKind

pub data TokenError : Type 0 where
  invalid : TokenError
  expired : TokenKind → ℕ → TokenError

pub data Token : Type 0 where
  retry_token : ConnectionId → ℕ → Token
  identity_token : ℕ → Token

-- `Result<Token, TokenError>`
pub data Verified : Type 0 where
  valid : Token → Verified
  refused : TokenError → Verified

abbrev pub expires_at : Token → ℕ
expires_at (retry_token cid at) = at
expires_at (identity_token at) = at

-- The part of `write_stateless_reset_packet` behind the choice of the unpredictable length.
write_reset : ℕ → ℕ → (ℕ → ℕ) → List ℕ → List ℕ → Option (ℕ × List ℕ)
unfolding fill_bytes
write_reset unpredictable_length random_byte random_bytes reset_token out =
    let packet_length = 1 + unpredictable_length + 16 in
    if ltb (length out) packet_length
    then none
    else some (
      1 + unpredictable_length + length reset_token,
      (bit_or (bit_and random_byte 63) 64 ∷ fill_bytes unpredictable_length random_bytes)
          ++ (reset_token ++ drop packet_length out),
    )

-- `random_range a b` is what `rng().random_range(a..=b)` draws. The offset behind the packet comes with
-- the new `out`.
unfoldable pub write_stateless_reset_packet :
    Bool → ℕ → ℕ → List ℕ → (ℕ → ℕ → ℕ) → ℕ → (ℕ → ℕ) → List ℕ → Outcome (Option (ℕ × List ℕ))
unfolding write_reset
write_stateless_reset_packet debug peer_packet_len max_packet_len reset_token random_range
      random_byte random_bytes out =
    if ltb peer_packet_len 21 then done none else (do
      peer ← sub_word debug peer_packet_len 18
      largest ← sub_word debug max_packet_len 17
      done (
          if ltb (min peer largest) 4
          then none
          else write_reset (random_range 4 (min peer largest)) random_byte random_bytes reset_token
              out))
