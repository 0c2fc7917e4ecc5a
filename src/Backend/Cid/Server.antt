-- ===== src/Backend/Cid/Server.antt =====
-- aquic-core/src/backend/cid/server.rs: connection IDs that route to a server and a core.
--
-- The crates `bitvec` and `aes` are the parameter `Crates`; a cipher is its key. Bits are lists of
-- Booleans, the most significant first. Random bytes are an argument. A sum of numbers
-- of bits is not cut to a word: the overflow of `cid_len` for an `entropy_bits` near the largest word is
-- not modelled.
pub mod Rounds
pub mod Passes
pub mod Generator
pub mod Layout
pub mod Routing
pub mod Parse
mod Tests
use Prim.Native.Nat.{bit_or}
use aquic.Base.{
  ℕ, zero, suc, ◌+◌, ◌-◌, ◌*◌, ◌/◌, ◌%◌, ◌^◌, ◌≤◌, ◌<◌, min, max, ◌≡◌, refl, sym, ap, ◌∙◌, subst,
  ◌≢◌, ◌↔◌, ◌⊎◌, inl, inr, Bool, true, false, not, ◌&&◌, ◌||◌, Option, none, some, List, [], ◌∷◌,
  ◌++◌, map, arith, ltb, leb, ◌==◌, if◌then◌else◌, ltb→lt, lt→ltb, le→ltb, leb→le, le→leb, lt→leb,
  ==_iff, tests, ltb-cases, ==-cases, Bool-cases, Option-cases, length, get_elem?, get_or, set,
  replicate, All, length-append, length-set, length-replicate, get_or-set_self, get_or-set_ne, take,
  drop, take_append, drop_append, append_injective, take_append_at, drop_append_at, take-drop,
  length-take, length-drop, word, wrapping_add, Outcome, done, panic, ◌>>=◌, add_word, sub_word,
  add_word-eq, sub_word-eq,
}
use aquic.Backend.Cid.{ConnectionId, max_cid_len, as_slice, copy_from_slice, try_from_slice}
use aquic.Util.Random.{fill_bytes}

pub record Crates : Type 1 where
  pub Key : Type 0
  -- `view_bits::<Msb0>`, and the bytes that such a view lies on
  pub view_bits : List ℕ → List Bool
  pub bytes_of : List Bool → List ℕ
  -- the bits that `store_be` writes to a slice of `n` bits, and what `load_be` reads
  pub store_be : ℕ → ℕ → List Bool
  pub load_be : List Bool → ℕ
  pub encrypt_block : Key → List ℕ → List ℕ
  pub decrypt_block : Key → List ℕ → List ℕ

-- What the crates document.
pub record IsCrates (B : Crates) : Type 0 where
  pub view_length : (xs : List ℕ) → length (B.view_bits xs) ≡ 8 * length xs
  pub view_append : (xs ys : List ℕ) → B.view_bits (xs ++ ys) ≡ B.view_bits xs ++ B.view_bits ys
  pub view_bytes :
      (n : ℕ) (bits : List Bool) → length bits ≡ 8 * n → B.view_bits (B.bytes_of bits) ≡ bits
  pub bytes_view : (xs : List ℕ) → All (λ byte. byte < 256) xs → B.bytes_of (B.view_bits xs) ≡ xs
  pub are_bytes : (bits : List Bool) → All (λ byte. byte < 256) (B.bytes_of bits)
  pub store_length : (n value : ℕ) → length (B.store_be n value) ≡ n
  pub load_store : (n value : ℕ) → value < 2 ^ n → B.load_be (B.store_be n value) ≡ value
  pub block_inverse :
      (k : B.Key) (block : List ℕ)
      → length block ≡ 16
      → All (λ byte. byte < 256) block
      → B.decrypt_block k (B.encrypt_block k block) ≡ block
  pub block_length :
      (k : B.Key) (block : List ℕ) → length block ≡ 16 → length (B.encrypt_block k block) ≡ 16

abbrev pub aes_block_size : ℕ
aes_block_size = 16

abbrev pub aes_block_size_bits : ℕ
aes_block_size_bits = aes_block_size * 8

pub record ServerIdMeta : Type 0 where
  pub server_id : ℕ
  pub core_id : Option ℕ

pub data Parsed : Type 0 where
  parsed : ServerIdMeta → Parsed
  id_error : ConnectionId → Parsed

-- `val[bits..].fill(false)`
unfoldable pub truncate_left : List Bool → ℕ → List Bool
truncate_left val bits = take bits val ++ replicate (length val - bits) false

-- `val[0..AES_BLOCK_SIZE_BITS - bits].fill(false)`
unfoldable pub truncate_right : List Bool → ℕ → List Bool
truncate_right val bits =
    replicate (aes_block_size_bits - bits) false ++ drop (aes_block_size_bits - bits) val

-- `^=` on bits of the same number
unfoldable pub xor_bits : List Bool → List Bool → List Bool
xor_bits [] ys = []
xor_bits (x ∷ xs) [] = x ∷ xs
xor_bits (x ∷ xs) (y ∷ ys) = (if y then not x else x) ∷ xor_bits xs ys

-- Bits of a slice replaced from an offset on.
unfoldable pub write_bits : List Bool → ℕ → List Bool → List Bool
write_bits bits offset new = take offset bits ++ (new ++ drop (offset + length new) bits)

abbrev pub div_ceil : ℕ → ℕ
div_ceil bits = (bits + 7) / 8

module _ (B : Crates) where
  unfoldable pub expand_left : List Bool → ℕ → ℕ → List Bool
  expand_left msb_val lsb_byte second_lsb_byte =
      let slice = B.bytes_of msb_val in
      let slice' =
        set slice (aes_block_size - 1) (bit_or (get_or slice (aes_block_size - 1) 0) lsb_byte) in
      B.view_bits (
        set slice' (aes_block_size - 2)
          (bit_or (get_or slice' (aes_block_size - 2) 0) second_lsb_byte))

  unfoldable pub expand_right : List Bool → ℕ → ℕ → List Bool
  expand_right lsb_val msb_byte second_msb_byte =
      B.view_bits (set (set (B.bytes_of lsb_val) 0 msb_byte) 1 second_msb_byte)

  unfoldable pub aes_ecb : List Bool → B.Key → List Bool
  aes_ecb val cipher = B.view_bits (B.encrypt_block cipher (B.bytes_of val))

  -- What the left half gives to the right half, and the right half to the left half.
  unfoldable pub left_mask : B.Key → ℕ → ℕ → ℕ → List Bool → List Bool
  unfolding truncate_right expand_left aes_ecb
  left_mask cipher cid_len right_bits index left =
      truncate_right (aes_ecb (expand_left left cid_len index) cipher) right_bits

  unfoldable pub right_mask : B.Key → ℕ → ℕ → ℕ → List Bool → List Bool
  unfolding truncate_left expand_right aes_ecb
  right_mask cipher cid_len left_bits index right =
      truncate_left (aes_ecb (expand_right right cid_len index) cipher) left_bits

  -- `while index < 4`, with half as many rounds left as `index` lacks
  unfoldable pub encrypt_rounds :
      ℕ → B.Key → ℕ → ℕ → ℕ → ℕ → List Bool → List Bool → List Bool × List Bool
  unfolding left_mask right_mask xor_bits
  encrypt_rounds zero cipher cid_len left_bits right_bits index left right = (left, right)
  encrypt_rounds (suc rounds) cipher cid_len left_bits right_bits index left right =
      let right' = xor_bits right (left_mask cipher cid_len right_bits (index + 1) left) in
      let left' = xor_bits left (right_mask cipher cid_len left_bits (index + 2) right') in
      encrypt_rounds rounds cipher cid_len left_bits right_bits (index + 2) left' right'

  -- `while index > 0`, with half of `index` as rounds left
  unfoldable pub decrypt_rounds :
      ℕ → B.Key → ℕ → ℕ → ℕ → ℕ → List Bool → List Bool → List Bool × List Bool
  unfolding left_mask right_mask xor_bits
  decrypt_rounds zero cipher cid_len left_bits right_bits index left right = (left, right)
  decrypt_rounds (suc rounds) cipher cid_len left_bits right_bits index left right =
      let left' = xor_bits left (right_mask cipher cid_len left_bits index right) in
      let right' = xor_bits right (left_mask cipher cid_len right_bits (index - 1) left') in
      decrypt_rounds rounds cipher cid_len left_bits right_bits (index - 2) left' right'

  -- The halves in blocks of their own, and back. A plaintext has at most 19 bytes, so that they fit.
  abbrev pub left_half : List Bool → List Bool
  left_half plaintext =
      let left_bits = length plaintext / 2 in
      take left_bits plaintext ++ replicate (aes_block_size_bits - left_bits) false

  abbrev pub right_half : List Bool → List Bool
  right_half plaintext =
      let left_bits = length plaintext / 2 in
      replicate (aes_block_size_bits - (length plaintext - left_bits)) false
      ++ drop left_bits plaintext

  abbrev pub joined : ℕ → ℕ → List Bool × List Bool → List Bool
  joined left_bits right_bits (left, right) =
      take left_bits left ++ drop (aes_block_size_bits - right_bits) right

  -- The part of the two functions behind the test of an empty plaintext, with their loop.
  abbrev pub four_pass :
      (B.Key → ℕ → ℕ → ℕ → List Bool → List Bool → List Bool × List Bool)
      → B.Key
      → ℕ
      → List Bool
      → List Bool
  four_pass rounds cipher cid_len plaintext =
      let left_bits = length plaintext / 2 in
      let right_bits = length plaintext - left_bits in
      joined left_bits right_bits
        (rounds cipher cid_len left_bits right_bits (left_half plaintext) (right_half plaintext))

  unfoldable pub encrypt_four_pass : B.Key → List ℕ → List ℕ
  unfolding encrypt_rounds
  encrypt_four_pass cipher [] = []
  encrypt_four_pass cipher (x ∷ plaintext) = B.bytes_of (
      four_pass (λ k cid_len l r left right. encrypt_rounds 2 k cid_len l r 0 left right) cipher
        (length (x ∷ plaintext) % 256 + 1) (B.view_bits (x ∷ plaintext)))

  unfoldable pub decrypt_four_pass : B.Key → List ℕ → List ℕ
  unfolding decrypt_rounds
  decrypt_four_pass cipher [] = []
  decrypt_four_pass cipher (x ∷ plaintext) = B.bytes_of (
      four_pass (λ k cid_len l r left right. decrypt_rounds 2 k cid_len l r 4 left right) cipher
        (length (x ∷ plaintext) % 256 + 1) (B.view_bits (x ∷ plaintext)))
