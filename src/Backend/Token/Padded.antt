-- ===== src/Backend/Token/Padded.antt =====
-- aquic-core/src/backend/token/padded.rs: tokens of one length, encrypted.
--
-- The buffers of `PaddedTokenGenerator` are cleared before each use: what is written to one is returned
-- instead. A token is generated and verified with what the key store answers then.
pub mod Bytes
pub mod Fields
pub mod RoundTrip
use aquic.Base.{
  ℕ, zero, suc, ◌+◌, ◌-◌, ◌*◌, ◌/◌, ◌%◌, ◌^◌, ◌≤◌, ◌<◌, min, max, ◌≡◌, refl, sym, ap, ◌∙◌, subst,
  ◌≢◌, ◌↔◌, ◌⊎◌, inl, inr, Bool, true, false, not, ◌&&◌, ◌||◌, Option, none, some, List, [], ◌∷◌,
  ◌++◌, map, arith, ltb, leb, ◌==◌, if◌then◌else◌, ltb→lt, lt→ltb, le→ltb, leb→le, le→leb, lt→leb,
  ==_iff, tests, ltb-cases, ==-cases, Bool-cases, Option-cases, length, get_elem?, get_or, set,
  replicate, All, length-append, length-set, length-replicate, get_or-set_self, get_or-set_ne, take,
  drop, take_append, drop_append, append_injective, take_append_at, drop_append_at, take-drop,
  length-take, length-drop, word, wrapping_add, Outcome, done, panic, ◌>>=◌, add_word, sub_word,
  add_word-eq, sub_word-eq,
}
use aquic.Backend.Cid.{ConnectionId, max_cid_len, try_from_iter}
use aquic.Backend.Token.{
  TokenKind, retry, identity, TokenError, invalid, expired, Token, retry_token, identity_token,
  Verified, valid, refused,
}
use aquic.Util.Random.{fill_bytes}
use aquic.Util.Aead.{Algorithm, KeyStore, Aead, encrypt_and_pack, unpack_and_decrypt}

pub data IpAddr : Type 0 where
  v4 v6 : List ℕ → IpAddr

-- `octets`: four of them, or sixteen
abbrev pub octets : IpAddr → List ℕ
octets (v4 bytes) = bytes
octets (v6 bytes) = bytes

abbrev pub length_of_ip_addr : IpAddr → ℕ
length_of_ip_addr ip = length (octets ip)

-- `to_be_bytes` of an integer of `n` bytes
unfoldable pub to_be_bytes : ℕ → ℕ → List ℕ
to_be_bytes zero value = []
to_be_bytes (suc n) value = to_be_bytes n (value / 256) ++ value % 256 ∷ []

-- `from_be_bytes`, of the bytes behind those that make `value`
pub from_be_bytes : ℕ → List ℕ → ℕ
from_be_bytes value [] = value
from_be_bytes value (byte ∷ bytes) = from_be_bytes (value * 256 + byte) bytes

abbrev pub write_kind : TokenKind → ℕ
write_kind retry = 0
write_kind identity = 255

-- `write_padding` of zeros, and of random bytes
unfoldable pub write_padding : ℕ → List ℕ
write_padding n = replicate n 0 ++ n ∷ []

unfoldable pub write_random_padding : ℕ → (ℕ → ℕ) → List ℕ
write_random_padding n random_bytes = fill_bytes n random_bytes ++ n ∷ []

abbrev pub nanos_per_milli : ℕ
nanos_per_milli = 1000000

-- `to_millis(expires_at).unwrap_or(0)`
abbrev pub to_millis : ℕ → ℕ
to_millis time = let millis = time / nanos_per_milli in if ltb millis word then millis else 0

abbrev pub to_systime : ℕ → ℕ
to_systime millis = millis * nanos_per_milli

unfoldable pub write_millis : ℕ → List ℕ
write_millis millis = to_be_bytes 8 millis

unfoldable pub write_retry_associated_data : IpAddr → List ℕ → List ℕ → List ℕ
unfolding write_padding
write_retry_associated_data peer_addr scid dcid =
    write_kind retry ∷ (octets peer_addr ++ write_padding (16 - length_of_ip_addr peer_addr))
    ++ ((scid ++ write_padding (max_cid_len - length scid)) ++ dcid)

unfoldable pub write_identity_associated_data : IpAddr → List ℕ
write_identity_associated_data peer_addr = write_kind identity ∷ octets peer_addr

unfoldable pub write_retry_plaintext_data : List ℕ → ℕ → (ℕ → ℕ) → List ℕ
unfolding write_random_padding write_millis
write_retry_plaintext_data original_peer_dcid expires_at random_bytes =
    (original_peer_dcid
      ++ write_random_padding (max_cid_len - length original_peer_dcid) random_bytes)
    ++ write_millis (to_millis expires_at)

unfoldable pub write_identity_plaintext_data : ℕ → (ℕ → ℕ) → List ℕ
unfolding write_random_padding write_millis
write_identity_plaintext_data expires_at random_bytes =
    write_random_padding max_cid_len random_bytes ++ write_millis (to_millis expires_at)

-- `Vec::pop`, which takes the last byte
unfoldable pub pop : List ℕ → Option (List ℕ × ℕ)
pop [] = none
pop (x ∷ xs) = elim (pop xs) [ none ↦ some ([], x) | some (ys, y) ↦ some (x ∷ ys, y) ]

-- The loop of `drain_millis`, with the bytes that it has taken. There are enough of them, so that the
-- `unwrap` of `pop` does not panic.
pub pop_bytes : ℕ → List ℕ → List ℕ → Option (List ℕ × List ℕ)
pop_bytes zero token array = some (token, array)
pop_bytes (suc n) token array = elim (pop token) [
  | none ↦ none
  | some (token', byte) ↦ pop_bytes n token' (byte ∷ array)
]

unfoldable pub drain_millis : List ℕ → Option (List ℕ × ℕ)
unfolding pop_bytes from_be_bytes
drain_millis token = if ltb (length token) 8 then none else elim (pop_bytes 8 token []) [
  | none ↦ none
  | some (token', array) ↦ some (token', from_be_bytes 0 array)
]

-- The loop of `drain_padding`; `pop` of an empty token changes nothing.
pub pop_padding : ℕ → List ℕ → List ℕ
pop_padding zero token = token
pop_padding (suc n) token = elim (pop token) [
  | none ↦ pop_padding n token
  | some (token', byte) ↦ pop_padding n token'
]

unfoldable pub drain_padding : List ℕ → Option (List ℕ)
unfolding pop_padding
drain_padding token = elim (pop token) [
  | none ↦ none
  | some (token', n) ↦ if ltb (length token') n then none else some (pop_padding n token')
]

-- What the two `extract` functions do behind `drain_millis`.
unfoldable pub extract_retry_cid : ℕ → Option (List ℕ) → Verified
extract_retry_cid expires_at none = refused invalid
extract_retry_cid expires_at (some token) = elim (try_from_iter token) [
  | none ↦ refused invalid
  | some peer_original_dcid ↦ valid (retry_token peer_original_dcid expires_at)
]

unfoldable pub extract_identity_end : ℕ → Option (List ℕ) → Verified
extract_identity_end expires_at none = refused invalid
extract_identity_end expires_at (some []) = valid (identity_token expires_at)
extract_identity_end expires_at (some (x ∷ xs)) = refused invalid

unfoldable pub extract_retry_plaintext_data : List ℕ → ℕ → Verified
unfolding extract_retry_cid
extract_retry_plaintext_data buf now = elim (drain_millis buf) [
  | none ↦ refused invalid
  | some (token, millis) ↦
      if ltb (to_systime millis) now
      then refused (expired retry (to_systime millis))
      else extract_retry_cid (to_systime millis) (drain_padding token)
]

unfoldable pub extract_identity_plaintext_data : List ℕ → ℕ → Verified
unfolding extract_identity_end
extract_identity_plaintext_data buf now = elim (drain_millis buf) [
  | none ↦ refused invalid
  | some (token, millis) ↦
      if ltb (to_systime millis) now
      then refused (expired identity (to_systime millis))
      else extract_identity_end (to_systime millis) (drain_padding token)
]

-- `.map_err(|_| TokenError::Invalid)?`, and the extraction
abbrev pub extracted : (List ℕ → ℕ → Verified) → ℕ → Option (List ℕ) → Verified
extracted extract now none = refused invalid
extracted extract now (some buf) = extract buf now

module _ (A : Algorithm) where
  unfoldable pub generate_retry_token :
      Aead A
      → KeyStore A
      → List ℕ
      → (ℕ → ℕ)
      → IpAddr
      → List ℕ
      → List ℕ
      → List ℕ
      → ℕ
      → Outcome (Aead A × Option (List ℕ))
  generate_retry_token aead store nonce random_bytes peer_addr peer_scid peer_dcid server_new_scid
        expires_at =
      if ltb max_cid_len (length peer_scid)
        || ltb max_cid_len (length peer_dcid)
        || ltb max_cid_len (length server_new_scid)
      then done (aead, none)
      else (do
        (aead', token) ←
            encrypt_and_pack A aead store nonce
              (write_retry_associated_data peer_addr peer_scid server_new_scid)
              (write_retry_plaintext_data peer_dcid expires_at random_bytes)
        done (aead', some token))

  unfoldable pub generate_identity_token :
      Aead A → KeyStore A → List ℕ → (ℕ → ℕ) → IpAddr → ℕ → Outcome (Aead A × List ℕ)
  generate_identity_token aead store nonce random_bytes peer_addr expires_at =
      encrypt_and_pack A aead store nonce (write_identity_associated_data peer_addr)
        (write_identity_plaintext_data expires_at random_bytes)

  unfoldable pub verify_retry_token :
      Aead A → KeyStore A → IpAddr → List ℕ → List ℕ → List ℕ → ℕ → Aead A × Verified
  verify_retry_token aead store peer_addr peer_scid peer_dcid token now =
      let (aead', text) =
        unpack_and_decrypt A aead store (write_retry_associated_data peer_addr peer_scid peer_dcid)
          token in
      (aead', extracted extract_retry_plaintext_data now text)

  unfoldable pub verify_identity_token :
      Aead A → KeyStore A → IpAddr → List ℕ → ℕ → Aead A × Verified
  verify_identity_token aead store peer_addr token now =
      let (aead', text) =
        unpack_and_decrypt A aead store (write_identity_associated_data peer_addr) token in
      (aead', extracted extract_identity_plaintext_data now text)

  -- `verify_token`, once the identity token was tried
  abbrev pub or_retry :
      KeyStore A → IpAddr → List ℕ → List ℕ → List ℕ → ℕ → Aead A × Verified → Aead A × Verified
  or_retry store peer_addr peer_scid peer_dcid token now (aead, valid t) = (aead, valid t)
  or_retry store peer_addr peer_scid peer_dcid token now (aead, refused (expired k at)) =
      (aead, refused (expired k at))
  or_retry store peer_addr peer_scid peer_dcid token now (aead, refused invalid) =
      verify_retry_token aead store peer_addr peer_scid peer_dcid token now

  unfoldable pub verify_token :
      Aead A → KeyStore A → IpAddr → List ℕ → List ℕ → List ℕ → ℕ → Aead A × Verified
  verify_token aead store peer_addr peer_scid peer_dcid token now =
      if length token == 0
      then (aead, refused invalid)
      else if ltb max_cid_len (length peer_scid) || ltb max_cid_len (length peer_dcid)
      then (aead, refused invalid)
      else or_retry store peer_addr peer_scid peer_dcid token now
          (verify_identity_token aead store peer_addr token now)
