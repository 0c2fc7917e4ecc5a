-- ===== src/Util/Aead.antt =====
-- aquic-core/src/util/{aead,crypto}.rs: authenticated encryption with keys that rotate.
--
-- The algorithm of the crate `aead` is the parameter `Algorithm`; a cipher is its key. Random nonces and
-- the answers of the key store are arguments. A buffer that is changed in place is returned.
pub mod Rotation
use aquic.Base.{
  ℕ, zero, suc, ◌+◌, ◌-◌, ◌*◌, ◌/◌, ◌%◌, ◌^◌, ◌≤◌, ◌<◌, min, max, ◌≡◌, refl, sym, ap, ◌∙◌, subst,
  ◌≢◌, ◌↔◌, ◌⊎◌, inl, inr, Bool, true, false, not, ◌&&◌, ◌||◌, Option, none, some, List, [], ◌∷◌,
  ◌++◌, map, arith, ltb, leb, ◌==◌, if◌then◌else◌, ltb→lt, lt→ltb, le→ltb, leb→le, le→leb, lt→leb,
  ==_iff, tests, ltb-cases, ==-cases, Bool-cases, Option-cases, length, get_elem?, get_or, set,
  replicate, All, length-append, length-set, length-replicate, get_or-set_self, get_or-set_ne, take,
  drop, take_append, drop_append, append_injective, take_append_at, drop_append_at, take-drop,
  length-take, length-drop, word, wrapping_add, Outcome, done, panic, ◌>>=◌, add_word, sub_word,
  add_word-eq, sub_word-eq,
}

pub record Algorithm : Type 1 where
  pub Key : Type 0
  pub nonce_len : ℕ
  pub auth_tag_len : ℕ
  -- the key, the nonce, the associated data and the plaintext, or the ciphertext with its tag
  pub encrypt_in_place : Key → List ℕ → List ℕ → List ℕ → List ℕ
  pub decrypt_in_place : Key → List ℕ → List ℕ → List ℕ → Option (List ℕ)

-- What the documentation of `aead` promises of an algorithm.
pub record IsAead (A : Algorithm) : Type 0 where
  pub inverse :
      (k : A.Key) (nonce associated text : List ℕ)
      → A.decrypt_in_place k nonce associated (A.encrypt_in_place k nonce associated text)
        ≡ some text
  pub tagged :
      (k : A.Key) (nonce associated text : List ℕ)
      → length (A.encrypt_in_place k nonce associated text) ≡ length text + A.auth_tag_len

-- What a `KeyStore` answers at one time.
pub record KeyStore (A : Algorithm) : Type 0 where
  pub active : A.Key
  pub passive : List A.Key
  pub revision : ℕ

pub record Aead (A : Algorithm) : Type 0 where
  pub ciphers : List A.Key
  pub revision : ℕ

module _ (A : Algorithm) where
  -- `Cipher::encrypt_and_pack`
  abbrev pub cipher_encrypt_and_pack : A.Key → List ℕ → List ℕ → List ℕ → List ℕ
  cipher_encrypt_and_pack k nonce associated_data plaintext =
      A.encrypt_in_place k nonce associated_data plaintext ++ nonce

  -- `Cipher::unpack_and_decrypt`
  unfoldable pub cipher_unpack_and_decrypt : A.Key → List ℕ → List ℕ → Option (List ℕ)
  cipher_unpack_and_decrypt k associated_data ciphertext =
      let start = length ciphertext - A.nonce_len in
      if ltb (length ciphertext) (A.auth_tag_len + A.nonce_len)
      then none
      else A.decrypt_in_place k (drop start ciphertext) associated_data (take start ciphertext)

  unfoldable pub update_ciphers : Aead A → KeyStore A → Aead A
  update_ciphers s store = record {
    ciphers = store.active ∷ store.passive;
    revision = store.revision;
  }

  unfoldable pub compare_and_update_ciphers : Aead A → KeyStore A → Aead A
  unfolding update_ciphers
  compare_and_update_ciphers s store =
      if not (s.revision == store.revision) then update_ciphers s store else s

  unfoldable pub new : KeyStore A → Aead A
  unfolding update_ciphers
  new store = update_ciphers (record { ciphers = []; revision = 0 }) store

  -- `self.ciphers[0].encrypt_and_pack(..)`
  abbrev pub encrypt_with : Aead A → List ℕ → List ℕ → List ℕ → Outcome (Aead A × List ℕ)
  encrypt_with s nonce associated_data plaintext = elim s.ciphers [
    | [] ↦ panic
    | k ∷ ks ↦ done (s, cipher_encrypt_and_pack k nonce associated_data plaintext)
  ]

  unfoldable pub encrypt_and_pack :
      Aead A → KeyStore A → List ℕ → List ℕ → List ℕ → Outcome (Aead A × List ℕ)
  encrypt_and_pack s store nonce associated_data plaintext =
      encrypt_with (compare_and_update_ciphers s store) nonce associated_data plaintext

  -- The loop of `unpack_and_decrypt`: every cipher gets the original ciphertext.
  unfoldable pub first_decrypt : List A.Key → List ℕ → List ℕ → Option (List ℕ)
  first_decrypt [] associated_data ciphertext = none
  first_decrypt (k ∷ ks) associated_data ciphertext =
      let rest = first_decrypt ks associated_data ciphertext in
      elim (cipher_unpack_and_decrypt k associated_data ciphertext) [
        | some text ↦ some text
        | none ↦ rest
      ]

  unfoldable pub unpack_and_decrypt :
      Aead A → KeyStore A → List ℕ → List ℕ → Aead A × Option (List ℕ)
  unfolding compare_and_update_ciphers
  unpack_and_decrypt s store associated_data ciphertext =
      let s' = compare_and_update_ciphers s store in
      (s', first_decrypt s'.ciphers associated_data ciphertext)
