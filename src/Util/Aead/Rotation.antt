-- ===== src/Util/Aead/Rotation.antt =====
-- What was encrypted can be decrypted after the keys rotated (aquic-core/src/util/aead.rs).
use aquic.Base.{
  ℕ, ◌+◌, ◌-◌, ◌≡◌, refl, ap, ◌∙◌, inl, inr, false, none, some, List, [], ◌∷◌, ◌++◌, arith, ltb,
  ◌==◌, le→ltb, ==_iff, Bool-cases, length, All, length-append, take_append, drop_append, done,
}
use aquic.Util.Aead.{
  Algorithm, IsAead, KeyStore, Aead, cipher_encrypt_and_pack, cipher_unpack_and_decrypt,
  compare_and_update_ciphers, update_ciphers, encrypt_with, encrypt_and_pack, first_decrypt,
  unpack_and_decrypt,
}

module _ (A : Algorithm) where
  abbrev pub keys : KeyStore A → List A.Key
  keys store = store.active ∷ store.passive

  -- The ciphers are those of the store, if it still has the revision that they were made at.
  abbrev pub IsSynced : Aead A → KeyStore A → Type 0
  IsSynced s store = s.revision ≡ store.revision → s.ciphers ≡ keys store

  pub update-keys :
      (s : Aead A) (store : KeyStore A)
      → IsSynced s store
      → compare_and_update_ciphers A s store
        ≡ record { ciphers = keys store; revision = store.revision }
  unfolding compare_and_update_ciphers update_ciphers
  update-keys s store v = elim (Bool-cases (s.revision == store.revision)) [
    | inl e ↦ simp e (
        same_record (v ((==_iff s.revision store.revision).0 e))
          ((==_iff s.revision store.revision).0 e))
    | inr e ↦ simp e refl
  ]
    where
      same_record :
          s.ciphers ≡ keys store
          → s.revision ≡ store.revision
          → s ≡ record { ciphers = keys store; revision = store.revision }
      same_record c r =
          ap (λ (ks : List A.Key). record { ciphers = ks; revision = s.revision }) c
          ∙ ap (λ n. record { ciphers = keys store; revision = n }) r

  pub own_decrypt :
      IsAead A
      → (k : A.Key) (nonce associated text : List ℕ) → length nonce ≡ A.nonce_len
      → cipher_unpack_and_decrypt A k associated (cipher_encrypt_and_pack A k nonce associated text)
        ≡ some text
  unfolding cipher_unpack_and_decrypt
  own_decrypt law k nonce associated text h =
      let body = A.encrypt_in_place k nonce associated text in
      let start : length (body ++ nonce) - A.nonce_len ≡ length body =
        omega (arith, length-append body nonce) in
      let whole : ltb (length (body ++ nonce)) (A.auth_tag_len + A.nonce_len) ≡ false =
        le→ltb _ _ (omega (arith, length-append body nonce, law.tagged k nonce associated text)) in
      rw (whole, start, take_append body nonce, drop_append body nonce)
        (law.inverse k nonce associated text)

  pub first_decrypt-own :
      (before after : List A.Key) (k : A.Key) (associated sealed text : List ℕ)
      → All (λ k'. cipher_unpack_and_decrypt A k' associated sealed ≡ none) before
      → cipher_unpack_and_decrypt A k associated sealed ≡ some text
      → first_decrypt A (before ++ k ∷ after) associated sealed ≡ some text
  unfolding first_decrypt
  first_decrypt-own [] after k associated sealed text h e = rw (e, first_decrypt) refl
  first_decrypt-own (x ∷ before) after k associated sealed text h e =
      rw (h.0, first_decrypt) (first_decrypt-own before after k associated sealed text h.1 e)

  -- The ciphers of a store at its revision.
  abbrev pub synced : KeyStore A → Aead A
  synced store = record { ciphers = keys store; revision = store.revision }

  pub encrypt-active :
      (s : Aead A) (store : KeyStore A) (nonce associated text : List ℕ)
      → IsSynced s store
      → encrypt_and_pack A s store nonce associated text
        ≡ done (synced store, cipher_encrypt_and_pack A store.active nonce associated text)
  unfolding encrypt_and_pack
  encrypt-active s store nonce associated text v =
      ap (λ (u : Aead A). encrypt_with A u nonce associated text) (update-keys s store v)

  pub decrypt-keys :
      (t : Aead A) (store : KeyStore A) (associated sealed : List ℕ)
      → IsSynced t store
      → unpack_and_decrypt A t store associated sealed
        ≡ (synced store, first_decrypt A (keys store) associated sealed)
  unfolding unpack_and_decrypt
  decrypt-keys t store associated sealed v =
      ap (λ (u : Aead A). (u, first_decrypt A u.ciphers associated sealed)) (update-keys t store v)

  -- Under a store that still has the key, behind keys that refuse the ciphertext, it is decrypted.
  pub decrypt-own :
      IsAead A
      → (t : Aead A) (store : KeyStore A) (before after : List A.Key) (k : A.Key)
        (nonce associated text : List ℕ)
      → IsSynced t store
      → length nonce ≡ A.nonce_len
      → keys store ≡ before ++ k ∷ after
      → All
          (λ k'.
            cipher_unpack_and_decrypt A k' associated
              (cipher_encrypt_and_pack A k nonce associated text)
            ≡ none)
          before
      → unpack_and_decrypt A t store associated (cipher_encrypt_and_pack A k nonce associated text)
        ≡ (synced store, some text)
  decrypt-own law t store before after k nonce associated text v h has refused =
      let sealed = cipher_encrypt_and_pack A k nonce associated text in
      decrypt-keys t store associated sealed v
      ∙ ap (λ o. (synced store, o))
          (ap (λ ks. first_decrypt A ks associated sealed) has
            ∙ first_decrypt-own before after k associated sealed text refused
                (own_decrypt law k nonce associated text h))

  -- What `encrypt_and_pack` made under the active key of one store is decrypted under a later store, if
  -- that still has the key, and no key before it accepts the ciphertext.
  pub rotation_lem :
      IsAead A
      → (s t : Aead A) (store store' : KeyStore A) (before after : List A.Key)
        (nonce associated text : List ℕ)
      → IsSynced s store
      → IsSynced t store'
      → length nonce ≡ A.nonce_len
      → keys store' ≡ before ++ store.active ∷ after
      → All
          (λ k.
            cipher_unpack_and_decrypt A k associated
              (cipher_encrypt_and_pack A store.active nonce associated text)
            ≡ none)
          before
      → (s' t' : Aead A) × (sealed : List ℕ) × (encrypt_and_pack A s store nonce associated text
          ≡ done (s', sealed))
        × (unpack_and_decrypt A t store' associated sealed ≡ (t', some text))
        × IsSynced s' store
        × IsSynced t' store'
  rotation_lem law s t store store' before after nonce associated text vs vt h has refused = (
    synced store,
    synced store',
    cipher_encrypt_and_pack A store.active nonce associated text,
    encrypt-active s store nonce associated text vs,
    decrypt-own law t store' before after store.active nonce associated text vt h has refused,
    λ e. refl,
    λ e. refl,
  )
