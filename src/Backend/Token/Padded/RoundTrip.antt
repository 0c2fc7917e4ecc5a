-- ===== src/Backend/Token/Padded/RoundTrip.antt =====
-- A token that was generated is verified (aquic-core/src/backend/token/padded.rs).
use aquic.Base.{
  ℕ, ◌-◌, ◌*◌, ◌/◌, ◌≤◌, ◌<◌, ◌≡◌, refl, ap, ◌∙◌, ◌⊎◌, inl, inr, false, none, some, List, ◌∷◌, ◌++◌,
  arith, ltb, ◌==◌, if◌then◌else◌, ltb→lt, lt→ltb, le→ltb, ltb-cases, Bool-cases, length, All,
  length-append, word, done,
}
use aquic.Backend.Cid.{ConnectionId, as_slice, max_cid_len}
use aquic.Backend.Cid.Copies.{slice_lem, iter_lem}
use aquic.Backend.Token.{retry, invalid, expired, retry_token, Verified, valid, refused}
use aquic.Backend.Token.Padded.{
  IpAddr, nanos_per_milli, to_millis, drain_millis, to_systime, write_millis, write_random_padding,
  write_retry_associated_data, write_identity_associated_data, write_retry_plaintext_data,
  drain_padding, extract_retry_cid, extract_retry_plaintext_data, generate_retry_token,
  verify_retry_token, verify_identity_token, verify_token,
}
use aquic.Backend.Token.Padded.Bytes.{
  length-write_millis, drain_millis-write_millis, drain_padding-write_random_padding,
}
use aquic.Util.Aead.{
  Algorithm, IsAead, KeyStore, Aead, cipher_encrypt_and_pack, cipher_unpack_and_decrypt,
  first_decrypt, unpack_and_decrypt,
}
use aquic.Util.Aead.Rotation.{keys, IsSynced, synced, encrypt-active, decrypt-keys, decrypt-own}

-- The expiry that a token keeps: whole milliseconds.
abbrev pub truncated : ℕ → ℕ
truncated expires_at = expires_at / nanos_per_milli * nanos_per_milli

to_systime-to_millis :
    (at : ℕ) → at / nanos_per_milli < word → to_systime (to_millis at) ≡ truncated at
to_systime-to_millis at h = simp (lt→ltb _ _ h) refl

to_millis_lt : (at : ℕ) → to_millis at < word
to_millis_lt at = elim (Bool-cases (ltb (at / nanos_per_milli) word)) [
  | inl e ↦ rw e (ltb→lt _ _ e)
  | inr e ↦ rw e (omega arith)
]

-- What the extraction reads of the plaintext that was written for `dcid` and `at`.
abbrev pub retry_verdict : List ℕ → ℕ → ℕ → Verified
retry_verdict dcid at now =
    if ltb at now then refused (expired retry at) else extract_retry_cid at (some dcid)

extract-drained :
    (buf token rest : List ℕ) (millis now : ℕ)
    → drain_millis buf ≡ some (token, millis)
    → drain_padding token ≡ some rest
    → extract_retry_plaintext_data buf now ≡ retry_verdict rest (to_systime millis) now
unfolding extract_retry_plaintext_data
extract-drained buf token rest millis now e d = rw (e, extract_retry_plaintext_data) (rw d refl)

extract-write_retry :
    (dcid : List ℕ) (at : ℕ) (random_bytes : ℕ → ℕ) (now : ℕ)
    → at / nanos_per_milli < word
    → extract_retry_plaintext_data (write_retry_plaintext_data dcid at random_bytes) now
      ≡ retry_verdict dcid (truncated at) now
unfolding extract_retry_plaintext_data write_retry_plaintext_data
extract-write_retry dcid at random_bytes now h =
    let written = dcid ++ write_random_padding (max_cid_len - length dcid) random_bytes in
    extract-drained (written ++ write_millis (to_millis at)) written dcid (to_millis at) now
      (drain_millis-write_millis written (to_millis at) (to_millis_lt at))
      (drain_padding-write_random_padding (max_cid_len - length dcid) dcid random_bytes)
    ∙ ap (λ time. retry_verdict dcid time now) (to_systime-to_millis at h)

abbrev pub IsRetryVerdict : List ℕ → ℕ → ℕ → Verified → Type 0
IsRetryVerdict dcid at now v =
    (at < now × (v ≡ refused (expired retry at)))
    ⊎ ((now ≤ at
          × length dcid < max_cid_len
          × ((id : ConnectionId) × (v ≡ valid (retry_token id at)) × (as_slice id ≡ dcid)))
        ⊎ (now ≤ at × length dcid ≡ max_cid_len × (v ≡ refused invalid)))

extract-short :
    (dcid : List ℕ) (at : ℕ)
    → length dcid < max_cid_len
    → (id : ConnectionId) × (extract_retry_cid at (some dcid) ≡ valid (retry_token id at))
      × (as_slice id ≡ dcid)
unfolding extract_retry_cid
extract-short dcid at h =
    let (id, e, same, l) = (slice_lem dcid).0 (omega arith) in
    (id, rw ((iter_lem dcid).0 h ∙ e, extract_retry_cid) refl, same)

extract-full :
    (dcid : List ℕ) (at : ℕ)
    → max_cid_len ≤ length dcid
    → extract_retry_cid at (some dcid) ≡ refused invalid
unfolding extract_retry_cid
extract-full dcid at h = rw ((iter_lem dcid).1 h, extract_retry_cid) refl

verdict_cases :
    (dcid : List ℕ) (at now : ℕ)
    → length dcid ≤ max_cid_len
    → IsRetryVerdict dcid at now (retry_verdict dcid at now)
verdict_cases dcid at now h = elim (ltb-cases at now) [
  | inl (e, late) ↦ inl (late, simp e refl)
  | inr (e, early) ↦ inr (elim (ltb-cases (length dcid) max_cid_len) [
    | inl (_, short) ↦
        let (id, v, same) = extract-short dcid at short in inl (early, short, (id, simp e v, same))
    | inr (_, full) ↦ inr (early, omega arith, simp e (extract-full dcid at full))
  ])
]

sealed-length :
    (A : Algorithm)
    → IsAead A
    → (k : A.Key) (nonce associated text : List ℕ)
    → length text ≤ length (cipher_encrypt_and_pack A k nonce associated text)
sealed-length A law k nonce associated text = omega (
  arith,
  length-append (A.encrypt_in_place k nonce associated text) nonce,
  law.tagged k nonce associated text,
)

plaintext_length :
    (dcid : List ℕ) (at : ℕ) (random_bytes : ℕ → ℕ)
    → 8 ≤ length (write_retry_plaintext_data dcid at random_bytes)
unfolding write_retry_plaintext_data
plaintext_length dcid at random_bytes =
    let written = dcid ++ write_random_padding (max_cid_len - length dcid) random_bytes in
    omega (
      arith,
      length-append written (write_millis (to_millis at)),
      length-write_millis (to_millis at),
    )

module _ (A : Algorithm) (t t' : Aead A) (store : KeyStore A) (peer_addr : IpAddr)
    (peer_scid peer_dcid token : List ℕ) (now : ℕ) where
  verify_token-identity_refused :
      (length token == 0) ≡ false
      → length peer_scid ≤ max_cid_len
      → length peer_dcid ≤ max_cid_len
      → unpack_and_decrypt A t store (write_identity_associated_data peer_addr) token ≡ (t', none)
      → verify_token A t store peer_addr peer_scid peer_dcid token now
        ≡ verify_retry_token A t' store peer_addr peer_scid peer_dcid token now
  unfolding verify_token verify_identity_token
  verify_token-identity_refused some_bytes fits1 fits2 e =
      rw
        (
          some_bytes,
          le→ltb max_cid_len (length peer_scid) fits1,
          le→ltb max_cid_len (length peer_dcid) fits2,
          e,
        )
        refl

  verify_retry_token-text :
      (text : List ℕ)
      → unpack_and_decrypt A t store
          (write_retry_associated_data peer_addr peer_scid peer_dcid)
          token
        ≡ (t', some text)
      → verify_retry_token A t store peer_addr peer_scid peer_dcid token now
        ≡ (t', extract_retry_plaintext_data text now)
  unfolding verify_retry_token
  verify_retry_token-text text e = rw e refl

-- The token that `generate_retry_token` makes for `peer_dcid` under one state of the key store is
-- verified under another, if ...
pub retry_round_trip :
    (A : Algorithm)
    → IsAead A
    → (s t : Aead A) (store store' : KeyStore A) (before after : List A.Key) (nonce : List ℕ)
      (random_bytes : ℕ → ℕ) (peer_addr : IpAddr) (peer_scid peer_dcid server_new_scid : List ℕ)
      (expires_at now : ℕ)
    → IsSynced A s store
    → IsSynced A t store'
    → length nonce ≡ A.nonce_len
    → keys A store' ≡ before ++ store.active ∷ after
    → length peer_scid ≤ max_cid_len
    → length peer_dcid ≤ max_cid_len
    → length server_new_scid ≤ max_cid_len
    → expires_at / nanos_per_milli < word
    → (let sealed =
          cipher_encrypt_and_pack A store.active nonce
            (write_retry_associated_data peer_addr peer_scid server_new_scid)
            (write_retry_plaintext_data peer_dcid expires_at random_bytes) in
        All
          (λ k.
            cipher_unpack_and_decrypt A k
              (write_retry_associated_data peer_addr peer_scid server_new_scid)
              sealed
            ≡ none)
          before
        × (first_decrypt A (keys A store') (write_identity_associated_data peer_addr) sealed
            ≡ none))
    → (token : List ℕ) × (v : Verified) × (generate_retry_token A s store nonce random_bytes
          peer_addr peer_scid peer_dcid server_new_scid expires_at
        ≡ done (synced A store, some token))
      × (verify_token A t store' peer_addr peer_scid server_new_scid token now
          ≡ (synced A store', v))
      × IsRetryVerdict peer_dcid (truncated expires_at) now v
unfolding generate_retry_token
retry_round_trip A law s t store store' before after nonce random_bytes peer_addr peer_scid
      peer_dcid server_new_scid expires_at now vs vt hn has h1 h2 h3 hm
      (refused_before, not_identity) =
    let associated = write_retry_associated_data peer_addr peer_scid server_new_scid in
    let text = write_retry_plaintext_data peer_dcid expires_at random_bytes in
    let sealed = cipher_encrypt_and_pack A store.active nonce associated text in
    let some_bytes : (length sealed == 0) ≡ false = ground (
      arith,
      sealed-length A law store.active nonce associated text,
      plaintext_length peer_dcid expires_at random_bytes,
    ) in
    let fits1 : ltb max_cid_len (length peer_scid) ≡ false = le→ltb _ _ h1 in
    let fits2 : ltb max_cid_len (length peer_dcid) ≡ false = le→ltb _ _ h2 in
    let fits3 : ltb max_cid_len (length server_new_scid) ≡ false = le→ltb _ _ h3 in
    (
      sealed,
      retry_verdict peer_dcid (truncated expires_at) now,
      rw (fits1, fits2, fits3, encrypt-active A s store nonce associated text vs) refl,
      verify_token-identity_refused A t (synced A store') store' peer_addr peer_scid server_new_scid
            sealed now some_bytes h1 h3
            (decrypt-keys A t store' (write_identity_associated_data peer_addr) sealed vt
              ∙ ap (λ o. (synced A store', o)) not_identity)
          ∙ verify_retry_token-text A (synced A store') (synced A store') store' peer_addr peer_scid
              server_new_scid sealed now text
              (decrypt-own A law (synced A store') store' before after store.active nonce associated
                text (λ e. refl) hn has refused_before)
          ∙ ap (λ v. (synced A store', v))
              (extract-write_retry peer_dcid expires_at random_bytes now hm),
      verdict_cases peer_dcid (truncated expires_at) now h2,
    )
