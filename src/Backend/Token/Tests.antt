-- ===== src/Backend/Token/Tests.antt =====
-- Tests of the tokens, with a cipher whose tag is a sum.
use aquic.Base.{
  ℕ, ◌+◌, ◌≤◌, ◌<◌, ◌≡◌, refl, ap, ◌∙◌, ◌≢◌, ◌⊎◌, true, Option, none, some, List, [], ◌∷◌, ◌++◌,
  arith, ◌==◌, if◌then◌else◌, ==_iff, length, get_or, replicate, length-append, done,
}
use aquic.Backend.Token.{Verified, write_stateless_reset_packet}
use aquic.Backend.Token.Reset.{IsResetPacket, stateless_reset_lem}
use aquic.Backend.Token.Padded.{
  IpAddr, v4, v6, pop, write_padding, write_random_padding, write_millis, to_be_bytes,
  write_retry_associated_data, write_identity_associated_data, write_retry_plaintext_data,
  generate_retry_token, verify_token,
}
use aquic.Backend.Token.Padded.Bytes.{pop_append}
use aquic.Backend.Token.Padded.Fields.{associated_data_injective}
use aquic.Backend.Token.Padded.RoundTrip.{truncated, IsRetryVerdict, retry_round_trip}
use aquic.Util.Aead.{
  Algorithm, IsAead, KeyStore, Aead, cipher_encrypt_and_pack, cipher_unpack_and_decrypt,
  first_decrypt,
}
use aquic.Util.Random.{fill_bytes}
use aquic.Util.Aead.Rotation.{keys, synced}

abbrev tag : ℕ → List ℕ → ℕ
tag k associated = k + get_or associated 0 0

check_tag : ℕ → List ℕ → Option (List ℕ × ℕ) → Option (List ℕ)
check_tag k associated none = none
check_tag k associated (some (text, t)) = if t == tag k associated then some text else none

abbrev sum_algorithm : Algorithm
sum_algorithm = record {
  Key = ℕ;
  nonce_len = 2;
  auth_tag_len = 1;
  encrypt_in_place = λ k nonce associated text. text ++ tag k associated ∷ [];
  decrypt_in_place = λ k nonce associated text. check_tag k associated (pop text);
}

sum_algorithm-IsAead : IsAead sum_algorithm
unfolding check_tag
sum_algorithm-IsAead = record {
  inverse = λ k nonce associated text.
      ap (check_tag k associated) (pop_append text (tag k associated))
      ∙ (simp ((==_iff (tag k associated) (tag k associated)).1 refl) refl);
  tagged = λ k nonce associated text. length-append text (tag k associated ∷ []);
}

abbrev before_rotation : KeyStore sum_algorithm
before_rotation = record { active = 7; passive = []; revision = 1 }

abbrev after_rotation : KeyStore sum_algorithm
after_rotation = record { active = 9; passive = 7 ∷ []; revision = 2 }

abbrev aead : Aead sum_algorithm
aead = record { ciphers = 7 ∷ []; revision = 1 }

abbrev peer : IpAddr
peer = v4 (10 ∷ 0 ∷ 0 ∷ 1 ∷ [])

abbrev scid : List ℕ
scid = 1 ∷ 2 ∷ []

abbrev dcid : List ℕ
dcid = replicate 8 5

abbrev new_scid : List ℕ
new_scid = 3 ∷ 4 ∷ 5 ∷ []

abbrev nonce : List ℕ
nonce = 6 ∷ 6 ∷ []

abbrev now : ℕ
now = 1000000000

abbrev expires : ℕ
expires = 2000000005

other_keys_refuse :
    (cipher_unpack_and_decrypt sum_algorithm 9 (write_retry_associated_data peer scid new_scid) (
        cipher_encrypt_and_pack sum_algorithm 7 nonce
          (write_retry_associated_data peer scid new_scid)
          (write_retry_plaintext_data dcid expires (λ i. i)))
      ≡ none)
    × (first_decrypt sum_algorithm
          (keys sum_algorithm after_rotation)
          (write_identity_associated_data peer)
          (cipher_encrypt_and_pack sum_algorithm 7 nonce
            (write_retry_associated_data peer scid new_scid)
            (write_retry_plaintext_data dcid expires (λ i. i)))
        ≡ none)
unfolding check_tag pop cipher_unpack_and_decrypt first_decrypt write_retry_associated_data
    write_identity_associated_data write_retry_plaintext_data write_padding write_random_padding
    write_millis to_be_bytes fill_bytes
other_keys_refuse = (refl, refl)

-- A token is made under one key and verified under the next.
retry_round_trip_example :
    (token : List ℕ) × (v : Verified) × (generate_retry_token sum_algorithm aead before_rotation
        nonce
        (λ i. i)
        peer
        scid
        dcid
        new_scid
        expires
      ≡ done (synced sum_algorithm before_rotation, some token))
    × (verify_token sum_algorithm aead after_rotation peer scid new_scid token now
        ≡ (synced sum_algorithm after_rotation, v))
    × IsRetryVerdict dcid (truncated expires) now v
retry_round_trip_example =
    retry_round_trip sum_algorithm sum_algorithm-IsAead aead aead before_rotation after_rotation
      (9 ∷ []) [] nonce (λ i. i) peer scid dcid new_scid expires now (λ e. refl)
      (λ e. absurd (omega (arith, e))) refl refl (omega arith) (omega arith) (omega arith)
      (omega arith) ((other_keys_refuse.0, tt), other_keys_refuse.1)

associated_data_injective_example :
    (write_retry_associated_data peer scid dcid
        ≡ write_retry_associated_data (v6 (replicate 16 0)) scid dcid
      → (peer ≡ v6 (replicate 16 0)) × (scid ≡ scid) × (dcid ≡ dcid))
    × (write_retry_associated_data peer scid dcid
        ≢ write_identity_associated_data (v6 (replicate 16 0)))
associated_data_injective_example =
    associated_data_injective peer (v6 (replicate 16 0)) scid scid dcid dcid refl refl (omega arith)
      (omega arith)

abbrev smallest : ℕ → ℕ → ℕ
smallest a b = a

abbrev reset_token : List ℕ
reset_token = replicate 16 1

abbrev out : List ℕ
out = replicate 40 0

stateless_reset_lem_example :
    (30 ≤ 21
      × (write_stateless_reset_packet true 30 40 reset_token smallest 255 (λ i. i) out ≡ done none))
    ⊎ ((n : ℕ) × (out' : List ℕ) × (write_stateless_reset_packet true 30 40 reset_token smallest 255
            (λ i. i)
            out
          ≡ done (some (n, out')))
        × 21 ≤ n
        × n < 30
        × n ≤ 40
        × IsResetPacket reset_token n out'
        × (length out' ≡ length out))
stateless_reset_lem_example =
    stateless_reset_lem true 30 40 reset_token smallest 255 (λ i. i) out (λ a b h. (omega arith, h))
      refl (omega arith) (omega arith)
