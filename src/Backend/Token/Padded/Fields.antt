-- ===== src/Backend/Token/Padded/Fields.antt =====
-- The associated data of a token tells the addresses and the connection IDs apart
-- (aquic-core/src/backend/token/padded.rs).
use aquic.Base.{
  ℕ, zero, suc, ◌-◌, ◌≤◌, ◌≡◌, refl, sym, ap, ◌∙◌, ◌≢◌, some, List, [], ◌∷◌, ◌++◌, arith, length,
  get_or, replicate, length-append, length-replicate, append_injective,
}
use aquic.Backend.Cid.{max_cid_len}
use aquic.Util.Random.{fill_bytes}
use aquic.Backend.Token.Padded.{
  IpAddr, v4, v6, octets, length_of_ip_addr, write_padding, write_random_padding,
  write_retry_associated_data, write_identity_associated_data, drain_padding,
}
use aquic.Backend.Token.Padded.Bytes.{drain_padding-write_random_padding}

replicate-snoc : (n a : ℕ) → replicate n a ++ a ∷ [] ≡ replicate (suc n) a
replicate-snoc zero a = refl
replicate-snoc (suc n) a = ap (λ t. a ∷ t) (replicate-snoc n a)

fill_bytes-zeros : (n : ℕ) → fill_bytes n (λ i. 0) ≡ replicate n 0
unfolding fill_bytes
fill_bytes-zeros zero = refl
fill_bytes-zeros (suc n) = ap (λ t. t ++ 0 ∷ []) (fill_bytes-zeros n) ∙ replicate-snoc n 0

drain_padding-write_padding :
    (n : ℕ) (xs : List ℕ) → drain_padding (xs ++ write_padding n) ≡ some xs
unfolding write_padding write_random_padding
drain_padding-write_padding n xs =
    ap (λ t. drain_padding (xs ++ (t ++ n ∷ []))) (sym (fill_bytes-zeros n))
    ∙ drain_padding-write_random_padding n xs (λ i. 0)

-- A field that is padded to `n` bytes.
abbrev padded : ℕ → List ℕ → List ℕ
padded n xs = xs ++ write_padding (n - length xs)

length-padded : (n : ℕ) (xs : List ℕ) → length xs ≤ n → length (padded n xs) ≡ suc n
unfolding write_padding
length-padded n xs h =
    let zeros : List ℕ = replicate (n - length xs) 0 in
    omega (
      arith,
      length-append xs (zeros ++ (n - length xs) ∷ []),
      length-append zeros ((n - length xs) ∷ []),
      length-replicate {A = ℕ} (n - length xs) 0,
    )

padded_injective : (n : ℕ) (xs ys : List ℕ) → padded n xs ≡ padded n ys → xs ≡ ys
padded_injective n xs ys e =
    let same : some xs ≡ some ys =
      sym (drain_padding-write_padding (n - length xs) xs)
      ∙ ap drain_padding e
      ∙ drain_padding-write_padding (n - length ys) ys in
    cc

-- Two padded fields that stand in front of other bytes.
field_injective :
    (n : ℕ) (xs ys rest rest' : List ℕ)
    → length xs ≤ n
    → length ys ≤ n
    → padded n xs ++ rest ≡ padded n ys ++ rest'
    → (xs ≡ ys) × (rest ≡ rest')
field_injective n xs ys rest rest' h h' e =
    let (front, back) =
      append_injective (padded n xs) (padded n ys) rest rest'
        (length-padded n xs h ∙ sym (length-padded n ys h')) e in
    (padded_injective n xs ys front, back)

-- `IpAddr` has four or sixteen octets.
abbrev pub IsIpAddr : IpAddr → Type 0
IsIpAddr (v4 bytes) = length bytes ≡ 4
IsIpAddr (v6 bytes) = length bytes ≡ 16

octets_injective : (a b : IpAddr) → IsIpAddr a → IsIpAddr b → octets a ≡ octets b → a ≡ b
octets_injective (v4 xs) (v4 ys) h h' e = ap v4 e
octets_injective (v4 xs) (v6 ys) h h' e = absurd (omega (arith, ap length e))
octets_injective (v6 xs) (v4 ys) h h' e = absurd (omega (arith, ap length e))
octets_injective (v6 xs) (v6 ys) h h' e = ap v6 e

length_of_ip_addr_le : (a : IpAddr) → IsIpAddr a → length_of_ip_addr a ≤ 16
length_of_ip_addr_le (v4 xs) h = omega arith
length_of_ip_addr_le (v6 xs) h = omega arith

-- Two retry tokens have the same associated data only if they have the same address and the same
-- connection IDs, where source connection IDs have at most `MAX_CID_LEN` bytes. No identity token has
-- the associated data of a retry token.
pub associated_data_injective :
    (a b : IpAddr) (scid scid' dcid dcid' : List ℕ)
    → IsIpAddr a
    → IsIpAddr b
    → length scid ≤ max_cid_len
    → length scid' ≤ max_cid_len
    → (write_retry_associated_data a scid dcid ≡ write_retry_associated_data b scid' dcid'
        → (a ≡ b) × (scid ≡ scid') × (dcid ≡ dcid'))
      × (write_retry_associated_data a scid dcid ≢ write_identity_associated_data b)
unfolding write_retry_associated_data write_identity_associated_data
associated_data_injective a b scid scid' dcid dcid' ha hb hs hs' = (
  λ e.
      let (addrs, rest) =
        field_injective 16 (octets a) (octets b) (padded max_cid_len scid ++ dcid)
          (padded max_cid_len scid' ++ dcid') (length_of_ip_addr_le a ha)
          (length_of_ip_addr_le b hb) (ap tail e) in
      let (scids, dcids) = field_injective max_cid_len scid scid' dcid dcid' hs hs' rest in
      (octets_injective a b ha hb addrs, scids, dcids),
  λ e. absurd (omega (arith, ap (λ t. get_or t 0 0) e)),
)
  where
    tail : List ℕ → List ℕ
    tail [] = []
    tail (x ∷ xs) = xs
