-- ===== src/Backend/Cid/Server/Routing.antt =====
-- A server finds its ID in the connection IDs that it generates (aquic-core/src/backend/cid/server.rs).
use aquic.Base.{
  ℕ, zero, suc, ◌+◌, ◌-◌, ◌*◌, ◌≤◌, ◌<◌, min, ◌≡◌, refl, sym, ap, ◌∙◌, inl, inr, Bool, false, some,
  List, [], ◌∷◌, ◌++◌, arith, ltb, ◌==◌, if◌then◌else◌, le→ltb, ==-cases, length, replicate, All,
  length-append, take, drop, take-drop, length-take, length-drop, done, ◌>>=◌,
}
use aquic.Backend.Cid.{max_cid_len, copy_from_slice, try_from_slice}
use aquic.Backend.Cid.Server.{
  Crates, IsCrates, write_bits, div_ceil, encrypt_four_pass, decrypt_four_pass,
}
use aquic.Backend.Cid.Server.Generator.{
  ServerConnectionIdGenerator, random_bits, write_entropy, build_cid, change_tail, generate,
  decrypt,
}
use aquic.Backend.Cid.Server.Layout.{
  cid_of, as_slice-cid_of, try_from_slice-cid_of, write_bits_behind, IsGenerator, routing_bits,
  routing_offset, length-routing_bits, write_ids-routing_bits,
}
use aquic.Backend.Cid.Server.Passes.{four_pass_lem}
use aquic.Util.Random.{fill_bytes, length-fill_bytes}

abbrev pub AreBytes : List ℕ → Type 0
AreBytes xs = All (λ byte. byte < 256) xs

take-AreBytes : (n : ℕ) (xs : List ℕ) → AreBytes xs → AreBytes (take n xs)
take-AreBytes zero xs h = tt
take-AreBytes (suc n) [] h = tt
take-AreBytes (suc n) (x ∷ xs) h = (h.0, take-AreBytes n xs h.1)

copy_from_slice-twice :
    (array xs ys : List ℕ)
    → length xs ≡ length ys
    → copy_from_slice (copy_from_slice array xs) ys ≡ copy_from_slice array ys
unfolding copy_from_slice
copy_from_slice-twice array [] [] h = refl
copy_from_slice-twice array [] (y ∷ ys) h = refl
copy_from_slice-twice array (x ∷ xs) [] h = absurd (omega arith)
copy_from_slice-twice [] (x ∷ xs) (y ∷ ys) h = refl
copy_from_slice-twice (a ∷ array) (x ∷ xs) (y ∷ ys) h =
    ap (λ t. y ∷ t) (copy_from_slice-twice array xs ys (omega arith))

-- A field at the front of a list that is cut off behind it.
field :
    (xs ys first rest : List Bool)
    → xs ++ ys ≡ first ++ rest
    → length first ≤ length xs
    → (take (length first) xs ≡ first) × (drop (length first) xs ++ ys ≡ rest)
field xs ys [] rest e h = (refl, e)
field [] ys (f ∷ first) rest e h = absurd (omega arith)
field (x ∷ xs) ys (f ∷ first) rest e h =
    let same : x ≡ f = cc in
    let behind : xs ++ ys ≡ first ++ rest = cc in
    let (front, back) = field xs ys first rest behind (omega arith) in (cc, back)

-- Two fields at the front of a list that is cut off behind them.
pub fields :
    (xs ys first second rest : List Bool)
    → xs ++ ys ≡ first ++ (second ++ rest)
    → length first + length second ≤ length xs
    → (take (length first) xs ≡ first) × (take (length second) (drop (length first) xs) ≡ second)
fields xs ys first second rest e h =
    let (front, behind) = field xs ys first (second ++ rest) e (omega arith) in
    let counts = length-drop (length first) xs (omega arith) in
    (front, (field (drop (length first) xs) ys second rest behind (omega arith)).0)

module _ (B : Crates) (law : IsCrates B) (s : ServerConnectionIdGenerator B)
    (random_bytes : ℕ → ℕ) where
  length-random_bits : (n : ℕ) → length (random_bits B n random_bytes) ≡ n
  length-random_bits n = length-take n (B.view_bits (fill_bytes (div_ceil n) random_bytes)) (
      omega (
        arith,
        law.view_length (fill_bytes (div_ceil n) random_bytes),
        length-fill_bytes (div_ceil n) random_bytes,
      ))

  -- How many bits are used.
  abbrev pub used_bits : ℕ
  used_bits = min (routing_offset B s + s.entropy_bits) 160

  pub build_cid-slice :
      IsGenerator B s
      → (slice : List ℕ) × (unused : List Bool) × (rest : List Bool) × (build_cid B s random_bytes
          ≡ done (cid_of slice))
        × AreBytes slice
        × (length slice ≡ div_ceil used_bits)
        × (B.view_bits slice ++ unused ≡ routing_bits B s ++ rest)
  unfolding build_cid write_entropy
  build_cid-slice v =
      let (old, e, count) = write_ids-routing_bits B s law v in
      let n = min (160 - routing_offset B s) s.entropy_bits in
      let entropy = random_bits B n random_bytes in
      let bits = write_bits (routing_bits B s ++ old) (routing_offset B s) entropy in
      let k = div_ceil (routing_offset B s + n) in
      let bytes = B.bytes_of bits in
      let slice = take k bytes in
      let behind : bits ≡ routing_bits B s ++ (entropy ++ drop (length entropy) old) =
        write_bits_behind (routing_offset B s) (routing_bits B s) old entropy
          (length-routing_bits B s law) in
      let entropy_length = length-random_bits n in
      let routing_length = length-routing_bits B s law in
      let room : length entropy ≤ length old = omega arith in
      let bits_length : length bits ≡ 8 * 20 = omega (
        arith,
        ap length behind,
        length-append (routing_bits B s) (entropy ++ drop (length entropy) old),
        length-append entropy (drop (length entropy) old),
        length-drop (length entropy) old room,
      ) in
      let viewed : B.view_bits bytes ≡ bits = law.view_bytes 20 bits bits_length in
      let bytes_length : length bytes ≡ 20 =
        omega (arith, law.view_length bytes, ap length viewed) in
      let small : routing_offset B s ≤ 56 = omega (arith, v.server_bits, v.core_bits) in
      let slice_length : length slice ≡ k = length-take k bytes (omega arith) in
      let enough : ltb n 32 ≡ false = le→ltb _ _ (omega (arith, v.entropy)) in
      let fits : try_from_slice slice ≡ some (cid_of slice) =
        try_from_slice-cid_of slice (omega arith) in
      let built : write_entropy B s random_bytes (routing_bits B s ++ old, routing_offset B s)
          ≡ done (cid_of slice) =
        rw (enough, fits) refl in
      (
        slice,
        B.view_bits (drop k bytes),
        entropy ++ drop (length entropy) old,
        ap (write_entropy B s random_bytes) e ∙ built,
        take-AreBytes k bytes (law.are_bytes bits),
        slice_length ∙ ap div_ceil (omega arith),
        sym (law.view_append slice (drop k bytes))
            ∙ ap B.view_bits (take-drop k bytes)
            ∙ viewed
            ∙ behind,
      )

  -- What `change_tail` makes of a tail of `n` bytes.
  abbrev through : ℕ → (List ℕ → List ℕ) → (List ℕ → List ℕ) → List ℕ → List ℕ
  through n on_block on_others tail = if suc n == 17 then on_block tail else on_others tail

  change_tail-cid_of :
      (on_block on_others : List ℕ → List ℕ) (first : ℕ) (tail tail' : List ℕ)
      → suc (length tail) ≤ max_cid_len
      → through (length tail) on_block on_others tail ≡ tail'
      → length tail' ≡ length tail
      → change_tail B on_block on_others (cid_of (first ∷ tail)) ≡ done (cid_of (first ∷ tail'))
  unfolding change_tail
  change_tail-cid_of on_block on_others first tail tail' h e same =
      let array : copy_from_slice (copy_from_slice (replicate max_cid_len 0) (first ∷ tail))
            (first ∷ tail')
          ≡ copy_from_slice (replicate max_cid_len 0) (first ∷ tail') =
        copy_from_slice-twice (replicate max_cid_len 0) (first ∷ tail) (first ∷ tail')
          (omega arith) in
      let changed : change_tail B on_block on_others (cid_of (first ∷ tail))
          ≡ done (record {
            array =
                copy_from_slice (cid_of (first ∷ tail)).array
                  (first ∷ through (length tail) on_block on_others tail);
            len = suc (length tail);
          }) =
        rw (as_slice-cid_of (first ∷ tail) h, change_tail) refl in
      changed
      ∙ ap
          (λ t. done (record {
            array = copy_from_slice (cid_of (first ∷ tail)).array (first ∷ t);
            len = suc (length tail);
          }))
          e
      ∙ ap (λ t. done (record { array = t; len = suc (length tail) })) array
      ∙ ap
          (λ n. done (record {
            array = copy_from_slice (replicate max_cid_len 0) (first ∷ tail');
            len = suc n;
          }))
          (sym same)

  abbrev hide : ℕ → List ℕ → List ℕ
  hide n tail = through n (B.encrypt_block s.cipher) (encrypt_four_pass B s.cipher) tail

  abbrev reveal : ℕ → List ℕ → List ℕ
  reveal n tail = through n (B.decrypt_block s.cipher) (decrypt_four_pass B s.cipher) tail

  reveal-hide :
      (n : ℕ) (tail : List ℕ)
      → length tail ≡ n
      → n ≤ 19
      → AreBytes tail
      → (reveal n (hide n tail) ≡ tail) × (length (hide n tail) ≡ length tail)
  reveal-hide n tail count h bytes = elim (==-cases (suc n) 17) [
    | inl (e, block) ↦ rw e (
      law.block_inverse s.cipher tail (omega arith) bytes,
      law.block_length s.cipher tail (omega arith) ∙ omega arith,
    )
    | inr (e, other) ↦ rw e (four_pass_lem B law s.cipher tail bytes (omega arith))
  ]

  -- What is encrypted is decrypted, and the first byte and the length stay.
  pub decrypt-generate :
      (first : ℕ) (tail : List ℕ)
      → AreBytes (first ∷ tail)
      → length (first ∷ tail) ≤ max_cid_len
      → build_cid B s random_bytes ≡ done (cid_of (first ∷ tail))
      → (hidden : List ℕ) × (generate B s random_bytes ≡ done (cid_of (first ∷ hidden)))
        × (decrypt B s (cid_of (first ∷ hidden)) ≡ done (cid_of (first ∷ tail)))
        × (length hidden ≡ length tail)
  unfolding generate decrypt
  decrypt-generate first tail bytes h e =
      let hidden = hide (length tail) tail in
      let (back, same) = reveal-hide (length tail) tail refl (omega arith) bytes.1 in
      let backwards : reveal (length hidden) hidden ≡ tail =
        ap (λ n. reveal n hidden) same ∙ back in
      (
        hidden,
        ap
              (λ o. o >>= (λ cid.
                change_tail B (B.encrypt_block s.cipher) (encrypt_four_pass B s.cipher) cid))
              e
            ∙ change_tail-cid_of (B.encrypt_block s.cipher) (encrypt_four_pass B s.cipher) first
                tail hidden h refl same,
        change_tail-cid_of (B.decrypt_block s.cipher) (decrypt_four_pass B s.cipher) first hidden
            tail (omega arith) backwards (sym same),
        same,
      )
