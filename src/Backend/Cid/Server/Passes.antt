-- ===== src/Backend/Cid/Server/Passes.antt =====
-- Decryption gives back what was encrypted (aquic-core/src/backend/cid/server.rs).
use aquic.Base.{
  ℕ, ◌+◌, ◌-◌, ◌*◌, ◌/◌, ◌%◌, ◌≤◌, ◌<◌, ◌≡◌, refl, sym, ap, ◌∙◌, Bool, false, List, [], ◌∷◌, ◌++◌,
  arith, length, replicate, All, length-append, length-replicate, take, drop, take_append_at,
  drop_append_at, take-drop, length-take, length-drop,
}
use aquic.Backend.Cid.Server.{
  Crates, IsCrates, encrypt_rounds, decrypt_rounds, left_half, right_half, joined, four_pass,
  encrypt_four_pass, decrypt_four_pass,
}
use aquic.Backend.Cid.Server.Rounds.{encrypted, decrypted, decrypt-encrypt_rounds, encrypted-frame}

abbrev pub zeros : ℕ → List Bool
zeros n = replicate n false

module _ (B : Crates) (cipher : B.Key) (cid_len : ℕ) where
  -- `four_pass` of the two functions, with a number of rounds.
  abbrev pub encrypt_bits : ℕ → List Bool → List Bool
  encrypt_bits n p =
      four_pass B (λ k c l r left right. encrypt_rounds B n k c l r 0 left right) cipher cid_len p

  abbrev pub decrypt_bits : ℕ → List Bool → List Bool
  decrypt_bits n p =
      four_pass B (λ k c l r left right. decrypt_rounds B n k c l r (2 * n) left right) cipher
        cid_len p

  module _ (n : ℕ) (p : List Bool) (fits : length p ≤ 2 * 128) where
    abbrev l : ℕ
    l = length p / 2

    abbrev r : ℕ
    r = length p - l

    abbrev halves : List Bool × List Bool
    halves = encrypted B cipher cid_len l r n 0 (left_half B p, right_half B p)

    length-left_half : length (left_half B p) ≡ 128
    length-left_half = omega (
      arith,
      length-append (take l p) (zeros (128 - l)),
      length-take l p (omega arith),
      length-replicate (128 - l) false,
    )

    length-right_half : length (right_half B p) ≡ 128
    length-right_half = omega (
      arith,
      length-append (zeros (128 - r)) (drop l p),
      length-drop l p (omega arith),
      length-replicate (128 - r) false,
    )

    joined_halves : joined B l r (left_half B p, right_half B p) ≡ p
    joined_halves =
        let front : take l (take l p ++ zeros (128 - l)) ≡ take l p =
          take_append_at l (take l p) (zeros (128 - l)) (length-take l p (omega arith)) in
        let back : drop (128 - r) (zeros (128 - r) ++ drop l p) ≡ drop l p =
          drop_append_at (128 - r) (zeros (128 - r)) (drop l p)
            (length-replicate (128 - r) false) in
        ap (λ t. t ++ drop (128 - r) (right_half B p)) front
        ∙ ap (λ t. take l p ++ t) back
        ∙ take-drop l p

    length-front : length (take l halves.0) ≡ l
    length-front =
        let (hl, hr, d, t) =
          encrypted-frame B cipher cid_len l r n 0 (left_half B p) (right_half B p) in
        length-take l halves.0 (omega (arith, hl, length-left_half))

    pub length-encrypt_bits : length (encrypt_bits n p) ≡ length p
    length-encrypt_bits =
        let (hl, hr, d, t) =
          encrypted-frame B cipher cid_len l r n 0 (left_half B p) (right_half B p) in
        omega (
          arith,
          length-append (take l halves.0) (drop (128 - r) halves.1),
          length-front,
          length-drop (128 - r) halves.1 (omega (arith, hr, length-right_half)),
          hr,
          length-right_half,
        )

    -- The halves of what was encrypted are those that the rounds left.
    left_half-encrypt_bits : take l (encrypt_bits n p) ++ zeros (128 - l) ≡ halves.0
    left_half-encrypt_bits =
        let (hl, hr, d, t) =
          encrypted-frame B cipher cid_len l r n 0 (left_half B p) (right_half B p) in
        ap (λ t. t ++ zeros (128 - l))
          (take_append_at l (take l halves.0) (drop (128 - r) halves.1) length-front)
        ∙ ap (λ t. take l halves.0 ++ t)
            (sym
              (d ∙ drop_append_at l (take l p) (zeros (128 - l)) (length-take l p (omega arith))))
        ∙ take-drop l halves.0

    right_half-encrypt_bits : zeros (128 - r) ++ drop l (encrypt_bits n p) ≡ halves.1
    right_half-encrypt_bits =
        let (hl, hr, d, t) =
          encrypted-frame B cipher cid_len l r n 0 (left_half B p) (right_half B p) in
        ap (λ t. zeros (128 - r) ++ t)
          (drop_append_at l (take l halves.0) (drop (128 - r) halves.1) length-front)
        ∙ ap (λ t. t ++ drop (128 - r) halves.1)
            (sym (
              t
              ∙ take_append_at (128 - r) (zeros (128 - r)) (drop l p)
                  (length-replicate (128 - r) false)))
        ∙ take-drop (128 - r) halves.1

    -- `decrypt_bits` of `q`, taken for a list of `m` bits.
    abbrev decrypt_at : ℕ → List Bool → List Bool
    decrypt_at m q = joined B (m / 2) (m - m / 2) (
        decrypted B cipher cid_len (m / 2) (m - m / 2) n (2 * n)
          (take (m / 2) q ++ zeros (128 - m / 2), zeros (128 - (m - m / 2)) ++ drop (m / 2) q))

    pub decrypt-encrypt_bits : decrypt_bits n (encrypt_bits n p) ≡ p
    decrypt-encrypt_bits =
        let q = encrypt_bits n p in
        ap (λ m. decrypt_at m q) length-encrypt_bits
        ∙ ap
            (λ x.
              joined B l r
                (decrypted B cipher cid_len l r n (2 * n) (x, zeros (128 - r) ++ drop l q)))
            left_half-encrypt_bits
        ∙ ap (λ x. joined B l r (decrypted B cipher cid_len l r n (2 * n) (halves.0, x)))
            right_half-encrypt_bits
        ∙ ap (joined B l r)
            (decrypt-encrypt_rounds B cipher cid_len l r n (left_half B p, right_half B p))
        ∙ joined_halves

-- What `encrypt_four_pass` makes of at most 32 bytes has as many bytes, and `decrypt_four_pass` gives
-- them back, whatever the block cipher is.
module _ (B : Crates) (law : IsCrates B) (cipher : B.Key) where
  length-bytes_of : (n : ℕ) (bits : List Bool) → length bits ≡ 8 * n → length (B.bytes_of bits) ≡ n
  length-bytes_of n bits h =
      omega (arith, law.view_length (B.bytes_of bits), ap length (law.view_bytes n bits h))

  encrypt_four_pass-eq :
      (xs : List ℕ)
      → 0 < length xs
      → encrypt_four_pass B cipher xs
        ≡ B.bytes_of (encrypt_bits B cipher (length xs % 256 + 1) 2 (B.view_bits xs))
  unfolding encrypt_four_pass
  encrypt_four_pass-eq [] h = absurd (omega arith)
  encrypt_four_pass-eq (x ∷ xs) h = refl

  decrypt_four_pass-eq :
      (xs : List ℕ)
      → 0 < length xs
      → decrypt_four_pass B cipher xs
        ≡ B.bytes_of (decrypt_bits B cipher (length xs % 256 + 1) 2 (B.view_bits xs))
  unfolding decrypt_four_pass
  decrypt_four_pass-eq [] h = absurd (omega arith)
  decrypt_four_pass-eq (x ∷ xs) h = refl

  pub four_pass_lem :
      (xs : List ℕ)
      → All (λ byte. byte < 256) xs
      → length xs ≤ 32
      → (decrypt_four_pass B cipher (encrypt_four_pass B cipher xs) ≡ xs)
        × (length (encrypt_four_pass B cipher xs) ≡ length xs)
  unfolding encrypt_four_pass decrypt_four_pass
  four_pass_lem [] bytes h = (refl, refl)
  four_pass_lem (x ∷ xs) bytes h =
      let p = B.view_bits (x ∷ xs) in
      let c = length (x ∷ xs) % 256 + 1 in
      let q = encrypt_bits B cipher c 2 p in
      let fits : length p ≤ 2 * 128 = omega (arith, law.view_length (x ∷ xs)) in
      let same : length q ≡ 8 * length (x ∷ xs) =
        length-encrypt_bits B cipher c 2 p fits ∙ law.view_length (x ∷ xs) in
      let count : length (B.bytes_of q) ≡ length (x ∷ xs) =
        length-bytes_of (length (x ∷ xs)) q same in
      (
        decrypt_four_pass-eq (B.bytes_of q) (omega (arith, count))
            ∙ ap
                (λ k.
                  B.bytes_of (decrypt_bits B cipher (k % 256 + 1) 2 (B.view_bits (B.bytes_of q))))
                count
            ∙ ap (λ t. B.bytes_of (decrypt_bits B cipher c 2 t))
                (law.view_bytes (length (x ∷ xs)) q same)
            ∙ ap B.bytes_of (decrypt-encrypt_bits B cipher c 2 p fits)
            ∙ law.bytes_view (x ∷ xs) bytes,
        count,
      )
