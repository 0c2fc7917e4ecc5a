-- ===== src/Backend/Cid/Server/Rounds.antt =====
-- The four passes of decryption undo those of encryption (aquic-core/src/backend/cid/server.rs).
use aquic.Base.{
  ℕ, zero, suc, ◌+◌, ◌-◌, ◌*◌, ◌≡◌, refl, ap, ◌∙◌, Bool, true, false, not, List, [], ◌∷◌, ◌++◌,
  arith, length, replicate, take, drop,
}
use aquic.Backend.Cid.Server.{
  Crates, truncate_left, truncate_right, xor_bits, left_mask, right_mask, encrypt_rounds,
  decrypt_rounds, aes_block_size_bits, aes_ecb, expand_left, expand_right,
}

pub xor_bits_involutive : (xs ys : List Bool) → xor_bits (xor_bits xs ys) ys ≡ xs
unfolding xor_bits
xor_bits_involutive [] ys = refl
xor_bits_involutive (x ∷ xs) [] = refl
xor_bits_involutive (x ∷ xs) (true ∷ ys) = rw (not-not x, xor_bits_involutive xs ys) refl
  where
    not-not : (b : Bool) → not (not b) ≡ b
    not-not true = refl
    not-not false = refl
xor_bits_involutive (x ∷ xs) (false ∷ ys) = ap (λ t. x ∷ t) (xor_bits_involutive xs ys)

pub length-xor_bits : (xs ys : List Bool) → length (xor_bits xs ys) ≡ length xs
unfolding xor_bits
length-xor_bits [] ys = refl
length-xor_bits (x ∷ xs) [] = refl
length-xor_bits (x ∷ xs) (y ∷ ys) = ap suc (length-xor_bits xs ys)

xor_bits-zeros : (xs : List Bool) (n : ℕ) → xor_bits xs (replicate n false) ≡ xs
unfolding xor_bits
xor_bits-zeros [] n = refl
xor_bits-zeros (x ∷ xs) zero = refl
xor_bits-zeros (x ∷ xs) (suc n) = ap (λ t. x ∷ t) (xor_bits-zeros xs n)

-- What is behind the first `n` bits stays when the mask has no bit there.
drop-xor_bits_truncated :
    (n m : ℕ) (xs val : List Bool)
    → drop n (xor_bits xs (take n val ++ replicate m false)) ≡ drop n xs
unfolding xor_bits
drop-xor_bits_truncated zero m xs val = xor_bits-zeros xs m
drop-xor_bits_truncated (suc n) m [] val = refl
drop-xor_bits_truncated (suc n) m (x ∷ xs) [] = ap (drop (suc n)) (xor_bits-zeros (x ∷ xs) m)
drop-xor_bits_truncated (suc n) m (x ∷ xs) (v ∷ val) = drop-xor_bits_truncated n m xs val

-- What is before the last bits stays when the mask has no bit there.
take-xor_bits_truncated :
    (n : ℕ) (xs val : List Bool) → take n (xor_bits xs (replicate n false ++ val)) ≡ take n xs
unfolding xor_bits
take-xor_bits_truncated zero xs val = refl
take-xor_bits_truncated (suc n) [] val = refl
take-xor_bits_truncated (suc n) (x ∷ xs) val = ap (λ t. x ∷ t) (take-xor_bits_truncated n xs val)

module _ (B : Crates) (cipher : B.Key) (cid_len left_bits right_bits : ℕ) where
  abbrev pub encrypted : ℕ → ℕ → List Bool × List Bool → List Bool × List Bool
  encrypted rounds index (left, right) =
      encrypt_rounds B rounds cipher cid_len left_bits right_bits index left right

  abbrev pub decrypted : ℕ → ℕ → List Bool × List Bool → List Bool × List Bool
  decrypted rounds index (left, right) =
      decrypt_rounds B rounds cipher cid_len left_bits right_bits index left right

  -- One round of each.
  decrypt-round :
      (m index : ℕ) (left right : List Bool)
      → (let right' = xor_bits right (left_mask B cipher cid_len right_bits (index + 1) left) in
          let left' = xor_bits left (right_mask B cipher cid_len left_bits (index + 2) right') in
          decrypted (suc m) (index + 2) (left', right') ≡ decrypted m index (left, right))
  unfolding decrypt_rounds
  decrypt-round m index left right =
      let right' = xor_bits right (left_mask B cipher cid_len right_bits (index + 1) left) in
      let one : index + 2 - 1 ≡ index + 1 = omega arith in
      let two : index + 2 - 2 ≡ index = omega arith in
      rw
        (
          one,
          two,
          xor_bits_involutive left (right_mask B cipher cid_len left_bits (index + 2) right'),
          xor_bits_involutive right (left_mask B cipher cid_len right_bits (index + 1) left),
        )
        refl

  -- Decryption undoes the last rounds first.
  decrypt-encrypt_more :
      (n m index : ℕ) (state : List Bool × List Bool)
      → decrypted (n + m) (index + 2 * n) (encrypted n index state) ≡ decrypted m index state
  unfolding encrypt_rounds
  decrypt-encrypt_more zero m index state =
      ap (λ i. decrypted (0 + m) i state) (omega arith)
      ∙ ap (λ k. decrypted k index state) (omega arith)
  decrypt-encrypt_more (suc n) m index (left, right) =
      let right' = xor_bits right (left_mask B cipher cid_len right_bits (index + 1) left) in
      let left' = xor_bits left (right_mask B cipher cid_len left_bits (index + 2) right') in
      let rounds : suc n + m ≡ n + suc m = omega arith in
      let indexes : index + 2 * suc n ≡ (index + 2) + 2 * n = omega arith in
      ap (λ k. decrypted k (index + 2 * suc n) (encrypted n (index + 2) (left', right'))) rounds
      ∙ ap (λ i. decrypted (n + suc m) i (encrypted n (index + 2) (left', right'))) indexes
      ∙ decrypt-encrypt_more n (suc m) (index + 2) (left', right')
      ∙ decrypt-round m index left right

  pub decrypt-encrypt_rounds :
      (n : ℕ) (state : List Bool × List Bool) → decrypted n (2 * n) (encrypted n 0 state) ≡ state
  unfolding decrypt_rounds
  decrypt-encrypt_rounds n state =
      let rounds : n ≡ n + 0 = omega arith in
      let indexes : 2 * n ≡ 0 + 2 * n = omega arith in
      ap (λ k. decrypted k (2 * n) (encrypted n 0 state)) rounds
      ∙ ap (λ i. decrypted (n + 0) i (encrypted n 0 state)) indexes
      ∙ decrypt-encrypt_more n 0 0 state

  outside_left :
      (i : ℕ) (xs other : List Bool)
      → drop left_bits (xor_bits xs (right_mask B cipher cid_len left_bits i other))
        ≡ drop left_bits xs
  unfolding right_mask truncate_left
  outside_left i xs other =
      let val = aes_ecb B (expand_right B other cid_len i) cipher in
      drop-xor_bits_truncated left_bits (length val - left_bits) xs val

  outside_right :
      (i : ℕ) (xs other : List Bool)
      → take
          (aes_block_size_bits - right_bits)
          (xor_bits xs (left_mask B cipher cid_len right_bits i other))
        ≡ take (aes_block_size_bits - right_bits) xs
  unfolding left_mask truncate_right
  outside_right i xs other =
      take-xor_bits_truncated (aes_block_size_bits - right_bits) xs
        (drop (aes_block_size_bits - right_bits) (aes_ecb B (expand_left B other cid_len i) cipher))

  -- What no round changes: the lengths, and the bits outside of the halves.
  pub encrypted-frame :
      (n index : ℕ) (left right : List Bool)
      → (let (left', right') = encrypted n index (left, right) in
          (length left' ≡ length left)
          × (length right' ≡ length right)
          × (drop left_bits left' ≡ drop left_bits left)
          × (take (aes_block_size_bits - right_bits) right'
              ≡ take (aes_block_size_bits - right_bits) right))
  unfolding encrypt_rounds
  encrypted-frame zero index left right = (refl, refl, refl, refl)
  encrypted-frame (suc n) index left right =
      let right' = xor_bits right (left_mask B cipher cid_len right_bits (index + 1) left) in
      let left' = xor_bits left (right_mask B cipher cid_len left_bits (index + 2) right') in
      let (l, r, d, t) = encrypted-frame n (index + 2) left' right' in
      (
        l ∙ length-xor_bits left (right_mask B cipher cid_len left_bits (index + 2) right'),
        r ∙ length-xor_bits right (left_mask B cipher cid_len right_bits (index + 1) left),
        d ∙ outside_left (index + 2) left right',
        t ∙ outside_right (index + 1) right left,
      )
