-- ===== src/Backend/Cid/Server/Tests.antt =====
-- Tests of the generator, with bits of binary numbers and a cipher that complements bytes.
use native.Mathlib.Nat.{pow-suc}
use mathlib.Core.List.{append_assoc}
use aquic.Base.{
  ℕ, zero, suc, ◌+◌, ◌-◌, ◌*◌, ◌/◌, ◌^◌, ◌≤◌, ◌<◌, min, ◌≡◌, refl, sym, ap, ◌∙◌, ◌⊎◌, inl, inr,
  Bool, true, false, List, [], ◌∷◌, ◌++◌, arith, leb, if◌then◌else◌, leb→le, le→leb, lt→leb,
  Bool-cases, length, All, length-append, take, drop, take_append_at, drop_append_at, take-drop,
  length-take, length-drop, done,
}
use aquic.Backend.Cid.{ConnectionId, max_cid_len}
use aquic.Backend.Cid.Server.{
  Crates, IsCrates, parsed, div_ceil, encrypt_four_pass, decrypt_four_pass,
}
use aquic.Backend.Cid.Server.Generator.{
  ServerConnectionIdGenerator, build_cid, generate, decrypt, parse, cid_len, validate,
}
use aquic.Backend.Cid.Server.Layout.{IsGenerator}
use aquic.Backend.Cid.Server.Passes.{four_pass_lem}
use aquic.Backend.Cid.Server.Parse.{own_meta, counted_bits, routing_lem, own_rejected_lem}

store : ℕ → ℕ → List Bool
store zero value = []
store (suc n) value =
    let low = store n value in
    let high = store n (value - 2 ^ n) in if leb (2 ^ n) value then true ∷ high else false ∷ low

load : List Bool → ℕ
load [] = 0
load (b ∷ bits) = (if b then 2 ^ length bits else 0) + load bits

view : List ℕ → List Bool
unfolding store
view [] = []
view (x ∷ xs) = store 8 x ++ view xs

chunks : ℕ → List Bool → List ℕ
unfolding load
chunks zero bits = []
chunks (suc n) bits = load (take 8 bits) ∷ chunks n (drop 8 bits)

complement : List ℕ → List ℕ
complement [] = []
complement (x ∷ xs) = (255 - x) ∷ complement xs

store_length : (n value : ℕ) → length (store n value) ≡ n
unfolding store
store_length zero value = refl
store_length (suc n) value = elim (Bool-cases (leb (2 ^ n) value)) [
  | inl e ↦ rw e (ap suc (store_length n (value - 2 ^ n)))
  | inr e ↦ rw e (ap suc (store_length n value))
]

load_lt : (bits : List Bool) → load bits < 2 ^ length bits
unfolding load
load_lt [] = omega arith
load_lt (true ∷ bits) = omega (arith, load_lt bits, pow-suc 2 (length bits))
load_lt (false ∷ bits) = omega (arith, load_lt bits, pow-suc 2 (length bits))

load-store : (n value : ℕ) → value < 2 ^ n → load (store n value) ≡ value
unfolding load store
load-store zero value h = omega arith
load-store (suc n) value h = elim (Bool-cases (leb (2 ^ n) value)) [
  | inl e ↦
      let rest : load (store n (value - 2 ^ n)) ≡ value - 2 ^ n =
        load-store n (value - 2 ^ n) (omega (arith, pow-suc 2 n, leb→le (2 ^ n) value e)) in
      rw (e, store_length n (value - 2 ^ n), rest) (omega (arith, leb→le (2 ^ n) value e))
  | inr e ↦ rw e (omega (arith, load-store n value (ground arith)))
]

store-load : (bits : List Bool) → store (length bits) (load bits) ≡ bits
unfolding load store
store-load [] = refl
store-load (true ∷ bits) =
    let big : leb (2 ^ length bits) (2 ^ length bits + load bits) ≡ true =
      le→leb _ _ (omega arith) in
    let rest : 2 ^ length bits + load bits - 2 ^ length bits ≡ load bits = omega arith in
    rw (big, rest, store-load bits) refl
store-load (false ∷ bits) =
    let small : leb (2 ^ length bits) (0 + load bits) ≡ false =
      lt→leb _ _ (omega (arith, load_lt bits)) in
    let rest : 0 + load bits ≡ load bits = omega arith in rw (small, rest, store-load bits) refl

view_length : (xs : List ℕ) → length (view xs) ≡ 8 * length xs
unfolding view
view_length [] = omega arith
view_length (x ∷ xs) =
    omega (arith, length-append (store 8 x) (view xs), store_length 8 x, view_length xs)

view_append : (xs ys : List ℕ) → view (xs ++ ys) ≡ view xs ++ view ys
unfolding view
view_append [] ys = refl
view_append (x ∷ xs) ys =
    ap (λ t. store 8 x ++ t) (view_append xs ys)
    ∙ sym (append_assoc (store 8 x) (view xs) (view ys))

view-chunks : (n : ℕ) (bits : List Bool) → length bits ≡ 8 * n → view (chunks n bits) ≡ bits
unfolding view chunks
view-chunks zero [] h = refl
view-chunks zero (b ∷ bits) h = absurd (omega arith)
view-chunks (suc n) bits h =
    let eight = length-take 8 bits (omega arith) in
    let front : store 8 (load (take 8 bits)) ≡ take 8 bits =
      ap (λ k. store k (load (take 8 bits))) (sym eight) ∙ store-load (take 8 bits) in
    ap (λ t. t ++ view (chunks n (drop 8 bits))) front
    ∙ ap (λ t. take 8 bits ++ t)
        (view-chunks n (drop 8 bits) (omega (arith, length-drop 8 bits (omega arith))))
    ∙ take-drop 8 bits

chunks-view : (xs : List ℕ) → All (λ byte. byte < 256) xs → chunks (length xs) (view xs) ≡ xs
unfolding view chunks
chunks-view [] h = refl
chunks-view (x ∷ xs) h =
    let front = take_append_at 8 (store 8 x) (view xs) (store_length 8 x) in
    let back = drop_append_at 8 (store 8 x) (view xs) (store_length 8 x) in
    ap (λ t. load t ∷ chunks (length xs) (drop 8 (store 8 x ++ view xs))) front
    ∙ ap (λ t. load (store 8 x) ∷ chunks (length xs) t) back
    ∙ ap (λ t. t ∷ chunks (length xs) (view xs)) (load-store 8 x h.0)
    ∙ ap (λ t. x ∷ t) (chunks-view xs h.1)

one_le_pow : (n : ℕ) → 1 ≤ 2 ^ n
one_le_pow zero = omega arith
one_le_pow (suc n) = omega (arith, one_le_pow n, pow-suc 2 n)

take_le : (n : ℕ) (xs : List Bool) → 2 ^ length (take n xs) ≤ 2 ^ n
take_le zero xs = omega arith
take_le (suc n) [] = one_le_pow (suc n)
take_le (suc n) (x ∷ xs) = omega (arith, take_le n xs, pow-suc 2 n, pow-suc 2 (length (take n xs)))

chunks_bytes : (n : ℕ) (bits : List Bool) → All (λ byte. byte < 256) (chunks n bits)
unfolding chunks
chunks_bytes zero bits = tt
chunks_bytes (suc n) bits =
    (omega (arith, load_lt (take 8 bits), take_le 8 bits), chunks_bytes n (drop 8 bits))

complement_involutive :
    (xs : List ℕ) → All (λ byte. byte < 256) xs → complement (complement xs) ≡ xs
unfolding complement
complement_involutive [] h = refl
complement_involutive (x ∷ xs) h =
    let same : 255 - (255 - x) ≡ x = omega (arith, h.0) in
    rw (same, complement_involutive xs h.1) refl

length-complement : (xs : List ℕ) → length (complement xs) ≡ length xs
unfolding complement
length-complement [] = refl
length-complement (x ∷ xs) = ap suc (length-complement xs)

abbrev binary : Crates
binary = record {
  Key = ℕ;
  view_bits = view;
  bytes_of = λ bits. chunks (length bits / 8) bits;
  store_be = store;
  load_be = load;
  encrypt_block = λ k block. complement block;
  decrypt_block = λ k block. complement block;
}

binary-IsCrates : IsCrates binary
binary-IsCrates = record {
  view_length = view_length;
  view_append = view_append;
  view_bytes = λ n bits h.
      let count : length bits / 8 ≡ n = omega arith in
      ap (λ k. view (chunks k bits)) count ∙ view-chunks n bits h;
  bytes_view = λ xs h.
      let count : length (view xs) / 8 ≡ length xs = omega (arith, view_length xs) in
      ap (λ k. chunks k (view xs)) count ∙ chunks-view xs h;
  are_bytes = λ bits. chunks_bytes (length bits / 8) bits;
  store_length = store_length;
  load_store = load-store;
  block_inverse = λ k block h bytes. complement_involutive block bytes;
  block_length = λ k block h. length-complement block ∙ h;
}

abbrev five_bytes : List ℕ
five_bytes = 1 ∷ 2 ∷ 3 ∷ 4 ∷ 255 ∷ []

four_pass_lem_example :
    (decrypt_four_pass binary 7 (encrypt_four_pass binary 7 five_bytes) ≡ five_bytes)
    × (length (encrypt_four_pass binary 7 five_bytes) ≡ length five_bytes)
four_pass_lem_example =
    four_pass_lem binary binary-IsCrates 7 five_bytes
      (omega arith, (omega arith, (omega arith, (omega arith, (omega arith, tt))))) (omega arith)

abbrev generator : ServerConnectionIdGenerator binary
generator = record {
  first_octet = 9;
  server_id = 1000;
  server_id_bits = 16;
  core_id = 3;
  core_id_bits = 8;
  entropy_bits = 40;
  cipher = 7;
}

generator-IsGenerator : IsGenerator binary generator
generator-IsGenerator = record {
  octet = omega arith;
  server_bits = (omega arith, omega arith);
  core_bits = omega arith;
  entropy = omega arith;
  server = omega arith;
  core = omega arith;
}

routing_lem_example :
    (plain : ConnectionId) × (hidden : ConnectionId) × (build_cid binary generator (λ i. i)
      ≡ done plain)
    × (generate binary generator (λ i. i) ≡ done hidden)
    × (decrypt binary generator hidden ≡ done plain)
    × (parse binary generator plain ≡ parsed (own_meta binary generator))
    × (plain.len ≡ min (div_ceil (8 + counted_bits binary generator)) max_cid_len)
    × (hidden.len ≡ plain.len)
routing_lem_example = routing_lem binary generator binary-IsCrates generator-IsGenerator (λ i. i)

own_rejected_lem_example :
    (plain : ConnectionId) × (hidden : ConnectionId) × (generate binary generator (λ i. i)
      ≡ done hidden)
    × (decrypt binary generator hidden ≡ done plain)
    × ((counted_bits binary generator ≤ 152
          × (hidden.len ≡ suc (cid_len binary generator))
          × (validate binary generator hidden ≡ false)
          × (validate binary generator plain ≡ false))
        ⊎ (152 < counted_bits binary generator
            × (hidden.len ≡ cid_len binary generator)
            × (validate binary generator plain ≡ true)))
own_rejected_lem_example =
    own_rejected_lem binary generator binary-IsCrates generator-IsGenerator (λ i. i)
