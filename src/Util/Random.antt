-- ===== src/Util/Random.antt =====
-- Random bytes: `random_bytes i` is the byte that `fill_bytes` of the crate `rand` puts at place `i`.
use aquic.Base.{ℕ, zero, suc, ◌≡◌, refl, List, [], ◌∷◌, ◌++◌, arith, length, length-append}

-- The bytes that `fill_bytes` writes to a slice of `n` bytes.
unfoldable pub fill_bytes : ℕ → (ℕ → ℕ) → List ℕ
fill_bytes zero random_bytes = []
fill_bytes (suc n) random_bytes = fill_bytes n random_bytes ++ random_bytes n ∷ []

pub length-fill_bytes : (n : ℕ) (random_bytes : ℕ → ℕ) → length (fill_bytes n random_bytes) ≡ n
unfolding fill_bytes
length-fill_bytes zero random_bytes = refl
length-fill_bytes (suc n) random_bytes = omega (
  arith,
  length-append (fill_bytes n random_bytes) (random_bytes n ∷ []),
  length-fill_bytes n random_bytes,
)
