-- ===== src/Base/Bits.antt =====
-- `x & (2^k - 1)` is the remainder by 2^k, and the powers of two.
use Prim.Native.Nat.{
  ℕ, zero, suc, ◌+◌, ◌-◌, ◌*◌, ◌/◌, ◌%◌, ◌^◌, ◌≤◌, ◌<◌, min, digits, bit_and, bit_and-bitwise,
}
use mathlib.Core.Path.{◌≡◌, ◌∙◌, ap}
use native.Mathlib.Nat.{
  pow-suc, one-le-pow, div-add-mod, mul-add-mod_self_left, mod-eq_of_lt, mod-lt, zero-mod, mod-one,
}
use native.Mathlib.Numerals.{towards_suc}
use native.Mathlib.Omega.{arith}

pub two-pow-pos : (k : ℕ) → 0 < 2 ^ k
two-pow-pos k = one-le-pow k 2 (omega arith)

pub two-pow-add-one : (k : ℕ) → 2 ^ (k + 1) ≡ 2 * 2 ^ k
two-pow-add-one k = simp towards_suc (omega (arith, pow-suc 2 k))

pub mod_unique : (a m q r : ℕ) → a ≡ m * q + r → r < m → a % m ≡ r
mod_unique a m q r e lt = ap (λ t. t % m) e ∙ mul-add-mod_self_left m q r ∙ mod-eq_of_lt lt

-- The remainder by `2 * p`, from the digits.
pub mod-two-mul : (a p : ℕ) → 0 < p → a % (2 * p) ≡ (a / 2) % p * 2 + a % 2
mod-two-mul a p h =
    mod_unique a (2 * p) (a / 2 / p) ((a / 2) % p * 2 + a % 2)
      (omega (arith, div-add-mod (a / 2) p)) (omega (arith, mod-lt (a / 2) {m = p} h))

abbrev mask : ℕ → ℕ
mask k = 2 ^ k - 1

mask-digits : (n a k : ℕ) → a ≤ n → digits (λ b. zero) min n a (mask k) ≡ a % 2 ^ k
mask-digits zero zero k h = omega (arith, zero-mod (2 ^ k))
mask-digits zero (suc a) k h = absurd (omega arith)
mask-digits (suc n) zero k h = omega (arith, zero-mod (2 ^ k))
mask-digits (suc n) (suc a) zero h =
    omega
      (arith, mask-digits n (suc a / 2) zero (omega arith), mod-one (suc a / 2), mod-one (suc a))
mask-digits (suc n) (suc a) (suc k) h =
    let half : mask (suc k) / 2 ≡ mask k = omega (arith, pow-suc 2 k, two-pow-pos k) in
    let odd : mask (suc k) % 2 ≡ 1 = omega (arith, pow-suc 2 k, two-pow-pos k) in
    let double : 2 ^ suc k ≡ 2 * 2 ^ k = omega (arith, pow-suc 2 k) in
    rw half (
      omega (
        arith,
        odd,
        double,
        mask-digits n (suc a / 2) k (omega arith),
        mod-two-mul (suc a) (2 ^ k) (two-pow-pos k),
        ap (λ p. suc a % p) double,
      ))

-- `a & (2^k - 1)`
pub bit_and_mask : (a k : ℕ) → bit_and a (2 ^ k - 1) ≡ a % 2 ^ k
bit_and_mask a k = bit_and-bitwise a (2 ^ k - 1) ∙ mask-digits a a k (omega arith)

-- `a & 2`
pub bit_and_two : (a : ℕ) → bit_and a 2 ≡ (a / 2) % 2 * 2
bit_and_two zero = bit_and-bitwise zero 2
bit_and_two (suc a) =
    bit_and-bitwise (suc a) 2 ∙ omega (arith, mask-digits a (suc a / 2) 1 (omega arith))
