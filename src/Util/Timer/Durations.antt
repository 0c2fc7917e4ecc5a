-- ===== src/Util/Timer/Durations.antt =====
-- The arithmetic of the wheel timer: level indices, ticks and bucket counts
-- (aquic-core/src/util/timer/mod.rs).
use native.Mathlib.Nat.{
  add-zero, mod-lt, div-add-mod, pow-suc, mul_comm, le-div_iff_mul-le, div-lt_iff_lt-mul,
  mul-le-mul_left,
}
use aquic.Base.{
  ℕ, zero, suc, ◌+◌, ◌-◌, ◌*◌, ◌/◌, ◌%◌, ◌^◌, ◌≤◌, ◌<◌, max, ◌≡◌, refl, ap, subst, ◌⊎◌, inl, inr,
  arith, ltb, leb, ltb→lt, leb→le, Bool-cases, word,
}
use aquic.Base.Bits.{two-pow-pos, two-pow-add-one}
use aquic.Util.Timer.{
  div_ceil, log_from, ilog2, ilog2_from, next_power_of_two, required_buckets, buckets_count,
  find_index_by_duration,
}

-- `div_ceil` is the quotient, rounded up.
pub div_ceil_bounds : (a b : ℕ) → 0 < b → (a ≤ div_ceil a b * b) × (div_ceil a b * b < a + b)
div_ceil_bounds a b h =
    ground (arith, div-add-mod a b, mod-lt a {m = b} h, mul_comm b (a / b), suc-mul' (a / b) b)
  where
    suc-mul' : (q b : ℕ) → (q + 1) * b ≡ q * b + b
    suc-mul' q b = omega arith

lt_of_mul-lt : (a b c : ℕ) → a * c < b * c → a < b
lt_of_mul-lt a b c h = grind arith

-- A quotient rounded up is below `n` if `n - 1` steps suffice, and is `n` if only `n` do.
pub div_ceil-lt : (a b n : ℕ) → 0 < b → a + b ≤ n * b → div_ceil a b < n
div_ceil-lt a b n h le = lt_of_mul-lt (div_ceil a b) n b (omega (arith, div_ceil_bounds a b h))

pub div_ceil-eq : (a b n : ℕ) → 0 < b → n * b < a + b → a ≤ n * b → div_ceil a b ≡ n
div_ceil-eq a b n h lt le = omega (
  arith,
  lt_of_mul-lt (div_ceil a b) (n + 1) b (omega (arith, div_ceil_bounds a b h)),
  lt_of_mul-lt n (div_ceil a b + 1) b (omega (arith, div_ceil_bounds a b h)),
)

ilog2_from_bounds :
    (fuel n : ℕ)
    → 0 < n
    → n < 2 ^ fuel
    → (2 ^ ilog2_from fuel n ≤ n) × (n < 2 ^ (ilog2_from fuel n + 1))
unfolding ilog2_from
ilog2_from_bounds zero n h lt = absurd (omega arith)
ilog2_from_bounds (suc fuel) n h lt = elim (Bool-cases (ltb n 2)) [
  | inl e ↦ rw e (omega (arith, ltb→lt n 2 e))
  | inr e ↦ rw e (
      omega (
        arith,
        ilog2_from_bounds fuel (n / 2) (ground arith) (omega (arith, pow-suc 2 fuel)),
        two-pow-add-one (ilog2_from fuel (n / 2)),
        two-pow-add-one (ilog2_from fuel (n / 2) + 1),
      ))
]

ilog2_bounds : (n : ℕ) → 0 < n → n < 2 ^ 128 → (2 ^ ilog2 n ≤ n) × (n < 2 ^ (ilog2 n + 1))
unfolding ilog2
ilog2_bounds n h lt = ilog2_from_bounds 128 n h lt

scaled-ilog2 :
    (coverage nanos : ℕ)
    → 0 < coverage
    → coverage ≤ nanos
    → nanos < coverage * 2 ^ 128
    → (coverage * 2 ^ ilog2 (nanos / coverage) ≤ nanos)
      × (nanos < coverage * 2 ^ (ilog2 (nanos / coverage) + 1))
scaled-ilog2 coverage nanos h ge small =
    let q = nanos / coverage in
    let bounds =
      ilog2_bounds q ((le-div_iff_mul-le h).1 (omega arith))
        ((div-lt_iff_lt-mul h).1 (omega arith)) in
    (
      omega (arith, div-add-mod nanos coverage, mul-le-mul_left coverage bounds.0),
      omega (
        arith,
        div-add-mod nanos coverage,
        mod-lt nanos {m = coverage} h,
        mul-le-mul_left coverage bounds.1,
      ),
    )

-- The level of a duration: level 0 below the coverage, and level `i` from `coverage * 2 ^ (i - 1)` on
-- and below `coverage * 2 ^ i`.
pub find_index_bounds :
    (coverage nanos : ℕ)
    → 0 < coverage
    → nanos < coverage * 2 ^ 128
    → let i = find_index_by_duration coverage nanos in
      (nanos < coverage * 2 ^ i) × ((i ≡ 0) ⊎ (coverage * 2 ^ (i - 1) ≤ nanos))
unfolding find_index_by_duration
find_index_bounds coverage nanos h small = elim (Bool-cases (ltb nanos coverage)) [
  | inl e ↦ rw e (omega (arith, ltb→lt nanos coverage e), inl refl)
  | inr e ↦
      let bounds = scaled-ilog2 coverage nanos h (ground arith) small in
      rw e (
        bounds.1,
        inr (
            subst (λ j. coverage * 2 ^ j ≤ nanos)
              (let back : ilog2 (nanos / coverage) ≡ ilog2 (nanos / coverage) + 1 - 1 =
                  omega arith in
                back)
              bounds.0),
      )
]

log_from_bounds :
    (fuel start n : ℕ)
    → n ≤ 2 ^ (start + fuel)
    → (start ≡ 0) ⊎ (2 ^ (start - 1) < n)
    → let j = log_from fuel start n in (n ≤ 2 ^ j) × ((j ≡ 0) ⊎ (2 ^ (j - 1) < n))
unfolding log_from
log_from_bounds zero start n le h = (simp add-zero at le, h)
log_from_bounds (suc fuel) start n le h = elim (Bool-cases (leb n (2 ^ start))) [
  | inl e ↦ rw e (leb→le n (2 ^ start) e, h)
  | inr e ↦ rw e (
      log_from_bounds fuel (start + 1) n (subst (λ t. n ≤ 2 ^ t) (omega arith) le) (
        inr (
          subst (λ t. 2 ^ t < n) (let back : start ≡ start + 1 - 1 = omega arith in back)
            (ground arith))))
]

pub next_power_of_two_bounds :
    (n : ℕ)
    → n ≤ 2 ^ 128
    → (j : ℕ) × (next_power_of_two n ≡ 2 ^ j) × (n ≤ 2 ^ j) × ((j ≡ 0) ⊎ (2 ^ (j - 1) < n))
unfolding next_power_of_two
next_power_of_two_bounds n h =
    let b = log_from_bounds 128 0 n h (inl refl) in (log_from 128 0 n, refl, b.0, b.1)

two-pow-pred : (j : ℕ) → 0 < j → 2 ^ j ≡ 2 * 2 ^ (j - 1)
two-pow-pred zero h = absurd (omega arith)
two-pow-pred (suc j) h =
    omega (arith, pow-suc 2 j, ap (λ t. 2 ^ t) (let back : suc j - 1 ≡ j = omega arith in back))

-- The levels have a power of two of buckets, two at least, and room for the required ones.
pub buckets_count_lem :
    (hz coverage : ℕ)
    → required_buckets hz coverage ≤ 2 ^ 62
    → (k : ℕ) × (buckets_count hz coverage ≡ 2 ^ k)
      × (2 ≤ 2 ^ k)
      × (2 ^ k ≤ 2 ^ 63)
      × (required_buckets hz coverage ≤ 2 ^ k)
unfolding buckets_count
buckets_count_lem hz coverage h =
    let (j, e, le, tight) = next_power_of_two_bounds (required_buckets hz coverage) (omega arith) in
    from_log j e le tight
  where
    from_log :
        (j : ℕ)
        → next_power_of_two (required_buckets hz coverage) ≡ 2 ^ j
        → required_buckets hz coverage ≤ 2 ^ j
        → (j ≡ 0) ⊎ (2 ^ (j - 1) < required_buckets hz coverage)
        → (k : ℕ) × (max (next_power_of_two (required_buckets hz coverage)) 2 % word ≡ 2 ^ k)
          × (2 ≤ 2 ^ k)
          × (2 ^ k ≤ 2 ^ 63)
          × (required_buckets hz coverage ≤ 2 ^ k)
    from_log zero e le tight = (1, omega arith, omega arith, omega arith, omega arith)
    from_log (suc j) e le tight =
        let double = two-pow-pred (suc j) (omega arith) in
        let some_bucket = two-pow-pos (suc j - 1) in
        (suc j, omega arith, omega arith, omega arith, le)
