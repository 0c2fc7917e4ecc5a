-- ===== src/Util/Timer/Fit.antt =====
-- Whether the ticks that `schedule` computes fit the buckets of their level
-- (aquic-core/src/util/timer/mod.rs).
use native.Mathlib.Nat.{div-add-mod, mul-le-mul_right, mod-eq_of_lt}
use native.Mathlib.Decide.{ℕ_discrete}
use aquic.Base.{
  ℕ, ◌+◌, ◌*◌, ◌/◌, ◌%◌, ◌^◌, ◌≤◌, ◌<◌, ◌≡◌, ap, ◌∙◌, ◌≢◌, inl, inr, arith, ◌==◌, Bool-cases, word,
}
use aquic.Base.Bits.{two-pow-pos}
use aquic.Util.Timer.{
  div_ceil, required_buckets, buckets_count, find_index_by_duration, duration_to_level_ticks,
}
use aquic.Util.Timer.Durations.{
  div_ceil_bounds, div_ceil-lt, div_ceil-eq, find_index_bounds, buckets_count_lem,
}

pos-mul : (a b : ℕ) → 0 < a → 0 < b → 0 < a * b
pos-mul a b ha hb = grind arith

-- One bucket is to spare, unless the coverage takes all of them exactly.
room :
    (hz coverage n : ℕ)
    → 0 < hz
    → required_buckets hz coverage ≤ n
    → coverage ≢ hz * n
    → coverage + hz ≤ n * hz
unfolding required_buckets
room hz coverage n h fits ne = elim (Bool-cases (coverage % hz == 0)) [
  | inl e ↦ exact (ground arith) (ground arith)
  | inr e ↦ rounded (ground arith)
]
  where
    below_count : coverage ≡ hz * (coverage / hz) → coverage / hz ≤ n → coverage / hz + 1 ≤ n
    below_count whole le = elim (ℕ_discrete (coverage / hz) n) [
      | yes p ↦ absurd (ne (whole ∙ ap (λ q. hz * q) p))
      | no p ↦ omega arith
    ]

    exact : coverage % hz ≡ 0 → coverage / hz ≤ n → coverage + hz ≤ n * hz
    exact e le =
        let whole : coverage ≡ hz * (coverage / hz) = omega (arith, div-add-mod coverage hz) in
        let below : coverage / hz + 1 ≤ n = below_count whole le in
        omega (arith, whole, mul-le-mul_right hz below)

    rounded : div_ceil coverage hz + 1 ≤ n → coverage + hz ≤ n * hz
    rounded le = omega (arith, div_ceil_bounds coverage hz h, mul-le-mul_right hz le)

level_ticks-small :
    (hz duration i n : ℕ)
    → n < word
    → div_ceil duration (hz * 2 ^ i) ≤ n
    → duration_to_level_ticks hz duration i ≡ div_ceil duration (hz * 2 ^ i)
unfolding duration_to_level_ticks
level_ticks-small hz duration i n h le = mod-eq_of_lt (omega arith)

fits-below :
    (hz coverage duration n p : ℕ)
    → 0 < hz
    → 0 < p
    → coverage + hz ≤ n * hz
    → duration < coverage * p
    → div_ceil duration (hz * p) < n
fits-below hz coverage duration n p h hp spare lt =
    div_ceil-lt duration (hz * p) n (pos-mul hz p h hp) (omega (arith, mul-le-mul_right p spare))

fits-full :
    (hz coverage duration n p : ℕ)
    → 0 < hz
    → 0 < p
    → coverage ≡ hz * n
    → n * (hz * p) < duration + hz * p
    → duration < coverage * p
    → div_ceil duration (hz * p) ≡ n
fits-full hz coverage duration n p h hp e late lt =
    div_ceil-eq duration (hz * p) n (pos-mul hz p h hp) late
      (omega (arith, ap (λ (c : ℕ). c * p) e))

-- The number of ticks that `schedule` computes for a duration, in the level that it chooses. If the
-- coverage does not take all `n` buckets of a level exactly, it is below `n`. If the coverage does, a
-- duration within the last tick of the level's span gives `n`, which is no bucket's offset.
ticks_in_level :
    (hz coverage duration : ℕ)
    → 0 < hz
    → hz ≤ coverage
    → duration < coverage * 2 ^ 128
    → required_buckets hz coverage ≤ 2 ^ 62
    → let n = buckets_count hz coverage in
      let i = find_index_by_duration coverage duration in
      let t = duration_to_level_ticks hz duration i in
      (coverage ≢ hz * n → t < n)
      × (coverage ≡ hz * n → n * (hz * 2 ^ i) < duration + hz * 2 ^ i → t ≡ n)
ticks_in_level hz coverage duration h le small room_for =
    let (k, count, two, bound, required) = buckets_count_lem hz coverage room_for in
    let i = find_index_by_duration coverage duration in
    let inside = (find_index_bounds coverage duration (omega arith) small).0 in
    (
      λ ne.
          let below =
            fits-below hz coverage duration (buckets_count hz coverage) (2 ^ i) h (two-pow-pos i)
              (room hz coverage (buckets_count hz coverage) h (omega arith) ne) inside in
          omega (
            arith,
            level_ticks-small hz duration i (buckets_count hz coverage) (omega arith) (omega arith),
          ),
      λ e late.
          let full =
            fits-full hz coverage duration (buckets_count hz coverage) (2 ^ i) h (two-pow-pos i) e
              late inside in
          level_ticks-small hz duration i (buckets_count hz coverage) (omega arith) (omega arith)
          ∙ full,
    )
