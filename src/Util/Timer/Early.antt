-- ===== src/Util/Timer/Early.antt =====
-- A timer whose coverage takes all buckets of a level exactly, as both backends make theirs
-- (aquic-core/src/util/timer/mod.rs).
use native.Mathlib.Nat.{
  mul-le-mul_left, pow-le-pow_right, mul-div_cancel_left, mod_self, mul-mod_right, mod-eq_of_lt,
}
use native.Mathlib.Decide.{dec_lt}
use aquic.Base.{
  ℕ, zero, suc, ◌+◌, ◌-◌, ◌*◌, ◌%◌, ◌^◌, ◌≤◌, ◌<◌, ◌≡◌, refl, ap, ◌∙◌, ◌⊎◌, inl, inr, Bool, true,
  false, List, [], ◌∷◌, arith, if◌then◌else◌, lt→ltb, le→ltb, le→leb, length, get_or, set,
  replicate, length-set, length-replicate, get_or-set_self, word, Outcome, done, panic,
}
use aquic.Base.Bits.{two-pow-pos, bit_and_mask, two-pow-add-one}
use aquic.Util.Timer.{
  WheelTimer, TimerKey, new, schedule, schedule_at, extend_levels, push_levels, progress,
  progress_from, tick, tick_levels, trailing_zeros, trailing_zeros_from, next_power_of_two,
  required_buckets, buckets_count, find_index_by_duration, duration_to_level_ticks,
}
use aquic.Util.Timer.Level.{LevelKey, is_power_of_two, key_for, bucket_for}
use aquic.Util.Timer.Level
use aquic.Util.Timer.Level.Schedule.{ticked}
use aquic.Util.Timer.Durations.{next_power_of_two_bounds, div_ceil-eq}

pow-injective : (j k : ℕ) → 2 ^ k ≤ 2 ^ j → (j ≡ 0) ⊎ (2 ^ (j - 1) < 2 ^ k) → j ≡ k
pow-injective j k le tight = elim (dec_lt j k) [
  | yes p ↦ absurd (
      omega (
        arith,
        pow-le-pow_right {n = 2} (omega arith) {i = j + 1} {j = k} (omega arith),
        two-pow-add-one j,
        two-pow-pos j,
      ))
  | no p ↦ from_tight tight p
]
  where
    from_tight : (j ≡ 0) ⊎ (2 ^ (j - 1) < 2 ^ k) → ¬ (j < k) → j ≡ k
    from_tight (inl e) p = omega arith
    from_tight (inr lt) p = elim (dec_lt k j) [
      | yes q ↦
          absurd (
            omega (arith, pow-le-pow_right {n = 2} (omega arith) {i = k} {j = j - 1} (omega arith)))
      | no q ↦ omega arith
    ]

next_power_of_two-pow : (k : ℕ) → k ≤ 62 → next_power_of_two (2 ^ k) ≡ 2 ^ k
next_power_of_two-pow k h =
    let small : 2 ^ k ≤ 2 ^ 128 =
      pow-le-pow_right {n = 2} (omega arith) {i = k} {j = 128} (omega arith) in
    let (j, e, le, tight) = next_power_of_two_bounds (2 ^ k) small in
    e ∙ ap (λ t. 2 ^ t) (pow-injective j k le tight)

-- The coverage of `2 ^ k` ticks gives levels of `2 ^ k` buckets.
buckets_count-pow : (hz k : ℕ) → 0 < hz → 1 ≤ k → k ≤ 62 → buckets_count hz (hz * 2 ^ k) ≡ 2 ^ k
unfolding buckets_count required_buckets
buckets_count-pow hz k h one small =
    let bounded : 2 ^ k ≤ 2 ^ 62 = pow-le-pow_right {n = 2} (omega arith) {i = k} {j = 62} small in
    let two : 2 ≤ 2 ^ k = pow-le-pow_right {n = 2} (omega arith) {i = 1} {j = k} one in
    rw (mul-mod_right hz (2 ^ k), mul-div_cancel_left (2 ^ k) h, next_power_of_two-pow k small)
      (omega arith)

hz-le : (hz k : ℕ) → hz ≤ hz * 2 ^ k
hz-le hz k = omega (arith, mul-le-mul_left hz (two-pow-pos k))

two-pow-le : (k : ℕ) → k ≤ 62 → 2 ^ k ≤ 2 ^ 62
two-pow-le k small = pow-le-pow_right {n = 2} (omega arith) {i = k} {j = 62} small

ticks-full :
    (hz k duration : ℕ)
    → 0 < hz
    → k ≤ 62
    → hz * 2 ^ k < duration + hz
    → duration < hz * 2 ^ k
    → duration_to_level_ticks hz duration 0 ≡ 2 ^ k
unfolding duration_to_level_ticks
ticks-full hz k duration h small late inside =
    ap (λ t. t % word)
      (div_ceil-eq duration (hz * 2 ^ 0) (2 ^ k) (omega arith) (omega arith) (omega arith))
    ∙ mod-eq_of_lt (omega (arith, two-pow-le k small))

index-zero :
    (coverage duration : ℕ) → duration < coverage → find_index_by_duration coverage duration ≡ 0
unfolding find_index_by_duration
index-zero coverage duration h = ground arith

module _ {ℓ} {T : Type ℓ} where
  get_or-replicate : (n i : ℕ) (x : T) → get_or (replicate n x) i x ≡ x
  get_or-replicate zero i x = refl
  get_or-replicate (suc n) zero x = refl
  get_or-replicate (suc n) (suc i) x = get_or-replicate n i x

module _ {ℓ} {T : Type ℓ} where
  abbrev pub empty_level : ℕ → Level.Level T
  empty_level k = record { buckets = replicate (2 ^ k) []; index = 0; epoch = 0 }

  abbrev pub single_level : ℕ → ℕ → ℕ → WheelTimer T
  single_level hz k now = record {
    levels = empty_level k ∷ [];
    current_tick = 0;
    current_clock = now;
    start_hz = hz;
    start_coverage = hz * 2 ^ k;
  }

  Level_new-pow : (k : ℕ) → Level.new {T = T} (2 ^ k) ≡ done (empty_level k)
  unfolding Level.new
  Level_new-pow k = rw (bit_and_mask (2 ^ k) k, mod_self (2 ^ k)) (ground (arith, two-pow-pos k))

  new-single :
      (hz k now : ℕ)
      → 0 < hz
      → 1 ≤ k
      → k ≤ 62
      → new {T = T} hz (hz * 2 ^ k) now ≡ done (single_level hz k now)
  unfolding new extend_levels push_levels
  new-single hz k now h one small =
      rw (buckets_count-pow hz k h one small, Level_new-pow k, le→leb hz (hz * 2 ^ k) (hz-le hz k))
        (ground arith)

  -- The event stands in the bucket that the next tick hands out.
  abbrev pub filled_level : ℕ → T → Level.Level T
  filled_level k event = record (empty_level k) {
    buckets = set (replicate (2 ^ k) []) 0 (event ∷ []);
  }

  bucket_for-full :
      (k : ℕ) (l : Level.Level T)
      → k ≤ 62
      → length l.buckets ≡ 2 ^ k
      → l.index ≡ 0
      → bucket_for l (2 ^ k) ≡ 0
  bucket_for-full k l small count zero_index =
      rw (count, zero_index, bit_and_mask ((0 + 2 ^ k) % word) k)
        (ap (λ t. t % 2 ^ k) (mod-eq_of_lt (omega (arith, two-pow-le k small)) ∙ omega arith)
          ∙ mod_self (2 ^ k))

  schedule-full :
      (k : ℕ) (event : T)
      → k ≤ 62
      → (Level.schedule true (empty_level k) event (2 ^ k) ≡ panic)
        × (Level.schedule false (empty_level k) event (2 ^ k)
            ≡ done (filled_level k event, key_for (empty_level k) (2 ^ k)))
  unfolding Level.schedule
  schedule-full k event small = (
    rw (length-replicate {A = List T} (2 ^ k) [], le→ltb (2 ^ k) (2 ^ k) (omega arith)) refl,
    rw
        (
          bucket_for-full k (empty_level k) small (length-replicate (2 ^ k) []) refl,
          length-replicate {A = List T} (2 ^ k) [],
          lt→ltb 0 (2 ^ k) (two-pow-pos k),
          get_or-replicate {T = List T} (2 ^ k) 0 [],
        )
        refl,
  )

  -- The timer after that event was scheduled.
  abbrev pub with_event : ℕ → ℕ → ℕ → T → WheelTimer T
  with_event hz k now event = record (single_level hz k now) { levels = filled_level k event ∷ [] }

  abbrev pub answer : Bool → ℕ → ℕ → ℕ → T → Outcome (WheelTimer T × TimerKey)
  answer debug hz k now event =
      if debug
      then panic
      else done (
        with_event hz k now event,
        record { level_key = key_for {T = T} (empty_level k) (2 ^ k); level_index = 0 },
      )

  schedule_at-single :
      (debug : Bool) (hz k now duration : ℕ) (event : T)
      → k ≤ 62
      → duration_to_level_ticks hz duration 0 ≡ 2 ^ k
      → schedule_at debug (single_level hz k now) event duration 0 ≡ answer debug hz k now event
  unfolding schedule_at
  schedule_at-single true hz k now duration event small ticks =
      rw (ticks, (schedule-full k event small).0) refl
  schedule_at-single false hz k now duration event small ticks =
      rw (ticks, (schedule-full k event small).1) refl

  schedule-single :
      (debug : Bool) (hz k now at : ℕ) (event : T)
      → 0 < hz
      → k ≤ 62
      → hz * 2 ^ k < at - now + hz
      → at - now < hz * 2 ^ k
      → schedule debug (single_level hz k now) event at now ≡ answer debug hz k now event
  unfolding schedule
  schedule-single debug hz k now at event h small late inside =
      rw (index-zero (hz * 2 ^ k) (at - now) inside) (
        schedule_at-single debug hz k now (at - now) event small
          (ticks-full hz k (at - now) h small late inside))

  tick-filled :
      (k : ℕ) (event : T)
      → (l : Level.Level T) × (Level.tick (filled_level k event) ≡ done (l, event ∷ []))
  unfolding Level.tick
  tick-filled k event = (
    ticked (filled_level k event),
    rw
        (
          lt→ltb 0 (length (filled_level k event).buckets) some_bucket,
          get_or-set_self (replicate (2 ^ k) []) 0 (event ∷ []) []
              (omega (arith, length-replicate {A = List T} (2 ^ k) [], two-pow-pos k)),
        )
        refl,
  )
    where
      some_bucket : 0 < length (filled_level k event).buckets
      some_bucket = omega (
        arith,
        length-set (replicate (2 ^ k) []) 0 (event ∷ []),
        length-replicate {A = List T} (2 ^ k) [],
        two-pow-pos k,
      )

  progress-single :
      (hz k now : ℕ) (event : T)
      → (s : WheelTimer T) × (progress (with_event hz k now event) [] now
          ≡ done (s, (event ∷ []) ∷ []))
  unfolding progress progress_from tick tick_levels trailing_zeros trailing_zeros_from
  progress-single hz k now event =
      let one_round : now + 1 - now ≡ suc zero = omega arith in
      let (l, e) = tick-filled k event in
      (
        record (single_level hz k now) {
          levels = l ∷ [];
          current_tick = 1;
          current_clock = now + hz;
        },
        rw (one_round, le→leb now now (omega arith), e) refl,
      )

  -- Where the coverage is `2 ^ k` ticks, an event that a new timer is to fire within the last tick of
  -- the coverage panics in a debug build. A release build fires it at once, at a time before the
  -- scheduled one.
  pub fires_early :
      (hz k now at : ℕ) (event : T)
      → 0 < hz
      → 1 ≤ k
      → k ≤ 62
      → hz * 2 ^ k < at - now + hz
      → at - now < hz * 2 ^ k
      → (s : WheelTimer T) × (new hz (hz * 2 ^ k) now ≡ done s)
        × (schedule true s event at now ≡ panic)
        × ((s' : WheelTimer T) × (key : TimerKey) × (schedule false s event at now ≡ done (s', key))
            × ((s'' : WheelTimer T) × (progress s' [] now ≡ done (s'', (event ∷ []) ∷ []))
                × (now < at)))
  fires_early hz k now at event h one small late inside =
      let (s'', fired) = progress-single hz k now event in
      (
        single_level hz k now,
        new-single hz k now h one small,
        schedule-single true hz k now at event h small late inside,
        (
          with_event hz k now event,
          record { level_key = key_for {T = T} (empty_level k) (2 ^ k); level_index = 0 },
          schedule-single false hz k now at event h small late inside,
          (s'', fired, omega (arith, hz-le hz k)),
        ),
      )
