-- ===== src/Util/Timer.antt =====
-- aquic-core/src/util/timer/mod.rs: the wheel timer.
--
-- An `Instant` and a `Duration` are numbers of nanoseconds. `progress` takes its rounds as fuel, with
-- more than enough of it: each round moves the clock by `start_hz`, which is not zero. A `TimerTick` is
-- the list of its events. An instant is unbounded: the panic of `current_clock += start_hz` at the end
-- of the range of an `Instant` is not modelled.
pub mod Level
pub mod Durations
pub mod Fit
pub mod Wheel
pub mod Progress
pub mod Early
mod Tests
use aquic.Base.{
  ℕ, zero, suc, ◌+◌, ◌-◌, ◌*◌, ◌/◌, ◌%◌, ◌^◌, ◌≤◌, ◌<◌, min, max, ◌≡◌, refl, sym, ap, ◌∙◌, subst,
  ◌≢◌, ◌↔◌, ◌⊎◌, inl, inr, Bool, true, false, not, ◌&&◌, ◌||◌, Option, none, some, List, [], ◌∷◌,
  ◌++◌, map, arith, ltb, leb, ◌==◌, if◌then◌else◌, ltb→lt, lt→ltb, le→ltb, leb→le, le→leb, lt→leb,
  ==_iff, tests, Bool-cases, Option-cases, length, get_elem?, get_or, set, replicate, All,
  length-append, length-set, length-replicate, get_or-set_self, get_or-set_ne, word, wrapping_add,
  Outcome, done, panic, ◌>>=◌, add_word, sub_word, add_word-eq, sub_word-eq,
}
use Level.{LevelKey, from_bool}

pub record WheelTimer {ℓ} (T : Type ℓ) : Type ℓ where
  pub levels : List (Level.Level T)
  pub current_tick : ℕ
  pub current_clock : ℕ
  pub start_hz : ℕ
  pub start_coverage : ℕ

pub record TimerKey : Type 0 where
  pub level_key : LevelKey
  pub level_index : ℕ

-- `u128::div_ceil`
abbrev pub div_ceil : ℕ → ℕ → ℕ
div_ceil a b = a / b + from_bool (not (a % b == 0))

-- The least `j` from `start` on with `n ≤ 2 ^ j`, within `fuel` steps.
unfoldable pub log_from : ℕ → ℕ → ℕ → ℕ
log_from zero start n = start
log_from (suc fuel) start n =
    let rest = log_from fuel (start + 1) n in if leb n (2 ^ start) then start else rest

-- `u128::next_power_of_two`: at most 2 ^ 127
unfoldable pub next_power_of_two : ℕ → ℕ
next_power_of_two n = 2 ^ log_from 128 0 n

-- `u128::ilog2`, of a number that is not zero: the greatest `j` with `2 ^ j ≤ n`
unfoldable pub ilog2_from : ℕ → ℕ → ℕ
ilog2_from zero n = 0
ilog2_from (suc fuel) n = let rest = ilog2_from fuel (n / 2) in if ltb n 2 then 0 else rest + 1

unfoldable pub ilog2 : ℕ → ℕ
ilog2 n = ilog2_from 128 n

-- `usize::trailing_zeros`
unfoldable pub trailing_zeros_from : ℕ → ℕ → ℕ
trailing_zeros_from zero n = 0
trailing_zeros_from (suc fuel) n =
    let rest = trailing_zeros_from fuel (n / 2) in if n % 2 == 1 then 0 else rest + 1

unfoldable pub trailing_zeros : ℕ → ℕ
trailing_zeros n = trailing_zeros_from 64 n

-- `required_buckets` and `buckets_count` of `extend_levels`
unfoldable pub required_buckets : ℕ → ℕ → ℕ
required_buckets hz coverage =
    if coverage % hz == 0 then coverage / hz else div_ceil coverage hz + 1

unfoldable pub buckets_count : ℕ → ℕ → ℕ
unfolding required_buckets
buckets_count hz coverage = max (next_power_of_two (required_buckets hz coverage)) 2 % word

unfoldable pub find_index_by_duration : ℕ → ℕ → ℕ
find_index_by_duration coverage nanos =
    if ltb nanos coverage then 0 else ilog2 (nanos / coverage) + 1

unfoldable pub duration_to_level_ticks : ℕ → ℕ → ℕ → ℕ
duration_to_level_ticks hz duration level_index = div_ceil duration (hz * 2 ^ level_index) % word

module _ {ℓ} {T : Type ℓ} where
  -- `for _ in self.levels.len()..desired_length { self.levels.push(Level::new(buckets_count)) }`
  pub push_levels : ℕ → ℕ → List (Level.Level T) → Outcome (List (Level.Level T))
  push_levels count zero levels = done levels
  push_levels count (suc n) levels = do l ← Level.new count; push_levels count n (levels ++ l ∷ [])

  unfoldable pub extend_levels : WheelTimer T → ℕ → Outcome (WheelTimer T)
  unfolding push_levels
  extend_levels s desired = if s.start_hz == 0 then panic else (do
    levels ←
        push_levels (buckets_count s.start_hz s.start_coverage) (desired - length s.levels) s.levels
    done (record s { levels = levels; current_tick = 0 }))

  unfoldable pub new : ℕ → ℕ → ℕ → Outcome (WheelTimer T)
  unfolding extend_levels
  new hz coverage now =
      if leb hz coverage
      then extend_levels
          (record {
            levels = [];
            current_tick = 0;
            current_clock = now;
            start_hz = hz;
            start_coverage = coverage;
          })
          1
      else panic

  -- The part of `schedule` behind the extension.
  schedule_at : Bool → WheelTimer T → T → ℕ → ℕ → Outcome (WheelTimer T × TimerKey)
  schedule_at debug s event duration i = elim (get_elem? s.levels i) [
    | none ↦ panic
    | some l ↦ (do
      (l', key) ← Level.schedule debug l event (duration_to_level_ticks s.start_hz duration i)
      done (record s { levels = set s.levels i l' }, record { level_key = key; level_index = i }))
  ]

  unfoldable pub schedule : Bool → WheelTimer T → T → ℕ → ℕ → Outcome (WheelTimer T × TimerKey)
  unfolding schedule_at extend_levels
  schedule debug s event at now =
      let duration = at - now in
      let i = find_index_by_duration s.start_coverage duration in
      (if leb (length s.levels) i then extend_levels s (i + 1) else done s) >>= λ s'.
      schedule_at debug s' event duration i

  -- The loop of `tick` over the first levels.
  pub tick_levels : ℕ → List (Level.Level T) → Outcome (List (Level.Level T) × List (List T))
  tick_levels zero levels = done (levels, [])
  tick_levels (suc n) [] = panic
  tick_levels (suc n) (l ∷ levels) = do
    (l', fired) ← Level.tick l
    (levels', out) ← tick_levels n levels
    done (l' ∷ levels', fired ∷ out)

  unfoldable pub tick : WheelTimer T → Outcome (WheelTimer T × List (List T))
  tick s =
      let current = wrapping_add s.current_tick 1 in
      if length s.levels == 0 then panic else (do
        (levels, out) ←
            tick_levels (min (trailing_zeros current) (length s.levels - 1) + 1) s.levels
        done (record s { levels = levels; current_tick = current }, out))

  -- `out` holds what was fired so far.
  pub progress_from : ℕ → WheelTimer T → List (List T) → ℕ → Outcome (WheelTimer T × List (List T))
  progress_from zero s out now = done (s, out)
  progress_from (suc fuel) s out now =
      let round = (do
        (s', fired) ← tick s
        progress_from fuel (record s' { current_clock = s'.current_clock + s'.start_hz })
            (out ++ fired) now) in
      if leb s.current_clock now then round else done (s, out)

  unfoldable pub progress :
      WheelTimer T → List (List T) → ℕ → Outcome (WheelTimer T × List (List T))
  unfolding progress_from
  progress s out now = progress_from (now + 1 - s.current_clock) s out now

  unfoldable pub cancel : T → WheelTimer T → TimerKey → Outcome (WheelTimer T)
  cancel default s key = elim (get_elem? s.levels key.level_index) [
    | none ↦ done s
    | some l ↦ (do
      l' ← Level.cancel default l key.level_key
      done (record s { levels = set s.levels key.level_index l' }))
  ]
