-- ===== src/Util/Timer/Wheel.antt =====
-- Which levels a tick of the wheel timer processes, and that `progress` ends
-- (aquic-core/src/util/timer/mod.rs).
use native.Mathlib.Nat.{mod-one, pow-suc}
use aquic.Base.{
  ℕ, zero, suc, ◌+◌, ◌-◌, ◌*◌, ◌/◌, ◌%◌, ◌^◌, ◌≤◌, ◌<◌, min, ◌≡◌, refl, ap, ◌∙◌, false, some, List,
  [], ◌∷◌, arith, ltb, leb, ◌==◌, if◌then◌else◌, lt→ltb, le→ltb, length, get_elem?, All,
  wrapping_add, done,
}
use aquic.Base.Bits.{two-pow-pos, mod-two-mul}
use aquic.Util.Timer.{WheelTimer, tick, tick_levels, trailing_zeros, trailing_zeros_from}
use aquic.Util.Timer.Level
use aquic.Util.Timer.Level.Schedule.{IsLevel, upcoming, ticked, tick_lem}

mod-pow-suc : (n i : ℕ) → n % 2 ^ suc i ≡ (n / 2) % 2 ^ i * 2 + n % 2
mod-pow-suc n i =
    ap (λ p. n % p) (let double : 2 ^ suc i ≡ 2 * 2 ^ i = omega (arith, pow-suc 2 i) in double)
    ∙ mod-two-mul n (2 ^ i) (two-pow-pos i)

-- `2 ^ i` divides a number exactly if it has `i` trailing zeros.
trailing_zeros_from-le :
    (fuel n i : ℕ) → i ≤ fuel → leb i (trailing_zeros_from fuel n) ≡ (n % 2 ^ i == 0)
unfolding trailing_zeros_from
trailing_zeros_from-le fuel n zero h = ground (arith, mod-one n)
trailing_zeros_from-le zero n (suc i) h = absurd (omega arith)
trailing_zeros_from-le (suc fuel) n (suc i) h =
    ground (arith, mod-pow-suc n i, trailing_zeros_from-le fuel (n / 2) i (omega arith))

pub trailing_zeros-le : (n i : ℕ) → i ≤ 64 → leb i (trailing_zeros n) ≡ (n % 2 ^ i == 0)
unfolding trailing_zeros
trailing_zeros-le n i h = trailing_zeros_from-le 64 n i h

ltb-suc : (a b : ℕ) → ltb a b ≡ ltb (suc a) (suc b)
ltb-suc a b = ground arith

-- The levels below `min z (n - 1) + 1` are those up to `z`, of `n`.
first_of_levels : (i z n : ℕ) → i < n → ltb i (min z (n - 1) + 1) ≡ leb i z
first_of_levels i z n h = ground arith

module _ {ℓ} {T : Type ℓ} where
  -- A wheel whose levels have `2 ^ k` buckets.
  pub record IsWheel (k : ℕ) (s : WheelTimer T) : Type ℓ where
    pub moving : 0 < s.start_hz
    pub some_level : 0 < length s.levels
    pub sound : All (IsLevel k) s.levels

  -- The first `n` levels, ticked once, and what they hand out.
  abbrev pub ticked_first : ℕ → List (Level.Level T) → List (Level.Level T)
  ticked_first zero levels = levels
  ticked_first (suc n) [] = []
  ticked_first (suc n) (l ∷ levels) = ticked l ∷ ticked_first n levels

  abbrev pub fired_first : ℕ → List (Level.Level T) → List (List T)
  fired_first zero levels = []
  fired_first (suc n) [] = []
  fired_first (suc n) (l ∷ levels) = upcoming l 0 ∷ fired_first n levels

  tick_levels-first :
      (k n : ℕ) (levels : List (Level.Level T))
      → n ≤ length levels
      → All (IsLevel k) levels
      → tick_levels n levels ≡ done (ticked_first n levels, fired_first n levels)
  unfolding tick_levels
  tick_levels-first k zero levels h v = refl
  tick_levels-first k (suc n) [] h v = absurd (omega arith)
  tick_levels-first k (suc n) (l ∷ levels) h v =
      rw ((tick_lem k l v.0).0, tick_levels-first k n levels (omega arith) v.1)

  ticked_first_sound :
      (k n : ℕ) (levels : List (Level.Level T))
      → All (IsLevel k) levels
      → All (IsLevel k) (ticked_first n levels)
  ticked_first_sound k zero levels v = v
  ticked_first_sound k (suc n) [] v = v
  ticked_first_sound k (suc n) (l ∷ levels) v =
      ((tick_lem k l v.0).1, ticked_first_sound k n levels v.1)

  length-ticked_first :
      (n : ℕ) (levels : List (Level.Level T)) → length (ticked_first n levels) ≡ length levels
  length-ticked_first zero levels = refl
  length-ticked_first (suc n) [] = refl
  length-ticked_first (suc n) (l ∷ levels) = ap suc (length-ticked_first n levels)

  get_elem?-ticked_first :
      (n i : ℕ) (levels : List (Level.Level T)) (l : Level.Level T)
      → get_elem? levels i ≡ some l
      → get_elem? (ticked_first n levels) i ≡ some (if ltb i n then ticked l else l)
  get_elem?-ticked_first zero i levels l e = rw (le→ltb i 0 (omega arith)) e
  get_elem?-ticked_first (suc n) i [] l e = cc
  get_elem?-ticked_first (suc n) zero (x ∷ levels) l e =
      let same : x ≡ l = cc in
      rw (lt→ltb 0 (suc n) (omega arith)) (ap (λ (y : Level.Level T). some (ticked y)) same)
  get_elem?-ticked_first (suc n) (suc i) (x ∷ levels) l e =
      get_elem?-ticked_first n i levels l e
      ∙ ap (λ b. some (if b then ticked l else l)) (ltb-suc i n)

  -- The number of levels that the next tick processes.
  abbrev pub processed : WheelTimer T → ℕ
  processed s = min (trailing_zeros (wrapping_add s.current_tick 1)) (length s.levels - 1) + 1

  abbrev pub ticked_wheel : WheelTimer T → WheelTimer T
  ticked_wheel s = record s {
    levels = ticked_first (processed s) s.levels;
    current_tick = wrapping_add s.current_tick 1;
  }

  tick-ticked :
      (k : ℕ) (s : WheelTimer T)
      → IsWheel k s
      → tick s ≡ done (ticked_wheel s, fired_first (processed s) s.levels)
  unfolding tick
  tick-ticked k s v =
      rw
        (positive, tick_levels-first k (processed s) s.levels (omega (arith, v.some_level)) v.sound)
        refl
    where
      positive : (length s.levels == 0) ≡ false
      positive = ground (arith, v.some_level)

  ticked-IsWheel : (k : ℕ) (s : WheelTimer T) → IsWheel k s → IsWheel k (ticked_wheel s)
  ticked-IsWheel k s v = record {
    moving = v.moving;
    some_level = omega (arith, v.some_level, length-ticked_first (processed s) s.levels);
    sound = ticked_first_sound k (processed s) s.levels v.sound;
  }

  -- A tick of a sound wheel does not panic, and keeps it sound. It ticks level `i` exactly if `2 ^ i`
  -- divides the new tick count, leaves every other level as it is, and hands out what those levels do.
  pub wheel_tick_lem :
      (k : ℕ) (s : WheelTimer T)
      → IsWheel k s
      → (tick s ≡ done (ticked_wheel s, fired_first (processed s) s.levels))
        × IsWheel k (ticked_wheel s)
        × ((i : ℕ) (l : Level.Level T)
            → i ≤ 64
            → i < length s.levels
            → get_elem? s.levels i ≡ some l
            → get_elem? (ticked_wheel s).levels i
              ≡ some (if wrapping_add s.current_tick 1 % 2 ^ i == 0 then ticked l else l))
  wheel_tick_lem k s v = (
    tick-ticked k s v,
    ticked-IsWheel k s v,
    λ i l small inside e.
        get_elem?-ticked_first (processed s) i s.levels l e
        ∙ ap (λ b. some (if b then ticked l else l))
            (first_of_levels i (trailing_zeros (wrapping_add s.current_tick 1)) (length s.levels)
                inside
              ∙ trailing_zeros-le (wrapping_add s.current_tick 1) i small),
  )
