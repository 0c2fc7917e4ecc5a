-- ===== src/Util/Timer/Progress.antt =====
-- `progress` of the wheel timer ends (aquic-core/src/util/timer/mod.rs).
use mathlib.Core.List.{append_assoc, append-nil}
use aquic.Base.{
  ℕ, zero, suc, ◌+◌, ◌-◌, ◌*◌, ◌≤◌, ◌<◌, ◌≡◌, refl, ap, ◌∙◌, inl, inr, List, [], ◌++◌, arith, leb,
  leb→le, le→leb, Bool-cases, Outcome, done,
}
use aquic.Util.Timer.{WheelTimer, progress, progress_from}
use aquic.Util.Timer.Wheel.{IsWheel, ticked_wheel, fired_first, processed, wheel_tick_lem}

-- One more round, from a clock that is not later than `now`, ends at most one tick behind `now`.
overshoot :
    (rounds hz clock now after : ℕ)
    → clock ≤ now
    → after ≡ clock + hz + rounds * hz
    → (0 < rounds → after ≤ now + hz)
    → after ≤ now + hz
overshoot zero hz clock now after h e least = omega arith
overshoot (suc rounds) hz clock now after h e least = least (omega arith)

module _ {ℓ} {T : Type ℓ} where
  -- The loop of `progress` ended with `after`: what it fired stands behind `out`, and the clock went on
  -- by whole ticks to the first instant later than `now`.
  pub record Progressed (k : ℕ) (s : WheelTimer T) (out : List (List T)) (now : ℕ)
      (result : Outcome (WheelTimer T × List (List T))) : Type ℓ where
    pub after : WheelTimer T
    pub fired : List (List T)
    pub rounds : ℕ
    pub is_done : result ≡ done (after, out ++ fired)
    pub sound : IsWheel k after
    pub same_hz : after.start_hz ≡ s.start_hz
    pub clock : after.current_clock ≡ s.current_clock + rounds * s.start_hz
    pub late : now < after.current_clock
    pub least : 0 < rounds → after.current_clock ≤ now + s.start_hz

  -- One round of the loop.
  abbrev round : WheelTimer T → WheelTimer T
  round s = record (ticked_wheel s) { current_clock = s.current_clock + s.start_hz }

  round-IsWheel : (k : ℕ) (s : WheelTimer T) → IsWheel k s → IsWheel k (round s)
  round-IsWheel k s v =
      let w = (wheel_tick_lem k s v).1 in
      record { moving = w.moving; some_level = w.some_level; sound = w.sound }

  progress_from-round :
      (k fuel : ℕ) (s : WheelTimer T) (out : List (List T)) (now : ℕ)
      → IsWheel k s
      → s.current_clock ≤ now
      → progress_from (suc fuel) s out now
        ≡ progress_from fuel (round s) (out ++ fired_first (processed s) s.levels) now
  unfolding progress_from
  progress_from-round k fuel s out now v h =
      rw (le→leb s.current_clock now h, (wheel_tick_lem k s v).0) refl

  progress_from-Progressed :
      (k fuel : ℕ) (s : WheelTimer T) (out : List (List T)) (now : ℕ)
      → IsWheel k s
      → now < s.current_clock + fuel
      → Progressed k s out now (progress_from fuel s out now)
  unfolding progress_from
  progress_from-Progressed k zero s out now v h = record {
    after = s;
    fired = [];
    rounds = 0;
    is_done = rw (append-nil out);
    sound = v;
    same_hz = refl;
    clock = omega arith;
    late = omega arith;
    least = λ p. absurd (omega arith);
  }
  progress_from-Progressed k (suc fuel) s out now v h =
      elim (Bool-cases (leb s.current_clock now)) [
        | inl e ↦
            let r =
              progress_from-Progressed k fuel (round s) (out ++ fired_first (processed s) s.levels)
                now (round-IsWheel k s v) (omega (arith, v.moving)) in
            record {
              after = r.after;
              fired = fired_first (processed s) s.levels ++ r.fired;
              rounds = r.rounds + 1;
              is_done =
                  progress_from-round k fuel s out now v (leb→le s.current_clock now e)
                  ∙ r.is_done
                  ∙ ap (λ o. done (r.after, o))
                      (append_assoc out (fired_first (processed s) s.levels) r.fired);
              sound = r.sound;
              same_hz = r.same_hz;
              clock = omega (arith, r.clock);
              late = r.late;
              least = λ p.
                  overshoot r.rounds s.start_hz s.current_clock now r.after.current_clock
                    (leb→le s.current_clock now e) r.clock r.least;
            }
        | inr e ↦ record {
          after = s;
          fired = [];
          rounds = 0;
          is_done = rw (e, append-nil out);
          sound = v;
          same_hz = refl;
          clock = omega arith;
          late = ground arith;
          least = λ p. absurd (omega arith);
        }
      ]

  -- `progress` of a sound wheel ends without a panic, and returns the first instant, in whole ticks
  -- from the old clock, that is later than `now`.
  pub progress-Progressed :
      (k : ℕ) (s : WheelTimer T) (out : List (List T)) (now : ℕ)
      → IsWheel k s
      → Progressed k s out now (progress s out now)
  unfolding progress
  progress-Progressed k s out now v =
      progress_from-Progressed k (now + 1 - s.current_clock) s out now v (omega arith)
