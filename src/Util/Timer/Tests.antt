-- ===== src/Util/Timer/Tests.antt =====
-- Runs of the wheel timer on small wheels (aquic-core/src/util/timer).
use aquic.Base.{
  ℕ, ◌+◌, ◌%◌, ◌^◌, ◌≤◌, ◌<◌, ◌≡◌, refl, true, false, some, [], ◌∷◌, ◌++◌, arith, ◌==◌,
  if◌then◌else◌, get_elem?, set, wrapping_add, done, panic,
}
use aquic.Util.Timer.{WheelTimer, TimerKey, progress, new, schedule, tick, required_buckets}
use aquic.Util.Timer.Level
use aquic.Util.Timer.Level.{LevelKey}
use aquic.Util.Timer.Level.Schedule.{IsLevel, schedule_lem, upcoming, ticked}
use aquic.Util.Timer.Level.Cancel.{cancel_lem}
use aquic.Util.Timer.Wheel.{IsWheel, wheel_tick_lem, ticked_wheel, fired_first, processed}
use aquic.Util.Timer.Progress.{Progressed, progress-Progressed}
use aquic.Util.Timer.Early.{fires_early}

-- Four buckets; the next tick hands out the event 7, the one after it 8 and 9.
abbrev four : Level.Level ℕ
four = record { buckets = (9 ∷ []) ∷ [] ∷ [] ∷ (7 ∷ []) ∷ []; index = 3; epoch = 0 }

four-IsLevel : IsLevel 2 four
four-IsLevel = record { count = refl; inside = omega arith; small = omega arith }

schedule_lem_example :
    (l : Level.Level ℕ) × (Level.schedule true four 5 2
      ≡ done (l, record { bucket_index = 1; element_index = 0; epoch = 1 }))
    × IsLevel 2 l
    × ((j : ℕ)
        → j < 4
        → upcoming l j ≡ (if j == 2 then upcoming four j ++ 5 ∷ [] else upcoming four j))
schedule_lem_example = schedule_lem true 2 four 5 2 four-IsLevel (omega arith)

abbrev nine : LevelKey
nine = record { bucket_index = 0; element_index = 0; epoch = 1 }

-- The key of the event 9 is due two ticks later; its bucket was 3 when the level stood at 0.
cancel_lem_example :
    (4 < 3 → Level.cancel 0 four nine ≡ done four)
    × (3 ≤ 4
        → 4 < 7
        → (l : Level.Level ℕ) × (Level.cancel 0 four nine ≡ done l)
          × IsLevel 2 l
          × ((j : ℕ)
              → j < 4
              → upcoming l j ≡ (if 3 + j == 4 then set (upcoming four j) 0 0 else upcoming four j)))
cancel_lem_example = cancel_lem 2 0 four nine four-IsLevel (omega arith)

room_for_seven : required_buckets 1 7 ≤ 2 ^ 62
unfolding required_buckets
room_for_seven = omega arith

abbrev wheel : WheelTimer ℕ
wheel = record {
  levels = four ∷ four ∷ [];
  current_tick = 3;
  current_clock = 100;
  start_hz = 10;
  start_coverage = 30;
}

wheel-IsWheel : IsWheel 2 wheel
wheel-IsWheel = record {
  moving = omega arith;
  some_level = omega arith;
  sound = (four-IsLevel, (four-IsLevel, tt));
}

wheel_tick_lem_example :
    (tick wheel ≡ done (ticked_wheel wheel, fired_first (processed wheel) wheel.levels))
    × IsWheel 2 (ticked_wheel wheel)
    × ((i : ℕ) (l : Level.Level ℕ)
        → i ≤ 64
        → i < 2
        → get_elem? wheel.levels i ≡ some l
        → get_elem? (ticked_wheel wheel).levels i
          ≡ some (if wrapping_add 3 1 % 2 ^ i == 0 then ticked l else l))
wheel_tick_lem_example = wheel_tick_lem 2 wheel wheel-IsWheel

progress-Progressed_example : Progressed 2 wheel [] 125 (progress wheel [] 125)
progress-Progressed_example = progress-Progressed 2 wheel [] 125 wheel-IsWheel

-- A wheel of 4 ticks of 10, and an event that is due 35 later.
fires_early_example :
    (s : WheelTimer ℕ) × (new 10 40 100 ≡ done s)
    × (schedule true s 7 135 100 ≡ panic)
    × ((s' : WheelTimer ℕ) × (key : TimerKey) × (schedule false s 7 135 100 ≡ done (s', key))
        × ((s'' : WheelTimer ℕ) × (progress s' [] 100 ≡ done (s'', (7 ∷ []) ∷ [])) × (100 < 135)))
fires_early_example =
    fires_early 10 2 100 135 7 (omega arith) (omega arith) (omega arith) (omega arith) (omega arith)
