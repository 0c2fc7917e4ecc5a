-- ===== src/Util/Timer/Level.antt =====
-- aquic-core/src/util/timer/level.rs: one level of the wheel timer.
--
-- `Level` is the struct, its shared buckets a list of lists. A detached `Bucket` is the list of its
-- elements: dropping one only hands its spare capacity back, so it has no effect here. A method
-- returns the new level beside its result; an index out of range and a failed assertion panic.
pub mod Schedule
pub mod Cancel
use Prim.Native.Nat.{bit_and}
use aquic.Base.{
  ℕ, zero, suc, ◌+◌, ◌-◌, ◌*◌, ◌/◌, ◌%◌, ◌^◌, ◌≤◌, ◌<◌, min, max, ◌≡◌, refl, sym, ap, ◌∙◌, subst,
  ◌≢◌, ◌↔◌, ◌⊎◌, inl, inr, Bool, true, false, not, ◌&&◌, ◌||◌, Option, none, some, List, [], ◌∷◌,
  ◌++◌, map, arith, ltb, leb, ◌==◌, if◌then◌else◌, ltb→lt, lt→ltb, le→ltb, leb→le, le→leb, lt→leb,
  ==_iff, tests, Bool-cases, Option-cases, length, get_elem?, get_or, set, replicate, All,
  length-append, length-set, length-replicate, get_or-set_self, get_or-set_ne, word, wrapping_add,
  Outcome, done, panic, ◌>>=◌, add_word, sub_word, add_word-eq, sub_word-eq,
}

-- `usize::is_power_of_two`
abbrev pub is_power_of_two : ℕ → Bool
is_power_of_two n = not (n == 0) && (bit_and n (n - 1) == 0)

pub record Level {ℓ} (T : Type ℓ) : Type ℓ where
  pub buckets : List (List T)
  pub index : ℕ
  pub epoch : ℕ

pub record LevelKey : Type 0 where
  pub bucket_index : ℕ
  pub element_index : ℕ
  pub epoch : ℕ

abbrev pub from_bool : Bool → ℕ
from_bool b = if b then 1 else 0

module _ {ℓ} {T : Type ℓ} where
  -- `Level::new`
  unfoldable pub new : ℕ → Outcome (Level T)
  new buckets_count =
      if is_power_of_two buckets_count
      then done (record { buckets = replicate buckets_count []; index = 0; epoch = 0 })
      else panic

  -- `Level::mask`
  abbrev pub mask : List (List T) → ℕ
  mask buckets = length buckets - 1

  -- The bucket and the epoch that `schedule` computes.
  abbrev pub bucket_for : Level T → ℕ → ℕ
  bucket_for l duration_ticks = bit_and (wrapping_add l.index duration_ticks) (mask l.buckets)

  abbrev pub key_for : Level T → ℕ → LevelKey
  key_for l duration_ticks =
      let i = bucket_for l duration_ticks in
      record {
        bucket_index = i;
        element_index = length (get_or l.buckets i []);
        epoch = wrapping_add l.epoch (from_bool (ltb i l.index));
      }

  unfoldable pub schedule : Bool → Level T → T → ℕ → Outcome (Level T × LevelKey)
  schedule debug l event duration_ticks =
      let i = bucket_for l duration_ticks in
      if debug && not (ltb duration_ticks (length l.buckets))
      then panic
      else if ltb i (length l.buckets)
      then done (
        record l { buckets = set l.buckets i (get_or l.buckets i [] ++ event ∷ []) },
        key_for l duration_ticks,
      )
      else panic

  unfoldable pub tick : Level T → Outcome (Level T × List T)
  tick l =
      if ltb l.index (length l.buckets)
      then (let index = bit_and (wrapping_add l.index 1) (mask l.buckets) in
          done (
            record {
              buckets = set l.buckets l.index [];
              index = index;
              epoch = wrapping_add l.epoch (from_bool (index == 0));
            },
            get_or l.buckets l.index [],
          ))
      else panic

  -- `cancel` on a type whose `Default::default()` is `default`
  is_past : Level T → LevelKey → Bool
  is_past l key = ltb key.epoch l.epoch || (key.epoch == l.epoch && ltb key.bucket_index l.index)

  unfoldable pub cancel : T → Level T → LevelKey → Outcome (Level T)
  unfolding is_past
  cancel default l key =
      let elements = get_or l.buckets key.bucket_index [] in
      if is_past l key
      then done l
      else if ltb key.bucket_index (length l.buckets)
      then (if ltb key.element_index (length elements)
          then done (record l {
            buckets = set l.buckets key.bucket_index (set elements key.element_index default);
          })
          else done l)
      else panic
