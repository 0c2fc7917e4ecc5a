-- ===== src/Util/Timer/Level/Schedule.antt =====
-- A level as the list of what its next ticks will hand out.
use Prim.Native.Nat.{bit_and}
use native.Mathlib.Nat.{mod-lt, mod-eq_of_lt, mod-eq-sub-mod, mod-add-mod, add-mod_right}
use aquic.Base.{
  ℕ, ◌+◌, ◌-◌, ◌%◌, ◌^◌, ◌≤◌, ◌<◌, ◌≡◌, sym, ap, ◌∙◌, inl, inr, Bool, List, [], ◌∷◌, ◌++◌, arith,
  ◌==◌, if◌then◌else◌, lt→ltb, ==_iff, Bool-cases, length, get_or, set, length-set, get_or-set_self,
  get_or-set_ne, wrapping_add, done,
}
use aquic.Base.Bits.{bit_and_mask, two-pow-pos}
use aquic.Util.Timer.Level.{Level, schedule, tick, bucket_for, mask, from_bool, key_for}

-- A level of `2 ^ k` buckets.
pub record IsLevel {ℓ} {T : Type ℓ} (k : ℕ) (l : Level T) : Type 0 where
  pub count : length l.buckets ≡ 2 ^ k
  pub inside : l.index < 2 ^ k
  pub small : 2 ^ k ≤ 2 ^ 63

pub mod-wrap : (n i : ℕ) → n ≤ i → i < n + n → i % n ≡ i - n
mod-wrap n i h lt = mod-eq-sub-mod h ∙ mod-eq_of_lt (omega arith)

-- Two offsets below `n` from one index meet only if they are the same.
pub mod-injective : (n i a b : ℕ) → i < n → a < n → b < n → (i + a) % n ≡ (i + b) % n → a ≡ b
mod-injective n i a b hi ha hb e = ground (
  arith,
  mod-wrap n (i + a),
  mod-wrap n (i + b),
  mod-eq_of_lt {n = i + a} {m = n},
  mod-eq_of_lt {n = i + b} {m = n},
)

module _ {ℓ} {T : Type ℓ} where
  -- What the `j`-th tick from now hands out, if nothing changes.
  abbrev pub upcoming : Level T → ℕ → List T
  upcoming l j = get_or l.buckets ((l.index + j) % length l.buckets) []

  masked :
      (k : ℕ) (l : Level T) (i : ℕ)
      → IsLevel k l
      → bit_and i (mask l.buckets) ≡ i % length l.buckets
  masked k l i v = rw v.count (bit_and_mask i k)

  pub bucket_for-mod :
      (k : ℕ) (l : Level T) (d : ℕ)
      → IsLevel k l
      → d < 2 ^ k
      → bucket_for l d ≡ (l.index + d) % length l.buckets
  bucket_for-mod k l d v h =
      masked k l (wrapping_add l.index d) v
      ∙ ap (λ i. i % length l.buckets) (mod-eq_of_lt (omega (arith, v.inside, v.small)))

  bucket_for-lt :
      (k : ℕ) (l : Level T) (d : ℕ) → IsLevel k l → d < 2 ^ k → bucket_for l d < length l.buckets
  bucket_for-lt k l d v h = omega (
    arith,
    bucket_for-mod k l d v h,
    mod-lt (l.index + d) {m = length l.buckets} (omega (arith, v.count)),
  )

  -- A write `d` places from `i` round a list is read `d` places from `i` only.
  pub get_or-set_round :
      (bs : List (List T)) (v : List T) (i d j : ℕ)
      → i < length bs
      → d < length bs
      → j < length bs
      → get_or (set bs ((i + d) % length bs) v) ((i + j) % length bs) []
        ≡ (if j == d then v else get_or bs ((i + j) % length bs) [])
  get_or-set_round bs v i d j hi hd hj = elim (Bool-cases (j == d)) [
    | inl e ↦
        let same : j ≡ d = (==_iff j d).0 e in
        rw e (
          ap (λ t. get_or (set bs ((i + d) % length bs) v) ((i + t) % length bs) []) same
          ∙ get_or-set_self bs ((i + d) % length bs) v [] (mod-lt (i + d) (omega arith)))
    | inr e ↦ rw e (
        get_or-set_ne bs ((i + d) % length bs) ((i + j) % length bs) v []
          (λ p. ground (arith, mod-injective (length bs) i d j hi hd hj p)))
  ]

  abbrev added : Level T → T → ℕ → List T
  added l event d = get_or l.buckets (bucket_for l d) [] ++ event ∷ []

  abbrev scheduled : Level T → T → ℕ → Level T
  scheduled l event d = record l { buckets = set l.buckets (bucket_for l d) (added l event d) }

  upcoming-scheduled :
      (k : ℕ) (l : Level T) (event : T) (d j : ℕ)
      → IsLevel k l
      → d < 2 ^ k
      → j < 2 ^ k
      → upcoming (scheduled l event d) j
        ≡ (if j == d then upcoming l j ++ event ∷ [] else upcoming l j)
  upcoming-scheduled k l event d j v hd hj =
      rw
        (
          length-set l.buckets (bucket_for l d) (added l event d),
          bucket_for-mod k l d v hd,
          get_or-set_round l.buckets
              (get_or l.buckets ((l.index + d) % length l.buckets) [] ++ event ∷ []) l.index d j
              (omega (arith, v.count, v.inside)) (omega (arith, v.count)) (omega (arith, v.count)),
        )
        (elim (Bool-cases (j == d)) [
          | inl e ↦
              let same : d ≡ j = sym ((==_iff j d).0 e) in
              rw e (
                ap (λ t. get_or l.buckets ((l.index + t) % length l.buckets) [] ++ event ∷ []) same)
          | inr e ↦ rw e
        ])

  -- Scheduling adds the event to one upcoming bucket, behind the events there, and changes no other.
  pub schedule_lem :
      (debug : Bool) (k : ℕ) (l : Level T) (event : T) (d : ℕ)
      → IsLevel k l
      → d < 2 ^ k
      → (l' : Level T) × (schedule debug l event d ≡ done (l', key_for l d))
        × IsLevel k l'
        × ((j : ℕ)
            → j < 2 ^ k
            → upcoming l' j ≡ (if j == d then upcoming l j ++ event ∷ [] else upcoming l j))
  unfolding schedule
  schedule_lem debug k l event d v h = (
    scheduled l event d,
    ground (arith, v.count, bucket_for-lt k l d v h),
    record {
      count = length-set l.buckets (bucket_for l d) (added l event d) ∙ v.count;
      inside = v.inside;
      small = v.small;
    },
    λ j hj. upcoming-scheduled k l event d j v h hj,
  )

  abbrev pub next_index : Level T → ℕ
  next_index l = bit_and (wrapping_add l.index 1) (mask l.buckets)

  abbrev pub ticked : Level T → Level T
  ticked l = record {
    buckets = set l.buckets l.index [];
    index = next_index l;
    epoch = wrapping_add l.epoch (from_bool (next_index l == 0));
  }

  pub next_index-mod :
      (k : ℕ) (l : Level T) → IsLevel k l → next_index l ≡ (l.index + 1) % length l.buckets
  next_index-mod k l v =
      masked k l (wrapping_add l.index 1) v
      ∙ ap (λ i. i % length l.buckets) (mod-eq_of_lt (omega (arith, v.inside, v.small)))

  ticked-IsLevel : (k : ℕ) (l : Level T) → IsLevel k l → IsLevel k (ticked l)
  ticked-IsLevel k l v = record {
    count = length-set l.buckets l.index [] ∙ v.count;
    inside = omega (
      arith,
      next_index-mod k l v,
      v.count,
      mod-lt (l.index + 1) {m = length l.buckets} (omega (arith, v.count, v.inside)),
    );
    small = v.small;
  }

  -- Where the `j`-th bucket after a tick was before it.
  round_ticked :
      (k : ℕ) (l : Level T) (j : ℕ)
      → IsLevel k l
      → (next_index l + j) % length (set l.buckets l.index [])
        ≡ (l.index + (j + 1)) % length l.buckets
  round_ticked k l j v =
      rw
        (
          length-set l.buckets l.index [],
          next_index-mod k l v,
          mod-add-mod (l.index + 1) (length l.buckets) j,
        )
        (ap (λ i. i % length l.buckets) (omega arith))

  at_index : (k : ℕ) (l : Level T) → IsLevel k l → (l.index + 0) % length l.buckets ≡ l.index
  at_index k l v = mod-eq_of_lt (omega (arith, v.count, v.inside)) ∙ omega arith

  upcoming-ticked :
      (k : ℕ) (l : Level T) (j : ℕ)
      → IsLevel k l
      → j + 1 < 2 ^ k
      → upcoming (ticked l) j ≡ upcoming l (j + 1)
  upcoming-ticked k l j v h =
      ap (λ i. get_or (set l.buckets l.index []) i []) (round_ticked k l j v) ∙ ne_head
    where
      ne_head :
          get_or (set l.buckets l.index []) ((l.index + (j + 1)) % length l.buckets) []
          ≡ upcoming l (j + 1)
      ne_head = get_or-set_ne l.buckets l.index ((l.index + (j + 1)) % length l.buckets) [] [] (λ e.
          absurd (
            omega (
              arith,
              mod-injective (length l.buckets) l.index 0 (j + 1) (omega (arith, v.count, v.inside))
                  (omega (arith, v.count, v.inside)) (omega (arith, v.count)) (at_index k l v ∙ e),
            )))

  upcoming-ticked_last : (k : ℕ) (l : Level T) → IsLevel k l → upcoming (ticked l) (2 ^ k - 1) ≡ []
  upcoming-ticked_last k l v =
      ap (λ i. get_or (set l.buckets l.index []) i []) (round_ticked k l (2 ^ k - 1) v)
      ∙ ap (λ i. get_or (set l.buckets l.index []) i []) home
      ∙ get_or-set_self l.buckets l.index [] [] (omega (arith, v.count, v.inside))
    where
      home : (l.index + (2 ^ k - 1 + 1)) % length l.buckets ≡ l.index
      home =
          ap (λ i. i % length l.buckets) (omega (arith, v.count, two-pow-pos k))
          ∙ add-mod_right l.index (length l.buckets)
          ∙ mod-eq_of_lt (omega (arith, v.count, v.inside))

  -- A tick hands out the next upcoming bucket, moves the others one tick nearer, and leaves an empty
  -- bucket for the farthest tick.
  pub tick_lem :
      (k : ℕ) (l : Level T)
      → IsLevel k l
      → (tick l ≡ done (ticked l, upcoming l 0))
        × IsLevel k (ticked l)
        × ((j : ℕ) → j + 1 < 2 ^ k → upcoming (ticked l) j ≡ upcoming l (j + 1))
        × (upcoming (ticked l) (2 ^ k - 1) ≡ [])
  unfolding tick
  tick_lem k l v = (
    rw (lt→ltb l.index (length l.buckets) (omega (arith, v.count, v.inside)))
        (ap (λ i. done (ticked l, get_or l.buckets i [])) (sym (at_index k l v))),
    ticked-IsLevel k l v,
    λ j hj. upcoming-ticked k l j v hj,
    upcoming-ticked_last k l v,
  )
