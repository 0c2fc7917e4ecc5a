-- ===== src/Util/Timer/Level/Cancel.antt =====
-- When a key of a level is still good: keys and levels as instants.
use native.Mathlib.Nat.{mod-lt, mod-eq_of_lt, mul-add-mod_self_right}
use native.Mathlib.Numerals.{add-one}
use native.Mathlib.Nat.{suc-mul, add-zero}
use native.Mathlib.Decide.{dec_lt}
use aquic.Base.{
  ℕ, zero, suc, ◌+◌, ◌-◌, ◌*◌, ◌%◌, ◌^◌, ◌≤◌, ◌<◌, ◌≡◌, refl, sym, ap, ◌∙◌, ◌≢◌, ◌⊎◌, inl, inr,
  true, false, ◌&&◌, ◌||◌, List, [], ◌∷◌, arith, ltb, ◌==◌, if◌then◌else◌, lt→ltb, le→ltb, ==_iff,
  Bool-cases, length, get_or, set, length-set, get_or-set_self, get_or-set_ne, word, wrapping_add,
  done,
}
use aquic.Util.Timer.Level.{Level, LevelKey, cancel, key_for, bucket_for, is_past, from_bool}
use aquic.Util.Timer.Level.Schedule.{
  IsLevel, upcoming, ticked, bucket_for-mod, next_index-mod, next_index, mod-wrap, mod-injective,
}

-- The number of ticks since the level was made, in levels of `n` buckets.
abbrev pub time {ℓ} : {T : Type ℓ} → ℕ → Level T → ℕ
time n l = l.epoch * n + l.index

-- The tick at which the event of a key is handed out.
abbrev pub key_time : ℕ → LevelKey → ℕ
key_time n key = key.epoch * n + key.bucket_index

row-le : (n a b : ℕ) → a < b → a * n + n ≤ b * n
row-le n a b h = grind arith

-- The order of `cancel` on epochs and indices is that of the instants.
lex-ltb :
    (n a i b j : ℕ) → i < n → j < n → (ltb a b || (a == b && ltb i j)) ≡ ltb (a * n + i) (b * n + j)
lex-ltb n a i b j hi hj = ground (arith, row-le n a b, row-le n b a)

-- `i + d` places round a list of `n`, with the round counted.
round :
    (n i d : ℕ)
    → i < n
    → d ≤ n
    → (((i + d) % n ≡ i + d) × (i + d < n))
      ⊎ (((i + d) % n + n ≡ i + d) × ((i + d) % n < n) × (n ≤ i + d))
round n i d hi hd = elim (dec_lt (i + d) n) [
  | yes p ↦ inl (mod-eq_of_lt p, p)
  | no p ↦ ground (arith, mod-wrap n (i + d), mod-lt (i + d) {m = n} (omega arith))
]

key-instant :
    (n e i d b : ℕ)
    → i < n
    → d < n
    → e + 1 < word
    → b ≡ (i + d) % n
    → wrapping_add e (from_bool (ltb b i)) * n + b ≡ e * n + i + d
key-instant n e i d b hi hd w h =
    ground (arith, round n i d hi (omega arith), suc-mul e n, add-zero e, add-one e)

tick-instant :
    (n e i b : ℕ)
    → i < n
    → e + 1 < word
    → b ≡ (i + 1) % n
    → wrapping_add e (from_bool (b == 0)) * n + b ≡ e * n + i + 1
tick-instant n e i b hi w h =
    ground (arith, round n i 1 hi (omega arith), suc-mul e n, add-zero e, add-one e)

module _ {ℓ} {A : Type ℓ} where
  set_beyond : (xs : List A) (i : ℕ) (x : A) → length xs ≤ i → set xs i x ≡ xs
  set_beyond [] i x h = refl
  set_beyond (y ∷ xs) zero x h = absurd (omega arith)
  set_beyond (y ∷ xs) (suc i) x h = ap (◌∷◌ y) (set_beyond xs i x (omega arith))

  set_same : (xs : List A) (i : ℕ) (d : A) → set xs i (get_or xs i d) ≡ xs
  set_same [] i d = refl
  set_same (y ∷ xs) zero d = refl
  set_same (y ∷ xs) (suc i) d = ap (◌∷◌ y) (set_same xs i d)

module _ {ℓ} {T : Type ℓ} where
  -- A key names the tick at which the event is due.
  pub key_time-key_for :
      (k : ℕ) (l : Level T) (d : ℕ)
      → IsLevel k l
      → d < 2 ^ k
      → l.epoch + 1 < word
      → key_time (2 ^ k) (key_for l d) ≡ time (2 ^ k) l + d
  key_time-key_for k l d v h w =
      key-instant (2 ^ k) l.epoch l.index d (bucket_for l d) v.inside h w
        (bucket_for-mod k l d v h ∙ ap (λ n. (l.index + d) % n) v.count)

  -- A tick is one tick later.
  pub time-ticked :
      (k : ℕ) (l : Level T)
      → IsLevel k l
      → l.epoch + 1 < word
      → time (2 ^ k) (ticked l) ≡ time (2 ^ k) l + 1
  time-ticked k l v w =
      tick-instant (2 ^ k) l.epoch l.index (next_index l) v.inside w
        (next_index-mod k l v ∙ ap (λ n. (l.index + 1) % n) v.count)

  is_past-lt :
      (k : ℕ) (l : Level T) (key : LevelKey)
      → IsLevel k l
      → key.bucket_index < 2 ^ k
      → is_past l key ≡ ltb (key_time (2 ^ k) key) (time (2 ^ k) l)
  unfolding is_past
  is_past-lt k l key v h = lex-ltb (2 ^ k) key.epoch key.bucket_index l.epoch l.index h v.inside

  abbrev replaced : T → Level T → LevelKey → List T
  replaced default l key = set (get_or l.buckets key.bucket_index []) key.element_index default

  abbrev cancelled : T → Level T → LevelKey → Level T
  cancelled default l key = record l {
    buckets = set l.buckets key.bucket_index (replaced default l key);
  }

  cancel-live :
      (k : ℕ) (default : T) (l : Level T) (key : LevelKey)
      → IsLevel k l
      → key.bucket_index < 2 ^ k
      → is_past l key ≡ false
      → cancel default l key ≡ done (cancelled default l key)
  unfolding cancel
  cancel-live k default l key v h p = ground (
    arith,
    set_beyond (get_or l.buckets key.bucket_index []) key.element_index default,
    set_same l.buckets key.bucket_index [],
  )

  due :
      (k : ℕ) (l : Level T) (key : LevelKey)
      → IsLevel k l
      → key.bucket_index < 2 ^ k
      → time (2 ^ k) l ≤ key_time (2 ^ k) key
      → key.bucket_index ≡ (l.index + (key_time (2 ^ k) key - time (2 ^ k) l)) % length l.buckets
  due k l key v h later = rw v.count (
      sym (mod-eq_of_lt h)
      ∙ sym (mul-add-mod_self_right key.epoch (2 ^ k) key.bucket_index)
      ∙ ap (λ t. t % 2 ^ k) split
      ∙ mul-add-mod_self_right l.epoch (2 ^ k) (l.index + (key_time (2 ^ k) key - time (2 ^ k) l)))
    where
      split :
          key_time (2 ^ k) key
          ≡ l.epoch * 2 ^ k + (l.index + (key_time (2 ^ k) key - time (2 ^ k) l))
      split = omega arith

  upcoming-cancelled :
      (k : ℕ) (default : T) (l : Level T) (key : LevelKey) (j : ℕ)
      → IsLevel k l
      → key.bucket_index < 2 ^ k
      → time (2 ^ k) l ≤ key_time (2 ^ k) key
      → key_time (2 ^ k) key < time (2 ^ k) l + 2 ^ k
      → j < 2 ^ k
      → upcoming (cancelled default l key) j ≡ (
          if time (2 ^ k) l + j == key_time (2 ^ k) key
          then set (upcoming l j) key.element_index default
          else upcoming l j)
  upcoming-cancelled k default l key j v h later near hj =
      rw (length-set l.buckets key.bucket_index (replaced default l key))
        (elim (Bool-cases (time (2 ^ k) l + j == key_time (2 ^ k) key)) [
          | inl e ↦ rw e (
              ap (λ i. get_or (set l.buckets key.bucket_index (replaced default l key)) i [])
                (sym (here e))
              ∙ get_or-set_self l.buckets key.bucket_index (replaced default l key) []
                  (omega (arith, v.count))
              ∙ ap (λ i. set (get_or l.buckets i []) key.element_index default) (here e))
          | inr e ↦ rw e (
              get_or-set_ne l.buckets key.bucket_index ((l.index + j) % length l.buckets)
                (replaced default l key) [] (elsewhere e))
        ])
    where
      here :
          (time (2 ^ k) l + j == key_time (2 ^ k) key) ≡ true
          → key.bucket_index ≡ (l.index + j) % length l.buckets
      here e =
          due k l key v h later
          ∙ ap (λ t. (l.index + t) % length l.buckets) (omega (arith, (==_iff _ _).0 e))

      elsewhere :
          (time (2 ^ k) l + j == key_time (2 ^ k) key) ≡ false
          → key.bucket_index ≢ (l.index + j) % length l.buckets
      elsewhere e p = ground (
        arith,
        mod-injective (length l.buckets) l.index (key_time (2 ^ k) key - time (2 ^ k) l) j
            (omega (arith, v.count, v.inside)) (omega (arith, v.count)) (omega (arith, v.count))
            (sym (due k l key v h later) ∙ p),
      )

  -- A key whose tick has passed cancels nothing, however often its bucket was filled again. A key
  -- whose tick is among the upcoming ones replaces that one event, if its bucket still holds it, by
  -- the default, and changes no other event.
  pub cancel_lem :
      (k : ℕ) (default : T) (l : Level T) (key : LevelKey)
      → IsLevel k l
      → key.bucket_index < 2 ^ k
      → (key_time (2 ^ k) key < time (2 ^ k) l → cancel default l key ≡ done l)
        × (time (2 ^ k) l ≤ key_time (2 ^ k) key
            → key_time (2 ^ k) key < time (2 ^ k) l + 2 ^ k
            → (l' : Level T) × (cancel default l key ≡ done l')
              × IsLevel k l'
              × ((j : ℕ)
                  → j < 2 ^ k
                  → upcoming l' j ≡ (
                      if time (2 ^ k) l + j == key_time (2 ^ k) key
                      then set (upcoming l j) key.element_index default
                      else upcoming l j)))
  unfolding cancel
  cancel_lem k default l key v h = (
    λ past. rw (is_past-lt k l key v h ∙ lt→ltb _ _ past) refl,
    λ later near. (
      cancelled default l key,
      cancel-live k default l key v h (is_past-lt k l key v h ∙ le→ltb _ _ later),
      record {
        count = length-set l.buckets key.bucket_index (replaced default l key) ∙ v.count;
        inside = v.inside;
        small = v.small;
      },
      λ j hj. upcoming-cancelled k default l key j v h later near hj,
    ),
  )
