-- ===== src/Stream/Id/Sequence.antt =====
-- The sequences of stream IDs (aquic-core/src/stream/types/id.rs).
use native.Mathlib.Nat.{mod-eq_of_lt}
use native.Mathlib.Decide.{dec_lt}
use aquic.Base.{
  ℕ, zero, suc, ◌+◌, ◌-◌, ◌*◌, ◌/◌, ◌%◌, ◌^◌, ◌≤◌, ◌<◌, ◌≡◌, refl, sym, ap, ◌∙◌, subst, ◌≢◌, ◌↔◌,
  Bool, true, false, not, Option, none, some, arith, ◌==◌, if◌then◌else◌,
}
use aquic.Base.Bits.{bit_and_mask, bit_and_two}
use aquic.Stream.Id.{
  StreamId, max_value, new, initial, is_server, is_client, is_uni, is_bidi, next, previous,
  try_from, as_bits, from_value,
}

-- A stream ID that `new` made.
abbrev pub IsId : StreamId → Type 0
IsId id = id.raw ≤ max_value

is_server-mod : (id : StreamId) → is_server id ≡ (id.raw % 2 == 1)
unfolding is_server
is_server-mod id = rw (bit_and_mask id.raw 1) refl

is_uni-mod : (id : StreamId) → is_uni id ≡ (id.raw / 2 % 2 == 1)
unfolding is_uni
is_uni-mod id = rw (bit_and_two id.raw) (ground arith)

-- Two IDs of the same initiator and direction.
abbrev pub SameKind : StreamId → StreamId → Type 0
SameKind a b = (is_server a ≡ is_server b) × (is_uni a ≡ is_uni b)

far : ℕ → StreamId → StreamId
far n id = record { raw = id.raw + 4 * n }

far_raw : (id : StreamId) → (far 1 id).raw ≡ id.raw + 4
unfolding far
far_raw id = omega arith

far-IsId : (id : StreamId) → id.raw + 4 ≤ max_value → IsId (far 1 id)
unfolding far
far-IsId id h = omega arith

some-none : {x : StreamId} → some x ≢ none
some-none e = absurd cc

some-injective : {x y : StreamId} → some x ≡ some y → x ≡ y
some-injective e = cc

far-SameKind : (n : ℕ) (id : StreamId) → SameKind (far n id) id
unfolding far
far-SameKind n id = (
  is_server-mod (far n id) ∙ ap (λ b. b == 1) (omega arith) ∙ sym (is_server-mod id),
  is_uni-mod (far n id) ∙ ap (λ b. b == 1) (omega arith) ∙ sym (is_uni-mod id),
)

next-far : (id : StreamId) → id.raw + 4 ≤ max_value → next id ≡ some (far 1 id)
unfolding next new far
next-far id h = ground arith

next-none : (id : StreamId) → max_value < id.raw + 4 → next id ≡ none
unfolding next new
next-none id h = ground arith

previous-far : (id : StreamId) → IsId id → previous (far 1 id) ≡ some id
unfolding previous new far
previous-far id h = ground arith

previous-none : (id : StreamId) → id.raw < 4 → previous id ≡ none
unfolding previous new
previous-none id h = ground arith

-- `next` is four further, in the sequence of the same initiator and direction, and `previous` undoes
-- it; there is none exactly if that would exceed `MAX`.
next_lem :
    (id : StreamId)
    → IsId id
    → ((next id ≡ none) ↔ (max_value < id.raw + 4))
      × ((id' : StreamId)
          → next id ≡ some id'
          → IsId id' × (id'.raw ≡ id.raw + 4) × SameKind id' id × (previous id' ≡ some id))
next_lem id h = elim (dec_lt max_value (id.raw + 4)) [
  | yes p ↦ ((λ _. p, λ _. next-none id p), λ id' e. absurd (some-none (sym e ∙ next-none id p)))
  | no p ↦
      let e = next-far id (omega arith) in
      (
        (λ n. absurd (some-none (sym e ∙ n)), λ q. absurd (p q)),
        λ id' e'.
            let same : far 1 id ≡ id' = some-injective (sym e ∙ e') in
            subst
              (λ (i : StreamId).
                IsId i × (i.raw ≡ id.raw + 4) × SameKind i id × (previous i ≡ some id))
              same (far-IsId id (omega arith), far_raw id, far-SameKind 1 id, previous-far id h),
      )
]

near : StreamId → StreamId
near id = record { raw = id.raw - 4 }

near-far : (id : StreamId) → 4 ≤ id.raw → far 1 (near id) ≡ id
unfolding near far
near-far id h = ap from_value (omega arith)

near_raw : (id : StreamId) → 4 ≤ id.raw → (near id).raw + 4 ≡ id.raw
unfolding near
near_raw id h = omega arith

previous-near : (id : StreamId) → IsId id → 4 ≤ id.raw → previous id ≡ some (near id)
unfolding previous new near
previous-near id h p = ground arith

near-back :
    (id : StreamId)
    → IsId id
    → 4 ≤ id.raw
    → IsId (near id)
      × ((near id).raw + 4 ≡ id.raw)
      × SameKind (near id) id
      × (next (near id) ≡ some id)
near-back id h p = (
  omega (arith, near_raw id p),
  near_raw id p,
  subst (λ i. SameKind (near id) i) (near-far id p)
      (sym (far-SameKind 1 (near id)).0, sym (far-SameKind 1 (near id)).1),
  next-far (near id) (omega (arith, near_raw id p)) ∙ ap some (near-far id p),
)

initial_of :
    (n : ℕ) → n < 4 → (client : Bool) × (bidi : Bool) × (from_value n ≡ initial client bidi)
unfolding initial
initial_of zero h = (true, true, refl)
initial_of (suc zero) h = (false, true, refl)
initial_of (suc (suc zero)) h = (true, false, refl)
initial_of (suc (suc (suc zero))) h = (false, false, refl)
initial_of (suc (suc (suc (suc n)))) h = absurd (omega arith)

initial-lt : (client bidi : Bool) → (initial client bidi).raw < 4
unfolding initial
initial-lt true true = omega arith
initial-lt true false = omega arith
initial-lt false true = omega arith
initial-lt false false = omega arith

-- `previous` is four before, in the sequence of the same initiator and direction, and `next` undoes
-- it; there is none exactly for the four initial IDs.
previous_lem :
    (id : StreamId)
    → IsId id
    → ((previous id ≡ none) ↔ ((client : Bool) × (bidi : Bool) × (id ≡ initial client bidi)))
      × ((id' : StreamId)
          → previous id ≡ some id'
          → IsId id' × (id'.raw + 4 ≡ id.raw) × SameKind id' id × (next id' ≡ some id))
previous_lem id h = elim (dec_lt id.raw 4) [
  | yes p ↦ (
    (λ _. initial_of id.raw p, λ _. previous-none id p),
    λ id' e. absurd (some-none (sym e ∙ previous-none id p)),
  )
  | no p ↦
      let e = previous-near id h (omega arith) in
      (
        (
          λ n. absurd (some-none (sym e ∙ n)),
          λ (client, bidi, same).
              absurd (p (subst (λ (i : StreamId). i.raw < 4) (sym same) (initial-lt client bidi))),
        ),
        λ id' e'.
            let same : near id ≡ id' = some-injective (sym e ∙ e') in
            subst
              (λ (i : StreamId). IsId i × (i.raw + 4 ≡ id.raw) × SameKind i id × (next i ≡ some id))
              same (near-back id h (omega arith)),
      )
]

-- `n` times `next`
pub advance : ℕ → StreamId → Option StreamId
unfolding next
advance zero id = some id
advance (suc n) id = elim (advance n id) [ none ↦ none | some id' ↦ next id' ]

-- The four initial IDs.
initial-kind :
    (client bidi : Bool)
    → (is_client (initial client bidi) ≡ client) × (is_bidi (initial client bidi) ≡ bidi)
unfolding initial is_client is_server is_bidi is_uni
initial-kind true true = (refl, refl)
initial-kind true false = (refl, refl)
initial-kind false true = (refl, refl)
initial-kind false false = (refl, refl)

try_from-some : (value : ℕ) → value ≤ max_value → try_from value ≡ some (from_value value)
unfolding try_from new
try_from-some value h = ground arith

try_from-none : (value : ℕ) → max_value < value → try_from value ≡ none
unfolding try_from new
try_from-none value h = ground arith

-- The conversions: `TryFrom` takes exactly the values up to `MAX`, and the way back is the value
-- again, in every integer type that has room for it.
try_from_lem :
    (value : ℕ)
    → ((max_value < value) ↔ (try_from value ≡ none))
      × ((id : StreamId)
          → try_from value ≡ some id
          → IsId id × ((w : ℕ) → value < 2 ^ w → as_bits w id ≡ value))
try_from_lem value = elim (dec_lt max_value value) [
  | yes p ↦ (
    (λ _. try_from-none value p, λ _. p),
    λ id e. absurd (some-none (sym e ∙ try_from-none value p)),
  )
  | no p ↦
      let e = try_from-some value (omega arith) in
      (
        (λ q. absurd (p q), λ n. absurd (some-none (sym e ∙ n))),
        λ id e'.
            subst (λ (i : StreamId). IsId i × ((w : ℕ) → value < 2 ^ w → as_bits w i ≡ value))
              (some-injective (sym e ∙ e')) (omega arith, λ w small. mod-eq_of_lt small),
      )
]

far-at : (n : ℕ) (id id' : StreamId) → id.raw + 4 * n ≡ id'.raw → far n id ≡ id'
unfolding far
far-at n id id' e = ap from_value e

far_raw_at : (n : ℕ) (id : StreamId) → (far n id).raw ≡ id.raw + 4 * n
unfolding far
far_raw_at n id = refl

advance-far : (n : ℕ) (id : StreamId) → id.raw + 4 * n ≤ max_value → advance n id ≡ some (far n id)
unfolding advance
advance-far zero id h = ap some (sym (far-at 0 id id (omega arith)))
advance-far (suc n) id h = rw (advance-far n id (omega arith)) (
    next-far (far n id) (omega (arith, far_raw_at n id))
    ∙ ap some (
        far-at 1 (far n id) (far (suc n) id)
          (omega (arith, far_raw_at n id, far_raw_at (suc n) id))))

initial_raw :
    (client bidi : Bool)
    → (initial client bidi).raw ≡ (if client then 0 else 1) + (if bidi then 0 else 2)
unfolding initial
initial_raw true true = refl
initial_raw true false = refl
initial_raw false true = refl
initial_raw false false = refl

own_initial : (id : StreamId) → (initial (is_client id) (is_bidi id)).raw ≡ id.raw % 4
unfolding is_client is_bidi
own_initial id =
    rw (initial_raw (not (is_server id)) (not (is_uni id)), is_server-mod id, is_uni-mod id)
      (ground arith)

-- Every stream ID is reached from the initial one of its initiator and direction, in `raw / 4` steps
-- of `next`. The initial ID of a kind is of that kind.
advance_lem :
    (id : StreamId)
    → IsId id
    → (advance (id.raw / 4) (initial (is_client id) (is_bidi id)) ≡ some id)
      × ((client bidi : Bool)
          → (is_client (initial client bidi) ≡ client) × (is_bidi (initial client bidi) ≡ bidi))
advance_lem id h = (
  advance-far (id.raw / 4) (initial (is_client id) (is_bidi id)) (omega (arith, own_initial id))
      ∙ ap some (
          far-at (id.raw / 4) (initial (is_client id) (is_bidi id)) id
            (omega (arith, own_initial id))),
  initial-kind,
)
