-- ===== src/Backend/Token/Padded/Bytes.antt =====
-- What is written at the end of a token is drained from it (aquic-core/src/backend/token/padded.rs).
use mathlib.Core.List.{append_assoc, append-nil}
use native.Mathlib.Nat.{pow-suc}
use aquic.Base.{
  ℕ, zero, suc, ◌+◌, ◌*◌, ◌/◌, ◌%◌, ◌^◌, ◌<◌, ◌≡◌, refl, sym, ap, ◌∙◌, subst, false, some, List, [],
  ◌∷◌, ◌++◌, arith, ltb, le→ltb, length, length-append, word,
}
use aquic.Util.Random.{fill_bytes, length-fill_bytes}
use aquic.Backend.Token.Padded.{
  to_be_bytes, from_be_bytes, write_millis, write_random_padding, pop, pop_bytes, drain_millis,
  pop_padding, drain_padding,
}

pub pop_append : (xs : List ℕ) (x : ℕ) → pop (xs ++ x ∷ []) ≡ some (xs, x)
unfolding pop
pop_append [] x = refl
pop_append (y ∷ xs) x = rw (pop_append xs x) refl

length-to_be_bytes : (n value : ℕ) → length (to_be_bytes n value) ≡ n
unfolding to_be_bytes
length-to_be_bytes zero value = refl
length-to_be_bytes (suc n) value = omega (
  arith,
  length-append (to_be_bytes n (value / 256)) (value % 256 ∷ []),
  length-to_be_bytes n (value / 256),
)

pub length-write_millis : (millis : ℕ) → length (write_millis millis) ≡ 8
unfolding write_millis
length-write_millis millis = length-to_be_bytes 8 millis

pop_bytes-pop :
    (n byte : ℕ) (token token' array : List ℕ)
    → pop token ≡ some (token', byte)
    → pop_bytes (suc n) token array ≡ pop_bytes n token' (byte ∷ array)
unfolding pop_bytes
pop_bytes-pop n byte token token' array e = rw (e, pop_bytes) refl

pop_bytes-to_be_bytes :
    (n value : ℕ) (xs array : List ℕ)
    → pop_bytes n (xs ++ to_be_bytes n value) array ≡ some (xs, to_be_bytes n value ++ array)
unfolding pop_bytes to_be_bytes
pop_bytes-to_be_bytes zero value xs array = ap (λ t. some (t, array)) (append-nil xs)
pop_bytes-to_be_bytes (suc n) value xs array =
    let high = to_be_bytes n (value / 256) in
    let low = value % 256 in
    pop_bytes-pop n low (xs ++ (high ++ low ∷ [])) (xs ++ high) array
      (ap pop (sym (append_assoc xs high (low ∷ []))) ∙ pop_append (xs ++ high) low)
    ∙ pop_bytes-to_be_bytes n (value / 256) xs (low ∷ array)
    ∙ ap (λ t. some (xs, t)) (sym (append_assoc high (low ∷ []) array))

from_be_bytes-append :
    (value : ℕ) (xs : List ℕ) (y : ℕ)
    → from_be_bytes value (xs ++ y ∷ []) ≡ from_be_bytes value xs * 256 + y
unfolding from_be_bytes
from_be_bytes-append value [] y = refl
from_be_bytes-append value (x ∷ xs) y = from_be_bytes-append (value * 256 + x) xs y

from_be_bytes-to_be_bytes :
    (n value : ℕ) → value < 256 ^ n → from_be_bytes 0 (to_be_bytes n value) ≡ value
unfolding to_be_bytes from_be_bytes
from_be_bytes-to_be_bytes zero value h = omega arith
from_be_bytes-to_be_bytes (suc n) value h =
    from_be_bytes-append 0 (to_be_bytes n (value / 256)) (value % 256)
    ∙ omega (
      arith,
      from_be_bytes-to_be_bytes n (value / 256)
          (quotient_small value (256 ^ n) (subst (λ p. value < p) (pow-suc 256 n) h)),
    )
  where
    quotient_small : (v p : ℕ) → v < p * 256 → v / 256 < p
    quotient_small v p lt = omega arith

drain_millis-pop_bytes :
    (token token' array : List ℕ)
    → ltb (length token) 8 ≡ false
    → pop_bytes 8 token [] ≡ some (token', array)
    → drain_millis token ≡ some (token', from_be_bytes 0 array)
unfolding drain_millis
drain_millis-pop_bytes token token' array h e = rw (h, e) refl

-- `drain_millis` takes off what `write_millis` wrote.
pub drain_millis-write_millis :
    (xs : List ℕ) (millis : ℕ)
    → millis < word
    → drain_millis (xs ++ write_millis millis) ≡ some (xs, millis)
unfolding drain_millis write_millis
drain_millis-write_millis xs millis h =
    let enough : ltb (length (xs ++ to_be_bytes 8 millis)) 8 ≡ false =
      le→ltb _ _
        (omega (arith, length-append xs (to_be_bytes 8 millis), length-to_be_bytes 8 millis)) in
    let value : from_be_bytes 0 (to_be_bytes 8 millis ++ []) ≡ millis =
      ap (from_be_bytes 0) (append-nil (to_be_bytes 8 millis))
      ∙ from_be_bytes-to_be_bytes 8 millis h in
    drain_millis-pop_bytes _ _ _ enough (pop_bytes-to_be_bytes 8 millis xs [])
    ∙ ap (λ t. some (xs, t)) value

pop_padding-pop :
    (n byte : ℕ) (token token' : List ℕ)
    → pop token ≡ some (token', byte)
    → pop_padding (suc n) token ≡ pop_padding n token'
unfolding pop_padding
pop_padding-pop n byte token token' e = rw (e, pop_padding) refl

pop_padding-fill_bytes :
    (n : ℕ) (xs : List ℕ) (random_bytes : ℕ → ℕ)
    → pop_padding n (xs ++ fill_bytes n random_bytes) ≡ xs
unfolding pop_padding fill_bytes
pop_padding-fill_bytes zero xs random_bytes = append-nil xs
pop_padding-fill_bytes (suc n) xs random_bytes =
    let front = fill_bytes n random_bytes in
    pop_padding-pop n (random_bytes n) (xs ++ (front ++ random_bytes n ∷ [])) (xs ++ front) (
      ap pop (sym (append_assoc xs front (random_bytes n ∷ [])))
      ∙ pop_append (xs ++ front) (random_bytes n))
    ∙ pop_padding-fill_bytes n xs random_bytes

drain_padding-pop :
    (n : ℕ) (token token' : List ℕ)
    → pop token ≡ some (token', n)
    → ltb (length token') n ≡ false
    → drain_padding token ≡ some (pop_padding n token')
unfolding drain_padding
drain_padding-pop n token token' e h = rw (e, drain_padding) (rw h refl)

-- `drain_padding` takes off what `write_padding` wrote.
pub drain_padding-write_random_padding :
    (n : ℕ) (xs : List ℕ) (random_bytes : ℕ → ℕ)
    → drain_padding (xs ++ write_random_padding n random_bytes) ≡ some xs
unfolding drain_padding write_random_padding
drain_padding-write_random_padding n xs random_bytes =
    let padded = xs ++ fill_bytes n random_bytes in
    let enough : ltb (length padded) n ≡ false = le→ltb _ _ (
      omega
        (arith, length-append xs (fill_bytes n random_bytes), length-fill_bytes n random_bytes)) in
    ap drain_padding (sym (append_assoc xs (fill_bytes n random_bytes) (n ∷ [])))
    ∙ drain_padding-pop n (padded ++ n ∷ []) padded (pop_append padded n) enough
    ∙ ap (λ t. some t) (pop_padding-fill_bytes n xs random_bytes)
