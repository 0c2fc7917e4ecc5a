-- ===== src/Base/Panics.antt =====
-- Code that can panic, and the integer operators of a build with or without overflow checks.
use Prim.Native.Nat.{ℕ, ◌+◌, ◌-◌, ◌%◌, ◌≤◌, ◌<◌}
use mathlib.Core.Path.{◌≡◌}
use mathlib.Core.Bool.{Bool}
use native.Mathlib.Omega.{arith}
use aquic.Base.Tests.{ltb, leb, if◌then◌else◌}
use aquic.Base.Words.{word}

pub data Outcome {ℓ} (A : Type ℓ) : Type ℓ where
  done : A → Outcome A
  panic : Outcome A

infixl 5 ◌>>=◌
abbrev pub ◌>>=◌ {ℓ κ} : {A : Type ℓ} {B : Type κ} → Outcome A → (A → Outcome B) → Outcome B
done a >>= f = f a
panic >>= f = panic

-- `a + b` and `a - b` on `usize`: a debug build panics on overflow, a release build wraps.
abbrev pub add_word : Bool → ℕ → ℕ → Outcome ℕ
add_word debug a b =
    if ltb (a + b) word then done (a + b) else if debug then panic else done ((a + b) % word)

abbrev pub sub_word : Bool → ℕ → ℕ → Outcome ℕ
sub_word debug a b = if leb b a then done (a - b) else if debug then panic else done (a + word - b)

pub add_word-eq : (debug : Bool) (a b : ℕ) → a + b < word → add_word debug a b ≡ done (a + b)
add_word-eq debug a b h = ground arith

pub sub_word-eq : (debug : Bool) (a b : ℕ) → b ≤ a → sub_word debug a b ≡ done (a - b)
sub_word-eq debug a b h = ground arith
