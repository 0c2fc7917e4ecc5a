-- ===== src/Base/Words.antt =====
-- Machine integers as native numbers, with their wrap-around written out.
use Prim.Native.Nat.{ℕ, ◌+◌, ◌%◌, ◌^◌}

-- The number of `usize` and of `u64` values, on a 64-bit target.
abbrev pub word : ℕ
word = 2 ^ 64

-- `usize::wrapping_add`.
abbrev pub wrapping_add : ℕ → ℕ → ℕ
wrapping_add a b = (a + b) % word
