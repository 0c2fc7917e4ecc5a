-- ===== src/Util/BipBuf/Layout.antt =====
-- How the regions of a bip buffer lie in its allocation, and where a reservation may stand.
use aquic.Base.{
  ℕ, ◌-◌, ◌^◌, ◌≤◌, ◌<◌, max, ◌≡◌, ◌⊎◌, Bool, arith, ltb, if◌then◌else◌, length, length-replicate,
  done,
}
use aquic.Util.BipBuf.{Buffer, Reservation, Region, region_a, region_b, new, available}

-- Region B, if there is one, starts at 0 and ends before region A; an empty region A is at 0.
pub record Layout (s : Buffer) : Type 0 where
  pub small : s.length < 2 ^ 63
  pub allocated : length s.bytes ≡ s.length
  pub a_ordered : s.a_start ≤ s.a_end
  pub a_inside : s.a_end ≤ s.length
  pub b_first : s.b_start ≡ 0
  pub b_before_a : s.b_end ≤ s.a_start
  pub a_empty_at_0 : s.a_start ≡ s.a_end → s.a_start ≡ 0

-- No byte from `lo` to `hi` is committed, and all are inside the allocation.
pub record IsFree (s : Buffer) (lo hi : ℕ) : Type 0 where
  pub inside : hi ≤ s.length
  pub beside_a : (hi ≤ s.a_start) ⊎ (s.a_end ≤ lo)
  pub beside_b : s.b_end ≤ lo

-- The bytes that the next reservation can have.
abbrev pub space : Buffer → ℕ
space s = if ltb 0 s.b_end then s.a_start - s.b_end else max s.a_start (s.length - s.a_end)

-- A reservation that begins where its region ends.
abbrev pub Extends : Buffer → Region → ℕ → ℕ → Type 0
Extends s region_a start end = (start ≡ s.a_end) × (s.b_end ≡ 0)
Extends s region_b start end = (start ≡ s.b_end) × (end ≤ s.a_start)

pub record Fits (s : Buffer) (r : Reservation) : Type 0 where
  pub ordered : r.start ≤ r.end
  pub inside : r.end ≤ s.length
  pub extends : Extends s r.region r.start r.end

-- A new buffer is laid out well, and can give out its whole length.
pub new-Layout : (n : ℕ) → n < 2 ^ 63 → Layout (new n) × (space (new n) ≡ n)
unfolding new
new-Layout n h = ground (arith, length-replicate {A = ℕ} n 0)

-- `available()` is that space, in both builds.
available-space : (debug : Bool) (s : Buffer) → Layout s → available debug s ≡ done (space s)
unfolding available
available-space debug s v = ground arith

pub Fits-IsFree : (s : Buffer) (r : Reservation) → Layout s → Fits s r → IsFree s r.start r.end
Fits-IsFree s r v f = go r.region f.extends
  where
    go : (g : Region) → Extends s g r.start r.end → IsFree s r.start r.end
    go region_a e = ground arith
    go region_b e = ground arith
