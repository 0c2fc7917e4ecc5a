-- ===== src/Util/BipBuf/Fifo/Marks.antt =====
-- Release marks on the queue of commits, and the tombstones that stand for them
-- (aquic-core/src/util/bipbuf.rs).
use aquic.Base.{
  ℕ, suc, ◌+◌, ◌≤◌, ◌<◌, ◌≡◌, refl, ap, ◌∙◌, ◌⊎◌, inl, inr, true, false, List, [], ◌∷◌, map, arith,
  ◌==◌, if◌then◌else◌, length, All,
}
use mathlib.Core.List.{map-append}
use aquic.Util.BipBuf.{Buffer, Commit, push_tombstone}
use aquic.Util.BipBuf.Fifo.Drain.{released-above}
use aquic.Util.BipBuf.Fifo.Queue.{
  Held, held, released, Tiles, Ids, Lies, Holds, Holds-Lies, Lies-Holds,
}

abbrev pub mark_one : ℕ → Held → Held
mark_one id x = if x.commit.id == id then held x.commit true else x

-- The commit of this identifier is released.
abbrev pub mark : ℕ → List Held → List Held
mark id = map (mark_one id)

-- The commit is in the queue, and not released.
abbrev pub IsHeld : Commit → List Held → Type 0
IsHeld c [] = ⊥
IsHeld c (x ∷ q) = ((x.commit ≡ c) × (x.is_released ≡ false)) ⊎ IsHeld c q

Tiles-mark : (id lo hi : ℕ) (q : List Held) → Tiles lo hi q → Tiles lo hi (mark id q)
Tiles-mark id lo hi [] h = h
Tiles-mark id lo hi (x ∷ q) h = ground (arith, Tiles-mark id x.commit.end hi q h.2)

pub Ids-mark : (id n : ℕ) (q : List Held) → Ids n q → Ids n (mark id q)
Ids-mark id n [] h = h
Ids-mark id n (x ∷ q) h = ground (arith, Ids-mark id (n + 1) q h.2)

pub Lies-mark : (id : ℕ) (s : Buffer) (q : List Held) → Lies s q → Lies s (mark id q)
Lies-mark id s q h = record {
  layout = h.layout;
  in_a = mark id h.in_a;
  in_b = mark id h.in_b;
  queue = ap (mark id) h.queue ∙ map-append (mark_one id) h.in_a h.in_b;
  tiles_a = Tiles-mark id _ _ h.in_a h.tiles_a;
  tiles_b = Tiles-mark id _ _ h.in_b h.tiles_b;
}

pub Holds-mark : (id : ℕ) (s : Buffer) (q : List Held) → Holds s q → Holds s (mark id q)
Holds-mark id s q h =
    Lies-Holds s (mark id q) (Lies-mark id s q (Holds-Lies s q h)) (Ids-mark id _ q h.ids)

pub length-mark : (id : ℕ) (q : List Held) → length (mark id q) ≡ length q
length-mark id [] = refl
length-mark id (x ∷ q) = ap suc (length-mark id q)

pub mark-above : (id n : ℕ) (q : List Held) → id < n → Ids n q → mark id q ≡ q
mark-above id n [] lt h = refl
mark-above id n (x ∷ q) lt h = ground (arith, mark-above id (n + 1) q (omega arith) h.2)

push_tombstone-first :
    (c : Commit) (cs : List Commit) → All (λ d. c.id ≤ d.id) cs → push_tombstone c cs ≡ c ∷ cs
unfolding push_tombstone
push_tombstone-first c [] h = refl
push_tombstone-first c (d ∷ cs) h = ground arith

pub IsHeld-ge : (c : Commit) (n : ℕ) (q : List Held) → Ids n q → IsHeld c q → n ≤ c.id
IsHeld-ge c n [] h i = absurd i
IsHeld-ge c n (x ∷ q) h (inl e) = ground arith
IsHeld-ge c n (x ∷ q) h (inr i) = omega (arith, IsHeld-ge c (n + 1) q h.2 i)

-- A tombstone goes where its mark is.
pub released-mark :
    (c : Commit) (n : ℕ) (q : List Held)
    → Ids n q
    → IsHeld c q
    → released (mark c.id q) ≡ push_tombstone c (released q)
unfolding push_tombstone
released-mark c n [] h i = absurd i
released-mark c n (x ∷ q) h (inl e) = ground (
  arith,
  mark-above c.id (n + 1) q (ground arith) h.2,
  push_tombstone-first c (released q) (released-above c.id (n + 1) q (ground arith) h.2),
)
released-mark c n (x ∷ q) h (inr i) =
    ground (arith, IsHeld-ge c (n + 1) q h.2 i, released-mark c (n + 1) q h.2 i)
