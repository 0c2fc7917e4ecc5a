-- ===== src/Util/BipBuf/Fifo/Safety.antt =====
-- The `SAFETY` comments of aquic-core/src/util/bipbuf.rs: a reservation is exclusive.
use aquic.Base.{
  ℕ, ◌+◌, ◌≤◌, ◌<◌, ◌≡◌, subst, ◌⊎◌, inl, inr, Bool, true, some, List, [], ◌∷◌, arith, length, done,
}
use aquic.Util.BipBuf.{Buffer, Commit, Reservation, reserve}
use aquic.Util.BipBuf.Layout.{IsFree, Fits-IsFree}
use aquic.Util.BipBuf.Reserve.{reserve-Fits}
use aquic.Util.BipBuf.Access.{read, write, read-write_apart}
use aquic.Util.BipBuf.Fifo.Queue.{Held, Tiles, Tiles-le, Lies}
use aquic.Util.BipBuf.Fifo.Release.{IsHeld-append}
use aquic.Util.BipBuf.Fifo.Marks.{IsHeld}

Tiles-inside :
    (c : Commit) (lo hi : ℕ) (q : List Held)
    → Tiles lo hi q
    → IsHeld c q
    → (lo ≤ c.start) × (c.start < c.end) × (c.end ≤ hi)
Tiles-inside c lo hi [] h i = absurd i
Tiles-inside c lo hi (x ∷ q) h (inl e) = ground (arith, Tiles-le x.commit.end hi q h.2)
Tiles-inside c lo hi (x ∷ q) h (inr i) = omega (arith, Tiles-inside c x.commit.end hi q h.2 i)

held-apart :
    (s : Buffer) (q : List Held) (c : Commit) (lo hi : ℕ)
    → Lies s q
    → IsHeld c q
    → IsFree s lo hi
    → (c.start < c.end) × ((c.end ≤ lo) ⊎ (hi ≤ c.start))
held-apart s q c lo hi h i free =
    elim (IsHeld-append c h.in_a h.in_b (subst (IsHeld c) h.queue i)) [
      | inl j ↦ ground (arith, Tiles-inside c s.a_start s.a_end h.in_a h.tiles_a j, free.beside_a)
      | inr j ↦ ground (arith, Tiles-inside c 0 s.b_end h.in_b h.tiles_b j, free.beside_b)
    ]

reserve-bytes :
    (debug : Bool) (s s' : Buffer) (request : ℕ) (strict : Bool) (r : Reservation)
    → reserve debug s request strict ≡ done (s', some r)
    → s' ≡ record s { reserved = true }
unfolding reserve
reserve-bytes debug s s' request strict r e = ground arith

-- In a buffer whose regions are tiled by the commits of a queue, whatever their identifiers are:
-- whatever is written through a reservation that `reserve` just gave out, up to its length, no
-- commit of the queue that is still held reads differently.
pub write_keeps_held :
    (debug : Bool) (s s' : Buffer) (q : List Held) (request : ℕ) (strict : Bool) (r : Reservation)
    (xs : List ℕ) (c : Commit)
    → Lies s q
    → IsHeld c q
    → reserve debug s request strict ≡ done (s', some r)
    → r.start + length xs ≤ r.end
    → read (write s' r xs) c ≡ read s c
unfolding read write
write_keeps_held debug s s' q request strict r xs c h i e fits =
    let f = reserve-Fits debug s s' request strict r h.layout e in
    let (ordered, apart) = held-apart s q c r.start r.end h i (Fits-IsFree s r h.layout f) in
    rw (reserve-bytes debug s s' request strict r e)
      (read-write_apart s r xs c h.layout fits (omega arith) apart).0
