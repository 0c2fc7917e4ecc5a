-- ===== src/Util/BipBuf/Fifo/Release.antt =====
-- `decommit` against the queue with release marks.
use aquic.Base.{
  ℕ, ◌+◌, ◌-◌, ◌≤◌, ◌<◌, ◌≡◌, refl, sym, ap, ◌∙◌, subst, ◌≢◌, ◌⊎◌, inl, inr, Bool, true, false,
  List, [], ◌∷◌, ◌++◌, arith, ◌==◌, ==_iff, Bool-cases, length, Outcome, done, ◌>>=◌, sub_word-eq,
}
use aquic.Util.BipBuf.{
  decommit_single, Buffer, Commit, decommit, push_tombstone, next_id, drain_tombstones,
}
use aquic.Util.BipBuf.Fifo.Drain.{
  drain-strip, next_id-freed, decommit_single-Front, Holds-tombstones,
}
use aquic.Util.BipBuf.Fifo.Queue.{
  Held, held, released, strip, Tiles, Ids, Holds, freed, popped, Front-Holds, Front,
}
use aquic.Util.BipBuf.Fifo.Marks.{
  mark, IsHeld, Holds-mark, length-mark, mark-above, IsHeld-ge, released-mark,
}

-- The buffer holds the queue, its oldest commit is not released, and the tombstones are the marks.
pub record IsQueue (s : Buffer) (q : List Held) : Type 0 where
  pub holds : Holds s q
  pub front_held : strip q ≡ q
  pub marks : s.decommit_tombstones ≡ released q

pub Tiles-IsHeld :
    (c : Commit) (lo hi : ℕ) (q : List Held) → Tiles lo hi q → IsHeld c q → c.start < c.end
Tiles-IsHeld c lo hi [] h i = absurd i
Tiles-IsHeld c lo hi (x ∷ q) h (inl e) = ground arith
Tiles-IsHeld c lo hi (x ∷ q) h (inr i) = Tiles-IsHeld c x.commit.end hi q h.2 i

pub IsHeld-append : (c : Commit) (p q : List Held) → IsHeld c (p ++ q) → IsHeld c p ⊎ IsHeld c q
IsHeld-append c [] q i = inr i
IsHeld-append c (x ∷ p) q (inl e) = inl (inl e)
IsHeld-append c (x ∷ p) q (inr i) = elim (IsHeld-append c p q i) [
  | inl j ↦ inl (inr j)
  | inr j ↦ inr j
]

Holds-IsHeld : (s : Buffer) (c : Commit) (q : List Held) → Holds s q → IsHeld c q → c.start < c.end
Holds-IsHeld s c q h i = elim (IsHeld-append c h.in_a h.in_b (subst (IsHeld c) h.queue i)) [
  | inl j ↦ Tiles-IsHeld c _ _ h.in_a h.tiles_a j
  | inr j ↦ Tiles-IsHeld c _ _ h.in_b h.tiles_b j
]

pub decommit-next :
    (debug : Bool) (s : Buffer) (c : Commit)
    → c.id ≡ s.decommit_next_id
    → c.start < c.end
    → decommit debug s c ≡ (
        decommit_single debug s c >>= λ s'.
        drain_tombstones debug s'.decommit_tombstones (next_id s'))
unfolding decommit
decommit-next debug s c e lt =
    simp (
      sub_word-eq debug c.end c.start (omega arith),
      (==_iff c.id s.decommit_next_id).1 e,
      positive,
    )
  where
    positive : ((c.end - c.start) == 0) ≡ false
    positive = ground arith

freed-tombstones :
    (s : Buffer) (c : Commit) → (freed s c).decommit_tombstones ≡ s.decommit_tombstones
freed-tombstones s c = ground arith

decommit-first :
    (debug : Bool) (s : Buffer) (x : Held) (q : List Held)
    → Front s x q
    → Holds s (x ∷ q)
    → decommit debug s x.commit ≡ drain_tombstones debug s.decommit_tombstones (popped s x.commit)
decommit-first debug s x q f h =
    decommit-next debug s x.commit f.id_next (omega (arith, f.at_start, f.filled))
    ∙ simp (
      decommit_single-Front debug s x q f h,
      next_id-freed s x.commit f.no_wrap,
      freed-tombstones s x.commit,
    )

pub decommit-other :
    (debug : Bool) (s : Buffer) (c : Commit)
    → c.id ≢ s.decommit_next_id
    → c.start < c.end
    → decommit debug s c
      ≡ done (record s { decommit_tombstones = push_tombstone c s.decommit_tombstones })
unfolding decommit
decommit-other debug s c h lt = ground arith

-- The result of a release: the commit is marked, and the released front of the queue is freed.
abbrev pub Released : Buffer → ℕ → List Held → Outcome Buffer → Type 0
Released s id q result =
    (s' : Buffer) × (result ≡ done s')
    × IsQueue s' (strip (mark id q))
    × (s'.decommit_next_id + length (strip (mark id q)) ≡ s.decommit_next_id + length q)
    × (s'.commit_id_sequence ≡ s.commit_id_sequence)
    × (s'.reserved ≡ s.reserved)
    × (s'.bytes ≡ s.bytes)

strip-strip : (q : List Held) → strip (strip q) ≡ strip q
strip-strip [] = refl
strip-strip (x ∷ q) = ground (arith, strip-strip q)

mark-first :
    (x : Held) (n : ℕ) (q : List Held)
    → Ids n (x ∷ q)
    → mark x.commit.id (x ∷ q) ≡ held x.commit true ∷ q
mark-first x n q h = ground (arith, mark-above x.commit.id (n + 1) q (ground arith) h.2)

Released-first :
    (debug : Bool) (s : Buffer) (x : Held) (q : List Held)
    → IsQueue s (x ∷ q)
    → x.is_released ≡ false
    → Released s x.commit.id (x ∷ q) (decommit debug s x.commit)
Released-first debug s x q v e =
    let f = Front-Holds s x q v.holds in
    let d = drain-strip debug (popped s x.commit) q f.rest in
    (
      d.after,
      decommit-first debug s x q f v.holds
          ∙ ap (λ cs. drain_tombstones debug cs (popped s x.commit)) (ground (arith, v.marks))
          ∙ d.is_done,
      subst (IsQueue d.after) (sym (ap strip (mark-first x s.decommit_next_id q v.holds.ids)))
          (record { holds = d.holds; front_held = strip-strip q; marks = d.marks }),
      ap (λ (l : List Held). d.after.decommit_next_id + length (strip l))
            (mark-first x s.decommit_next_id q v.holds.ids)
          ∙ omega (arith, d.count),
      ground (arith, d.sequence),
      ground (arith, d.reservation),
      ground (arith, d.same_bytes),
    )

Released-later :
    (debug : Bool) (s : Buffer) (c : Commit) (x : Held) (q : List Held)
    → IsQueue s (x ∷ q)
    → x.is_released ≡ false
    → IsHeld c q
    → Released s c.id (x ∷ q) (decommit debug s c)
Released-later debug s c x q v e i = (
  record s { decommit_tombstones = push_tombstone c s.decommit_tombstones },
  decommit-other debug s c (λ e. omega (arith, above)) (Holds-IsHeld s c (x ∷ q) v.holds (inr i)),
  subst (IsQueue _) (sym fixed) (record {
    holds = Holds-tombstones s (mark c.id (x ∷ q)) _ (Holds-mark c.id s (x ∷ q) v.holds);
    front_held = fixed;
    marks =
        ap (push_tombstone c) v.marks
        ∙ sym (released-mark c s.decommit_next_id (x ∷ q) v.holds.ids (inr i));
  }),
  ap (λ l. s.decommit_next_id + length l) fixed ∙ omega (arith, length-mark c.id (x ∷ q)),
  refl,
  refl,
  refl,
)
  where
    above : s.decommit_next_id < c.id
    above = omega (arith, IsHeld-ge c (s.decommit_next_id + 1) q v.holds.ids.2 i)

    fixed : strip (mark c.id (x ∷ q)) ≡ mark c.id (x ∷ q)
    fixed = ground (arith, above, v.holds.ids.0)

length-strip-le : (q : List Held) → length (strip q) ≤ length q
length-strip-le [] = omega arith
length-strip-le (x ∷ q) = ground (arith, length-strip-le q)

pub front-ne-released :
    (x : Held) (q : List Held) → strip (x ∷ q) ≡ x ∷ q → x.is_released ≡ true → ⊥
front-ne-released x q h e =
    let same : strip q ≡ x ∷ q = ground arith in omega (arith, length-strip-le q, ap length same)

pub decommit_refines :
    (debug : Bool) (s : Buffer) (q : List Held) (c : Commit)
    → IsQueue s q
    → IsHeld c q
    → Released s c.id q (decommit debug s c)
decommit_refines debug s [] c v i = absurd i
decommit_refines debug s (x ∷ q) c v (inl (e, u)) =
    subst (λ d. Released s d.id (x ∷ q) (decommit debug s d)) e (Released-first debug s x q v u)
decommit_refines debug s (x ∷ q) c v (inr i) = elim (Bool-cases x.is_released) [
  | inl e ↦ absurd (front-ne-released x q v.front_held e)
  | inr e ↦ Released-later debug s c x q v e i
]
