-- ===== src/Util/BipBuf/Fifo/Numbers.antt =====
-- How the identifiers of the held commits stand to the one whose release is expected next
-- (`decommit_next_id` of aquic-core/src/util/bipbuf.rs), and what a release then does.
use aquic.Base.{
  ℕ, ◌+◌, ◌≤◌, ◌<◌, ◌≡◌, sym, ap, ◌∙◌, subst, ◌≢◌, inl, inr, Bool, List, [], ◌∷◌, ◌++◌, arith,
  length, done, panic,
}
use mathlib.Core.List.{append-nil}
use aquic.Util.BipBuf.{Buffer, Commit, decommit, decommit_single, push_tombstone}
use aquic.Util.BipBuf.Layout.{Layout}
use aquic.Util.BipBuf.Fifo.Queue.{Held, Tiles, Tiles-empty, Ids, Lies, strip}
use aquic.Util.BipBuf.Fifo.Release.{
  IsQueue, Released, decommit_refines, decommit-next, decommit-other, Tiles-IsHeld,
}
use aquic.Util.BipBuf.Fifo.Marks.{IsHeld, mark, Ids-mark, length-mark, Lies-mark}

-- The buffer holds the queue, and the next identifier is the one behind it.
pub record InStep (s : Buffer) (q : List Held) : Type 0 where
  pub queue : IsQueue s q
  pub in_step : s.commit_id_sequence ≡ s.decommit_next_id + length q

-- The buffer holds the queue, which is numbered from 0, and expects the release of number 1: the
-- state of a new buffer.
pub record IsBehind (s : Buffer) (q : List Held) : Type 0 where
  pub lies : Lies s q
  pub at_0 : s.a_start ≡ 0
  pub expects : s.decommit_next_id ≡ 1
  pub ids : Ids 0 q
  pub sequence : s.commit_id_sequence ≡ length q

-- A release keeps the identifiers in step.
decommit-InStep :
    (debug : Bool) (s : Buffer) (q : List Held) (c : Commit)
    → InStep s q
    → IsHeld c q
    → (s' : Buffer) × (decommit debug s c ≡ done s') × InStep s' (strip (mark c.id q))
decommit-InStep debug s q c v i =
    let (s', e, u, count, sequence, _, _) = decommit_refines debug s q c v.queue i in
    (s', e, record { queue = u; in_step = omega (arith, v.in_step) })

IsHeld-start : (c : Commit) (lo hi : ℕ) (q : List Held) → Tiles lo hi q → IsHeld c q → lo ≤ c.start
IsHeld-start c lo hi [] h i = absurd i
IsHeld-start c lo hi (x ∷ q) h (inl e) = ground arith
IsHeld-start c lo hi (x ∷ q) h (inr i) = omega (arith, h.1, IsHeld-start c x.commit.end hi q h.2 i)

Tiles-later :
    (c : Commit) (n lo hi : ℕ) (q : List Held)
    → Tiles lo hi q
    → Ids n q
    → IsHeld c q
    → n < c.id
    → lo < c.start
Tiles-later c n lo hi [] h ids i lt = absurd i
Tiles-later c n lo hi (x ∷ q) h ids (inl e) lt = ground arith
Tiles-later c n lo hi (x ∷ q) h ids (inr i) lt =
    omega (arith, h.1, IsHeld-start c x.commit.end hi q h.2 i)

-- All of such a buffer is in region A.
IsBehind-Tiles : (s : Buffer) (q : List Held) → IsBehind s q → Tiles 0 s.a_end q
IsBehind-Tiles s q v =
    let l = v.lies in
    let no_b =
      Tiles-empty 0 s.b_end l.in_b l.tiles_b (omega (arith, l.layout.b_before_a, v.at_0)) in
    let all_a = l.queue ∙ ap (◌++◌ l.in_a) no_b ∙ append-nil l.in_a in
    subst (Tiles 0 s.a_end) (sym all_a) (subst (λ lo. Tiles lo s.a_end l.in_a) v.at_0 l.tiles_a)

single-panics :
    (debug : Bool) (s : Buffer) (c : Commit)
    → Layout s
    → s.a_start ≡ 0
    → 0 < c.start
    → decommit_single debug s c ≡ panic
unfolding decommit_single
single-panics debug s c v at_0 pos = ground arith

IsBehind-panics :
    (debug : Bool) (s : Buffer) (q : List Held) (c : Commit)
    → IsBehind s q
    → IsHeld c q
    → c.id ≡ 1
    → decommit debug s c ≡ panic
IsBehind-panics debug s q c v i e =
    let t = IsBehind-Tiles s q v in
    decommit-next debug s c (omega (arith, v.expects)) (Tiles-IsHeld c 0 s.a_end q t i)
    ∙ simp (
        single-panics debug s c v.lies.layout v.at_0
          (Tiles-later c 0 0 s.a_end q t v.ids i (omega arith)))

-- The commit is recorded as released, and nothing else changes.
abbrev pub recorded : Buffer → Commit → Buffer
recorded s c = record s { decommit_tombstones = push_tombstone c s.decommit_tombstones }

recorded-Lies : (s : Buffer) (c : Commit) (q : List Held) → Lies s q → Lies (recorded s c) q
recorded-Lies s c q h = record {
  layout = ground (arith, h.layout);
  in_a = h.in_a;
  in_b = h.in_b;
  queue = h.queue;
  tiles_a = h.tiles_a;
  tiles_b = h.tiles_b;
}

IsBehind-recorded :
    (debug : Bool) (s : Buffer) (q : List Held) (c : Commit)
    → IsBehind s q
    → IsHeld c q
    → c.id ≢ 1
    → (decommit debug s c ≡ done (recorded s c)) × IsBehind (recorded s c) (mark c.id q)
IsBehind-recorded debug s q c v i ne = (
  decommit-other debug s c (λ e. ne (e ∙ v.expects))
      (Tiles-IsHeld c 0 s.a_end q (IsBehind-Tiles s q v) i),
  record {
    lies = recorded-Lies s c (mark c.id q) (Lies-mark c.id s q v.lies);
    at_0 = v.at_0;
    expects = v.expects;
    ids = Ids-mark c.id 0 q v.ids;
    sequence = v.sequence ∙ sym (length-mark c.id q);
  },
)

-- The release of a commit of a queue that is not released yet. If the buffer holds the queue, numbered
-- from `decommit_next_id` on, its oldest commit is not released, and the tombstones are those released:
-- the release never panics; it marks the commit, and frees the oldest commits up to the first that is
-- not released, so out-of-order releases are kept until their turn. If the next commit also gets the
-- identifier behind the queue, that stays so. If the identifiers are one behind, as in a new buffer, the
-- release of number 1 panics, and any other frees nothing: the commit is only recorded as released, and
-- the identifiers stay behind.
pub decommit_lem :
    (debug : Bool) (s : Buffer) (q : List Held) (c : Commit)
    → IsHeld c q
    → (IsQueue s q → Released s c.id q (decommit debug s c))
      × (InStep s q
          → (s' : Buffer) × (decommit debug s c ≡ done s') × InStep s' (strip (mark c.id q)))
      × (IsBehind s q
          → (c.id ≡ 1 → decommit debug s c ≡ panic)
            × (c.id ≢ 1
                → (decommit debug s c ≡ done (recorded s c))
                  × IsBehind (recorded s c) (mark c.id q)))
decommit_lem debug s q c i = (
  λ v. decommit_refines debug s q c v i,
  λ v. decommit-InStep debug s q c v i,
  λ v. (IsBehind-panics debug s q c v i, IsBehind-recorded debug s q c v i),
)
