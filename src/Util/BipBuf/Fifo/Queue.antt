-- ===== src/Util/BipBuf/Fifo/Queue.antt =====
-- The commits that a bip buffer holds, as a queue, and what freeing the oldest one leaves
-- (aquic-core/src/util/bipbuf.rs).
use aquic.Base.{
  ℕ, ◌+◌, ◌≤◌, ◌<◌, ◌≡◌, refl, sym, subst, Bool, List, [], ◌∷◌, ◌++◌, arith, ◌==◌, if◌then◌else◌,
  word, done,
}
use aquic.Util.BipBuf.{Buffer, Commit, decommit_single}
use aquic.Util.BipBuf.Layout.{Layout}
use mathlib.Core.List.{append-nil}

-- A commit that is not freed yet, and whether its owner has released it.
pub record Held : Type 0 where
  pub commit : Commit
  pub is_released : Bool

abbrev pub held : Commit → Bool → Held
held c b = record { commit = c; is_released = b }

-- The released ones, oldest first.
abbrev pub released : List Held → List Commit
released [] = []
released (x ∷ q) = if x.is_released then x.commit ∷ released q else released q

-- Free the released front.
abbrev pub strip : List Held → List Held
strip [] = []
strip (x ∷ q) = if x.is_released then strip q else x ∷ q

-- The commits lie end to end from `lo` to `hi`, and none is empty.
abbrev pub Tiles : ℕ → ℕ → List Held → Type 0
Tiles lo hi [] = lo ≡ hi
Tiles lo hi (x ∷ q) = (x.commit.start ≡ lo) × (lo < x.commit.end) × Tiles x.commit.end hi q

-- Their identifiers follow one another from `n`, and do not wrap.
abbrev pub Ids : ℕ → List Held → Type 0
Ids n [] = n < word
Ids n (x ∷ q) = (x.commit.id ≡ n) × (n < word) × Ids (n + 1) q

-- The queue is that of region A, then that of region B.
pub record Lies (s : Buffer) (q : List Held) : Type 0 where
  pub layout : Layout s
  pub in_a : List Held
  pub in_b : List Held
  pub queue : q ≡ in_a ++ in_b
  pub tiles_a : Tiles s.a_start s.a_end in_a
  pub tiles_b : Tiles 0 s.b_end in_b

-- The same, and the identifiers begin with the one whose release is expected next.
pub record Holds (s : Buffer) (q : List Held) : Type 0 where
  pub layout : Layout s
  pub in_a : List Held
  pub in_b : List Held
  pub queue : q ≡ in_a ++ in_b
  pub tiles_a : Tiles s.a_start s.a_end in_a
  pub tiles_b : Tiles 0 s.b_end in_b
  pub ids : Ids s.decommit_next_id q

pub Holds-Lies : (s : Buffer) (q : List Held) → Holds s q → Lies s q
Holds-Lies s q h = record {
  layout = h.layout;
  in_a = h.in_a;
  in_b = h.in_b;
  queue = h.queue;
  tiles_a = h.tiles_a;
  tiles_b = h.tiles_b;
}

pub Lies-Holds : (s : Buffer) (q : List Held) → Lies s q → Ids s.decommit_next_id q → Holds s q
Lies-Holds s q h ids = record {
  layout = h.layout;
  in_a = h.in_a;
  in_b = h.in_b;
  queue = h.queue;
  tiles_a = h.tiles_a;
  tiles_b = h.tiles_b;
  ids = ids;
}

abbrev pub freed : Buffer → Commit → Buffer
freed s c =
    if c.end == s.a_end
    then record s { a_start = s.b_start; a_end = s.b_end; b_start = 0; b_end = 0 }
    else record s { a_start = c.end }

pub Tiles-le : (lo hi : ℕ) (q : List Held) → Tiles lo hi q → lo ≤ hi
Tiles-le lo hi [] h = omega arith
Tiles-le lo hi (x ∷ q) h = omega (arith, Tiles-le x.commit.end hi q h.2)

-- Freeing the oldest commit moves the start of region A behind it, or makes region B region A.
pub decommit_single-freed :
    (debug : Bool) (s : Buffer) (c : Commit)
    → Layout s
    → c.start ≡ s.a_start
    → c.start < c.end
    → c.end ≤ s.a_end
    → decommit_single debug s c ≡ done (freed s c)
unfolding decommit_single
decommit_single-freed debug s c v e p h = ground arith

abbrev pub popped : Buffer → Commit → Buffer
popped s c = record (freed s c) { decommit_next_id = s.decommit_next_id + 1 }

freed-Layout :
    (s : Buffer) (c : Commit) → Layout s → s.a_start < c.end → c.end ≤ s.a_end → Layout (popped s c)
freed-Layout s c v p h = ground arith

pub Tiles-empty : (lo hi : ℕ) (q : List Held) → Tiles lo hi q → lo ≡ hi → q ≡ []
Tiles-empty lo hi [] h e = refl
Tiles-empty lo hi (x ∷ q) h e = absurd (omega (arith, Tiles-le x.commit.end hi q h.2))

-- With nothing in region A there is nothing at all.
queue-empty :
    (s : Buffer) (in_b : List Held)
    → Layout s
    → Tiles s.a_start s.a_end []
    → Tiles 0 s.b_end in_b
    → in_b ≡ []
queue-empty s in_b v a b =
    Tiles-empty 0 s.b_end in_b b (omega (arith, v.a_empty_at_0 a, v.b_before_a))

-- What is left after the oldest commit is freed.
pub record Front (s : Buffer) (x : Held) (q : List Held) : Type 0 where
  pub at_start : x.commit.start ≡ s.a_start
  pub filled : s.a_start < x.commit.end
  pub inside : x.commit.end ≤ s.a_end
  pub id_next : x.commit.id ≡ s.decommit_next_id
  pub no_wrap : s.decommit_next_id + 1 < word
  pub rest : Holds (popped s x.commit) q

Ids-lt : (n : ℕ) (q : List Held) → Ids n q → n < word
Ids-lt n [] h = h
Ids-lt n (x ∷ q) h = h.1

rest-Holds :
    (s : Buffer) (x : Held) (ra rb : List Held)
    → Layout s
    → Tiles s.a_start s.a_end (x ∷ ra)
    → Tiles 0 s.b_end rb
    → Ids (s.decommit_next_id + 1) (ra ++ rb)
    → Holds (popped s x.commit) (ra ++ rb)
rest-Holds s x [] rb v ta tb ids = record {
  layout = freed-Layout s x.commit v ta.1 (omega arith);
  in_a = rb;
  in_b = [];
  queue = sym (append-nil rb);
  tiles_a = ground arith;
  tiles_b = ground arith;
  ids = ground arith;
}
rest-Holds s x (y ∷ ra) rb v ta tb ids = record {
  layout = freed-Layout s x.commit v ta.1 (Tiles-le _ _ (y ∷ ra) ta.2);
  in_a = y ∷ ra;
  in_b = rb;
  queue = refl;
  tiles_a = ground (arith, Tiles-le y.commit.end s.a_end ra ta.2.2);
  tiles_b = ground (arith, Tiles-le y.commit.end s.a_end ra ta.2.2);
  ids = ground arith;
}

pub Front-Holds : (s : Buffer) (x : Held) (q : List Held) → Holds s (x ∷ q) → Front s x q
Front-Holds s x q h = go h.in_a h.in_b h.queue h.tiles_a h.tiles_b
  where
    go :
        (ra rb : List Held)
        → x ∷ q ≡ ra ++ rb
        → Tiles s.a_start s.a_end ra
        → Tiles 0 s.b_end rb
        → Front s x q
    go [] rb e ta tb = absurd (cc (queue-empty s rb h.layout ta tb))
    go (y ∷ ra) rb e ta tb =
        let same : x ≡ y = cc in
        let later : q ≡ ra ++ rb = cc in
        let ta' : Tiles s.a_start s.a_end (x ∷ ra) = rw same ta in
        record {
          at_start = ta'.0;
          filled = ta'.1;
          inside = Tiles-le x.commit.end s.a_end ra ta'.2;
          id_next = h.ids.0;
          no_wrap = Ids-lt (s.decommit_next_id + 1) q h.ids.2;
          rest = subst (Holds (popped s x.commit)) (sym later) (
              rest-Holds s x ra rb h.layout ta' tb
                (subst (Ids (s.decommit_next_id + 1)) later h.ids.2));
        }
