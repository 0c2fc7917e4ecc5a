-- ===== src/Util/BipBuf/Stuck.antt =====
-- What a buffer does with commits whose identifiers are out of step, as those of a new buffer are.
use aquic.Base.{
  ℕ, ◌+◌, ◌^◌, ◌≤◌, ◌<◌, ◌≡◌, ◌∙◌, Bool, true, none, some, [], ◌∷◌, arith, length, word,
  wrapping_add, Outcome, done, panic, ◌>>=◌,
}
use aquic.Util.BipBuf.Fifo.Release.{decommit-next}
use aquic.Util.BipBuf.{
  drain_tombstones, next_id, Buffer, Commit, Reservation, region_a, new, reserve, try_commit,
  drop_reservation, decommit, decommit_single, push_tombstone,
}
use aquic.Util.BipBuf.Layout.{Layout, Fits}

-- A new buffer after its first two commits, of `n` and `m` bytes.
abbrev pub first : ℕ → Commit
first n = record { id = 0; start = 0; end = n }

abbrev pub second : ℕ → ℕ → Commit
second n m = record { id = 1; start = n; end = n + m }

abbrev pub two_commits : Bool → ℕ → ℕ → ℕ → Outcome Buffer
two_commits debug length n m = do
  (s1, r1) ← reserve debug (new length) n true
  elim r1 [
    | none ↦ panic
    | some r ↦ (do
      (s2, _, _) ← try_commit debug s1 r n
      (s3, r3) ← reserve debug (drop_reservation s2) m true
      elim r3 [
        | none ↦ panic
        | some r' ↦ (do (s4, _, _) ← try_commit debug s3 r' m; done (drop_reservation s4))
      ])
  ]

abbrev pub both : ℕ → ℕ → ℕ → Buffer
both length n m = record (new length) { a_end = n + m; commit_id_sequence = 2 }

two_commits_lem :
    (debug : Bool) (length n m : ℕ)
    → 0 < n
    → 0 < m
    → n + m ≤ length
    → length < 2 ^ 63
    → two_commits debug length n m ≡ done (both length n m)
unfolding reserve try_commit new drop_reservation
two_commits_lem debug length n m hn hm h small = ground arith

-- A new buffer numbers commits from 0 and expects the release of number 1 first. So after any two
-- commits that are not empty, releasing the first frees no byte, and releasing the second panics,
-- whether or not the first was released.
pub new_buffer_stuck :
    (debug : Bool) (length n m : ℕ)
    → 0 < n
    → 0 < m
    → n + m ≤ length
    → length < 2 ^ 63
    → (two_commits debug length n m ≡ done (both length n m))
      × (decommit debug (both length n m) (first n)
          ≡ done (record (both length n m) { decommit_tombstones = first n ∷ [] }))
      × (decommit debug
            (record (both length n m) { decommit_tombstones = first n ∷ [] })
            (second n m)
          ≡ panic)
      × (decommit debug (both length n m) (second n m) ≡ panic)
unfolding decommit decommit_single push_tombstone new
new_buffer_stuck debug length n m hn hm h small =
    (two_commits_lem debug length n m hn hm h small, ground arith, ground arith, ground arith)

-- A buffer whose only commit fills region A, and whose identifiers are in step.
pub record HoldsOne (s : Buffer) (c : Commit) : Type 0 where
  pub layout : Layout s
  pub at_start : c.start ≡ s.a_start
  pub at_end : c.end ≡ s.a_end
  pub filled : c.start < c.end
  pub no_b : s.b_end ≡ 0
  pub id_next : c.id ≡ s.decommit_next_id
  pub in_step : s.commit_id_sequence ≡ s.decommit_next_id + 1
  pub no_wrap : s.decommit_next_id + 2 < word
  pub no_tombstones : s.decommit_tombstones ≡ []

abbrev pub drained : Buffer → Buffer
drained s = record s {
  a_start = 0;
  a_end = 0;
  b_start = 0;
  b_end = 0;
  decommit_next_id = s.decommit_next_id + 1;
}

emptied :
    (debug : Bool) (s : Buffer) (c : Commit)
    → HoldsOne s c
    → decommit_single debug s c ≡ done (record s { a_start = 0; a_end = 0; b_start = 0; b_end = 0 })
unfolding decommit_single
emptied debug s c v = ground arith

drained_lem :
    (debug : Bool) (s : Buffer) (c : Commit) → HoldsOne s c → decommit debug s c ≡ done (drained s)
unfolding drain_tombstones next_id
drained_lem debug s c v =
    decommit-next debug s c v.id_next v.filled ∙ simp (emptied debug s c v) (ground arith)

-- If the only commit is released while a reservation behind it is open, what is then committed of
-- that reservation can never be released: the attempt panics.
stale_reservation :
    (debug : Bool) (s : Buffer) (c : Commit) (r : Reservation) (len : ℕ)
    → HoldsOne s c
    → Fits s r
    → r.region ≡ region_a
    → 0 < len
    → r.start + len ≤ r.end
    → (decommit debug s c ≡ done (drained s))
      × ((s' : Buffer) × (c' : Commit) × (try_commit debug (drained s) r len
            ≡ done (s', record r { start = r.start + len }, some c'))
          × (decommit debug s' c' ≡ panic))
unfolding decommit decommit_single try_commit
stale_reservation debug s c r len v f g pos fits = (
  drained_lem debug s c v,
  (
    record (drained s) {
      a_end = r.start + len;
      commit_id_sequence = wrapping_add s.commit_id_sequence 1;
    },
    record { id = s.commit_id_sequence; start = r.start; end = r.start + len },
    ground (arith, f.extends),
    ground (arith, f.extends),
  ),
)
