-- ===== src/Util/BipBuf/Fifo/Drain.antt =====
-- The queue of commits that a buffer holds, and the loop that frees its released front.
use aquic.Base.{
  ℕ, ◌+◌, ◌≤◌, ◌<◌, ◌≡◌, refl, ◌∙◌, inl, inr, Bool, true, false, List, [], ◌∷◌, arith, ==_iff,
  Bool-cases, length, All, word, Outcome, done, ◌>>=◌,
}
use aquic.Util.BipBuf.{drain_tombstones, next_id, Buffer, Commit, decommit_single}
use aquic.Util.BipBuf.Fifo.Queue.{
  Held, released, strip, Ids, Holds, freed, decommit_single-freed, popped, Front, Front-Holds,
}

pub Holds-tombstones :
    (s : Buffer) (q : List Held) (cs : List Commit)
    → Holds s q
    → Holds (record s { decommit_tombstones = cs }) q
Holds-tombstones s q cs h = record {
  layout = ground (arith, h.layout);
  in_a = h.in_a;
  in_b = h.in_b;
  queue = h.queue;
  tiles_a = h.tiles_a;
  tiles_b = h.tiles_b;
  ids = h.ids;
}

drain-stop :
    (debug : Bool) (s : Buffer) (cs : List Commit)
    → All (λ c. s.decommit_next_id < c.id) cs
    → drain_tombstones debug cs s ≡ done (record s { decommit_tombstones = cs })
unfolding drain_tombstones
drain-stop debug s [] h = refl
drain-stop debug s (c ∷ cs) h = ground arith

pub released-above : (n m : ℕ) (q : List Held) → n ≤ m → Ids m q → All (λ c. n ≤ c.id) (released q)
released-above n m [] le h = tt
released-above n m (x ∷ q) le h = ground (arith, released-above n (m + 1) q (omega arith) h.2)

pub decommit_single-Front :
    (debug : Bool) (s : Buffer) (x : Held) (q : List Held)
    → Front s x q
    → Holds s (x ∷ q)
    → decommit_single debug s x.commit ≡ done (freed s x.commit)
decommit_single-Front debug s x q f h =
    decommit_single-freed debug s x.commit h.layout f.at_start (omega (arith, f.filled, f.at_start))
      f.inside

drain-next :
    (debug : Bool) (s : Buffer) (c : Commit) (cs : List Commit)
    → c.id ≡ s.decommit_next_id
    → drain_tombstones debug (c ∷ cs) s
      ≡ (decommit_single debug s c >>= λ s'. drain_tombstones debug cs (next_id s'))
unfolding drain_tombstones
drain-next debug s c cs e = simp ((==_iff c.id s.decommit_next_id).1 e)

pub next_id-freed :
    (s : Buffer) (c : Commit) → s.decommit_next_id + 1 < word → next_id (freed s c) ≡ popped s c
unfolding next_id
next_id-freed s c h = ground arith

drain-step :
    (debug : Bool) (s : Buffer) (x : Held) (q : List Held) (cs : List Commit)
    → Front s x q
    → Holds s (x ∷ q)
    → drain_tombstones debug (x.commit ∷ cs) s ≡ drain_tombstones debug cs (popped s x.commit)
drain-step debug s x q cs f h =
    drain-next debug s x.commit cs f.id_next
    ∙ simp (decommit_single-Front debug s x q f h, next_id-freed s x.commit f.no_wrap)

-- The loop ends with `s'`, in which the released front of the queue is freed and the other marks are
-- tombstones.
pub record Drained (s : Buffer) (q : List Held) (result : Outcome Buffer) : Type 0 where
  pub after : Buffer
  pub is_done : result ≡ done after
  pub holds : Holds after (strip q)
  pub marks : after.decommit_tombstones ≡ released (strip q)
  pub count : after.decommit_next_id + length (strip q) ≡ s.decommit_next_id + length q
  pub sequence : after.commit_id_sequence ≡ s.commit_id_sequence
  pub reservation : after.reserved ≡ s.reserved
  pub same_bytes : after.bytes ≡ s.bytes

Drained-freed :
    (debug : Bool) (s : Buffer) (x : Held) (q : List Held)
    → Front s x q
    → Holds s (x ∷ q)
    → Drained (popped s x.commit) q (drain_tombstones debug (released q) (popped s x.commit))
    → x.is_released ≡ true
    → Drained s (x ∷ q) (drain_tombstones debug (released (x ∷ q)) s)
Drained-freed debug s x q f h d e = record {
  after = d.after;
  is_done = simp e (drain-step debug s x q (released q) f h ∙ d.is_done);
  holds = rw e d.holds;
  marks = rw e d.marks;
  count = ground (arith, d.count);
  sequence = ground (arith, d.sequence);
  reservation = ground (arith, d.reservation);
  same_bytes = ground (arith, d.same_bytes);
}

Drained-stop :
    (debug : Bool) (s : Buffer) (x : Held) (q : List Held)
    → Holds s (x ∷ q)
    → x.is_released ≡ false
    → Drained s (x ∷ q) (drain_tombstones debug (released (x ∷ q)) s)
Drained-stop debug s x q h e = record {
  after = record s { decommit_tombstones = released q };
  is_done = rw e (drain-stop debug s (released q) (released-above _ _ q (omega arith) h.ids.2));
  holds = simp e (Holds-tombstones s (x ∷ q) (released q) h);
  marks = rw e refl;
  count = ground arith;
  sequence = refl;
  reservation = refl;
  same_bytes = refl;
}

pub drain-strip :
    (debug : Bool) (s : Buffer) (q : List Held)
    → Holds s q
    → Drained s q (drain_tombstones debug (released q) s)
unfolding drain_tombstones
drain-strip debug s [] h = record {
  after = record s { decommit_tombstones = [] };
  is_done = refl;
  holds = Holds-tombstones s [] [] h;
  marks = refl;
  count = ground arith;
  sequence = refl;
  reservation = refl;
  same_bytes = refl;
}
drain-strip debug s (x ∷ q) h =
    let f = Front-Holds s x q h in
    let d = drain-strip debug (popped s x.commit) q f.rest in
    elim (Bool-cases x.is_released) [
      | inl e ↦ Drained-freed debug s x q f h d e
      | inr e ↦ Drained-stop debug s x q h e
    ]
