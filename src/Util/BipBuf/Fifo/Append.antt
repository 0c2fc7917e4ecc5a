-- ===== src/Util/BipBuf/Fifo/Append.antt =====
-- A commit joins the queue at its end.
use aquic.Base.{
  ℕ, ◌+◌, ◌≤◌, ◌<◌, ◌≡◌, refl, sym, ap, ◌∙◌, subst, inl, inr, Bool, false, some, List, [], ◌∷◌,
  ◌++◌, arith, Bool-cases, length, length-append, word, wrapping_add, done,
}
use mathlib.Core.List.{append-nil, append_assoc}
use aquic.Util.BipBuf.{Buffer, Commit, Reservation, Region, region_a, region_b, try_commit}
use aquic.Util.BipBuf.Layout.{Layout, Fits, Extends}
use aquic.Util.BipBuf.Commits.{extended, try_commit_lem, try_commit-Layout}
use aquic.Util.BipBuf.Fifo.Queue.{
  Held, held, released, strip, Tiles, Tiles-empty, Ids, Lies, Lies-Holds,
}
use aquic.Util.BipBuf.Fifo.Release.{front-ne-released}
use aquic.Util.BipBuf.Fifo.Numbers.{InStep, IsBehind}

Tiles-append :
    (lo hi : ℕ) (q : List Held) (c : Commit)
    → Tiles lo hi q
    → c.start ≡ hi
    → c.start < c.end
    → Tiles lo c.end (q ++ held c false ∷ [])
Tiles-append lo hi [] c h e lt = ground arith
Tiles-append lo hi (x ∷ q) c h e lt = (h.0, h.1, Tiles-append x.commit.end hi q c h.2 e lt)

Ids-append :
    (n : ℕ) (q : List Held) (c : Commit)
    → Ids n q
    → c.id ≡ n + length q
    → n + length q + 1 < word
    → Ids n (q ++ held c false ∷ [])
Ids-append n [] c h e lt = ground arith
Ids-append n (x ∷ q) c h e lt = (h.0, h.1, Ids-append (n + 1) q c h.2 (omega arith) (omega arith))

released-append : (q : List Held) (c : Commit) → released (q ++ held c false ∷ []) ≡ released q
released-append [] c = refl
released-append (x ∷ q) c = ground (arith, released-append q c)

strip-append :
    (q : List Held) (c : Commit)
    → strip q ≡ q
    → strip (q ++ held c false ∷ []) ≡ q ++ held c false ∷ []
strip-append [] c h = refl
strip-append (x ∷ q) c h = elim (Bool-cases x.is_released) [
  | inl e ↦ absurd (front-ne-released x q h e)
  | inr e ↦ simp e
]

Lies-append :
    (s : Buffer) (q : List Held) (c : Commit) (g : Region)
    → Lies s q
    → Layout (extended s g c.end)
    → c.start < c.end
    → Extends s g c.start c.end
    → Lies (extended s g c.end) (q ++ held c false ∷ [])
Lies-append s q c region_a h v lt (e, no_b) = record {
  layout = v;
  in_a = h.in_a ++ held c false ∷ [];
  in_b = [];
  queue =
      ap (λ l. l ++ held c false ∷ [])
        (h.queue
          ∙ ap (◌++◌ h.in_a) (Tiles-empty 0 s.b_end h.in_b h.tiles_b (omega arith))
          ∙ append-nil h.in_a)
      ∙ sym (append-nil (h.in_a ++ held c false ∷ []));
  tiles_a = Tiles-append s.a_start s.a_end h.in_a c h.tiles_a e lt;
  tiles_b = sym no_b;
}
Lies-append s q c region_b h v lt (e, fits) = record {
  layout = v;
  in_a = h.in_a;
  in_b = h.in_b ++ held c false ∷ [];
  queue = ap (λ l. l ++ held c false ∷ []) h.queue ∙ append_assoc h.in_a h.in_b (held c false ∷ []);
  tiles_a = h.tiles_a;
  tiles_b = Tiles-append 0 s.b_end h.in_b c h.tiles_b e lt;
}

-- What the end of a region does not change.
record Same (s s' : Buffer) : Type 0 where
  bytes : s'.bytes ≡ s.bytes
  reserved : s'.reserved ≡ s.reserved
  a_start : s'.a_start ≡ s.a_start
  next : s'.decommit_next_id ≡ s.decommit_next_id
  tombstones : s'.decommit_tombstones ≡ s.decommit_tombstones
  sequence : s'.commit_id_sequence ≡ wrapping_add s.commit_id_sequence 1

extended-Same : (s : Buffer) (g : Region) (end : ℕ) → Same s (extended s g end)
extended-Same s region_a end = record {
  bytes = refl;
  reserved = refl;
  a_start = refl;
  next = refl;
  tombstones = refl;
  sequence = refl;
}
extended-Same s region_b end = record {
  bytes = refl;
  reserved = refl;
  a_start = refl;
  next = refl;
  tombstones = refl;
  sequence = refl;
}

appended-InStep :
    (s s' : Buffer) (q : List Held) (c : Commit)
    → Same s s'
    → Lies s' (q ++ held c false ∷ [])
    → c.id ≡ s.commit_id_sequence
    → s.decommit_next_id + length q + 1 < word
    → InStep s q
    → InStep s' (q ++ held c false ∷ [])
appended-InStep s s' q c same h i w v =
    let ids = Ids-append s.decommit_next_id q c v.queue.holds.ids (i ∙ v.in_step) w in
    record {
      queue = record {
        holds = Lies-Holds s' _ h (subst (λ n. Ids n (q ++ held c false ∷ [])) (sym same.next) ids);
        front_held = strip-append q c v.queue.front_held;
        marks = same.tombstones ∙ v.queue.marks ∙ sym (released-append q c);
      };
      in_step =
          ground (arith, v.in_step, same.sequence, same.next, length-append q (held c false ∷ []));
    }

appended-IsBehind :
    (s s' : Buffer) (q : List Held) (c : Commit)
    → Same s s'
    → Lies s' (q ++ held c false ∷ [])
    → c.id ≡ s.commit_id_sequence
    → length q + 1 < word
    → IsBehind s q
    → IsBehind s' (q ++ held c false ∷ [])
appended-IsBehind s s' q c same h i w v = record {
  lies = h;
  at_0 = same.a_start ∙ v.at_0;
  expects = same.next ∙ v.expects;
  ids = Ids-append 0 q c v.ids (omega (arith, i, v.sequence)) (omega arith);
  sequence = ground (arith, v.sequence, same.sequence, length-append q (held c false ∷ []));
}

-- Committing one byte or more of a reservation that extends a region, in a buffer whose regions are
-- tiled by the commits of a queue: the commit comes at the end of the queue, under the next
-- identifier, what is left of the reservation still extends its region, and neither a byte nor
-- `reserved` changes. As long as they do not wrap, identifiers that were in step stay in step, and
-- those that were one behind, as in a new buffer, stay behind.
pub try_commit_appends :
    (debug : Bool) (s : Buffer) (q : List Held) (r : Reservation) (len : ℕ)
    → Lies s q
    → Fits s r
    → 0 < len
    → r.start + len ≤ r.end
    → let c : Commit = record { id = s.commit_id_sequence; start = r.start; end = r.start + len } in
      let rest = record r { start = r.start + len } in
      let q' = q ++ held c false ∷ [] in
      (s' : Buffer) × (try_commit debug s r len ≡ done (s', rest, some c))
      × Lies s' q'
      × Fits s' rest
      × (s'.reserved ≡ s.reserved)
      × (s'.bytes ≡ s.bytes)
      × (s.decommit_next_id + length q + 1 < word → InStep s q → InStep s' q')
      × (length q + 1 < word → IsBehind s q → IsBehind s' q')
try_commit_appends debug s q r len v f pos fits =
    let end = r.start + len in
    let c : Commit = record { id = s.commit_id_sequence; start = r.start; end = end } in
    let s' = extended s r.region end in
    let (layout, rest_fits) = try_commit-Layout s r len v.layout f fits in
    let same = extended-Same s r.region end in
    let lies = Lies-append s q c r.region v layout (omega arith) (shorter r.region f.extends) in
    (
      s',
      (try_commit_lem debug s r len v.layout f).1 fits,
      lies,
      rest_fits,
      same.reserved,
      same.bytes,
      appended-InStep s s' q c same lies refl,
      appended-IsBehind s s' q c same lies refl,
    )
  where
    shorter : (g : Region) → Extends s g r.start r.end → Extends s g r.start (r.start + len)
    shorter region_a e = e
    shorter region_b e = (e.0, omega arith)
