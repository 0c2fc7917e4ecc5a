-- ===== src/Util/BipBuf/Commits.antt =====
-- What `try_commit` makes of a reservation.
use aquic.Base.{ℕ, ◌+◌, ◌≤◌, ◌<◌, ◌≡◌, refl, Bool, none, some, arith, wrapping_add, done}
use aquic.Util.BipBuf.{Buffer, Reservation, Region, region_a, region_b, try_commit}
use aquic.Util.BipBuf.Layout.{Layout, Extends, Fits}

-- The region that a reservation extends now ends at `end`.
abbrev pub extended : Buffer → Region → ℕ → Buffer
extended s region_a end = record s {
  a_end = end;
  commit_id_sequence = wrapping_add s.commit_id_sequence 1;
}
extended s region_b end = record s {
  b_end = end;
  commit_id_sequence = wrapping_add s.commit_id_sequence 1;
}

-- A commit of `len` bytes fails, and changes nothing, exactly if the reservation is shorter.
-- Otherwise it takes the first `len` bytes of the reservation, under the next identifier, its region
-- now ends behind them, and the rest stays reserved.
pub try_commit_lem :
    (debug : Bool) (s : Buffer) (r : Reservation) (len : ℕ)
    → Layout s
    → Fits s r
    → (r.end < r.start + len → try_commit debug s r len ≡ done (s, r, none))
      × (r.start + len ≤ r.end
          → try_commit debug s r len
            ≡ done (
              extended s r.region (r.start + len),
              record r { start = r.start + len },
              some (record { id = s.commit_id_sequence; start = r.start; end = r.start + len }),
            ))
unfolding try_commit
try_commit_lem debug s r len v f = ground arith

extended-Layout :
    (s : Buffer) (g : Region) (start end : ℕ)
    → Layout s
    → start ≤ end
    → end ≤ s.length
    → Extends s g start end
    → Layout (extended s g end)
extended-Layout s region_a start end v le inside e = ground arith
extended-Layout s region_b start end v le inside e = ground arith

extended-Extends :
    (s : Buffer) (g : Region) (start end last : ℕ)
    → Extends s g start last
    → Extends (extended s g end) g end last
extended-Extends s region_a start end last e = (refl, e.1)
extended-Extends s region_b start end last e = (refl, e.1)

-- A commit keeps the layout, and what it leaves of the reservation still fits.
pub try_commit-Layout :
    (s : Buffer) (r : Reservation) (len : ℕ)
    → Layout s
    → Fits s r
    → r.start + len ≤ r.end
    → let s' = extended s r.region (r.start + len) in
      Layout s' × Fits s' (record r { start = r.start + len })
try_commit-Layout s r len v f h = (
  extended-Layout s r.region r.start (r.start + len) v (omega arith) (omega (arith, f.inside))
      (shrink r.region f.extends),
  record {
    ordered = h;
    inside = kept r.region;
    extends = extended-Extends s r.region r.start (r.start + len) r.end f.extends;
  },
)
  where
    shrink : (g : Region) → Extends s g r.start r.end → Extends s g r.start (r.start + len)
    shrink region_a e = e
    shrink region_b e = (e.0, omega arith)

    kept : (g : Region) → r.end ≤ (extended s g (r.start + len)).length
    kept region_a = f.inside
    kept region_b = f.inside
