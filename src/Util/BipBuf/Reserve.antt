-- ===== src/Util/BipBuf/Reserve.antt =====
-- What `reserve` gives out, when it gives nothing, and when it panics.
use aquic.Base.{
  ℕ, ◌+◌, ◌-◌, min, ◌≡◌, Bool, true, false, ◌&&◌, ◌||◌, none, some, arith, ltb, ◌==◌, if◌then◌else◌,
  done, panic,
}
use aquic.Util.BipBuf.{Buffer, Reservation, region_a, region_b, reserve}
use aquic.Util.BipBuf.Layout.{Layout, IsFree, space, Fits, Fits-IsFree}

-- A reservation of `reserve` extends a region.
pub reserve-Fits :
    (debug : Bool) (s s' : Buffer) (request : ℕ) (strict : Bool) (r : Reservation)
    → Layout s
    → reserve debug s request strict ≡ done (s', some r)
    → Fits s r
unfolding reserve
reserve-Fits debug s s' request strict r v e = ground arith

-- Region A is given up for the front of the allocation: the request exceeds the space behind it, and
-- there is more space before it.
abbrev pub wraps : Buffer → ℕ → Bool
wraps s request = ltb (s.length - s.a_end) request && ltb (s.length - s.a_end) s.a_start

-- What is granted: more of region B, if there is one; else more of region A, or a new region B.
abbrev pub granted : Buffer → ℕ → Reservation
granted s request =
    let n = min (space s) request in
    if ltb 0 s.b_end
    then record { start = s.b_end; end = s.b_end + n; region = region_b }
    else if wraps s request
    then record { start = 0; end = n; region = region_b }
    else record { start = s.a_end; end = s.a_end + n; region = region_a }

-- The request cannot be met.
abbrev pub is_short : Buffer → ℕ → Bool → Bool
is_short s request strict = (space s == 0) || (strict && ltb (space s) request)

reserve-short :
    (s : Buffer) (request : ℕ) (strict : Bool)
    → Layout s
    → s.reserved ≡ false
    → is_short s request strict ≡ true
    → reserve false s request strict ≡ done (s, none)
unfolding reserve
reserve-short s request strict v u h = ground arith

reserve-granted :
    (s : Buffer) (request : ℕ) (strict : Bool)
    → Layout s
    → s.reserved ≡ false
    → is_short s request strict ≡ false
    → reserve false s request strict ≡ done (record s { reserved = true }, some (granted s request))
unfolding reserve
reserve-granted s request strict v u h = ground arith

-- A release build always answers an unreserved buffer that is laid out well: with nothing, and no
-- change, if no byte is free or a strict request exceeds the space; otherwise with the lesser of the
-- space and the request, and only `reserved` changes. The bytes come from the end of region B, if it
-- has any; else from the start of the allocation, as region B, exactly if the request does not fit
-- behind region A and there is more space before it; else from the end of region A. They are bytes
-- of the allocation none of which is committed, and a commit of them extends their region.
pub reserve_lem :
    (s : Buffer) (request : ℕ) (strict : Bool)
    → Layout s
    → s.reserved ≡ false
    → (is_short s request strict ≡ true → reserve false s request strict ≡ done (s, none))
      × (is_short s request strict ≡ false
          → (reserve false s request strict
              ≡ done (record s { reserved = true }, some (granted s request)))
            × Fits s (granted s request)
            × IsFree s (granted s request).start (granted s request).end)
reserve_lem s request strict v u = (
  reserve-short s request strict v u,
  λ h.
      let granted_lem = reserve-granted s request strict v u h in
      let fits = reserve-Fits false s _ request strict _ v granted_lem in
      (granted_lem, fits, Fits-IsFree s (granted s request) v fits),
)

-- What the `debug_assert!` of `reserve` excludes.
abbrev pub asserts_against : Buffer → ℕ → Bool → Bool
asserts_against s request strict =
    strict
    && (s.b_end == 0)
    && ltb (s.length - s.a_end) request
    && ltb s.a_start (s.length - s.a_end)

-- A debug build differs from a release build on one kind of request: a strict one beyond the space
-- after region A, where region B is empty and there is less space before region A than after it. It
-- panics on those, all of which a release build answers with nothing.
reserve_debug :
    (s : Buffer) (request : ℕ) (strict : Bool)
    → Layout s
    → s.reserved ≡ false
    → (asserts_against s request strict ≡ true
        → (reserve true s request strict ≡ panic)
          × (reserve false s request strict ≡ done (s, none)))
      × (asserts_against s request strict ≡ false
          → reserve true s request strict ≡ reserve false s request strict)
unfolding reserve
reserve_debug s request strict v u = ground arith
