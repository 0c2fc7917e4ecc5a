-- ===== src/Util/BipBuf.antt =====
-- aquic-core/src/util/bipbuf.rs: a lazy bip buffer, its reservations and its commits.
--
-- `Buffer` is `BipBufferInner`: the cells are fields, and a method returns the new record. The
-- allocation is the list `bytes`. A method that can panic returns an `Outcome`; its first argument
-- says whether the build has debug assertions and overflow checks. `BinaryHeap<Reverse<Commit>>` is
-- a list with the lowest identifier first: `push_tombstone` is `push`, the head is `peek`.
pub mod Access
pub mod Commits
pub mod Reserve
pub mod Layout
pub mod Fifo
pub mod Stuck
mod Tests
use aquic.Base.{
  ℕ, zero, suc, ◌+◌, ◌-◌, ◌*◌, ◌/◌, ◌%◌, ◌^◌, ◌≤◌, ◌<◌, min, max, ◌≡◌, refl, sym, ap, ◌∙◌, subst,
  ◌≢◌, ◌↔◌, ◌⊎◌, inl, inr, Bool, true, false, not, ◌&&◌, ◌||◌, Option, none, some, List, [], ◌∷◌,
  ◌++◌, map, arith, ltb, leb, ◌==◌, if◌then◌else◌, ltb→lt, lt→ltb, le→ltb, leb→le, le→leb, lt→leb,
  ==_iff, tests, Bool-cases, Option-cases, length, get_elem?, get_or, set, replicate, All,
  length-append, length-set, length-replicate, get_or-set_self, get_or-set_ne, word, wrapping_add,
  Outcome, done, panic, ◌>>=◌, add_word, sub_word, add_word-eq, sub_word-eq,
}

pub data Region : Type 0 where
  region_a region_b : Region

pub record Reservation : Type 0 where
  pub start : ℕ
  pub end : ℕ
  pub region : Region

pub record Commit : Type 0 where
  pub id : ℕ
  pub start : ℕ
  pub end : ℕ

pub record Buffer : Type 0 where
  pub bytes : List ℕ
  pub length : ℕ
  pub a_start : ℕ
  pub a_end : ℕ
  pub b_start : ℕ
  pub b_end : ℕ
  pub reserved : Bool
  pub commit_id_sequence : ℕ
  pub decommit_next_id : ℕ
  pub decommit_tombstones : List Commit

-- `BipBufferInner::new`
unfoldable pub new : ℕ → Buffer
new length = record {
  bytes = replicate length 0;
  length = length;
  a_start = 0;
  a_end = 0;
  b_start = 0;
  b_end = 0;
  reserved = false;
  commit_id_sequence = 0;
  decommit_next_id = 1;
  decommit_tombstones = [];
}

-- `Reservation::len` and `Commit::len`
abbrev pub reservation_len : Bool → Reservation → Outcome ℕ
reservation_len debug r = sub_word debug r.end r.start

abbrev pub commit_len : Bool → Commit → Outcome ℕ
commit_len debug c = sub_word debug c.end c.start

abbrev pub a_len : Bool → Buffer → Outcome ℕ
a_len debug s = sub_word debug s.a_end s.a_start

abbrev pub b_len : Bool → Buffer → Outcome ℕ
b_len debug s = sub_word debug s.b_end s.b_start

unfoldable pub available : Bool → Buffer → Outcome ℕ
available debug s = do
  b ← b_len debug s
  if ltb 0 b
      then sub_word debug s.a_start s.b_end
      else (do after ← sub_word debug s.length s.a_end; done (max s.a_start after))

-- What the block `'init` of `reserve` decides: start, region and available bytes.
pub record Place : Type 0 where
  pub start : ℕ
  pub region : Region
  pub available : ℕ

place_in_b : Bool → Buffer → Outcome Place
place_in_b debug s = do
  available ← sub_word debug s.a_start s.b_end
  done (record { start = s.b_end; region = region_b; available = available })

place_beside_a : Bool → Buffer → ℕ → Bool → Outcome Place
place_beside_a debug s request strict = do
  after ← sub_word debug s.length s.a_end
  let after_a : Place = record {
    start = s.a_end;
    region = region_a;
    available = max s.a_start after;
  }
  let before_a : Place = record { start = 0; region = region_b; available = max s.a_start after }
  if leb request after
      then done after_a
      else if debug && strict && not (leb after s.a_start)
      then panic
      else if leb s.a_start after
      then done after_a
      else done before_a

place : Bool → Buffer → ℕ → Bool → Outcome Place
unfolding place_in_b place_beside_a
place debug s request strict = do
  b ← b_len debug s
  if ltb 0 b then place_in_b debug s else place_beside_a debug s request strict

-- `BipBufferInner::reserve`
pub reserve : Bool → Buffer → ℕ → Bool → Outcome (Buffer × Option Reservation)
unfolding place
reserve debug s request strict = if s.reserved then panic else (do
  p ← place debug s request strict
  if (p.available == 0) || (strict && ltb p.available request) then done (s, none) else (do
    end ← add_word debug p.start (min p.available request)
    done (
      record s { reserved = true },
      some (record { start = p.start; end = end; region = p.region }),
    )))

-- `BipBufferInner::commit`
set_end : Region → ℕ → Buffer → Buffer
set_end region_a end s = record s { a_end = end }
set_end region_b end s = record s { b_end = end }

pub commit : Bool → Buffer → Reservation → ℕ → Outcome (Buffer × Option Commit)
unfolding set_end
commit debug s r len = do
  reserved ← reservation_len debug r
  if ltb reserved len then done (s, none) else (do
    end ← add_word debug r.start (min len reserved)
    done (
      set_end r.region end (record s { commit_id_sequence = wrapping_add s.commit_id_sequence 1 }),
      some (record { id = s.commit_id_sequence; start = r.start; end = end }),
    ))

-- `BipSliceMut::try_commit`: the reservation that is left stands beside the commit.
unfoldable pub try_commit :
    Bool → Buffer → Reservation → ℕ → Outcome (Buffer × Reservation × Option Commit)
unfolding commit
try_commit debug s r len = do
  (s', c) ← commit debug s r len
  elim c [
    | none ↦ done (s', r, none)
    | some c' ↦ (do
      start ← add_word debug r.start len
      done (s', record r { start = min start r.end }, some c'))
  ]

-- `Drop for BipSliceMut`
unfoldable pub drop_reservation : Buffer → Buffer
drop_reservation s = record s { reserved = false }

-- The test of `decommit_single` after it has moved a region's start.
swap_if_drained : Bool → Buffer → Outcome Buffer
swap_if_drained debug s = do
  a ← a_len debug s
  if a == 0
      then done (record s { a_start = s.b_start; a_end = s.b_end; b_start = 0; b_end = 0 })
      else done s

pub decommit_single : Bool → Buffer → Commit → Outcome Buffer
unfolding swap_if_drained
decommit_single debug s c =
    if c.start == s.a_start
    then (do
      len ← commit_len debug c
      start ← add_word debug s.a_start len
      swap_if_drained debug (record s { a_start = start }))
    else if c.start == s.b_start
    then (do
      len ← commit_len debug c
      start ← add_word debug s.b_start len
      swap_if_drained debug (record s { b_start = start }))
    else panic

-- `BinaryHeap::push`, at an order by identifier alone
pub push_tombstone : Commit → List Commit → List Commit
push_tombstone c [] = c ∷ []
push_tombstone c (x ∷ xs) = if leb c.id x.id then c ∷ x ∷ xs else x ∷ push_tombstone c xs

pub next_id : Buffer → Buffer
next_id s = record s { decommit_next_id = wrapping_add s.decommit_next_id 1 }

-- The loop of `decommit` over the tombstones.
pub drain_tombstones : Bool → List Commit → Buffer → Outcome Buffer
unfolding next_id
drain_tombstones debug [] s = done (record s { decommit_tombstones = [] })
drain_tombstones debug (c ∷ cs) s =
    let stop = done (record s { decommit_tombstones = c ∷ cs }) in
    let rest = decommit_single debug s c >>= λ s'. drain_tombstones debug cs (next_id s') in
    if c.id == s.decommit_next_id then rest else if ltb c.id s.decommit_next_id then panic else stop

-- `BipBufferInner::decommit`, which `Drop for BipSlice` and `Drop for BipView` call
pub decommit : Bool → Buffer → Commit → Outcome Buffer
unfolding next_id
decommit debug s c = do
  len ← commit_len debug c
  if len == 0
      then done s
      else if c.id == s.decommit_next_id
      then (do
        s' ← decommit_single debug s c
        drain_tombstones debug s'.decommit_tombstones (next_id s'))
      else done (record s { decommit_tombstones = push_tombstone c s.decommit_tombstones })
