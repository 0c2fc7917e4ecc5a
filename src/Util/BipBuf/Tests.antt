-- ===== src/Util/BipBuf/Tests.antt =====
-- Runs of the bip buffer, and its theorems at concrete buffers.
use aquic.Base.{
  ◌+◌, ◌<◌, ◌≡◌, refl, inl, inr, true, false, none, some, List, [], ◌∷◌, arith, word, done, panic,
  ◌>>=◌,
}
use aquic.Util.BipBuf.{
  Buffer, Commit, Reservation, region_a, region_b, new, reserve, try_commit, decommit,
  decommit_single, drain_tombstones, drop_reservation,
}
use aquic.Util.BipBuf.Layout.{Layout, Fits, IsFree}
use aquic.Util.BipBuf.Reserve.{reserve_lem}
use aquic.Util.BipBuf.Access.{read, write}
use aquic.Util.BipBuf.Fifo.Queue.{Held, held, Lies, Lies-Holds}
use aquic.Util.BipBuf.Fifo.Release.{IsQueue, Released}
use aquic.Util.BipBuf.Fifo.Numbers.{InStep, IsBehind, decommit_lem}
use aquic.Util.BipBuf.Fifo.Fresh.{commit_nothing, new_lem}
use aquic.Util.BipBuf.Fifo.Append.{try_commit_appends}
use aquic.Util.BipBuf.Fifo.Safety.{write_keeps_held}
use aquic.Util.BipBuf.Stuck.{first, second, both, new_buffer_stuck}

-- Ten bytes: region A is [4, 8), in two commits, the newer of which is released; region B is [0, 3).
abbrev wrapped : Buffer
wrapped = record {
  bytes = 10 ∷ 11 ∷ 12 ∷ 13 ∷ 14 ∷ 15 ∷ 16 ∷ 17 ∷ 18 ∷ 19 ∷ [];
  length = 10;
  a_start = 4;
  a_end = 8;
  b_start = 0;
  b_end = 3;
  reserved = false;
  commit_id_sequence = 8;
  decommit_next_id = 5;
  decommit_tombstones = record { id = 6; start = 6; end = 8 } ∷ [];
}

abbrev oldest : Commit
oldest = record { id = 5; start = 4; end = 6 }

wrapped-Layout : Layout wrapped
wrapped-Layout = ground arith

-- Releasing the oldest commit also frees the one released before, and region B becomes region A.
decommit-wrapped :
    decommit true wrapped oldest
    ≡ done (record wrapped {
      a_start = 0;
      a_end = 3;
      b_end = 0;
      decommit_next_id = 7;
      decommit_tombstones = [];
    })
unfolding decommit decommit_single drain_tombstones
decommit-wrapped = refl

-- One byte is free, between the regions.
abbrev gap : Reservation
gap = record { start = 3; end = 4; region = region_b }

reserve_lem_example :
    (reserve false wrapped 4 false ≡ done (record wrapped { reserved = true }, some gap))
    × Fits wrapped gap
    × IsFree wrapped 3 4
reserve_lem_example = (reserve_lem wrapped 4 false wrapped-Layout refl).1 refl

new_lem_example :
    IsBehind (new 8) [] × ((s' : Buffer) × (commit_nothing true (new 8) 2 ≡ done s') × InStep s' [])
new_lem_example = new_lem true 8 2 (omega arith) (omega arith) (omega arith)

-- A new buffer of eight bytes, after an empty commit and one of three bytes whose reservation is open.
abbrev filling : Buffer
filling = record (new 8) { a_end = 3; reserved = true; commit_id_sequence = 2 }

abbrev rest : Reservation
rest = record { start = 3; end = 8; region = region_a }

abbrev left : Commit
left = record { id = 1; start = 0; end = 3 }

abbrev right : Commit
right = record { id = 2; start = 3; end = 7 }

abbrev left_queue : List Held
left_queue = held left false ∷ []

filling_run :
    (do
      s1 ← commit_nothing true (new 8) 1
      (s2, r) ← reserve true s1 8 true
      elim r [ none ↦ panic | some r' ↦ try_commit true s2 r' 3 ])
    ≡ done (filling, rest, some left)
unfolding reserve try_commit drop_reservation new
filling_run = refl

-- The rest of the reservation takes a commit of four bytes, and one byte is left.
abbrev filled : Buffer
filled = record filling { a_end = 7; reserved = false; commit_id_sequence = 3 }

filled_run :
    try_commit true filling rest 4
    ≡ done (
      record filled { reserved = true },
      record { start = 7; end = 8; region = region_a },
      some right,
    )
unfolding try_commit new
filled_run = refl

abbrev filled_queue : List Held
filled_queue = held left false ∷ held right false ∷ []

filling-Lies : Lies filling left_queue
unfolding new
filling-Lies = record {
  layout = ground arith;
  in_a = left_queue;
  in_b = [];
  queue = refl;
  tiles_a = omega arith;
  tiles_b = refl;
}

filled-Lies : Lies filled filled_queue
unfolding new
filled-Lies = record {
  layout = ground arith;
  in_a = filled_queue;
  in_b = [];
  queue = refl;
  tiles_a = omega arith;
  tiles_b = refl;
}

filled-IsQueue : IsQueue filled filled_queue
unfolding new
filled-IsQueue = record {
  holds = Lies-Holds filled filled_queue filled-Lies (omega arith);
  front_held = refl;
  marks = refl;
}

both-IsBehind : IsBehind (both 8 3 4) (held (first 3) false ∷ held (second 3 4) false ∷ [])
unfolding new
both-IsBehind = record {
  lies = record {
    layout = ground arith;
    in_a = held (first 3) false ∷ held (second 3 4) false ∷ [];
    in_b = [];
    queue = refl;
    tiles_a = omega arith;
    tiles_b = refl;
  };
  at_0 = refl;
  expects = refl;
  ids = omega arith;
  sequence = refl;
}

rest-Fits : Fits filling rest
unfolding new
rest-Fits = record { ordered = omega arith; inside = omega arith; extends = (refl, refl) }

try_commit_appends_example :
    (s' : Buffer) × (try_commit true filling rest 4
      ≡ done (s', record rest { start = 7 }, some right))
    × Lies s' filled_queue
    × Fits s' (record rest { start = 7 })
    × (s'.reserved ≡ true)
    × (s'.bytes ≡ filling.bytes)
    × (filling.decommit_next_id + 1 + 1 < word → InStep filling left_queue → InStep s' filled_queue)
    × (1 + 1 < word → IsBehind filling left_queue → IsBehind s' filled_queue)
unfolding new
try_commit_appends_example =
    try_commit_appends true filling left_queue rest 4 filling-Lies rest-Fits (omega arith)
      (omega arith)

-- With identifiers in step the newer of two commits is kept until its turn, and in a buffer whose
-- first commit has bytes the release of number 1 panics.
decommit_lem_example :
    Released filled 2 filled_queue (decommit false filled right)
    × (decommit true (both 8 3 4) (second 3 4) ≡ panic)
decommit_lem_example = (
  (decommit_lem false filled filled_queue right (inr (inl (refl, refl)))).0 filled-IsQueue,
  ((decommit_lem true (both 8 3 4) (held (first 3) false ∷ held (second 3 4) false ∷ [])
          (second 3 4) (inr (inl (refl, refl)))).2
        both-IsBehind).0
      refl,
)

-- One more byte is reserved and written.
abbrev last_byte : Reservation
last_byte = record { start = 7; end = 8; region = region_a }

write_keeps_held_example :
    read (write (record filled { reserved = true }) last_byte (99 ∷ [])) right ≡ 0 ∷ 0 ∷ 0 ∷ 0 ∷ []
unfolding read reserve new
write_keeps_held_example =
    write_keeps_held true filled (record filled { reserved = true }) filled_queue 4 false last_byte
      (99 ∷ []) right filled-Lies (inr (inl (refl, refl))) refl (omega arith)

new_buffer_stuck_example : decommit true (both 8 3 4) (second 3 4) ≡ panic
new_buffer_stuck_example =
    (new_buffer_stuck true 8 3 4 (omega arith) (omega arith) (omega arith) (omega arith)).3
