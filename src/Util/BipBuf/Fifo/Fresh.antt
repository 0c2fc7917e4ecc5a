-- ===== src/Util/BipBuf/Fifo/Fresh.antt =====
-- The identifiers of a new buffer of aquic-core/src/util/bipbuf.rs, before and after an empty commit.
use aquic.Base.{
  ℕ, ◌^◌, ◌≤◌, ◌<◌, ◌≡◌, refl, Bool, true, none, some, [], arith, length, Outcome, done, panic,
  ◌>>=◌,
}
use aquic.Util.BipBuf.{Buffer, new, reserve, try_commit, drop_reservation}
use aquic.Util.BipBuf.Layout.{new-Layout}
use aquic.Util.BipBuf.Fifo.Queue.{Lies, Lies-Holds}
use aquic.Util.BipBuf.Fifo.Numbers.{InStep, IsBehind}

-- Reserve `request` bytes, commit none of them, and drop the reservation.
abbrev pub commit_nothing : Bool → Buffer → ℕ → Outcome Buffer
commit_nothing debug s request = do
  (s1, r1) ← reserve debug s request true
  elim r1 [
    | none ↦ panic
    | some r ↦ (do (s2, _, _) ← try_commit debug s1 r 0; done (drop_reservation s2))
  ]

-- A new buffer after an empty commit.
abbrev pub primed : ℕ → Buffer
primed length = record (new length) { commit_id_sequence = 1 }

commit_nothing_lem :
    (debug : Bool) (length request : ℕ)
    → 0 < request
    → request ≤ length
    → length < 2 ^ 63
    → commit_nothing debug (new length) request ≡ done (primed length)
unfolding reserve try_commit new drop_reservation
commit_nothing_lem debug length request pos h small = ground arith

new-Lies :
    (length n : ℕ) → length < 2 ^ 63 → Lies (record (new length) { commit_id_sequence = n }) []
unfolding new
new-Lies length n small = record {
  layout = ground (arith, (new-Layout length small).0);
  in_a = [];
  in_b = [];
  queue = refl;
  tiles_a = refl;
  tiles_b = refl;
}

-- A new buffer, of less than 2 ^ 63 bytes, is one behind with its identifiers. To commit nothing of
-- a reservation that it grants gets them in step: the empty commit takes number 0, and holds no byte.
pub new_lem :
    (debug : Bool) (length request : ℕ)
    → 0 < request
    → request ≤ length
    → length < 2 ^ 63
    → IsBehind (new length) []
      × ((s' : Buffer) × (commit_nothing debug (new length) request ≡ done s') × InStep s' [])
unfolding new
new_lem debug length request pos h small = (
  record {
    lies = new-Lies length 0 small;
    at_0 = refl;
    expects = refl;
    ids = omega arith;
    sequence = refl;
  },
  (
    primed length,
    commit_nothing_lem debug length request pos h small,
    record {
      queue = record {
        holds = Lies-Holds (primed length) [] (new-Lies length 1 small) (omega arith);
        front_held = refl;
        marks = refl;
      };
      in_step = omega arith;
    },
  ),
)
