-- ===== src/Backend/Cid.antt =====
-- aquic-core/src/backend/cid/mod.rs: connection IDs.
--
-- An array of bytes is a list, and an iterator the list of what it yields.
pub mod Copies
pub mod Common
pub mod Server
use aquic.Base.{
  ℕ, zero, suc, ◌+◌, ◌-◌, ◌*◌, ◌/◌, ◌%◌, ◌^◌, ◌≤◌, ◌<◌, min, max, ◌≡◌, refl, sym, ap, ◌∙◌, subst,
  ◌≢◌, ◌↔◌, ◌⊎◌, inl, inr, Bool, true, false, not, ◌&&◌, ◌||◌, Option, none, some, List, [], ◌∷◌,
  ◌++◌, map, arith, ltb, leb, ◌==◌, if◌then◌else◌, ltb→lt, lt→ltb, le→ltb, leb→le, le→leb, lt→leb,
  ==_iff, tests, Bool-cases, Option-cases, length, get_elem?, get_or, set, replicate, All,
  length-append, length-set, length-replicate, get_or-set_self, get_or-set_ne, word, wrapping_add,
  Outcome, done, panic, ◌>>=◌, add_word, sub_word, add_word-eq, sub_word-eq,
}

abbrev pub max_cid_len : ℕ
max_cid_len = 20

pub record ConnectionId : Type 0 where
  pub array : List ℕ
  pub len : ℕ

-- `array[..slice.len()].copy_from_slice(slice)`, of a slice that is not longer
unfoldable pub copy_from_slice : List ℕ → List ℕ → List ℕ
copy_from_slice array [] = array
copy_from_slice [] (x ∷ xs) = []
copy_from_slice (a ∷ array) (x ∷ xs) = x ∷ copy_from_slice array xs

unfoldable pub try_from_slice : List ℕ → Option ConnectionId
try_from_slice slice =
    if ltb max_cid_len (length slice)
    then none
    else some
        (record { array = copy_from_slice (replicate max_cid_len 0) slice; len = length slice })

-- The loop of `try_from_iter` has `max_cid_len - mark` rounds left.
unfoldable pub try_from_iter_loop : ℕ → List ℕ → ℕ → List ℕ → Option ConnectionId
try_from_iter_loop zero array mark iter = none
try_from_iter_loop (suc rounds) array mark [] = some (record { array = array; len = mark })
try_from_iter_loop (suc rounds) array mark (byte ∷ iter) =
    try_from_iter_loop rounds (set array mark byte) (mark + 1) iter

unfoldable pub try_from_iter : List ℕ → Option ConnectionId
try_from_iter iter = try_from_iter_loop max_cid_len (replicate max_cid_len 0) 0 iter

-- `&array[..len]`
unfoldable pub first_of : ℕ → List ℕ → List ℕ
first_of zero array = []
first_of (suc n) [] = []
first_of (suc n) (x ∷ array) = x ∷ first_of n array

unfoldable pub as_slice : ConnectionId → List ℕ
as_slice id = first_of id.len id.array
