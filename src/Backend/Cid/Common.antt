-- ===== src/Backend/Cid/Common.antt =====
-- aquic-core/src/backend/cid/common.rs: connection IDs of random bytes.
use aquic.Base.{ℕ, Bool, none, some, ltb, leb, ◌==◌, if◌then◌else◌, length, Outcome, done, panic}
use aquic.Backend.Cid.{ConnectionId, max_cid_len, try_from_slice}
use aquic.Util.Random.{fill_bytes}

pub record RandomIdGenerator : Type 0 where
  pub length : ℕ

unfoldable pub new : ℕ → Outcome RandomIdGenerator
new length = if leb length max_cid_len then done (record { length = length }) else panic

-- `cid[..self.length]` behind `fill_bytes`; a length beyond the array panics.
unfoldable pub generate : RandomIdGenerator → (ℕ → ℕ) → Outcome ConnectionId
generate s random_bytes =
    if ltb max_cid_len s.length
    then panic
    else elim (try_from_slice (fill_bytes s.length random_bytes)) [
      | none ↦ panic
      | some cid ↦ done cid
    ]

abbrev pub cid_len : RandomIdGenerator → ℕ
cid_len s = s.length

abbrev pub validate : RandomIdGenerator → ConnectionId → Bool
validate s cid = s.length == cid.len
