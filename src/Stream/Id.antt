-- ===== src/Stream/Id.antt =====
-- aquic-core/src/stream/types/id.rs: stream IDs.
--
-- A `Result` whose error is the unit `StreamIdError` is an `Option`. A raw value is a `u64`, so the
-- conversions from and to the integers of `w` bits are one definition each, over `w`.
pub mod Sequence
use Prim.Native.Nat.{bit_and}
use aquic.Base.{
  ℕ, zero, suc, ◌+◌, ◌-◌, ◌*◌, ◌/◌, ◌%◌, ◌^◌, ◌≤◌, ◌<◌, min, max, ◌≡◌, refl, sym, ap, ◌∙◌, subst,
  ◌≢◌, ◌↔◌, ◌⊎◌, inl, inr, Bool, true, false, not, ◌&&◌, ◌||◌, Option, none, some, List, [], ◌∷◌,
  ◌++◌, map, arith, ltb, leb, ◌==◌, if◌then◌else◌, ltb→lt, lt→ltb, le→ltb, leb→le, le→leb, lt→leb,
  ==_iff, tests, Bool-cases, Option-cases, length, get_elem?, get_or, set, replicate, All,
  length-append, length-set, length-replicate, get_or-set_self, get_or-set_ne, word, wrapping_add,
  Outcome, done, panic, ◌>>=◌, add_word, sub_word, add_word-eq, sub_word-eq,
}

pub record StreamId : Type 0 where
  pub raw : ℕ

-- `StreamId::MAX`
abbrev pub max_value : ℕ
max_value = 2 ^ 62 - 1

unfoldable pub new : ℕ → Option StreamId
new value = if leb value max_value then some (record { raw = value }) else none

abbrev pub init_client_bidi : StreamId
init_client_bidi = record { raw = 0 }

abbrev pub init_server_bidi : StreamId
init_server_bidi = record { raw = 1 }

abbrev pub init_client_uni : StreamId
init_client_uni = record { raw = 2 }

abbrev pub init_server_uni : StreamId
init_server_uni = record { raw = 3 }

unfoldable pub initial : Bool → Bool → StreamId
initial true true = init_client_bidi
initial true false = init_client_uni
initial false true = init_server_bidi
initial false false = init_server_uni

unfoldable pub is_server : StreamId → Bool
is_server id = bit_and id.raw 1 == 1

unfoldable pub is_client : StreamId → Bool
unfolding is_server
is_client id = not (is_server id)

unfoldable pub is_uni : StreamId → Bool
is_uni id = bit_and id.raw 2 == 2

unfoldable pub is_bidi : StreamId → Bool
unfolding is_uni
is_bidi id = not (is_uni id)

-- `u64::checked_add`
abbrev pub checked_add : ℕ → ℕ → Option ℕ
checked_add a b = if ltb (a + b) word then some (a + b) else none

-- `u64::checked_sub`
abbrev pub checked_sub : ℕ → ℕ → Option ℕ
checked_sub a b = if leb b a then some (a - b) else none

unfoldable pub next : StreamId → Option StreamId
unfolding new
next id = elim (checked_add id.raw 4) [ none ↦ none | some value ↦ new value ]

unfoldable pub previous : StreamId → Option StreamId
unfolding new
previous id = elim (checked_sub id.raw 4) [ none ↦ none | some value ↦ new value ]

-- `From<u8>`, `From<u16>` and `From<u32>` of `impl_from`
abbrev pub from_value : ℕ → StreamId
from_value value = record { raw = value }

-- `TryFrom<u64>`, `TryFrom<u128>` and `TryFrom<usize>` of `impl_try_from`
unfoldable pub try_from : ℕ → Option StreamId
unfolding new
try_from value = if ltb value word then new value else none

-- `From<StreamId>` for an integer of `w` bits: `id.0 as $target`
abbrev pub as_bits : ℕ → StreamId → ℕ
as_bits w id = id.raw % 2 ^ w
