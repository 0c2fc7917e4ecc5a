-- ===== src/Util/Hmac.antt =====
-- aquic-core/src/util/hmac.rs: message authentication with keys that rotate.
--
-- The algorithm of the crate `digest` is the parameter `MacAlgorithm`; a provider is its key.
pub mod Rotation
use aquic.Base.{
  ℕ, zero, suc, ◌+◌, ◌-◌, ◌*◌, ◌/◌, ◌%◌, ◌^◌, ◌≤◌, ◌<◌, min, max, ◌≡◌, refl, sym, ap, ◌∙◌, subst,
  ◌≢◌, ◌↔◌, ◌⊎◌, inl, inr, Bool, true, false, not, ◌&&◌, ◌||◌, Option, none, some, List, [], ◌∷◌,
  ◌++◌, map, arith, ltb, leb, ◌==◌, if◌then◌else◌, ltb→lt, lt→ltb, le→ltb, leb→le, le→leb, lt→leb,
  ==_iff, tests, ltb-cases, ==-cases, Bool-cases, Option-cases, length, get_elem?, get_or, set,
  replicate, All, length-append, length-set, length-replicate, get_or-set_self, get_or-set_ne, take,
  drop, take_append, drop_append, append_injective, take_append_at, drop_append_at, take-drop,
  length-take, length-drop, word, wrapping_add, Outcome, done, panic, ◌>>=◌, add_word, sub_word,
  add_word-eq, sub_word-eq,
}

pub record MacAlgorithm : Type 1 where
  pub Key : Type 0
  pub output_size : ℕ
  -- `update` and `finalize`
  pub compute_mac : Key → List ℕ → List ℕ

-- What a `KeyStore` answers at one time.
pub record KeyStore (M : MacAlgorithm) : Type 0 where
  pub active : M.Key
  pub passive : List M.Key
  pub revision : ℕ

pub record Hmac (M : MacAlgorithm) : Type 0 where
  pub macs : List M.Key
  pub revision : ℕ

-- `ct_eq`
unfoldable pub ct_eq : List ℕ → List ℕ → Bool
ct_eq [] [] = true
ct_eq [] (y ∷ ys) = false
ct_eq (x ∷ xs) [] = false
ct_eq (x ∷ xs) (y ∷ ys) = let rest = ct_eq xs ys in if x == y then rest else false

module _ (M : MacAlgorithm) where
  unfoldable pub update_keys : Hmac M → KeyStore M → Hmac M
  update_keys s store = record { macs = store.active ∷ store.passive; revision = store.revision }

  unfoldable pub compare_and_update_keys : Hmac M → KeyStore M → Hmac M
  unfolding update_keys
  compare_and_update_keys s store =
      if not (s.revision == store.revision) then update_keys s store else s

  unfoldable pub new : KeyStore M → Hmac M
  unfolding update_keys
  new store = update_keys (record { macs = []; revision = 0 }) store

  -- `self.macs[0]`, and its output behind `out`
  abbrev pub compute_with : Hmac M → List ℕ → List ℕ → Outcome (Hmac M × List ℕ)
  compute_with s data_bytes out = elim s.macs [
    | [] ↦ panic
    | k ∷ ks ↦ done (s, out ++ M.compute_mac k data_bytes)
  ]

  unfoldable pub compute : Hmac M → KeyStore M → List ℕ → List ℕ → Outcome (Hmac M × List ℕ)
  compute s store data_bytes out = compute_with (compare_and_update_keys s store) data_bytes out

  -- The loop of `verify_fn`.
  unfoldable pub any_authentic : List M.Key → List ℕ → List ℕ → (List ℕ → List ℕ) → Bool
  unfolding ct_eq
  any_authentic [] data_bytes expected_hmac transform = false
  any_authentic (k ∷ ks) data_bytes expected_hmac transform =
      let rest = any_authentic ks data_bytes expected_hmac transform in
      if ct_eq (transform (M.compute_mac k data_bytes)) expected_hmac then true else rest

  unfoldable pub verify_fn :
      Hmac M → KeyStore M → List ℕ → List ℕ → (List ℕ → List ℕ) → Hmac M × Bool
  unfolding any_authentic
  verify_fn s store data_bytes expected_hmac transform =
      let s' = compare_and_update_keys s store in
      (s', any_authentic s'.macs data_bytes expected_hmac transform)

  unfoldable pub verify : Hmac M → KeyStore M → List ℕ → List ℕ → Hmac M × Bool
  unfolding verify_fn
  verify s store data_bytes expected_hmac =
      if not (length expected_hmac == M.output_size)
      then (s, false)
      else verify_fn s store data_bytes expected_hmac (λ hmac. hmac)
