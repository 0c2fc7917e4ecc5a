-- ===== src/Backend/Cid/Server/Layout.antt =====
-- What stands in a connection ID that routes to a server (aquic-core/src/backend/cid/server.rs).
use mathlib.Core.List.{append_assoc}
use aquic.Base.{
  ℕ, zero, suc, ◌+◌, ◌^◌, ◌≤◌, ◌<◌, ◌≡◌, refl, sym, ap, ◌∙◌, inl, inr, Bool, not, some, List, [],
  ◌∷◌, ◌++◌, arith, ◌==◌, if◌then◌else◌, le→ltb, ==-cases, length, replicate, length-append,
  length-replicate, drop, take_append_at, drop_append_at, length-drop,
}
use aquic.Backend.Cid.{ConnectionId, max_cid_len, as_slice, copy_from_slice, try_from_slice}
use aquic.Backend.Cid.Copies.{first_of-copy}
use aquic.Backend.Cid.Server.{Crates, IsCrates, write_bits}
use aquic.Backend.Cid.Server.Generator.{ServerConnectionIdGenerator, write_core, write_ids}

-- The connection ID of a slice.
abbrev pub cid_of : List ℕ → ConnectionId
cid_of slice = record {
  array = copy_from_slice (replicate max_cid_len 0) slice;
  len = length slice;
}

pub as_slice-cid_of :
    (slice : List ℕ) → length slice ≤ max_cid_len → as_slice (cid_of slice) ≡ slice
unfolding as_slice
as_slice-cid_of slice h =
    first_of-copy (replicate max_cid_len 0) slice
      (omega (arith, length-replicate {A = ℕ} max_cid_len 0))

pub try_from_slice-cid_of :
    (slice : List ℕ) → length slice ≤ max_cid_len → try_from_slice slice ≡ some (cid_of slice)
unfolding try_from_slice
try_from_slice-cid_of slice h = simp (le→ltb max_cid_len (length slice) h) refl

drop-add : (n m : ℕ) (xs : List Bool) → drop (n + m) xs ≡ drop m (drop n xs)
drop-add zero m xs = ap (λ k. drop k xs) (omega arith)
drop-add (suc n) m [] = drop-nil (suc n + m) ∙ sym (drop-nil m)
  where
    drop-nil : (k : ℕ) → drop {A = Bool} k [] ≡ []
    drop-nil zero = refl
    drop-nil (suc k) = refl
drop-add (suc n) m (x ∷ xs) =
    let e : suc n + m ≡ suc (n + m) = omega arith in ap (λ k. drop k (x ∷ xs)) e ∙ drop-add n m xs

-- Bits that are written right behind others.
pub write_bits_behind :
    (offset : ℕ) (front old new : List Bool)
    → length front ≡ offset
    → write_bits (front ++ old) offset new ≡ front ++ (new ++ drop (length new) old)
unfolding write_bits
write_bits_behind offset front old new h =
    let a = take_append_at offset front old h in
    let b = drop_append_at offset front old h in
    ap (λ t. t ++ (new ++ drop (offset + length new) (front ++ old))) a
    ∙ ap (λ t. front ++ (new ++ t))
        (drop-add offset (length new) (front ++ old) ∙ ap (drop (length new)) b)

module _ (B : Crates) (s : ServerConnectionIdGenerator B) where
  -- What `new` asserts, and that the IDs fit in their bits.
  pub record IsGenerator : Type 0 where
    pub octet : s.first_octet < 256
    pub server_bits : 8 ≤ s.server_id_bits × s.server_id_bits ≤ 32
    pub core_bits : s.core_id_bits ≤ 16
    pub entropy : 32 ≤ s.entropy_bits
    pub server : s.server_id < 2 ^ s.server_id_bits
    pub core : s.core_id < 2 ^ s.core_id_bits

  abbrev pub octet_bits : List Bool
  octet_bits = B.view_bits (s.first_octet ∷ [])

  abbrev pub server_bits_of : List Bool
  server_bits_of = B.store_be s.server_id_bits s.server_id

  abbrev pub core_bits_of : List Bool
  core_bits_of = if not (s.core_id_bits == 0) then B.store_be s.core_id_bits s.core_id else []

  -- The bits in front of the random ones.
  abbrev pub routing_bits : List Bool
  routing_bits = octet_bits ++ (server_bits_of ++ core_bits_of)

  abbrev pub routing_offset : ℕ
  routing_offset = 8 + s.server_id_bits + s.core_id_bits

  module _ (law : IsCrates B) where
    pub length-core_bits_of : length core_bits_of ≡ s.core_id_bits
    length-core_bits_of = elim (==-cases s.core_id_bits 0) [
      | inl (e, none_used) ↦ rw e (omega arith)
      | inr (e, used) ↦ rw e (law.store_length s.core_id_bits s.core_id)
    ]

    pub length-routing_bits : length routing_bits ≡ routing_offset
    length-routing_bits = omega (
      arith,
      length-append octet_bits (server_bits_of ++ core_bits_of),
      length-append server_bits_of core_bits_of,
      law.view_length (s.first_octet ∷ []),
      law.store_length s.server_id_bits s.server_id,
      length-core_bits_of,
    )

    write_core-behind :
        (front old : List Bool) (offset : ℕ)
        → length front ≡ offset
        → s.core_id_bits ≤ length old
        → (rest : List Bool) × (write_core B s (front ++ old) offset
            ≡ (front ++ (core_bits_of ++ rest), offset + s.core_id_bits))
          × (length rest + s.core_id_bits ≡ length old)
    unfolding write_core
    write_core-behind front old offset h room = elim (==-cases s.core_id_bits 0) [
      | inl (e, none_used) ↦ (old, rw e (ap (λ k. (front ++ old, k)) (omega arith)), omega arith)
      | inr (e, used) ↦
          let new = B.store_be s.core_id_bits s.core_id in
          (
            drop (length new) old,
            rw e
                (ap (λ t. (t, offset + s.core_id_bits)) (write_bits_behind offset front old new h)),
            omega (
              arith,
              law.store_length s.core_id_bits s.core_id,
              length-drop (length new) old
                  (omega (arith, law.store_length s.core_id_bits s.core_id)),
            ),
          )
    ]

    -- `write_ids` writes them in front of other bits, 160 in all.
    pub write_ids-routing_bits :
        IsGenerator
        → (rest : List Bool) × (write_ids B s ≡ (routing_bits ++ rest, routing_offset))
          × (length rest + routing_offset ≡ 160)
    unfolding write_ids
    write_ids-routing_bits v =
        let zeros = B.view_bits (replicate 19 0) in
        let plain : B.view_bits (s.first_octet ∷ replicate 19 0) ≡ octet_bits ++ zeros =
          law.view_append (s.first_octet ∷ []) (replicate 19 0) in
        let octet_length : length octet_bits ≡ 8 = law.view_length (s.first_octet ∷ []) in
        let server_length = law.store_length s.server_id_bits s.server_id in
        let zeros_length : length zeros ≡ 152 = law.view_length (replicate 19 0) in
        let unused = drop (length server_bits_of) zeros in
        let unused_length : s.server_id_bits + length unused ≡ 152 =
          omega (arith, length-drop (length server_bits_of) zeros (omega (arith, v.server_bits))) in
        let (rest, e, n) =
          write_core-behind (octet_bits ++ server_bits_of) unused (8 + s.server_id_bits)
            (omega (arith, length-append octet_bits server_bits_of))
            (omega (arith, v.server_bits, v.core_bits)) in
        let server_written : write_bits (B.view_bits (s.first_octet ∷ replicate 19 0)) 8
              server_bits_of
            ≡ (octet_bits ++ server_bits_of) ++ unused =
          ap (λ t. write_bits t 8 server_bits_of) plain
          ∙ write_bits_behind 8 octet_bits zeros server_bits_of octet_length
          ∙ sym (append_assoc octet_bits server_bits_of unused) in
        let in_order : (octet_bits ++ server_bits_of) ++ (core_bits_of ++ rest)
            ≡ routing_bits ++ rest =
          sym (append_assoc (octet_bits ++ server_bits_of) core_bits_of rest)
          ∙ ap (λ t. t ++ rest) (append_assoc octet_bits server_bits_of core_bits_of) in
        (
          rest,
          ap (λ t. write_core B s t (8 + s.server_id_bits)) server_written
              ∙ e
              ∙ ap (λ t. (t, routing_offset)) in_order,
          omega arith,
        )
