-- ===== src/Backend/Cid/Server/Parse.antt =====
-- What a server parses of its own connection IDs, and which of them it accepts
-- (aquic-core/src/backend/cid/server.rs).
use mathlib.Core.List.{append_assoc}
use aquic.Base.{
  ℕ, suc, ◌+◌, ◌*◌, ◌≤◌, ◌<◌, min, ◌≡◌, refl, sym, ap, ◌∙◌, ◌≢◌, ◌⊎◌, inl, inr, Bool, true, false,
  none, some, List, [], ◌∷◌, ◌++◌, arith, ltb, ◌==◌, if◌then◌else◌, lt→ltb, le→ltb, ==_iff,
  ltb-cases, ==-cases, Bool-cases, length, take, drop, append_injective, done,
}
use aquic.Backend.Cid.{ConnectionId, max_cid_len, as_slice}
use aquic.Backend.Cid.Server.{Crates, IsCrates, ServerIdMeta, parsed, div_ceil}
use aquic.Backend.Cid.Server.Generator.{
  ServerConnectionIdGenerator, build_cid, generate, decrypt, cid_len, parse_bits, parse,
  validate_meta, validate,
}
use aquic.Backend.Cid.Server.Layout.{
  cid_of, as_slice-cid_of, IsGenerator, octet_bits, server_bits_of, core_bits_of, routing_bits,
  length-core_bits_of,
}
use aquic.Backend.Cid.Server.Routing.{
  AreBytes, fields, used_bits, build_cid-slice, decrypt-generate,
}

module _ (B : Crates) (s : ServerConnectionIdGenerator B) where
  -- The IDs of the generator itself.
  abbrev pub own_meta : ServerIdMeta
  own_meta = record {
    server_id = s.server_id;
    core_id = if ltb 0 s.core_id_bits then some s.core_id else none;
  }

  -- How many bits the length of a connection ID is computed from.
  abbrev pub counted_bits : ℕ
  counted_bits = s.server_id_bits + s.core_id_bits + s.entropy_bits

  validate_meta-own : validate_meta B s (parsed own_meta) ≡ true
  validate_meta-own = elim (==-cases s.core_id_bits 0) [
    | inl (e, none_used) ↦ simp (e, (==_iff s.server_id s.server_id).1 refl) refl
    | inr (e, used) ↦
        let some_used : ltb 0 s.core_id_bits ≡ true = lt→ltb _ _ (omega arith) in
        simp
          (
            e,
            some_used,
            (==_iff s.server_id s.server_id).1 refl,
            (==_iff s.core_id s.core_id).1 refl,
          )
          refl
  ]

  module _ (law : IsCrates B) (v : IsGenerator B s) where
    parse_core :
        (xs : List Bool)
        → take s.core_id_bits (drop s.server_id_bits xs) ≡ core_bits_of B s
        → (if ltb 0 s.core_id_bits
            then some (B.load_be (take s.core_id_bits (drop s.server_id_bits xs)))
            else none)
          ≡ own_meta.core_id
    parse_core xs h = elim (==-cases s.core_id_bits 0) [
      | inl (e, none_used) ↦
          let unused : ltb 0 s.core_id_bits ≡ false = le→ltb _ _ (omega arith) in simp unused refl
      | inr (e, used) ↦
          let in_use : ltb 0 s.core_id_bits ≡ true = lt→ltb _ _ (omega arith) in
          let written : core_bits_of B s ≡ B.store_be s.core_id_bits s.core_id = simp e refl in
          simp in_use (
            ap (λ t. some (B.load_be t)) (h ∙ written)
            ∙ ap (λ n. some n) (law.load_store s.core_id_bits s.core_id v.core))
    ]

    parse_bits-own :
        (cid : ConnectionId) (xs ys rest : List Bool)
        → xs ++ ys ≡ (server_bits_of B s ++ core_bits_of B s) ++ rest
        → s.server_id_bits + s.core_id_bits ≤ length xs
        → parse_bits B s cid xs ≡ parsed own_meta
    unfolding parse_bits
    parse_bits-own cid xs ys rest e h =
        let server_length = law.store_length s.server_id_bits s.server_id in
        let core_length = length-core_bits_of B s law in
        let (server, core) =
          fields xs ys (server_bits_of B s) (core_bits_of B s) rest
            (e ∙ append_assoc (server_bits_of B s) (core_bits_of B s) rest) (omega arith) in
        let server' : take s.server_id_bits xs ≡ server_bits_of B s =
          ap (λ n. take n xs) (sym server_length) ∙ server in
        let core' : take s.core_id_bits (drop s.server_id_bits xs) ≡ core_bits_of B s =
          ap (λ n. take n (drop s.server_id_bits xs)) (sym core_length)
          ∙ ap (λ n. take (length (core_bits_of B s)) (drop n xs)) (sym server_length)
          ∙ core in
        let enough : ltb (length xs) (s.server_id_bits + s.core_id_bits) ≡ false = le→ltb _ _ h in
        simp enough (
          ap
            (λ n. parsed (record {
              server_id = n;
              core_id =
                  if ltb 0 s.core_id_bits
                  then some (B.load_be (take s.core_id_bits (drop s.server_id_bits xs)))
                  else none;
            }))
            (ap B.load_be server' ∙ law.load_store s.server_id_bits s.server_id v.server)
          ∙ ap (λ c. parsed (record { server_id = s.server_id; core_id = c }))
              (parse_core xs core'))

    parse-own :
        (first : ℕ) (tail : List ℕ) (unused rest : List Bool)
        → suc (length tail) ≤ max_cid_len
        → s.server_id_bits + s.core_id_bits ≤ 8 * length tail
        → B.view_bits (first ∷ tail) ++ unused ≡ routing_bits B s ++ rest
        → parse B s (cid_of (first ∷ tail)) ≡ parsed own_meta
    unfolding parse
    parse-own first tail unused rest h room e =
        let octet = B.view_bits (first ∷ []) in
        let octets_length : length octet ≡ length (octet_bits B s) =
          law.view_length (first ∷ []) ∙ sym (law.view_length (s.first_octet ∷ [])) in
        let apart : octet ++ (B.view_bits tail ++ unused)
            ≡ octet_bits B s ++ ((server_bits_of B s ++ core_bits_of B s) ++ rest) =
          sym (append_assoc octet (B.view_bits tail) unused)
          ∙ ap (λ t. t ++ unused) (sym (law.view_append (first ∷ []) tail))
          ∙ e
          ∙ append_assoc (octet_bits B s) (server_bits_of B s ++ core_bits_of B s) rest in
        let behind =
          (append_injective octet (octet_bits B s) (B.view_bits tail ++ unused)
            ((server_bits_of B s ++ core_bits_of B s) ++ rest) octets_length apart).1 in
        let slice : drop 1 (as_slice (cid_of (first ∷ tail))) ≡ tail =
          ap (drop 1) (as_slice-cid_of (first ∷ tail) h) in
        let nonempty : (suc (length tail) == 0) ≡ false = ground arith in
        simp nonempty (
          ap (λ t. parse_bits B s (cid_of (first ∷ tail)) (B.view_bits t)) slice
          ∙ parse_bits-own (cid_of (first ∷ tail)) (B.view_bits tail) unused rest behind
              (omega (arith, law.view_length tail)))

    -- A generator whose IDs fit in the bits that `new` admits builds, encrypts and decrypts a connection
    -- ID, of which it parses its own server ID and, if it has bits for one, its own core ID. The
    -- connection ID is as long as the first octet and the counted bits need, at most `MAX_CID_LEN` bytes.
    pub routing_lem :
        (random_bytes : ℕ → ℕ)
        → (plain : ConnectionId) × (hidden : ConnectionId) × (build_cid B s random_bytes
            ≡ done plain)
          × (generate B s random_bytes ≡ done hidden)
          × (decrypt B s hidden ≡ done plain)
          × (parse B s plain ≡ parsed own_meta)
          × (plain.len ≡ min (div_ceil (8 + counted_bits)) max_cid_len)
          × (hidden.len ≡ plain.len)
    routing_lem random_bytes =
        let (slice, unused, rest, built, bytes, count, viewed) =
          build_cid-slice B law s random_bytes v in
        of_slice slice unused rest built bytes count viewed
      where
        of_slice :
            (slice : List ℕ) (unused rest : List Bool)
            → build_cid B s random_bytes ≡ done (cid_of slice)
            → AreBytes slice
            → length slice ≡ div_ceil (used_bits B law s random_bytes)
            → B.view_bits slice ++ unused ≡ routing_bits B s ++ rest
            → (plain : ConnectionId) × (hidden : ConnectionId) × (build_cid B s random_bytes
                ≡ done plain)
              × (generate B s random_bytes ≡ done hidden)
              × (decrypt B s hidden ≡ done plain)
              × (parse B s plain ≡ parsed own_meta)
              × (plain.len ≡ min (div_ceil (8 + counted_bits)) max_cid_len)
              × (hidden.len ≡ plain.len)
        of_slice [] unused rest built bytes count viewed = absurd (omega arith)
        of_slice (first ∷ tail) unused rest built bytes count viewed =
            let (hidden, made, back, same) =
              decrypt-generate B law s random_bytes first tail bytes (omega arith) built in
            (
              cid_of (first ∷ tail),
              cid_of (first ∷ hidden),
              built,
              made,
              back,
              parse-own first tail unused rest (omega arith)
                  (omega (arith, v.server_bits, v.core_bits, v.entropy)) viewed,
              omega (arith, count),
              ap suc same,
            )

    validate-parsed :
        (cid : ConnectionId)
        → parse B s cid ≡ parsed own_meta
        → validate B s cid ≡ (cid_len B s == cid.len)
    unfolding validate
    validate-parsed cid h = elim (Bool-cases (cid_len B s == cid.len)) [
      | inl e ↦ rw (e, h) validate_meta-own
      | inr e ↦ rw e refl
    ]

    validate-other_len : (cid : ConnectionId) → cid_len B s ≢ cid.len → validate B s cid ≡ false
    unfolding validate
    validate-other_len cid h = elim (==-cases (cid_len B s) cid.len) [
      | inl (e, same) ↦ absurd (h same)
      | inr (e, other) ↦ rw e refl
    ]

    -- If at most 152 bits are counted, a connection ID that was generated is one byte longer than
    -- `cid_len`, and `validate` rejects it, encrypted or decrypted. If more are counted, the lengths agree
    -- and it accepts the decrypted one.
    pub own_rejected_lem :
        (random_bytes : ℕ → ℕ)
        → (plain : ConnectionId) × (hidden : ConnectionId) × (generate B s random_bytes
            ≡ done hidden)
          × (decrypt B s hidden ≡ done plain)
          × ((counted_bits ≤ 152
                × (hidden.len ≡ suc (cid_len B s))
                × (validate B s hidden ≡ false)
                × (validate B s plain ≡ false))
              ⊎ (152 < counted_bits × (hidden.len ≡ cid_len B s) × (validate B s plain ≡ true)))
    unfolding cid_len
    own_rejected_lem random_bytes =
        let (plain, hidden, built, made, back, own, count, same) = routing_lem random_bytes in
        (
          plain,
          hidden,
          made,
          back,
          elim (ltb-cases 152 counted_bits) [
            | inl (e, many) ↦
                let lens : cid_len B s ≡ plain.len = omega arith in
                inr (
                  many,
                  omega arith,
                  validate-parsed plain own ∙ (==_iff (cid_len B s) plain.len).1 lens,
                )
            | inr (e, few) ↦ inl (
              few,
              omega arith,
              validate-other_len hidden (λ lens. omega arith),
              validate-other_len plain (λ lens. omega arith),
            )
          ],
        )
