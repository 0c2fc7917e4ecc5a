-- ===== src/Backend/Cid/Server/Generator.antt =====
-- aquic-core/src/backend/cid/server.rs: `ServerConnectionIdGenerator`.
use aquic.Base.{
  ℕ, ◌+◌, ◌-◌, ◌*◌, min, Bool, true, false, not, ◌&&◌, Option, none, some, List, [], ◌∷◌, ltb, leb,
  ◌==◌, if◌then◌else◌, length, replicate, take, drop, Outcome, done, panic, ◌>>=◌,
}
use aquic.Backend.Cid.{ConnectionId, max_cid_len, as_slice, copy_from_slice, try_from_slice}
use aquic.Backend.Cid.Server.{
  Crates, Parsed, parsed, id_error, write_bits, div_ceil, encrypt_four_pass, decrypt_four_pass,
}
use aquic.Util.Random.{fill_bytes}

module _ (B : Crates) where
  pub record ServerConnectionIdGenerator : Type 0 where
    pub first_octet : ℕ
    pub server_id : ℕ
    pub server_id_bits : ℕ
    pub core_id : ℕ
    pub core_id_bits : ℕ
    pub entropy_bits : ℕ
    pub cipher : B.Key

  unfoldable pub new : B.Key → ℕ → ℕ → ℕ → ℕ → ℕ → ℕ → Outcome ServerConnectionIdGenerator
  new key first_octet server_id core_id server_id_bits core_id_bits entropy_bits =
      if not (leb 8 server_id_bits && leb server_id_bits 32)
      then panic
      else if not (leb core_id_bits 16)
      then panic
      else if not (leb 32 entropy_bits)
      then panic
      else done (record {
        first_octet = first_octet;
        server_id = server_id;
        server_id_bits = server_id_bits;
        core_id = core_id;
        core_id_bits = core_id_bits;
        entropy_bits = entropy_bits;
        cipher = key;
      })

  -- `random_bits`, of whole random bytes cut to the length
  abbrev pub random_bits : ℕ → (ℕ → ℕ) → List Bool
  random_bits bits_len random_bytes =
      take bits_len (B.view_bits (fill_bytes (div_ceil bits_len) random_bytes))

  -- The core ID written at the offset, if it is used, with the offset behind it.
  unfoldable pub write_core : ServerConnectionIdGenerator → List Bool → ℕ → List Bool × ℕ
  unfolding write_bits
  write_core s plaintext offset =
      if not (s.core_id_bits == 0)
      then (
        write_bits plaintext offset (B.store_be s.core_id_bits s.core_id),
        offset + s.core_id_bits,
      )
      else (plaintext, offset)

  -- The plaintext and the offset behind the server and the core.
  unfoldable pub write_ids : ServerConnectionIdGenerator → List Bool × ℕ
  unfolding write_core
  write_ids s =
      let plaintext = B.view_bits (s.first_octet ∷ replicate (max_cid_len - 1) 0) in
      write_core s (write_bits plaintext 8 (B.store_be s.server_id_bits s.server_id))
        (8 + s.server_id_bits)

  -- The part of `build_cid` behind them.
  unfoldable pub write_entropy :
      ServerConnectionIdGenerator → (ℕ → ℕ) → List Bool × ℕ → Outcome ConnectionId
  unfolding write_bits
  write_entropy s random_bytes (plaintext, offset) =
      let entropy_bits = min (max_cid_len * 8 - offset) s.entropy_bits in
      if ltb entropy_bits 32
      then panic
      else elim (try_from_slice (
          take (div_ceil (offset + entropy_bits))
            (B.bytes_of (write_bits plaintext offset (random_bits entropy_bits random_bytes))))) [
              | none ↦ panic
              | some cid ↦ done cid
            ]

  unfoldable pub build_cid : ServerConnectionIdGenerator → (ℕ → ℕ) → Outcome ConnectionId
  unfolding write_ids write_entropy
  build_cid s random_bytes = write_entropy s random_bytes (write_ids s)

  -- `&mut cid.as_mut_slice()[1..]` through one function or the other; an empty slice has no byte 1.
  unfoldable pub change_tail :
      (List ℕ → List ℕ) → (List ℕ → List ℕ) → ConnectionId → Outcome ConnectionId
  change_tail on_block on_others cid = elim (as_slice cid) [
    | [] ↦ panic
    | first ∷ tail ↦
        let tail' = if cid.len == 17 then on_block tail else on_others tail in
        done (record { array = copy_from_slice cid.array (first ∷ tail'); len = cid.len })
  ]

  unfoldable pub generate : ServerConnectionIdGenerator → (ℕ → ℕ) → Outcome ConnectionId
  unfolding build_cid change_tail encrypt_four_pass
  generate s random_bytes = (do
    cid ← build_cid s random_bytes
    change_tail (B.encrypt_block s.cipher) (encrypt_four_pass B s.cipher) cid)

  unfoldable pub cid_len : ServerConnectionIdGenerator → ℕ
  cid_len s = min (div_ceil (s.server_id_bits + s.core_id_bits + s.entropy_bits)) max_cid_len

  unfoldable pub decrypt : ServerConnectionIdGenerator → ConnectionId → Outcome ConnectionId
  unfolding change_tail decrypt_four_pass
  decrypt s cid = change_tail (B.decrypt_block s.cipher) (decrypt_four_pass B s.cipher) cid

  unfoldable pub parse_bits : ServerConnectionIdGenerator → ConnectionId → List Bool → Parsed
  parse_bits s cid plaintext =
      if ltb (length plaintext) (s.server_id_bits + s.core_id_bits)
      then id_error cid
      else parsed (record {
        server_id = B.load_be (take s.server_id_bits plaintext);
        core_id =
            if ltb 0 s.core_id_bits
            then some (B.load_be (take s.core_id_bits (drop s.server_id_bits plaintext)))
            else none;
      })

  unfoldable pub parse : ServerConnectionIdGenerator → ConnectionId → Parsed
  unfolding parse_bits
  parse s cid =
      if cid.len == 0 then id_error cid else parse_bits s cid (B.view_bits (drop 1 (as_slice cid)))

  -- `meta.core_id != Some(self.core_id)`, negated
  abbrev pub is_core : ℕ → Option ℕ → Bool
  is_core core_id none = false
  is_core core_id (some id) = id == core_id

  abbrev pub validate_meta : ServerConnectionIdGenerator → Parsed → Bool
  validate_meta s (parsed meta) =
      if not (meta.server_id == s.server_id)
      then false
      else if not (s.core_id_bits == 0) && not (is_core s.core_id meta.core_id)
      then false
      else true
  validate_meta s (id_error cid) = false

  unfoldable pub validate : ServerConnectionIdGenerator → ConnectionId → Bool
  unfolding cid_len parse
  validate s cid = if not (cid_len s == cid.len) then false else validate_meta s (parse s cid)
