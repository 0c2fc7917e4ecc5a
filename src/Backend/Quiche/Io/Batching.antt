-- ===== src/Backend/Quiche/Io/Batching.antt =====
-- A round of `write_pending` of aquic-core/src/backend/quiche/io.rs.
use aquic.Base.{
  ℕ, ◌+◌, ◌≡◌, refl, sym, ap, ◌∙◌, subst, Bool, true, false, not, ◌&&◌, Option, none, some, List,
  [], ◌∷◌, ◌++◌, arith, ◌==◌, if◌then◌else◌, ==_iff, length, All, length-append, Outcome, done,
  panic, ◌>>=◌,
}
use mathlib.Core.List.{append-nil, append_assoc}
use aquic.Net.Types.{SendMsg}
use aquic.Backend.Quiche.Io.{
  QuicApi, SendPath, Batch, goes_on, activate, new_path, start_message, place_packet,
}
use aquic.Backend.Quiche.Io.Packets.{Packet, bytes_of, bytes_of-snoc, IsPacket, Carries}
use aquic.Backend.Quiche.Io.Commits.{IsOn, AreSegments, commit_lem}

abbrev pub ArePending : Option SendPath → ℕ → List Packet → Type 0
ArePending none size qs = qs ≡ []
ArePending (some p) size qs = AreSegments p size qs

-- The packets so far are carried by messages, but for those of the message that is not committed: these
-- stand at the start of the reservation, in front of the room that is left.
pub record Holds (before : List SendMsg) (s : Batch) (ps : List Packet) (rest : List ℕ)
    : Type 0 where
  pub shipped : List Packet
  pub pending : List Packet
  pub split : ps ≡ shipped ++ pending
  pub carries : Carries before s.out shipped
  pub filled : s.reserve ≡ bytes_of pending ++ rest
  pub offset : s.reserve_offset ≡ length (bytes_of pending)
  pub count : s.segment_count ≡ length pending
  pub segments : ArePending s.path s.segment_size pending

All-snoc :
    {A : Type 0} (P : A → Type 0) (xs : List A) (x : A) → All P xs → P x → All P (xs ++ x ∷ [])
All-snoc P [] x h p = (p, tt)
All-snoc P (y ∷ xs) x h p = (h.0, All-snoc P xs x h.1 p)

-- The packet is the only one of its message.
activate-Holds :
    (before : List SendMsg) (s : Batch) (p : SendPath) (q : Packet) (shipped : List Packet)
    (rest : List ℕ)
    → IsOn p q
    → IsPacket q
    → Carries before s.out shipped
    → s.reserve ≡ q.bytes ++ rest
    → s.reserve_offset ≡ length q.bytes
    → Holds before (activate (length q.bytes) (some p) s) (shipped ++ q ∷ []) rest
activate-Holds before s p q shipped rest on valid c filled offset = record {
  shipped = shipped;
  pending = q ∷ [];
  split = refl;
  carries = c;
  filled = filled ∙ ap (λ bytes. bytes ++ rest) (sym (append-nil q.bytes));
  offset = offset ∙ ap length (sym (append-nil q.bytes));
  count = refl;
  segments = record { sized = (refl, tt); on_path = (on, tt); packets = (valid, tt) };
}

module _ (Q : QuicApi) where
  -- The packet stands behind the others, but is not counted yet.
  start_lem :
      (debug same : Bool) (c : Q.Connection) (before : List SendMsg) (p : SendPath) (s : Batch)
      (q : Packet) (shipped pending : List Packet) (rest : List ℕ)
      → IsPacket q
      → (same ≡ true → IsOn p q)
      → Carries before s.out shipped
      → AreSegments p s.segment_size pending
      → s.reserve ≡ bytes_of pending ++ (q.bytes ++ rest)
      → s.reserve_offset ≡ length (bytes_of pending) + length q.bytes
      → s.segment_count ≡ length pending
      → (s' : Batch) × (start_message Q debug c (length q.bytes) q.from q.to p same s
          ≡ done (c, s', goes_on))
        × Holds before s' ((shipped ++ pending) ++ q ∷ []) rest
  unfolding start_message
  start_lem debug same c before p s q shipped pending rest valid sound carries a filled offset
        count =
      let (s', e, filled', offset', ship) =
        commit_lem debug p s pending (q.bytes ++ rest) (length q.bytes) a filled offset count in
      let path' = if same then p else new_path Q c q.from q.to (length q.bytes) in
      (
        activate (length q.bytes) (some path') s',
        ap
              (λ o. o >>= (λ x.
                if debug && not (x.reserve_offset == length q.bytes)
                then panic
                else done (c, activate (length q.bytes) (some path') x, goes_on)))
              e
            ∙ passes debug (s'.reserve_offset == length q.bytes)
                ((==_iff s'.reserve_offset (length q.bytes)).1 offset'),
        activate-Holds before s' path' q (shipped ++ pending) rest (on same sound) valid
            (ship before shipped carries) filled' offset',
      )
    where
      passes :
          {A : Type 0} {o : Outcome A} (d b : Bool)
          → b ≡ true
          → (if d && not b then panic else o) ≡ o
      passes true b h = rw h refl
      passes false b h = refl

      on :
          (same : Bool)
          → (same ≡ true → IsOn p q)
          → IsOn (if same then p else new_path Q c q.from q.to (length q.bytes)) q
      on true sound = sound refl
      on false sound = (refl, refl)

  pub place_lem :
      (debug same first equal : Bool) (c : Q.Connection) (before : List SendMsg) (p : SendPath)
      (s : Batch) (q : Packet) (shipped pending : List Packet) (rest : List ℕ)
      → IsPacket q
      → (same ≡ true → IsOn p q)
      → (first ≡ true → s.segment_count ≡ 0)
      → (equal ≡ true → s.segment_size ≡ length q.bytes)
      → s.path ≡ some p
      → Carries before s.out shipped
      → AreSegments p s.segment_size pending
      → s.reserve ≡ bytes_of pending ++ (q.bytes ++ rest)
      → s.reserve_offset ≡ length (bytes_of pending) + length q.bytes
      → s.segment_count ≡ length pending
      → (s' : Batch) × (place_packet Q debug c (length q.bytes) q.from q.to p same first equal s
          ≡ done (c, s', goes_on))
        × Holds before s' ((shipped ++ pending) ++ q ∷ []) rest
  unfolding place_packet
  place_lem debug true true equal c before p s q shipped [] rest valid on none_yet same_size path
        carries a filled offset count =
      (
        _,
        refl,
        subst (λ ps. Holds before (activate (length q.bytes) (some p) s) (ps ++ q ∷ []) rest)
            (sym (append-nil shipped))
            (activate-Holds before s p q shipped rest (on refl) valid carries filled
              (omega (arith, offset))),
      )
  place_lem debug true true equal c before p s q shipped (x ∷ pending) rest valid on none_yet
        same_size path carries a filled offset count =
      absurd (omega (arith, none_yet refl, count))
  place_lem debug true false true c before p s q shipped pending rest valid on none_yet same_size
        path carries a filled offset count =
      (
        _,
        refl,
        record {
          shipped = shipped;
          pending = pending ++ q ∷ [];
          split = append_assoc shipped pending (q ∷ []);
          carries = carries;
          filled =
              filled
              ∙ sym (append_assoc (bytes_of pending) q.bytes rest)
              ∙ ap (λ bytes. bytes ++ rest) (sym (bytes_of-snoc pending q));
          offset =
              offset
              ∙ sym (length-append (bytes_of pending) q.bytes)
              ∙ ap length (sym (bytes_of-snoc pending q));
          count = omega (arith, count, length-append pending (q ∷ []));
          segments =
              subst (λ o. ArePending o s.segment_size (pending ++ q ∷ [])) (sym path)
                (record {
                  sized = All-snoc _ pending q a.sized (sym (same_size refl));
                  on_path = All-snoc (IsOn p) pending q a.on_path (on refl);
                  packets = All-snoc IsPacket pending q a.packets valid;
                });
        },
      )
  place_lem debug true false false c before p s q shipped pending rest valid on none_yet same_size
        path carries a filled offset count =
      start_lem debug true c before p s q shipped pending rest valid on carries a filled offset
        count
  place_lem debug false first equal c before p s q shipped pending rest valid on none_yet same_size
        path carries a filled offset count =
      start_lem debug false c before p s q shipped pending rest valid on carries a filled offset
        count
