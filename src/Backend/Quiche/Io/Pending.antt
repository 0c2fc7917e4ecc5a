-- ===== src/Backend/Quiche/Io/Pending.antt =====
-- What `write_pending` of aquic-core/src/backend/quiche/io.rs hands out.
use aquic.Base.{
  ℕ, zero, suc, ◌+◌, ◌<◌, ◌≡◌, refl, sym, ap, subst, Bool, true, false, some, List, [], ◌++◌, arith,
  if◌then◌else◌, length, Outcome, done, ◌>>=◌,
}
use aquic.Net.Types.{SendMsg}
use aquic.Backend.Quiche.Io.{
  QuicApi, Batch, Turn, goes_on, breaks, errs, quantum, round, may_write, finish_pending, Written,
  ended, failed, continue, write_rounds, write_pending,
}
use aquic.Backend.Quiche.Io.Packets.{Packet, Carries, nothing}
use aquic.Backend.Quiche.Io.Batching.{Holds}
use aquic.Backend.Quiche.Io.Loop.{
  IsQuic, Sends, starts, Stops, unasked, finish_lem, After, round_lem,
}

module _ (Q : QuicApi) where
  -- The messages carry all packets, or, behind an error of the connection, the first ones of them.
  abbrev pub IsWritten : List SendMsg → List Packet → Written Q.Error → Type 0
  IsWritten before ps (ended w out) = Carries before out ps
  IsWritten before ps (failed e out) =
      (shipped : List Packet) × (lost : List Packet) × (ps ≡ shipped ++ lost)
      × Carries before out shipped

  abbrev pub Wrote : Q.Connection → List SendMsg → Outcome (Q.Connection × Written Q.Error) → Type 0
  Wrote c0 before o =
      (c' : Q.Connection) × (r : Written Q.Error) × (o ≡ done (c', r))
      × ((ps : List Packet) × (c1 : Q.Connection) × Sends Q c0 ps c1
          × Stops Q c1 c'
          × IsWritten before ps r)

  turn_lem :
      (debug : Bool) (c0 : Q.Connection) (before : List SendMsg) (rest : List ℕ)
      (next : Q.Connection → Batch → Outcome (Q.Connection × Written Q.Error))
      (t : Q.Connection × Batch × Turn Q.Error)
      → ((c : Q.Connection) (s : Batch) (ps : List Packet) (rest' : List ℕ)
          → Sends Q c0 ps c
          → Holds before s ps rest'
          → length rest' < length rest
          → Wrote c0 before (next c s))
      → After Q c0 before rest t
      → Wrote c0 before (continue Q next debug t)
  turn_lem debug c0 before rest next (c, s, goes_on) later (ps, rest', trace, h, less) =
      later c s ps rest' trace h less
  turn_lem debug c0 before rest next (c, s, breaks w) later (ps, c1, trace, stops, h) =
      let (out, e, carries) = finish_lem debug before s ps rest h in
      (
        c,
        ended w out,
        ap (λ o. o >>= (λ out. done (c, ended w out))) e,
        (ps, c1, trace, stops, carries),
      )
  turn_lem debug c0 before rest next (c, s, errs e) later (ps, c1, trace, stops, h) =
      (c, failed e s.out, refl, (ps, c1, trace, stops, (h.shipped, h.pending, h.split, h.carries)))

  rounds_lem :
      (fuel : ℕ) (debug : Bool) (now : ℕ) (q : IsQuic Q) (c0 c : Q.Connection)
      (before : List SendMsg) (s : Batch) (ps : List Packet) (rest : List ℕ)
      → Sends Q c0 ps c
      → Holds before s ps rest
      → length rest < fuel
      → Wrote c0 before (write_rounds Q fuel debug now c s)
  unfolding write_rounds
  rounds_lem zero debug now q c0 c before s ps rest trace h enough = absurd (omega arith)
  rounds_lem (suc fuel) debug now q c0 c before s ps rest trace h enough =
      by_quantum (may_write s.path) (λ c s ps rest' trace h less.
        rounds_lem fuel debug now q c0 c before s ps rest' trace h (omega (arith, less, enough)))
    where
      by_quantum :
          (b : Bool)
          → ((c : Q.Connection) (s : Batch) (ps : List Packet) (rest' : List ℕ)
              → Sends Q c0 ps c
              → Holds before s ps rest'
              → length rest' < length rest
              → Wrote c0 before (write_rounds Q fuel debug now c s))
          → Wrote c0 before (
              if b
              then (round Q debug now c s >>= continue Q (write_rounds Q fuel debug now) debug)
              else (finish_pending debug s >>= (λ out. done (c, ended quantum out))))
      by_quantum true later =
          let (t, e, a) = round_lem Q debug now q c0 c before s ps rest trace h in
          subst (λ o. Wrote c0 before (o >>= continue Q (write_rounds Q fuel debug now) debug))
            (sym e) (turn_lem debug c0 before rest (write_rounds Q fuel debug now) t later a)
      by_quantum false later =
          let (out, e, carries) = finish_lem debug before s ps rest h in
          (
            c,
            ended quantum out,
            ap (λ o. o >>= (λ out. done (c, ended quantum out))) e,
            (ps, c, trace, unasked, carries),
          )

  -- `write_pending` neither panics nor runs out of fuel, with any reservation. The messages that it adds
  -- carry the packets that the connection wrote, each of them, in order and unchanged; the segments of a
  -- message are equally long and have its addresses. Only if the connection fails, the last packets,
  -- which are in no message yet, are lost.
  pub write_pending_lem :
      (debug : Bool) (now : ℕ) (c : Q.Connection) (reserve : List ℕ) (before : List SendMsg)
      → IsQuic Q
      → Wrote c before (write_pending Q debug now c (some reserve) before)
  unfolding write_pending
  write_pending_lem debug now c reserve before q =
      rounds_lem (length reserve + 2) debug now q c c before _ [] reserve starts
        (record {
          shipped = [];
          pending = [];
          split = refl;
          carries = nothing;
          filled = refl;
          offset = refl;
          count = refl;
          segments = refl;
        })
        (omega arith)
