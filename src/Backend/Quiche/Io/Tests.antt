-- ===== src/Backend/Quiche/Io/Tests.antt =====
-- Runs of `write_pending` (aquic-core/src/backend/quiche/io.rs).
use aquic.Base.{
  ℕ, zero, suc, ◌≤◌, ◌≡◌, refl, subst, Bool, true, false, none, some, List, [], ◌∷◌, arith, ltb,
  ◌==◌, if◌then◌else◌, length, replicate, done,
}
use aquic.Backend.Token.Padded.{v4}
use aquic.Net.Types.{SocketAddr, n_ect, all_zero, unspecified, same_family, new_send_msg}
use aquic.Backend.Quiche.Io.{
  QuicApi, SendAnswer, wrote, nothing_left, buffer_too_short, fails, complete, ended, write_pending,
}
use aquic.Backend.Quiche.Io.Loop.{IsQuic}
use aquic.Backend.Quiche.Io.Pending.{Wrote, write_pending_lem}

abbrev here : SocketAddr
here = record { ip = v4 (10 ∷ 0 ∷ 0 ∷ 1 ∷ []); port = 443; flowinfo = 0; scope_id = 0 }

abbrev there : SocketAddr
there = record { ip = v4 (10 ∷ 0 ∷ 0 ∷ 2 ∷ []); port = 5000; flowinfo = 0; scope_id = 0 }

-- A connection that has some packets of two bytes, and a last one of one byte.
abbrev answer : ℕ → Bool → ℕ × SendAnswer (Unit {0})
answer zero short = (zero, nothing_left)
answer (suc n) true = (suc n, buffer_too_short)
answer (suc n) false = (n, wrote (if n == 0 then 9 ∷ [] else 7 ∷ 8 ∷ []) here there)

abbrev countdown : QuicApi
countdown = record {
  Connection = ℕ;
  Error = Unit {0};
  release_decision = λ c. none;
  send = λ c room. answer c (ltb room 2);
  send_quantum_on_path = λ c from to. 100;
}

abbrev IsAnswer : ℕ → ℕ × SendAnswer (Unit {0}) → Type 0
IsAnswer room (c, wrote bytes from to) =
    (length bytes ≤ room) × (unspecified to ≡ false) × (same_family from.ip to.ip ≡ true)
IsAnswer room (c, nothing_left) = Unit {0}
IsAnswer room (c, buffer_too_short) = Unit {0}
IsAnswer room (c, fails e) = Unit {0}

answer-IsAnswer : (c room : ℕ) → IsAnswer room (answer c (ltb room 2))
unfolding all_zero
answer-IsAnswer zero room = tt
answer-IsAnswer (suc n) room = by_room (ltb room 2) refl
  where
    short :
        (n : ℕ) (xs ys : List ℕ)
        → length xs ≤ 2
        → length ys ≤ 2
        → (b : Bool) → length (if b then xs else ys) ≤ 2
    short n xs ys x y true = x
    short n xs ys x y false = y

    by_room : (b : Bool) → ltb room 2 ≡ b → IsAnswer room (answer (suc n) b)
    by_room true e = tt
    by_room false e =
        let long : 2 ≤ room = long_enough room e in
        (
          omega (arith, long, short n (9 ∷ []) (7 ∷ 8 ∷ []) (omega arith) (omega arith) (n == 0)),
          refl,
          refl,
        )
      where
        long_enough : (room : ℕ) → ltb room 2 ≡ false → 2 ≤ room
        long_enough room e = ground arith

countdown-IsQuic : IsQuic countdown
countdown-IsQuic = record {
  fits = λ c c' room bytes from to e. (subst (IsAnswer room) e (answer-IsAnswer c room)).0;
  addressed = λ c c' room bytes from to e.
      let a = subst (IsAnswer room) e (answer-IsAnswer c room) in (a.1, a.2);
}

-- Two packets of two bytes make one message, and the last one another.
batches :
    write_pending countdown true 0 3 (some (replicate 10 0)) []
    ≡ done (
      0,
      ended complete (
          record {
            buf = 7 ∷ 8 ∷ 7 ∷ 8 ∷ [];
            from = here.ip;
            to = there;
            ecn = n_ect;
            segment_count = 2;
          }
          ∷ record { buf = 9 ∷ []; from = here.ip; to = there; ecn = n_ect; segment_count = 1 }
          ∷ []),
    )
unfolding write_pending new_send_msg
batches = refl

write_pending_lem_example :
    Wrote countdown 3 [] (write_pending countdown true 0 3 (some (replicate 10 0)) [])
write_pending_lem_example =
    write_pending_lem countdown true 0 3 (replicate 10 0) [] countdown-IsQuic
