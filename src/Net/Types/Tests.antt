-- ===== src/Net/Types/Tests.antt =====
-- Tests of the iterator over received messages.
use aquic.Base.{◌≡◌, true, false, none, some, [], ◌∷◌, arith, replicate, take, done, panic}
use aquic.Backend.Token.Padded.{v4}
use aquic.Net.Types.{n_ect, RecvMsg, Packet, new, peek}
use aquic.Net.Types.Peek.{first_size, peek_lem}

-- Two segments of two bytes.
abbrev two_segments : RecvMsg
two_segments = record {
  buf = 1 ∷ 2 ∷ 3 ∷ 4 ∷ 0 ∷ [];
  read = 4;
  from = record { ip = v4 (replicate 4 1); port = 443; flowinfo = 0; scope_id = 0 };
  to = v4 (replicate 4 2);
  ecn = n_ect;
  segment_count = 2;
  timestamp = none;
}

abbrev first_packet : Packet
first_packet = record {
  from = two_segments.from;
  to = two_segments.to;
  ecn = n_ect;
  timestamp = none;
  payload = take (first_size two_segments) two_segments.buf;
}

peek_lem_example :
    (peek false (new (two_segments ∷ [])) ≡ done (new (two_segments ∷ []), some first_packet))
    × (peek true (new (two_segments ∷ [])) ≡ panic)
peek_lem_example = peek_lem two_segments [] (omega arith) (omega arith)
