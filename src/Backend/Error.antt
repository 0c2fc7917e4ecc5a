-- ===== src/Backend/Error.antt =====
-- aquic-core/src/backend/error.rs: what a backend answers when it does not do what it was asked.
use aquic.Base.{ℕ}

pub data Error : Type 0 where
  closed illegal buffer_size unknown_connection unknown_stream streams_exhausted : Error
  stream_stop stream_reset : ℕ → Error
  dgram_disabled : Error
  other : ℕ → Error
