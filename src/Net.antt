-- ===== src/Net.antt =====
-- aquic-core/src/net: messages of sockets.
pub mod Types
