-- ===== src/Sync/Mpsc.antt =====
-- aquic-core/src/sync/mpsc: the channels with many senders and one receiver.
pub mod Unbounded
pub mod Rpc
pub mod Weighted
