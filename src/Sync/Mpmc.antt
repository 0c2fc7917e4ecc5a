-- ===== src/Sync/Mpmc.antt =====
-- aquic-core/src/sync/mpmc: the channels with many senders and many receivers.
pub mod Oneshot
pub mod Watch
