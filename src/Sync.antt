-- ===== src/Sync.antt =====
-- aquic-core/src/sync: the channels between the tasks of a connection, in their single-threaded form.
pub mod Event
pub mod Mpmc
pub mod Mpsc
pub mod Stream
pub mod Dgram
