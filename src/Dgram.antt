-- ===== src/Dgram.antt =====
-- aquic-core/src/dgram: the tasks between a backend and an application that carry datagrams.
pub mod Bridge
pub mod Incoming
pub mod Outgoing
pub mod Ends
mod Tests
