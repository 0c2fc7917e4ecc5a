-- ===== src/Stream.antt =====
-- aquic-core/src/stream: the identifiers of streams, what streams carry, and the tasks that carry it.
pub mod Id
pub mod Types
pub mod Bridge
pub mod Endings
pub mod Incoming
pub mod Outgoing
