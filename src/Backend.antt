-- ===== src/Backend.antt =====
-- aquic-core/src/backend: what the backends have in common, and parts of the one over quiche.
pub mod Cid
pub mod Token
pub mod Error
pub mod Quiche
