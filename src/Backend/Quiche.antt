-- ===== src/Backend/Quiche.antt =====
-- aquic-core/src/backend/quiche: the backend over the library quiche.
pub mod Io
