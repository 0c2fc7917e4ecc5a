-- ===== src/Util.antt =====
-- aquic-core/src/util: buffers, timers, random bytes and wrappers of cryptography.
pub mod Aead
pub mod Hmac
pub mod Random
pub mod BipBuf
pub mod Timer
