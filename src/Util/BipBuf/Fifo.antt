-- ===== src/Util/BipBuf/Fifo.antt =====
-- Commits as a queue with release marks, which `try_commit` and `decommit` of
-- aquic-core/src/util/bipbuf.rs implement.
pub mod Queue
pub mod Marks
pub mod Drain
pub mod Release
pub mod Numbers
pub mod Fresh
pub mod Append
pub mod Safety
