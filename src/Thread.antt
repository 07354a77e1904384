-- ===== src/Thread.antt =====
-- `src/thread`: the lock that the library's own functions take.
pub mod Lock
