-- ===== src/Sync.antt =====
-- include/synchronization/: the queue and the latch that threads wait on.
pub mod Queue
pub mod Latch
