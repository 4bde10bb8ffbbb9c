-- ===== src/Sync.antt =====
-- Synchronisation: the locks of src/locks.cc, the `single` construct and the reductions of src/threads.h and
-- src/threads.cc, and the atomic updates of src/atomics.cc.
pub mod Ttas
pub mod Mcs
pub mod Mutex
pub mod Single
pub mod Kinds
pub mod Reduction
pub mod Atomics
pub mod Critical
pub mod Speculative
