-- ===== src/Barriers.antt =====
-- Barriers, src/barriers.h and src/barrier_impl.cc.
pub mod Spec
pub mod Levels
pub mod UpDown
pub mod Dissemination
pub mod Central
pub mod AllToAll
pub mod FixedTree
pub mod Tree
