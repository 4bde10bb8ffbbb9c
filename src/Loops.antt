-- ===== src/Loops.antt =====
-- Loop scheduling, src/loops.h and src/loops.cc.
pub mod Kinds
pub mod Canonical
pub mod Static
pub mod Counter
pub mod Steal
pub mod Descriptor
pub mod Schedule
