-- ===== src/Tasking.antt =====
-- Tasks, src/tasking.h and src/tasking.cc.
pub mod Pools
pub mod Store
pub mod Allocation
pub mod Waiting
pub mod Region
pub mod Victims
