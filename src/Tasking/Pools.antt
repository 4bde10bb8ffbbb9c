-- ===== src/Tasking/Pools.antt =====
-- The task pools of src/tasking.cc. Each operation runs under the pool's lock, so it is a function
-- of the pool. A task pointer is a number, and `none` is the null pointer. The deque pool is the
-- one that the source selects.
pub mod Spec
pub mod Simulation
pub mod Deque
pub mod Array
pub mod Linked
pub mod Restricted
