-- ===== src/Examples.antt =====
-- Runs of the definitions on small inputs, and the theorems at inputs that meet their hypotheses.
mod Loops
mod Sharing
mod Tasking
mod Stealing
mod Sync
mod Support
mod Barriers
mod Trees
mod Locks
mod Waiting
mod Atomics
mod Descriptors
mod Reductions
