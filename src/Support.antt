-- ===== src/Support.antt =====
-- What the other parts use: envirables, src/environment.cc, logarithms, src/barrier_impl.cc, random
-- numbers, src/mlfsr32.h, and the passing on of arguments, src/threads.cc.
pub mod Environment
pub mod Logarithm
pub mod Random
pub mod Arguments
