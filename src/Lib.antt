-- ===== src/Lib.antt =====
-- A model of LOMP, the Little OpenMP Runtime: a runtime library that an OpenMP compiler's output
-- calls for its loops, tasks and synchronisation.
--
-- The parts and how they interact. A compiled parallel loop calls the entry points of
-- src/entrypoints.cc, which describe it as a canonical loop (src/loops.h). A static loop is then
-- asked for its bounds once (`forStaticInit`, src/loops.cc); for any other schedule the loop's
-- schedule is resolved against the scheduling variables of the team, and each thread asks for
-- chunks through a dispatch function, until there is none. Threads of a dynamic loop meet in a
-- counter that all share, or in the ranges that they steal from each other. A task is a descriptor
-- (src/tasking.h), counted where it is prepared and completed, kept in the pool of the thread that
-- created it, taken from there by its owner or by a thread that steals, and released with those of
-- its ancestors that only waited for it (src/tasking.cc). Critical regions and the OpenMP lock
-- routines use one of several kinds of locks (src/locks.cc), atomic updates the entry points of
-- src/atomics.cc. A team forks, joins and synchronises at one of several kinds of barriers
-- (src/barrier_impl.cc), and executes what tasks there are before it checks in.
--
-- Files and code:
--   Loops/Canonical  `class canonicalLoop` of src/loops.h.
--   Loops/Kinds      the numbers of the schedules, src/interface.h and include/omp.h.
--   Loops/Static     `forStaticInit`, `initializeBalanced`, `dispatchStatic` and
--                    `dispatchStaticChunked` of src/loops.cc.
--   Loops/Counter    `dispatchMonotonic` and `dispatchGuided` of src/loops.cc as steps.
--   Loops/Steal      `class contiguousWork` of src/loops.h and its use by `dispatchNonmonotonic`.
--   Loops/Descriptor `class dynamicLoop` of src/loops.h, its ring in a team and its use by
--                    `initDynamicLoop` of src/loops.cc, as steps.
--   Loops/Schedule   the table of schedules, the scheduling variables and how a loop's schedule is
--                    resolved, src/loops.cc.
--   Tasking/Pools    the four task pools of src/tasking.cc, Tasking/Pools/Spec what they promise.
--   Tasking/Store    task descriptors, their counters and their release, src/tasking.cc.
--   Tasking/Victims  whom a thread steals from and which task `ScheduleTask` chooses, src/tasking.cc.
--   Tasking/Allocation  the memory of a task, src/tasking.cc, as `__kmpc_omp_task_alloc` of
--                    src/entrypoints.cc asks for it.
--   Tasking/Region   the implicit tasks of src/threads.cc and `TaskExecutionBarrier` of
--                    src/tasking.cc, for a team that goes from barrier to barrier, as steps.
--   Tasking/Waiting  `TaskWait`, `TaskgroupBegin` and `TaskgroupEnd` of src/tasking.cc, among threads
--                    that create, execute and complete tasks.
--   Sync/Ttas        `class TTASLock` and `class TTASLockBO` of src/locks.cc as steps.
--   Sync/Mcs         `class MCSLock` of src/locks.cc as steps.
--   Sync/Mutex       the `try_lock` of the locks of src/locks.cc that wrap a mutex of the system.
--   Sync/Kinds       `InitializeLocks` of src/locks.cc.
--   Sync/Single      `__kmpc_single` of src/entrypoints.cc, with its counters of src/threads.h.
--   Sync/Reduction   the reductions of src/threads.cc.
--   Sync/Critical    `EnterCritical` and `LeaveCritical` of src/locks.cc as steps.
--   Sync/Speculative `class speculativeLock` of src/locks.cc as steps, with the hardware free to abort.
--   Sync/Atomics     the macros of src/atomics.cc that make the entry points for atomic updates, as
--                    steps of any number of calls on one target.
--   Barriers/Spec        what a barrier promises; Barriers/Levels the use of two counters in turn.
--   Barriers/UpDown      `class AtomicUpDownBarrier` of src/barrier_impl.cc as steps.
--   Barriers/Dissemination  `class DisseminationBarrier` of src/barrier_impl.cc as steps.
--   Barriers/AllToAll    `class AllToAllAtomicBarrier` of src/barrier_impl.cc as steps.
--   Barriers/Tree        the shape of the tree of `class fixedTreeCheckIn`, src/barrier_impl.cc.
--   Barriers/Central     `class centralizedBarrier` of src/barrier_impl.cc as steps, over an
--                        interface for its two template parameters: Central/Atomic and
--                        Central/Flags are its counters, Central/Naive and Central/Lines its
--                        broadcasts, Central/Kinds the barriers put together.
--   Barriers/FixedTree  `class fixedTreeCheckIn` of src/barrier_impl.cc under `class
--                        centralizedBarrier`, as steps, over an interface for its counters
--                        (FixedTree/Counters) and that of Barriers/Central for its broadcast.
--   Support/Environment  src/environment.cc.
--   Support/Logarithm    `power` and `ceilingLogN` of src/barrier_impl.cc.
--   Support/Random       `class mlfsr32` of src/mlfsr32.h.
--   Support/Arguments    the arguments that `InvocationInfo::runLLVM` of src/threads.cc passes on.
--   Prelude          numbers, tests, lists, even blocks and words, for all the others.
--   Examples         tests, and the theorems at inputs that meet their hypotheses.
--
-- Numbers. A value of a loop's type is the number of its bit pattern and arithmetic is written
-- modulo m = 2 ^ w, so one definition serves the signed and the unsigned instance of a template; a
-- theorem names the products that have to stay below m. The shares of guided loops and the chunk
-- numbers of cyclic ones wrap at 2 ^ 64. Counters of 64 bits that only count what exists are plain
-- numbers.
--
-- Threads. What several threads do to shared memory is a step relation: one step is one load, one
-- store or one compare-exchange of one thread, steps interleave in any order (sequential
-- consistency), and a weak compare-exchange may fail where the values agree. In Tasking/Waiting
-- and Tasking/Region the whole of `PrepareTask` and of `CompleteTask` is one step each, where the
-- code changes their counters one after the other. The number of threads is not bounded. Code
-- under a lock is a function of what the lock guards.
--
-- Barriers. A barrier's step relation carries a record of the barriers that each thread has come
-- to and left, and is compared with the relation of Barriers/Spec. Its counters of barriers wrap
-- at 2 ^ 32, as the code's do. The parameters of a centralized barrier keep to their interface by
-- the laws that Central/Atomic, Central/Flags, Central/Naive and Central/Lines prove of them; a
-- byte counter serves up to 64 threads, in a tree up to 64 children of one thread. What is
-- modelled of a barrier is its use from one full barrier to the next, which begins with check-ins;
-- the fork that ends a region's wait begins with a wake-up. The descriptors of dynamic loops form
-- a ring of 16; the numbers of their loops have 32 bits, and what is proved of them holds up to
-- the number that stands for a free descriptor.
--
-- Fuel. `free_task_and_ancestors` walks a chain of parents; its fuel is any number greater than
-- the length of the chain, and the theorems about it say so; where parents have lower numbers than
-- their children, two more than the number of the task are enough. Its result tells a fault from
-- the end of the fuel. The loop of `ceiling_log` has the value itself as fuel, which is enough
-- since the power grows in each round.
--
-- Not modelled: memory order weaker than sequential consistency; the compiler's entry points but
-- for those of `single` and of a task's allocation, which pass their arguments on; statistics,
-- tracing, messages and timing; NUMA and page handling; thread creation by the system; assembly
-- and target intrinsics; the micro-benchmarks, tests and scripts; the check-in of the dynamic tree
-- barrier and the choice of a barrier by name, what a stealing loop stores in its descriptor, and
-- its search over several ranges.
pub mod Prelude
pub mod Loops
pub mod Tasking
pub mod Sync
pub mod Barriers
pub mod Support
pub mod Examples
