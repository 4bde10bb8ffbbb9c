-- ===== src/Loops/Descriptor.antt =====
-- src/loops.h: the use of a descriptor, `class dynamicLoop`, by the threads of a team
-- (`isUninitialized`, `claim`, `completeInitialization`, `decrementUse`), with their caller
-- `initDynamicLoop` of src/loops.cc and `endDynamicLoop` of src/threads.h. A step is one access of
-- one thread to a descriptor, in any order. `DynamicLoopCount` and `Sequence` have 32 bits, and -1
-- stands for a free descriptor.
pub mod Phases
pub mod Moves
pub mod Changes
pub mod Steps
pub mod Owned
use lomp.Prelude.{
  ℕ, ◌+◌, ◌-◌, ◌%◌, ◌^◌, ◌<◌, ◌≡◌, ◌≢◌, Bool, true, false, Option, none, some, update, ◌==◌,
  if◌then◌else◌,
}

abbrev pub max_concurrent_loops : ℕ
max_concurrent_loops = 16

-- `waits` tells the loop that waits for the initialization from the first test.
pub data Pc : Type 0 where
  outside : Pc
  testing : (waits : Bool) → Pc  -- in `isUninitialized`, before the load of `Sequence`
  tested : (waits : Bool) → Pc  -- before the load of `RefCount`
  claiming : Pc
  initializing : Pc
  inside : Pc
  leaving : (descriptor : ℕ) → Pc  -- in `decrementUse`, which has brought `RefCount` to 0

-- `sequence` and `ref_count` are those of each descriptor of the team, `none` is the sequence -1.
-- `loop_count` is the `DynamicLoopCount` of each thread.
pub record Team : Type 0 where
  pub sequence : ℕ → Option ℕ
  pub ref_count : ℕ → ℕ
  pub loop_count : ℕ → ℕ
  pub pc : ℕ → Pc

abbrev pub new_team : Team
new_team = record {
  sequence = λ _. none;
  ref_count = λ _. 0;
  loop_count = λ _. 0;
  pc = λ _. outside;
}

abbrev pub loop_index : (count : ℕ) → ℕ
loop_index count = count % max_concurrent_loops

-- The 32 bits of a loop's number as the `Sequence` of a descriptor, where all bits set are -1.
unfoldable pub sequence_number : (count : ℕ) → Option ℕ
sequence_number count = if count == 2 ^ 32 - 1 then none else some count

-- Where a thread goes on that finds the descriptor not initialized.
abbrev pub uninitialized : (waits : Bool) → Pc
uninitialized true = testing true
uninitialized false = claiming

-- `thread_count` is that of the team.
pub data Step (thread_count : ℕ) (s : Team) : Team → Type 0 where
  comes :
      (i : ℕ)
      → i < thread_count
      → s.pc i ≡ outside
      → Step thread_count s (record s { pc = update s.pc i (testing false) })
  is_current :
      (i : ℕ) (waits : Bool)
      → i < thread_count
      → s.pc i ≡ testing waits
      → s.sequence (loop_index (s.loop_count i)) ≡ sequence_number (s.loop_count i)
      → Step thread_count s (record s { pc = update s.pc i (tested waits) })
  not_current :
      (i : ℕ) (waits : Bool)
      → i < thread_count
      → s.pc i ≡ testing waits
      → s.sequence (loop_index (s.loop_count i)) ≢ sequence_number (s.loop_count i)
      → Step thread_count s (record s { pc = update s.pc i (uninitialized waits) })
  is_initialized :
      (i : ℕ) (waits : Bool)
      → i < thread_count
      → s.pc i ≡ tested waits
      → s.ref_count (loop_index (s.loop_count i)) ≢ 0
      → Step thread_count s (record s { pc = update s.pc i inside })
  not_initialized :
      (i : ℕ) (waits : Bool)
      → i < thread_count
      → s.pc i ≡ tested waits
      → s.ref_count (loop_index (s.loop_count i)) ≡ 0
      → Step thread_count s (record s { pc = update s.pc i (uninitialized waits) })
  claims :
      (i : ℕ)
      → i < thread_count
      → s.pc i ≡ claiming
      → s.sequence (loop_index (s.loop_count i)) ≡ none
      → Step thread_count s (record s {
        sequence =
            update s.sequence (loop_index (s.loop_count i)) (sequence_number (s.loop_count i));
        pc = update s.pc i initializing;
      })
  is_refused :
      (i : ℕ)
      → i < thread_count
      → s.pc i ≡ claiming
      → s.sequence (loop_index (s.loop_count i)) ≢ none
      → Step thread_count s (record s { pc = update s.pc i (testing true) })
  completes :
      (i : ℕ)
      → i < thread_count
      → s.pc i ≡ initializing
      → Step thread_count s (record s {
        ref_count = update s.ref_count (loop_index (s.loop_count i)) thread_count;
        pc = update s.pc i inside;
      })
  leaves :
      (i : ℕ)
      → i < thread_count
      → s.pc i ≡ inside
      → s.ref_count (loop_index (s.loop_count i)) - 1 ≢ 0
      → Step thread_count s (record s {
        ref_count =
            update s.ref_count
              (loop_index (s.loop_count i))
              (s.ref_count (loop_index (s.loop_count i)) - 1);
        loop_count = update s.loop_count i ((s.loop_count i + 1) % 2 ^ 32);
        pc = update s.pc i outside;
      })
  leaves_last :
      (i : ℕ)
      → i < thread_count
      → s.pc i ≡ inside
      → s.ref_count (loop_index (s.loop_count i)) - 1 ≡ 0
      → Step thread_count s (record s {
        ref_count =
            update s.ref_count
              (loop_index (s.loop_count i))
              (s.ref_count (loop_index (s.loop_count i)) - 1);
        loop_count = update s.loop_count i ((s.loop_count i + 1) % 2 ^ 32);
        pc = update s.pc i (leaving (loop_index (s.loop_count i)));
      })
  releases :
      (i d : ℕ)
      → i < thread_count
      → s.pc i ≡ leaving d
      → Step thread_count s
          (record s { sequence = update s.sequence d none; pc = update s.pc i outside })

pub data Reach (thread_count : ℕ) : Team → Type 0 where
  start : Reach thread_count new_team
  then_step : {s t : Team} → Reach thread_count s → Step thread_count s t → Reach thread_count t

-- No thread has come to the number whose 32 bits are those of -1.
abbrev pub Numbered : (thread_count : ℕ) → Team → Type 0
Numbered thread_count s = (i : ℕ) → i < thread_count → s.loop_count i < 2 ^ 32 - 1

-- So it was before each step of a run.
abbrev pub InRange : {thread_count : ℕ} {s : Team} → Reach thread_count s → Type 0
InRange start = Unit {0}
InRange {thread_count} (then_step {s} r st) = Numbered thread_count s × InRange r
