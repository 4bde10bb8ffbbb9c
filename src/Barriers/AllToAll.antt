-- ===== src/Barriers/AllToAll.antt =====
-- src/barrier_impl.cc: `class AllToAllAtomicBarrier`, where each thread counts itself at every thread.
-- A step is one access of one thread to a counter, or its exit, in any order.
pub mod Rows
pub mod Refines
use lomp.Prelude.{ℕ, ◌+◌, ◌%◌, ◌^◌, ◌<◌, ◌≡◌, if◌then◌else◌, ◌==◌, update}
use lomp.Barriers.Spec.{Threads, nobody, arrive, leave}

pub data Pc : Type 0 where
  outside : Pc
  marking : (told : ℕ) → Pc  -- in the loop of `checkIn`; from the last thread on, in `checkOut`

-- `flags` by parity and thread. `told` records in how many barriers a thread has counted itself at
-- another one, `view` the barriers that the threads have come to and left.
pub record AllToAllAtomicBarrier : Type 0 where
  pub flags : ℕ → ℕ → ℕ
  pub sequence : ℕ → ℕ
  pub pc : ℕ → Pc
  pub told : ℕ → ℕ → ℕ
  pub view : Threads

-- The second row of the flags holds what memory held.
abbrev pub new_barrier : (garbage : ℕ → ℕ) → AllToAllAtomicBarrier
new_barrier garbage = record {
  flags = λ q j. if q == 0 then 0 else garbage j;
  sequence = λ _. 0;
  pc = λ _. outside;
  told = λ _ _. 0;
  view = nobody;
}

abbrev pub odd : (sequence : ℕ) → ℕ
odd sequence = sequence % 2

-- `!odd`
abbrev pub even : (sequence : ℕ) → ℕ
even sequence = (sequence + 1) % 2

unfoldable pub set_flag : (parity thread value : ℕ) → (ℕ → ℕ → ℕ) → ℕ → ℕ → ℕ
set_flag parity thread value flags = update flags parity (update (flags parity) thread value)

pub data Step (n : ℕ) (s : AllToAllAtomicBarrier) : AllToAllAtomicBarrier → Type 0 where
  clears :
      (i : ℕ)
      → i < n
      → s.pc i ≡ outside
      → Step n s (record s {
        flags = set_flag (even (s.sequence i)) i 0 s.flags;
        pc = update s.pc i (marking 0);
        view = arrive i s.view;
      })
  marks :
      (i k : ℕ)
      → i < n
      → s.pc i ≡ marking k
      → k < n
      → Step n s (record s {
        flags =
            set_flag (odd (s.sequence i)) k ((s.flags (odd (s.sequence i)) k + 1) % 2 ^ 32) s.flags;
        pc = update s.pc i (marking (k + 1));
        told = update s.told i (update (s.told i) k (s.told i k + 1));
      })
  goes_on :
      (i : ℕ)
      → i < n
      → s.pc i ≡ marking n
      → s.flags (odd (s.sequence i)) i ≡ n
      → Step n s (record s {
        sequence = update s.sequence i ((s.sequence i + 1) % 2 ^ 32);
        pc = update s.pc i outside;
        view = leave i s.view;
      })

pub data Reach (n : ℕ) (garbage : ℕ → ℕ) : AllToAllAtomicBarrier → Type 0 where
  start : Reach n garbage (new_barrier garbage)
  then_step : {s t : AllToAllAtomicBarrier} → Reach n garbage s → Step n s t → Reach n garbage t
