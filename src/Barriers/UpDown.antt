-- ===== src/Barriers/UpDown.antt =====
-- src/barrier_impl.cc: `class AtomicUpDownCounter` and `fullBarrier` of `class AtomicUpDownBarrier`,
-- in which the threads count one of two counters up, or down again. A step is one atomic operation
-- of one thread, in any order. The counters and the threads' counts have 32 bits.
pub mod Targets
pub mod Refines
use lomp.Prelude.{ℕ, ◌+◌, ◌-◌, ◌/◌, ◌%◌, ◌^◌, ◌≤◌, ◌<◌, ◌≡◌, Bool, ◌==◌, if◌then◌else◌, update}
use lomp.Barriers.Spec.{Threads, nobody, arrive, leave}

pub data Pc : Type 0 where
  outside : Pc
  polling : Pc  -- in `waitAll` or `waitNone`

-- `view` records the barriers that the threads have come to and left.
pub record AtomicUpDownBarrier : Type 0 where
  pub counters : ℕ → ℕ
  pub barrier_counts : ℕ → ℕ
  pub pc : ℕ → Pc
  pub view : Threads

abbrev pub new_barrier : AtomicUpDownBarrier
new_barrier = record {
  counters = λ _. 0;
  barrier_counts = λ _. 0;
  pc = λ _. outside;
  view = nobody;
}

-- `myCount & 1`
abbrev pub count_idx : ℕ → ℕ
count_idx my_count = my_count % 2

-- `(myCount & 2) == 0`
abbrev pub count_up : ℕ → Bool
count_up my_count = (my_count / 2) % 2 == 0

-- `increment` or `decrement`
unfoldable pub counted : (my_count present : ℕ) → ℕ
counted my_count present =
    if count_up my_count then (present + 1) % 2 ^ 32 else (present + 2 ^ 32 - 1) % 2 ^ 32

-- What `waitAll` or `waitNone` polls for, among `n` threads.
unfoldable pub target : (n my_count : ℕ) → ℕ
target n my_count = if count_up my_count then n else 0

pub data Step (n : ℕ) (s : AtomicUpDownBarrier) : AtomicUpDownBarrier → Type 0 where
  counts :
      (i : ℕ)
      → i < n
      → s.pc i ≡ outside
      → Step n s (record s {
        counters =
            update s.counters
              (count_idx (s.barrier_counts i))
              (counted (s.barrier_counts i) (s.counters (count_idx (s.barrier_counts i))));
        pc = update s.pc i polling;
        view = arrive i s.view;
      })
  goes_on :
      (i : ℕ)
      → i < n
      → s.pc i ≡ polling
      → s.counters (count_idx (s.barrier_counts i)) ≡ target n (s.barrier_counts i)
      → Step n s (record s {
        barrier_counts = update s.barrier_counts i ((s.barrier_counts i + 1) % 2 ^ 32);
        pc = update s.pc i outside;
        view = leave i s.view;
      })

pub data Reach (n : ℕ) : AtomicUpDownBarrier → Type 0 where
  start : Reach n new_barrier
  then_step : {s t : AtomicUpDownBarrier} → Reach n s → Step n s t → Reach n t
