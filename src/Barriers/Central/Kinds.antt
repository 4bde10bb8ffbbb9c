-- ===== src/Barriers/Central/Kinds.antt =====
-- Instances of `class centralizedBarrier` that src/barrier_impl.cc names: `AtomicNaiveBarrier`,
-- `FlagNaiveBarrier`, and the `Atomic` and `Flag` families over `LBWBroadcast<lbw>`.
use lomp.Prelude.{ℕ, ◌-◌, ◌^◌, ◌≤◌, ◌<◌, ◌≡◌, ◌≢◌, Option, some}
use lomp.Barriers.Spec
use lomp.Barriers.Central.{CentralizedBarrier, Reach}
use lomp.Barriers.Central.Atomic.{AtomicCheckIn}
use lomp.Barriers.Central.Flags.{FlagCheckIn}
use lomp.Barriers.Central.Naive.{Naive}
use lomp.Barriers.Central.Lines.Waking.{Lbw}
use lomp.Barriers.Central.Refines.{central-refines, central-hands}

-- With an atomic counter and one flag for all, fewer than `2 ^ 32` threads keep to the barrier of
-- the specification in every reachable state; and where a thread other than the root has left a
-- barrier at which the root handed a function out, the thread has that function from it.
pub atomic_naive-hands :
    {n : ℕ} (word : n < 2 ^ 32) {args : ℕ → Option ℕ}
    {s : CentralizedBarrier (AtomicCheckIn n word) (Naive n)}
    → Reach (AtomicCheckIn n word) (Naive n) args s
    → Spec.Reach n s.view
      × ((i a : ℕ)
          → i < n
          → i ≢ 0
          → 0 < s.view.passed i
          → args (s.view.passed i - 1) ≡ some a
          → s.taken i ≡ some a)
atomic_naive-hands {n} word r = (
  central-refines (AtomicCheckIn n word) (Naive n) r,
  λ i a. central-hands (AtomicCheckIn n word) (Naive n) i a r,
)

-- With a byte for each thread and a flag for each `lbw` threads, whatever memory held before, 1 to
-- 64 threads keep to the barrier of the specification in every reachable state; and where a thread
-- other than the root has left a barrier at which the root handed a function out, the thread has
-- that function from it.
pub flag_lbw-hands :
    {n lbw : ℕ} (bytes : ℕ → ℕ → ℕ) (bodies : ℕ → Option ℕ) (pos : 0 < n) (fits : n ≤ 64)
    (some_lbw : 0 < lbw) {args : ℕ → Option ℕ}
    {s : CentralizedBarrier (FlagCheckIn n bytes pos fits) (Lbw lbw n bodies some_lbw)}
    → Reach (FlagCheckIn n bytes pos fits) (Lbw lbw n bodies some_lbw) args s
    → Spec.Reach n s.view
      × ((i a : ℕ)
          → i < n
          → i ≢ 0
          → 0 < s.view.passed i
          → args (s.view.passed i - 1) ≡ some a
          → s.taken i ≡ some a)
flag_lbw-hands bytes bodies pos fits some_lbw r = (
  central-refines (FlagCheckIn _ bytes pos fits) (Lbw _ _ bodies some_lbw) r,
  λ i a. central-hands (FlagCheckIn _ bytes pos fits) (Lbw _ _ bodies some_lbw) i a r,
)
