-- ===== src/Examples/Locks.antt =====
-- Examples of src/locks.cc: a critical construct and a speculative lock.
use lomp.Prelude.{ℕ, ◌≤◌, ◌≡◌, ◌≢◌, ◌↔◌, refl, true, some, ℕ_discrete}
use lomp.Sync.Critical
use lomp.Sync.Critical.{critical_exclusive}
use lomp.Sync.Speculative
use lomp.Sync.Speculative.{HasLock, speculative_exclusive}

-- Two threads find the variable null; thread 1 sets the lock up and is inside, thread 2 comes too late.
two_enter : (s : Critical.Critical) × Critical.Reach s
unfolding ℕ_discrete
two_enter = (
  _,
  Critical.then_step
      (Critical.then_step
        (Critical.then_step
          (Critical.then_step
            (Critical.then_step
              (Critical.then_step
                (Critical.then_step
                  (Critical.then_step Critical.start (Critical.finds_null 1 refl refl))
                  (Critical.finds_null 2 refl refl))
                (Critical.takes_guard 1 refl refl))
              (Critical.initializes 1 refl refl))
            (Critical.gives_guard 1 refl))
          (Critical.sets_lock 1 0 refl refl refl))
        (Critical.takes_guard 2 refl refl))
      (Critical.too_late 2 0 refl refl),
)

critical_exclusive_example :
    let s = two_enter.0 in
    (s.locks ≤ 1)
    × ((i j : ℕ) → s.pc i ≡ Critical.inside → i ≢ j → s.pc j ≢ Critical.inside)
    × ((i : ℕ) → s.pc i ≡ Critical.setting → s.lk ≡ some 0)
critical_exclusive_example = critical_exclusive two_enter.1

-- Threads 1 and 2 speculate, thread 3 is refused and takes the base lock.
one_falls_back : (s : Speculative.SpeculativeLock) × Speculative.Reach s
unfolding ℕ_discrete Speculative.unlock
one_falls_back = (
  _,
  Speculative.then_step
      (Speculative.then_step
        (Speculative.then_step
          (Speculative.then_step
            (Speculative.then_step
              (Speculative.then_step
                (Speculative.then_step
                  (Speculative.then_step
                    (Speculative.then_step
                      (Speculative.then_step Speculative.start (Speculative.calls_lock 1 refl))
                      (Speculative.sees_free 1 refl refl))
                    (Speculative.starts 1 true refl refl))
                  (Speculative.calls_try_lock 2 refl))
                (Speculative.starts 2 _ refl refl))
              (Speculative.calls_lock 3 refl))
            (Speculative.sees_free 3 refl refl))
          (Speculative.is_refused 3 true refl))
        (Speculative.unlocks 2 (Speculative.by_speculation _)))
      (Speculative.takes_base 3 refl refl),
)

speculative_exclusive_example :
    let s = one_falls_back.0 in
    ((i j : ℕ) → s.pc i ≡ Speculative.holding → i ≢ j → ¬ HasLock (s.pc j))
    × ((i : ℕ) → HasLock (s.pc i) → (s.locked ≡ true) ↔ (s.pc i ≡ Speculative.holding))
    × (s.locked ≡ true → (o : ℕ) × (s.pc o ≡ Speculative.holding))
speculative_exclusive_example = speculative_exclusive one_falls_back.1
