-- ===== src/Examples/Sync.antt =====
-- Examples of src/locks.cc and of the `single` construct.
use lomp.Prelude.{
  ℕ, ◌≡◌, ◌↔◌, ◌≢◌, ◌⊎◌, ◌≤◌, refl, arith, Bool, true, false, not, if◌then◌else◌, ltb, ℕ_discrete,
}
use lomp.Sync.Ttas
use lomp.Sync.Ttas.{ttas_exclusive, ttas_locked}
use lomp.Sync.Mcs
use lomp.Sync.Mcs.Served.{mcs_exclusive, mcs_order, mcs_awake}
use lomp.Sync.Single
use lomp.Sync.Single.{executions, single_once}
use lomp.Sync.Mutex.{pthread_try_lock, pthread_try_lock-inverted}

-- Thread 4 locks, thread 5 is refused.
contended : (s : Ttas.TtasLock) × Ttas.Reach s
unfolding ℕ_discrete
contended = (
  _,
  Ttas.then_step
      (Ttas.then_step
        (Ttas.then_step (Ttas.then_step Ttas.start (Ttas.enter 4 refl)) (Ttas.enter 5 refl))
        (Ttas.acquire 4 refl refl))
      (Ttas.refused 5 refl refl),
)

ttas_exclusive_example : contended.0.pc 5 ≢ Ttas.holding
unfolding contended ℕ_discrete
ttas_exclusive_example = ttas_exclusive 4 5 contended.1 refl (omega arith)

-- Thread 0 executes the first construct, thread 1 comes too late.
one_single : (s : Single.Team) × Single.Reach s
unfolding ℕ_discrete
one_single = (
  _,
  Single.then_step
      (Single.then_step
        (Single.then_step
          (Single.then_step
            (Single.then_step (Single.then_step Single.start (Single.count 0 refl))
              (Single.count 1 refl))
            (Single.is_next 0 0 refl refl))
          (Single.is_next 1 0 refl refl))
        (Single.exchange 0 0 refl refl))
      (Single.too_late 1 0 refl (omega arith)),
)

single_once_example :
    ((x : ℕ)
      → executions x one_single.0.executed ≡ (if ltb x one_single.0.next_single then 1 else 0))
    × (one_single.0.passed 1 ≤ one_single.0.next_single)
single_once_example = single_once 1 one_single.1

-- A mutex that is a flag.
abbrev flag_trylock : Bool → Bool × ℕ
flag_trylock false = (true, 0)
flag_trylock true = (true, 16)

flag_documented : (m : Bool) → ((flag_trylock m).1 ≡ 0) ↔ (not m ≡ true)
flag_documented true = ground arith
flag_documented false = ground arith

pthread_try_lock-inverted_example : (pthread_try_lock flag_trylock false).1 ≡ not (not false)
pthread_try_lock-inverted_example =
    pthread_try_lock-inverted flag_trylock (λ before after. not before) flag_documented false

-- Thread 4 holds the lock, thread 5 is in the queue behind it.
queued : (s : Mcs.McsLock) × Mcs.Reach s
unfolding ℕ_discrete
queued = (
  _,
  Mcs.then_step (Mcs.then_step Mcs.start (Mcs.exchange_free 4 refl refl))
      (Mcs.exchange_behind 5 4 refl refl),
)

mcs_exclusive_example : queued.0.pc 5 ≢ Mcs.holding
unfolding queued ℕ_discrete
mcs_exclusive_example = mcs_exclusive 4 5 queued.1 refl (omega arith)

mcs_order_example : queued.0.ticket 4 ≤ queued.0.ticket 5
unfolding queued ℕ_discrete
mcs_order_example = mcs_order 4 5 queued.1 refl tt

-- Thread 4 has handed the lock over to thread 5.
handed_over : (s : Mcs.McsLock) × Mcs.Reach s
unfolding queued ℕ_discrete
handed_over = (
  _,
  Mcs.then_step
      (Mcs.then_step
        (Mcs.then_step (Mcs.then_step queued.1 (Mcs.link 5 4 refl))
          (Mcs.unlock_waited 4 refl (grind arith)))
        (Mcs.sees_next 4 5 refl refl))
      (Mcs.hands_over 4 5 refl),
)

mcs_awake_example :
    let s = handed_over.0 in
    (s.pc (s.owner s.served) ≡ Mcs.holding)
    ⊎ (s.pc (s.owner s.served) ≡ Mcs.passing)
    ⊎ ((n : ℕ) × (s.pc (s.owner s.served) ≡ Mcs.handing n))
    ⊎ ((s.pc (s.owner s.served) ≡ Mcs.waiting) × (s.go (s.owner s.served) ≡ true))
unfolding handed_over queued ℕ_discrete
mcs_awake_example = mcs_awake handed_over.1 (omega arith)
