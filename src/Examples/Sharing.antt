-- ===== src/Examples/Sharing.antt =====
-- Examples of src/loops.cc: runs of several threads on the shared counter and on one thread's range.
use lomp.Prelude.{ℕ, ◌≤◌, ◌≡◌, refl, true, false, claims, arith, ltb, if◌then◌else◌, ℕ_discrete}
use lomp.Loops.Counter
use lomp.Loops.Counter.{monotonic_attempt, guided_attempt}
use lomp.Loops.Counter.Once.{monotonic_once, guided_once}
use lomp.Loops.Steal
use lomp.Loops.Steal.{Work, assigned_work, new_end}
use lomp.Loops.Steal.Torn.{refill_repeats}

-- Two threads load 0, the first of them wins and the other one retries.
race : (s : Counter.System) × Counter.Reach (monotonic_attempt 2) s
unfolding monotonic_attempt ℕ_discrete
race = (
  _,
  Counter.then_step
      (Counter.then_step
        (Counter.then_step (Counter.then_step Counter.here (Counter.load 0 1 refl refl))
          (Counter.load 1 1 refl refl))
        (Counter.exchange 0 0 1 refl refl))
      (Counter.retry 1 0 1 refl (omega arith)),
)

monotonic_once_example :
    (race.0.next ≤ 2) × ((x : ℕ) → claims x race.0.handed ≡ (if ltb x race.0.next then 1 else 0))
monotonic_once_example = monotonic_once race.1

-- Thread 0 takes the only chunk and leaves.
alone : (s : Counter.System) × Counter.Reach (monotonic_attempt 1) s
unfolding monotonic_attempt ℕ_discrete
alone = (
  _,
  Counter.then_step
      (Counter.then_step (Counter.then_step Counter.here (Counter.load 0 1 refl refl))
        (Counter.exchange 0 0 1 refl refl))
      (Counter.leave 0 refl refl),
)

-- One thread of a team of two takes a first share of 16 chunks.
guided_run : (s : Counter.System) × Counter.Reach (guided_attempt 2 16) s
unfolding guided_attempt ℕ_discrete
guided_run = (
  _,
  Counter.then_step (Counter.then_step Counter.here (Counter.load 0 4 refl refl))
      (Counter.exchange 0 0 4 refl refl),
)

guided_once_example :
    (guided_run.0.next ≤ 16)
    × ((x : ℕ) → claims x guided_run.0.handed ≡ (if ltb x guided_run.0.next then 1 else 0))
guided_once_example = guided_once (omega arith) (omega arith) guided_run.1

-- The same with a single chunk, after which thread 0 leaves.
guided_alone : (s : Counter.System) × Counter.Reach (guided_attempt 2 1) s
unfolding guided_attempt ℕ_discrete
guided_alone = (
  _,
  Counter.then_step
      (Counter.then_step (Counter.then_step Counter.here (Counter.load 0 1 refl refl))
        (Counter.exchange 0 0 1 refl refl))
      (Counter.leave 0 refl refl),
)

-- The owner takes its only chunk and finds nothing more.
drained : (w : Work) × Steal.Reach false (assigned_work 0 1) w
drained =
    let r1 = Steal.then_step Steal.here (Steal.load_base refl) in
    let r2 = Steal.then_step r1 (Steal.load_end 0 refl) in
    let r3 = Steal.then_step r2 (Steal.store_base 0 1 refl (omega arith)) in
    let r4 = Steal.then_step r3 (Steal.got_it 0 refl (omega arith)) in
    let r5 = Steal.then_step r4 (Steal.load_base refl) in
    let r6 = Steal.then_step r5 (Steal.load_end 1 refl) in
    (_, Steal.then_step r6 (Steal.no_iterations 1 1 refl (omega arith)))

refill_repeats_example :
    (w : Work) × Steal.Reach true (assigned_work 8 10) w × (claims 9 w.handed ≡ 2)
unfolding new_end
refill_repeats_example =
    refill_repeats 8 10 3 6 9 (omega arith) (omega arith) (omega arith) (omega arith) (omega arith)
