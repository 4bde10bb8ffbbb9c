-- ===== src/Examples/Waiting.antt =====
-- Examples of src/tasking.cc: threads that wait for tasks.
use lomp.Prelude.{
  ℕ, zero, suc, ◌+◌, ◌≤◌, ◌<◌, ◌≡◌, refl, arith, Bool, true, false, some, [], ◌∷◌, length,
  ℕ_discrete,
}
use lomp.Prelude.Counting.{sum_below}
use lomp.Barriers.Spec
use lomp.Tasking.Store
use lomp.Tasking.Region
use lomp.Tasking.Region.Invariant.{begun, All}
use lomp.Tasking.Region.Drained.{barrier_drains}
use lomp.Tasking.Waiting
use lomp.Tasking.Waiting.Done.{NoneHas}
use lomp.Tasking.Waiting.History.{history}
use lomp.Tasking.Waiting.Groups.{Linked}
use lomp.Tasking.Waiting.Ended.{AllDone, task_wait-Done, taskgroup_end-Done}

-- A region with one internal barrier.
abbrev internal : ℕ → Bool
internal zero = true
internal (suc b) = false

-- Thread 0 has left the internal barrier and created a second task.
one_region : (s : Region.Team) × Region.Reach 2 internal s
unfolding ℕ_discrete
one_region = (
  _,
  Region.then_step
      (Region.then_step
        (Region.then_step
          (Region.then_step
            (Region.then_step
              (Region.then_step
                (Region.then_step
                  (Region.then_step
                    (Region.then_step
                      (Region.then_step Region.start (Region.begins 0 (omega arith) refl))
                      (Region.prepares 0 (omega arith) Region.in_task))
                    (Region.begins 1 (omega arith) refl))
                  (Region.reaches_barrier 0 (omega arith) refl refl))
                (Region.reaches_barrier 1 (omega arith) refl refl))
              (Region.completes 1 0 [] [] (omega arith) Region.in_internal refl))
            (Region.checks_in 0 (omega arith) refl refl))
          (Region.checks_in 1 (omega arith) refl refl))
        (Region.leaves 0 true (omega arith) refl (λ j lt. ground arith)))
      (Region.prepares 0 (omega arith) Region.in_task),
)

barrier_drains_example :
    let s = one_region.0 in
    (s.active_tasks ≡ sum_below 2 (λ i. begun (s.pc i)) + length s.pending)
    × Spec.Reach 2 s.view
    × ((i : ℕ) → i < 2 → All (λ e. s.view.passed i ≤ e) s.pending)
barrier_drains_example = barrier_drains one_region.1

-- Thread 1 has created task 1, and executed task 0 of the taskgroup of thread 0, which has then waited for
-- its children and ended the taskgroup. Task 1 is still pending.
one_group : (s : Waiting.Team) × Waiting.Reach s
unfolding ℕ_discrete Waiting.taskgroup_begin Store.initialize_task Store.prepare_task Store.register
    Store.complete_task Store.settle Waiting.task_wait_on Waiting.waits Waiting.group_waits
one_group = (
  _,
  Waiting.then_step
      (Waiting.then_step
        (Waiting.then_step
          (Waiting.then_step
            (Waiting.then_step
              (Waiting.then_step
                (Waiting.then_step
                  (Waiting.then_step (Waiting.then_step Waiting.start (Waiting.begins_group 0))
                    (Waiting.allocates 0))
                  (Waiting.prepares 0 0 _ (omega arith) refl refl))
                (Waiting.allocates 1))
              (Waiting.prepares 1 1 _ (omega arith) refl refl))
            (Waiting.invokes 1 0 (omega arith)))
          (Waiting.completes 0 (1 ∷ []) [] _ refl refl))
        (Waiting.ends_wait 0 refl))
      (Waiting.ends_group 0 refl),
)

still_pending : one_group.0.pending ≡ 1 ∷ []
unfolding one_group Waiting.taskgroup_end
still_pending = refl

task_wait-Done_example : AllDone (history one_group.1).waited
task_wait-Done_example = task_wait-Done one_group.1

taskgroup_end-Done_example :
    ((g : ℕ)
      → (history one_group.1).closed g ≡ true
      → NoneHas one_group.0.store.group (some g) one_group.0.pending)
    × ((i : ℕ)
        → Linked one_group.0.outer
            (one_group.0.store.current_group i)
            ((history one_group.1).opened i))
taskgroup_end-Done_example = taskgroup_end-Done one_group.1
