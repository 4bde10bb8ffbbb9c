-- ===== src/Tasking/Region/Drained.antt =====
-- The counter of active tasks, src/tasking.cc and src/threads.cc, from step to step.
use lomp.Prelude.{
  ℕ, ◌+◌, ◌≤◌, ◌<◌, ◌≡◌, refl, ap, subst, arith, Bool, true, false, ◌∷◌, length, length-append,
}
use lomp.Prelude.Counting.{sum_below, sum_below-const}
use lomp.Barriers.Spec
use lomp.Barriers.Spec.{Threads, arrive, leave, Reach-Kept}
use lomp.Tasking.Region.{
  idle, working, draining, finished, Team, new_team, Step, begins, prepares, completes,
  reaches_barrier, ends, checks_in, checks_in_last, leaves, Reach, start, then_step,
}
use lomp.Tasking.Region.Invariant.{
  begun, All, Inv, Executes-outside, All-append, at_place, begun-change, moves-Inv, tasks-Inv,
  checks_in-Inv, leaves-Inv,
}

Step-Inv :
    {n : ℕ} {internal : ℕ → Bool} {s t : Team}
    → Step n internal s t
    → Inv n internal s
    → Inv n internal t
Step-Inv {s = s} (begins i lt at) inv =
    moves-Inv inv i lt working _ (at_place inv i lt idle at) (omega (arith, ap begun at))
Step-Inv {s = s} (prepares i lt executes) inv =
    let out = Executes-outside _ _ _ (s.pc i) executes (inv.threads i) in
    tasks-Inv inv i lt _ _ executes (omega arith)
      (λ j lj. (omega (arith, (Reach-Kept inv.refines).1 j i lj lt), inv.created j lj))
Step-Inv {s = s} (completes i e l r lt executes is) inv =
    tasks-Inv inv i lt _ _ executes
      (omega (arith, inv.counted, ap length is, length-append l (e ∷ r), length-append l r))
      (λ j lj. All-append _ l r e (subst (All (λ x. s.view.passed j ≤ x)) is (inv.created j lj)))
Step-Inv {s = s} (reaches_barrier i lt at kind) inv =
    moves-Inv inv i lt draining _ (at_place inv i lt working at, kind) (omega (arith, ap begun at))
Step-Inv {s = s} (ends i lt at kind) inv =
    moves-Inv inv i lt finished _ (at_place inv i lt working at, kind)
      (omega (arith, ap begun at, begun-change inv i lt idle, inv.counted))
Step-Inv {s = s} (checks_in i lt at reached) inv =
    let (out, kind) = at_place inv i lt draining at in
    checks_in-Inv inv i lt true out kind (ap begun at) reached
Step-Inv {s = s} (checks_in_last i lt at reached) inv =
    let (out, kind) = at_place inv i lt finished at in
    checks_in-Inv inv i lt false out kind (ap begun at) reached
Step-Inv {s = s} (leaves i was lt at all) inv = leaves-Inv inv i lt was at all

new_team-Inv : (n : ℕ) (internal : ℕ → Bool) → Inv n internal new_team
new_team-Inv n internal = record {
  refines = Spec.start;
  threads = λ i. refl;
  counted = omega (arith, sum_below-const n 0 (λ i. 0) (λ i lt. refl) (omega arith));
  drained = λ b all. refl;
  created = λ i lt. tt;
}

Reach-Inv : {n : ℕ} {internal : ℕ → Bool} {s : Team} → Reach n internal s → Inv n internal s
Reach-Inv {n} {internal} start = new_team-Inv n internal
Reach-Inv (then_step r st) = Step-Inv st (Reach-Inv r)

-- In every run of a team that goes through parallel regions with internal barriers: the team's counter
-- is the number of its threads whose implicit task is counted and of the pending explicit tasks; the
-- threads keep to the barrier of the specification; and where a thread has left a number of barriers,
-- every explicit task that is still pending was created by a thread that had left at least as many.
pub barrier_drains :
    {n : ℕ} {internal : ℕ → Bool} {s : Team}
    → Reach n internal s
    → (s.active_tasks ≡ sum_below n (λ i. begun (s.pc i)) + length s.pending)
      × Spec.Reach n s.view
      × ((i : ℕ) → i < n → All (λ e. s.view.passed i ≤ e) s.pending)
barrier_drains r = let inv = Reach-Inv r in (inv.counted, inv.refines, inv.created)
