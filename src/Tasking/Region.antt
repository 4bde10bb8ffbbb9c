-- ===== src/Tasking/Region.antt =====
-- The implicit tasks of a team, src/threads.cc, and the tasks that its threads execute before they check
-- in at a barrier, src/tasking.cc. The barrier itself is that of the specification. A step is one
-- access of one thread to the team's counter of active tasks, or its passage through the barrier, in
-- any order.
pub mod Invariant
pub mod Drained
use lomp.Prelude.{
  ℕ, ◌+◌, ◌-◌, ◌≤◌, ◌<◌, ◌≡◌, ◌≢◌, Bool, true, false, List, [], ◌∷◌, ◌++◌, if◌then◌else◌, update,
}
use lomp.Barriers.Spec.{Threads, nobody, arrive, leave}

pub data Pc : Type 0 where
  idle : Pc  -- between parallel regions
  working : Pc  -- in the implicit task
  draining : Pc  -- in `TaskExecutionBarrier` of an internal barrier
  finished : Pc  -- there, after the implicit task
  in_barrier : (internal : Bool) → Pc

-- `active_tasks` is `team->activeTasks`. `pending` lists, for each explicit task that is prepared and
-- not completed, how many barriers the thread had left that created it.
pub record Team : Type 0 where
  pub active_tasks : ℕ
  pub pc : ℕ → Pc
  pub pending : List ℕ
  pub view : Threads

abbrev pub new_team : Team
new_team = record { active_tasks = 0; pc = λ _. idle; pending = []; view = nobody }

-- Where a thread goes on after a barrier: an internal one lies within the implicit task.
abbrev pub after_barrier : (internal : Bool) → Pc
after_barrier internal = if internal then working else idle

-- What `TaskExecutionBarrier` waits for in a team of `n` threads.
abbrev pub goal : (n : ℕ) (internal : Bool) → ℕ
goal n internal = if internal then n else 0

-- A thread that may execute explicit tasks.
pub data Executes : Pc → Type 0 where
  in_task : Executes working
  in_internal : Executes draining
  in_last : Executes finished

-- `internal b` says whether the barrier number `b` is an internal one, or the one at the end of a
-- parallel region. A thread that waits in `TaskExecutionBarrier` creates tasks only within one that
-- it executes; the steps allow it always.
pub data Step (n : ℕ) (internal : ℕ → Bool) (s : Team) : Team → Type 0 where
  begins :
      (i : ℕ)
      → i < n
      → s.pc i ≡ idle
      → Step n internal s
          (record s { active_tasks = s.active_tasks + 1; pc = update s.pc i working })
  prepares :
      (i : ℕ)
      → i < n
      → Executes (s.pc i)
      → Step n internal s
          (record s { active_tasks = s.active_tasks + 1; pending = s.view.passed i ∷ s.pending })
  completes :
      (i e : ℕ) (l r : List ℕ)
      → i < n
      → Executes (s.pc i)
      → s.pending ≡ l ++ e ∷ r
      → Step n internal s (record s { active_tasks = s.active_tasks - 1; pending = l ++ r })
  reaches_barrier :
      (i : ℕ)
      → i < n
      → s.pc i ≡ working
      → internal (s.view.passed i) ≡ true
      → Step n internal s (record s { pc = update s.pc i draining })
  ends :
      (i : ℕ)
      → i < n
      → s.pc i ≡ working
      → internal (s.view.passed i) ≡ false
      → Step n internal s
          (record s { active_tasks = s.active_tasks - 1; pc = update s.pc i finished })
  checks_in :
      (i : ℕ)
      → i < n
      → s.pc i ≡ draining
      → s.active_tasks ≡ goal n true
      → Step n internal s
          (record s { pc = update s.pc i (in_barrier true); view = arrive i s.view })
  checks_in_last :
      (i : ℕ)
      → i < n
      → s.pc i ≡ finished
      → s.active_tasks ≡ goal n false
      → Step n internal s
          (record s { pc = update s.pc i (in_barrier false); view = arrive i s.view })
  leaves :
      (i : ℕ) (was : Bool)
      → i < n
      → s.pc i ≡ in_barrier was
      → ((j : ℕ) → j < n → s.view.passed i < s.view.arrived j)
      → Step n internal s
          (record s { pc = update s.pc i (after_barrier was); view = leave i s.view })

pub data Reach (n : ℕ) (internal : ℕ → Bool) : Team → Type 0 where
  start : Reach n internal new_team
  then_step : {s t : Team} → Reach n internal s → Step n internal s t → Reach n internal t
