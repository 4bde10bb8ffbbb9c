-- ===== src/Tasking/Waiting.antt =====
-- src/tasking.cc: `TaskWait`, `TaskgroupBegin` and `TaskgroupEnd`, among threads that create, execute
-- and complete tasks in any order. A run that faults has no further step. Descriptors and taskgroups
-- are given names in the order in which they are allocated. `PrepareTask` and `CompleteTask` are a
-- step each, where the code changes their counters one after the other.
pub mod Names
pub mod Done
pub mod History
pub mod Groups
pub mod Ended
use lomp.Prelude.{
  ℕ, zero, suc, ◌+◌, ◌<◌, ◌≡◌, Bool, true, false, Option, none, some, List, [], ◌∷◌, ◌++◌, not,
  ◌==◌, if◌then◌else◌, update, Known,
}
use lomp.Tasking.Store.{
  Store, Flags, executing, initialize_task, prepare_task, complete_task, free_task,
}

-- `outer` is that of each taskgroup; `tasks` and `taskgroups` count what has been allocated, and
-- `pending` records the tasks that are prepared and not completed.
pub record Team : Type 0 where
  pub store : Store
  pub outer : ℕ → Option ℕ
  pub tasks : ℕ
  pub taskgroups : ℕ
  pub pending : List ℕ

abbrev pub nothing_stored : Store
nothing_stored = record {
  alive = λ _. false;
  flags = λ _. Flags.created;
  parent = λ _. none;
  creator = λ _. 0;
  child_tasks = λ _. 0;
  group = λ _. none;
  thread_children = λ _. 0;
  group_active = λ _. 0;
  active = 0;
  current_task = λ _. none;
  current_group = λ _. none;
}

abbrev pub new_team : Team
new_team = record {
  store = nothing_stored;
  outer = λ _. none;
  tasks = 0;
  taskgroups = 0;
  pending = [];
}

-- The condition of the loops of `TaskWait`: whether the thread waits on for children of its task.
unfoldable pub waits : (current : Option ℕ) → (thread : ℕ) → Store → Bool
waits (some parent) thread s = not (s.child_tasks parent == 0)
waits none thread s = not (s.thread_children thread == 0)

unfoldable pub task_wait_on : (thread : ℕ) → Store → Bool
task_wait_on thread s = waits (s.current_task thread) thread s

unfoldable pub taskgroup_begin : (thread : ℕ) → Team → Team
taskgroup_begin thread s = record s {
  store = record s.store {
    current_group = update s.store.current_group thread (some s.taskgroups);
    group_active = update s.store.group_active s.taskgroups 0;
  };
  outer = update s.outer s.taskgroups (s.store.current_group thread);
  taskgroups = s.taskgroups + 1;
}

-- The condition of the loop of `TaskgroupEnd`, for the thread's current taskgroup.
unfoldable pub group_waits : (current : Option ℕ) → Store → Bool
group_waits (some g) s = not (s.group_active g == 0)
group_waits none s = false

unfoldable pub outer_of : (current : Option ℕ) → Team → Option ℕ
outer_of (some g) s = s.outer g
outer_of none s = none

-- `TaskgroupEnd` after its loop.
unfoldable pub taskgroup_end : (thread : ℕ) → Team → Team
unfolding outer_of
taskgroup_end thread s = record s {
  store = record s.store {
    current_group = update s.store.current_group thread (outer_of (s.store.current_group thread) s);
  };
}

pub data Step (s : Team) : Team → Type 0 where
  allocates :
      (thread : ℕ)
      → Step s (record s { store = initialize_task thread s.tasks s.store; tasks = s.tasks + 1 })
  -- The program passes a task on in the taskgroup in which it has allocated it.
  prepares :
      (thread t : ℕ) (s' : Store)
      → t < s.tasks
      → s.store.group t ≡ s.store.current_group thread
      → prepare_task t s.store ≡ some s'
      → Step s (record s { store = s'; pending = t ∷ s.pending })
  -- `InvokeTask`, up to the call of the task's routine.
  invokes :
      (thread t : ℕ)
      → t < s.tasks
      → Step s (record s {
        store = record s.store {
          current_task = update s.store.current_task thread (some t);
          flags = update s.store.flags t executing;
        };
      })
  completes :
      (t : ℕ) (l r : List ℕ) (s' : Store)
      → s.pending ≡ l ++ t ∷ r
      → complete_task t s.store ≡ some s'
      → Step s (record s { store = s'; pending = l ++ r })
  frees : (t : ℕ) → Step s (record s { store = free_task t s.store })
  -- `InvokeTask`, as it restores the task before.
  resumes :
      (thread : ℕ) (previous : Option ℕ)
      → Known s.tasks previous
      → Step s (record s {
        store = record s.store { current_task = update s.store.current_task thread previous };
      })
  -- `TaskWait` returns.
  ends_wait : (thread : ℕ) → task_wait_on thread s.store ≡ false → Step s s
  begins_group : (thread : ℕ) → Step s (taskgroup_begin thread s)
  ends_group :
      (thread : ℕ)
      → group_waits (s.store.current_group thread) s.store ≡ false
      → Step s (taskgroup_end thread s)

pub data Reach : Team → Type 0 where
  start : Reach new_team
  then_step : {s t : Team} → Reach s → Step s t → Reach t
