-- ===== src/Tasking/Store.antt =====
-- src/tasking.cc and src/tasking.h: task descriptors, their counters and their release.
-- A descriptor is named by a number, its address; the fields of all descriptors are families. A
-- read or write of a descriptor that is not allocated is a fault, `none`, and so is a counter that
-- falls below zero, which the source asserts against.
pub mod Accounting
pub mod Release
use lomp.Prelude.{
  ℕ, zero, suc, ◌+◌, ◌-◌, Bool, true, false, Option, none, some, ◌&&◌, not, ◌==◌, if◌then◌else◌,
  update, ◌>>=◌,
}

pub data Flags : Type 0 where
  created executing completed : Flags

abbrev pub is_completed : Flags → Bool
is_completed completed = true
is_completed _ = false

-- `thread_children` is the counter `childTasks` of each thread, for its implicit task;
-- `group_active` and `active` are the counters `activeTasks` of each taskgroup and of the team.
pub record Store : Type 0 where
  pub alive : ℕ → Bool
  pub flags : ℕ → Flags
  pub parent : ℕ → Option ℕ
  pub creator : ℕ → ℕ
  pub child_tasks : ℕ → ℕ
  pub group : ℕ → Option ℕ
  pub thread_children : ℕ → ℕ
  pub group_active : ℕ → ℕ
  pub active : ℕ
  pub current_task : ℕ → Option ℕ
  pub current_group : ℕ → Option ℕ

abbrev pub access : ℕ → Store → Option Store
access task s = if s.alive task then some s else none

-- The part of `InitializeTaskDescriptor` that is not the closure: `thread` fills in a fresh
-- descriptor.
unfoldable pub initialize_task : (thread task : ℕ) → Store → Store
initialize_task thread task s = record s {
  alive = update s.alive task true;
  flags = update s.flags task created;
  child_tasks = update s.child_tasks task 0;
  creator = update s.creator task thread;
  parent = update s.parent task (s.current_task thread);
  group = update s.group task (s.current_group thread);
}

-- The task that counts `task` as a child, or else the thread that created it.
count_child : Option ℕ → ℕ → Store → Option Store
count_child (some p) task s = do
  _ ← access p s
  some (record s { child_tasks = update s.child_tasks p (s.child_tasks p + 1) })
count_child none task s =
    let i : ℕ = s.creator task in
    some (record s { thread_children = update s.thread_children i (s.thread_children i + 1) })

count_group : Option ℕ → Store → Store
count_group none s = s
count_group (some g) s = record s { group_active = update s.group_active g (s.group_active g + 1) }

unfoldable pub register : (parent group : Option ℕ) → (task : ℕ) → Store → Option Store
unfolding count_child count_group
register parent group task s = do
  s' ← count_child parent task (record s { active = s.active + 1 })
  some (count_group group s')

unfoldable pub prepare_task : ℕ → Store → Option Store
prepare_task task s = do _ ← access task s; register (s.parent task) (s.group task) task s

-- A counter goes down by one, and is not below zero afterwards.
abbrev lower : ℕ → Option ℕ
lower zero = none
lower (suc n) = some n

discount_child : Option ℕ → ℕ → Store → Option Store
discount_child (some p) task s = do
  _ ← access p s
  n ← lower (s.child_tasks p)
  some (record s { child_tasks = update s.child_tasks p n })
discount_child none task s = do
  n ← lower (s.thread_children (s.creator task))
  some (record s { thread_children = update s.thread_children (s.creator task) n })

discount_group : Option ℕ → Store → Option Store
discount_group none s = some s
discount_group (some g) s = do
  n ← lower (s.group_active g)
  some (record s { group_active = update s.group_active g n })

discount_team : Store → Option Store
discount_team s = do n ← lower s.active; some (record s { active = n })

unfoldable pub settle : (parent group : Option ℕ) → (task : ℕ) → Store → Option Store
unfolding discount_child discount_group discount_team
settle parent group task s = do
  s1 ← discount_child parent task (record s { flags = update s.flags task completed })
  s2 ← discount_group group s1
  discount_team s2

unfoldable pub complete_task : ℕ → Store → Option Store
complete_task task s = do _ ← access task s; settle (s.parent task) (s.group task) task s

unfoldable pub free_task : ℕ → Store → Store
free_task task s = record s { alive = update s.alive task false }

-- How the loop of `FreeTaskAndAncestors` ends. `out_of_fuel` is the model's own, for a chain of
-- ancestors that is longer than the fuel; `fault` is the read of a descriptor that is not allocated.
pub data Freed : Type 0 where
  out_of_fuel : Freed
  fault : Freed
  freed : Store → Freed

-- The loop of `FreeTaskAndAncestors`, at the task of one round. A task that is not completed ends the
-- loop whatever its counter, since the source then leaves by its `break`.
unfoldable pub free_from : (fuel : ℕ) → Option ℕ → Store → Freed
free_from zero t s = out_of_fuel
free_from (suc fuel) none s = freed s
free_from (suc fuel) (some task) s =
    let up = free_from fuel (s.parent task) (free_task task s) in
    if s.alive task
    then (if s.child_tasks task == 0 && is_completed (s.flags task) then up else freed s)
    else fault

unfoldable pub free_task_and_ancestors : (fuel task : ℕ) → Store → Freed
free_task_and_ancestors fuel task s = free_from fuel (some task) s

-- What `InvokeTask` goes on with: `none` also where the fuel was not enough.
abbrev pub after_freeing : Freed → Option Store
after_freeing (freed s) = some s
after_freeing _ = none

-- `InvokeTask`: the task's routine is the parameter `routine`, run with the task as current.
unfoldable pub invoke_task :
    (fuel thread task : ℕ) → (routine : Store → Option Store) → Store → Option Store
invoke_task fuel thread task routine s = do
  _ ← access task s
  s1 ← routine (record s {
    current_task = update s.current_task thread (some task);
    flags = update s.flags task executing;
  })
  s2 ← complete_task task s1
  _ ← access task s2
  s3 ←
      (if s2.child_tasks task == 0
        then after_freeing (free_task_and_ancestors fuel task s2)
        else some s2)
  some (record s3 { current_task = update s3.current_task thread (s.current_task thread) })
