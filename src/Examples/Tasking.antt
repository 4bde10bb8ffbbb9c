-- ===== src/Examples/Tasking.antt =====
-- Examples of src/tasking.cc: pools, counters and the release of descriptors.
use lomp.Prelude.{
  ◌+◌, ◌≤◌, ℕ, ◌≡◌, refl, true, false, List, [], ◌∷◌, ◌++◌, Option, some, none, arith, leb,
  if◌then◌else◌, ℕ_discrete, ◌==◌, ◌>>=◌, ◌⊎◌, zero, suc,
}
use lomp.Tasking.Pools.Spec.{Call, Reply, replies, spec_step}
use lomp.Tasking.Pools.Spec
use lomp.Tasking.Pools.Deque
use lomp.Tasking.Pools.Deque.{deque_step, deque_replies}
use lomp.Tasking.Allocation.{
  Layout, Laid, Allocated, omp_task_alloc, closure_to_task, omp_task_alloc-Fits,
}
use lomp.Tasking.Store
use lomp.Tasking.Store.{
  Store, initialize_task, prepare_task, complete_task, invoke_task, free_task_and_ancestors, settle,
  register, free_from, free_task, fault, freed,
}
use lomp.Tasking.Store.Accounting.{Counts, complete-Counts}
use lomp.Tasking.Store.Release.{
  Chain, Dangling, listed, free_task_and_ancestors-Chain, ParentsOlder, free_all,
  free_task_and_ancestors-Ends,
}
use lomp.Tasking.Store.Release

abbrev some_calls : List Call
some_calls = Spec.put 7 ∷ Spec.put 8 ∷ Spec.put 9 ∷ Spec.steal ∷ Spec.get ∷ Spec.get ∷ []

deque_run :
    replies (deque_step 2) Deque.empty some_calls
    ≡ Spec.stored true
      ∷ Spec.stored true
      ∷ Spec.stored false
      ∷ Spec.given (some 7)
      ∷ Spec.given (some 8)
      ∷ Spec.given none
      ∷ []
unfolding replies deque_step
deque_run = refl

deque_replies_example :
    replies (deque_step 2) Deque.empty some_calls ≡ replies (spec_step (leb 2) true) [] some_calls
deque_replies_example = deque_replies 2 some_calls

abbrev nothing : Store
nothing = record {
  alive = λ _. false;
  flags = λ _. Store.created;
  parent = λ _. none;
  creator = λ _. 0;
  child_tasks = λ _. 0;
  group = λ _. none;
  thread_children = λ _. 0;
  group_active = λ _. 0;
  active = 0;
  current_task = λ _. none;
  current_group = λ _. none;
}

-- Thread 0 creates task 5.
one_task : Store
unfolding initialize_task
one_task = initialize_task 0 5 nothing

no-Counts : Counts one_task []
unfolding one_task
no-Counts = record {
  team = refl;
  children = λ q. ground arith;
  implicit = λ i. refl;
  groups = λ g. refl;
}

one_pending : Store
unfolding one_task prepare_task ℕ_discrete
one_pending = record one_task { active = 1; thread_children = λ i. if i == 0 then 1 else 0 }

pending-Counts : Counts one_pending (5 ∷ [])
unfolding one_pending ℕ_discrete
pending-Counts = record {
  team = refl;
  children = λ q. ground arith;
  implicit = λ i. ground arith;
  groups = λ g. refl;
}

complete-Counts_example :
    (s' : Store) × (complete_task 5 one_pending ≡ some s') × Counts s' ([] ++ [])
unfolding one_pending ℕ_discrete
complete-Counts_example = complete-Counts 5 one_pending [] [] refl tt pending-Counts

-- Task 1 waits for its child 2, whose own child 3 is still pending when both have completed.
abbrev wait_for_child : (fuel : ℕ) → Option Store
wait_for_child fuel = do
  s1 ← prepare_task 1 (initialize_task 0 1 nothing)
  invoke_task fuel 0 1
      (λ s. do
        s2 ← prepare_task 2 (initialize_task 0 2 s)
        invoke_task fuel 0 2 (λ t. prepare_task 3 (initialize_task 0 3 t)) s2)
      s1

abbrev or_nothing : Option Store → Store
or_nothing none = nothing
or_nothing (some s) = s

-- Both have completed, and the descriptor of task 1 is freed.
waited : Store
unfolding initialize_task prepare_task invoke_task complete_task settle register
    free_task_and_ancestors free_from free_task ℕ_discrete
waited = or_nothing (wait_for_child 5)

waited_alive : (waited.alive 1 ≡ false) × (waited.alive 2 ≡ true) × (waited.alive 3 ≡ true)
unfolding waited
waited_alive = (refl, refl, refl)

-- Then task 3 runs: the release of its ancestors reads the descriptor of task 1.
grandchild_faults : invoke_task 5 0 3 some waited ≡ none
unfolding waited
grandchild_faults = refl

-- The same store with task 3 completed.
grandchild_done : Store
unfolding waited
grandchild_done = or_nothing (complete_task 3 waited)

release_faults : free_task_and_ancestors 5 3 grandchild_done ≡ fault
unfolding grandchild_done free_task_and_ancestors free_from
release_faults = refl

-- Of three generations, all completed, the eldest has been freed.
abbrev orphan_parent : ℕ → Option ℕ
orphan_parent zero = none
orphan_parent (suc zero) = none
orphan_parent (suc (suc zero)) = some 1
orphan_parent (suc (suc (suc zero))) = some 2
orphan_parent (suc (suc (suc (suc t)))) = none

abbrev orphans : Store
orphans = record nothing {
  alive = λ t. if t == 1 then false else true;
  flags = λ _. Store.completed;
  parent = orphan_parent;
}

orphans_older : ParentsOlder orphans
orphans_older zero = tt
orphans_older (suc zero) = tt
orphans_older (suc (suc zero)) = omega arith
orphans_older (suc (suc (suc zero))) = omega arith
orphans_older (suc (suc (suc (suc t)))) = tt

free_task_and_ancestors-Ends_example :
    ((l : List ℕ) × Chain orphans (some 3) l
      × (free_task_and_ancestors 5 3 orphans ≡ freed (free_all l orphans)))
    ⊎ (Dangling orphans (some 3) × (free_task_and_ancestors 5 3 orphans ≡ fault))
free_task_and_ancestors-Ends_example = free_task_and_ancestors-Ends 3 orphans orphans_older

-- Task 6 has completed with its child 7, which is the last to be released.
abbrev family : Store
family = record nothing {
  alive = λ _. true;
  flags = λ _. Store.completed;
  parent = λ t. if t == 7 then some 6 else none;
}

free_task_and_ancestors-Chain_example :
    (s' : Store) × (free_task_and_ancestors 3 7 family ≡ freed s')
    × ((x : ℕ) → s'.alive x ≡ (if listed x (7 ∷ 6 ∷ []) then false else family.alive x))
    × (s' ≡ record family { alive = s'.alive })
free_task_and_ancestors-Chain_example =
    free_task_and_ancestors-Chain 3 7 family (7 ∷ 6 ∷ [])
      (Release.up 7 refl refl (omega arith, tt) (Release.up 6 refl refl tt Release.root))
      (omega arith)

-- A closure of 40 bytes, fewer than the descriptor's own, and 24 bytes to share, for a task at 4096.
abbrev layout : Layout
layout = record { descriptor_size = 88; closure_size = 48; metadata_size = 40; closure_offset = 40 }

layout-Laid : Laid layout
layout-Laid = record { metadata_first = refl; closure_within = omega arith }

omp_task_alloc-Fits_example :
    (a : Allocated) × (offset : ℕ) × (omp_task_alloc layout 4096 1 40 24 ≡ some a)
    × (a.shareds ≡ some offset)
    × (80 ≤ offset)
    × (offset + 24 ≤ a.size)
    × (88 ≤ a.size)
    × (closure_to_task layout a.closure ≡ 4096)
omp_task_alloc-Fits_example = omp_task_alloc-Fits layout 4096 40 24 layout-Laid (omega arith)
