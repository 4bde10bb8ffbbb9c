-- ===== src/Tasking/Pools/Linked.antt =====
-- src/tasking.cc: `struct TaskPoolLinkedListLIFO`, a chain of nodes from `head` on; `steal` is `get`.
-- The list of the nodes' tasks stands for the chain. `nodes` counts the nodes that are allocated.
use lomp.Prelude.{
  ℕ, ◌+◌, ◌-◌, ◌≡◌, refl, Bool, true, false, List, [], ◌∷◌, Option, none, some, arith, length,
}
use lomp.Tasking.Pools.Spec.{Call, put, get, steal, Reply, stored, given, spec_step, replies}
use lomp.Tasking.Pools.Simulation.{replies-simulate}

pub record TaskPoolLinked : Type 0 where
  pub head : List ℕ
  pub task_count : ℕ
  pub nodes : ℕ

abbrev pub empty : TaskPoolLinked
empty = record { head = []; task_count = 0; nodes = 0 }

-- An allocation that fails throws, so the test of the new node is never true.
linked_put : (task : ℕ) → TaskPoolLinked → TaskPoolLinked × Bool
linked_put task p =
    (record { head = task ∷ p.head; task_count = p.task_count + 1; nodes = p.nodes + 1 }, true)

unfoldable pub linked_get_from : List ℕ → TaskPoolLinked → TaskPoolLinked × Option ℕ
linked_get_from [] p = (p, none)
linked_get_from (task ∷ next) p =
    (record { head = next; task_count = p.task_count - 1; nodes = p.nodes - 1 }, some task)

unfoldable pub linked_get : TaskPoolLinked → TaskPoolLinked × Option ℕ
unfolding linked_get_from
linked_get p = linked_get_from p.head p

unfoldable pub linked_step : Call → TaskPoolLinked → TaskPoolLinked × Reply
unfolding linked_put linked_get
linked_step (put task) p = let (p', r) = linked_put task p in (p', stored r)
linked_step get p = let (p', r) = linked_get p in (p', given r)
linked_step steal p = let (p', r) = linked_get p in (p', given r)

-- The chain holds the tasks, and neither the count nor the allocated nodes drift from it.
abbrev pub Holds : TaskPoolLinked → List ℕ → Type 0
Holds p l = (p.head ≡ l) × (p.task_count ≡ length l) × (p.nodes ≡ length l)

linked_step-Holds :
    (c : Call) (p : TaskPoolLinked) (l : List ℕ)
    → Holds p l
    → Holds (linked_step c p).0 (spec_step (λ _. false) false c l).0
      × ((linked_step c p).1 ≡ (spec_step (λ _. false) false c l).1)
unfolding linked_step spec_step
linked_step-Holds (put task) p l h = ground arith
linked_step-Holds get p [] h = ground arith
linked_step-Holds get p (x ∷ l) h = ground arith
linked_step-Holds steal p [] h = ground arith
linked_step-Holds steal p (x ∷ l) h = ground arith

-- The list pool answers every sequence of calls as a stack without a limit, from which owner and
-- thieves alike take the newest task.
pub linked_replies :
    (calls : List Call)
    → replies linked_step empty calls ≡ replies (spec_step (λ _. false) false) [] calls
linked_replies calls =
    replies-simulate linked_step (spec_step (λ _. false) false) Holds linked_step-Holds empty []
      calls (refl, refl, refl)
