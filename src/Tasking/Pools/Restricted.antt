-- ===== src/Tasking/Pools/Restricted.antt =====
-- src/tasking.cc: `struct TaskPoolRestrictedLinkedListLIFO`, the list pool with a limit. Its `put`
-- allocates the node before it looks at the count.
use lomp.Prelude.{
  ℕ, ◌+◌, ◌≡◌, refl, Bool, true, false, List, [], ◌∷◌, arith, ◌==◌, if◌then◌else◌, length,
}
use lomp.Tasking.Pools.Spec.{Call, put, get, steal, Reply, stored, given, spec_step, replies}
use lomp.Tasking.Pools.Linked.{TaskPoolLinked, empty, linked_get}
use lomp.Tasking.Pools.Simulation.{replies-simulate}

restricted_put : (max_size task : ℕ) → TaskPoolLinked → TaskPoolLinked × Bool
restricted_put max_size task p =
    if p.task_count == max_size
    then (record p { nodes = p.nodes + 1 }, false)
    else (record { head = task ∷ p.head; task_count = p.task_count + 1; nodes = p.nodes + 1 }, true)

unfoldable pub restricted_step : (max_size : ℕ) → Call → TaskPoolLinked → TaskPoolLinked × Reply
unfolding restricted_put linked_get
restricted_step max_size (put task) p =
    let (p', r) = restricted_put max_size task p in (p', stored r)
restricted_step max_size get p = let (p', r) = linked_get p in (p', given r)
restricted_step max_size steal p = let (p', r) = linked_get p in (p', given r)

abbrev Holds : TaskPoolLinked → List ℕ → Type 0
Holds p l = (p.head ≡ l) × (p.task_count ≡ length l)

abbrev pub full : ℕ → ℕ → Bool
full max_size n = n == max_size

restricted_step-Holds :
    (max_size : ℕ) (c : Call) (p : TaskPoolLinked) (l : List ℕ)
    → Holds p l
    → Holds (restricted_step max_size c p).0 (spec_step (full max_size) false c l).0
      × ((restricted_step max_size c p).1 ≡ (spec_step (full max_size) false c l).1)
unfolding restricted_step spec_step
restricted_step-Holds max_size (put task) p l h = ground arith
restricted_step-Holds max_size get p [] h = ground arith
restricted_step-Holds max_size get p (x ∷ l) h = ground arith
restricted_step-Holds max_size steal p [] h = ground arith
restricted_step-Holds max_size steal p (x ∷ l) h = ground arith

-- The restricted list pool answers every sequence of calls as a stack that refuses a task while it
-- holds exactly `max_size`, from which owner and thieves alike take the newest task.
pub restricted_replies :
    (max_size : ℕ) (calls : List Call)
    → replies (restricted_step max_size) empty calls
      ≡ replies (spec_step (full max_size) false) [] calls
restricted_replies max_size calls =
    replies-simulate (restricted_step max_size) (spec_step (full max_size) false) Holds
      (restricted_step-Holds max_size) empty [] calls (refl, refl)

pub after : (max_size : ℕ) → TaskPoolLinked → List Call → TaskPoolLinked
after max_size p [] = p
after max_size p (c ∷ l) = after max_size (restricted_step max_size c p).0 l

abbrev pub refused : Reply → ℕ
refused (stored false) = 1
refused (stored true) = 0
refused (given _) = 0

pub refusals : List Reply → ℕ
refusals [] = 0
refusals (r ∷ l) = refused r + refusals l

-- `lost` nodes are allocated beside those of the chain.
abbrev Loses : TaskPoolLinked → ℕ → Type 0
Loses p lost = (p.task_count ≡ length p.head) × (p.nodes ≡ p.task_count + lost)

restricted_step-Loses :
    (max_size : ℕ) (c : Call) (l : List ℕ) (p : TaskPoolLinked) (lost : ℕ)
    → p.head ≡ l
    → Loses p lost
    → Loses (restricted_step max_size c p).0 (lost + refused (restricted_step max_size c p).1)
unfolding restricted_step
restricted_step-Loses max_size (put task) l p lost e h = ground arith
restricted_step-Loses max_size get [] p lost e h = ground arith
restricted_step-Loses max_size get (x ∷ l) p lost e h = ground arith
restricted_step-Loses max_size steal [] p lost e h = ground arith
restricted_step-Loses max_size steal (x ∷ l) p lost e h = ground arith

after-Loses :
    (max_size : ℕ) (calls : List Call) (p : TaskPoolLinked) (lost : ℕ)
    → Loses p lost
    → Loses (after max_size p calls) (lost + refusals (replies (restricted_step max_size) p calls))
unfolding after refusals replies
after-Loses max_size [] p lost h = omega arith
after-Loses max_size (c ∷ calls) p lost h =
    let step = restricted_step-Loses max_size c p.head p lost refl h in
    let rest = after-Loses max_size calls (restricted_step max_size c p).0 _ step in omega arith

-- After any sequence of calls as many nodes are allocated as there are tasks in the chain and
-- refused puts: a refused put never frees the node that it allocated.
pub restricted_nodes :
    (max_size : ℕ) (calls : List Call)
    → (after max_size empty calls).nodes
      ≡ length (after max_size empty calls).head
        + refusals (replies (restricted_step max_size) empty calls)
restricted_nodes max_size calls = omega (arith, after-Loses max_size calls empty 0 (refl, refl))
