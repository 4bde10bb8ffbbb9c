-- ===== src/Tasking/Pools/Array.antt =====
-- src/tasking.cc: `struct TaskPoolArrayLIFO`, tasks in an array with a null pointer in each free
-- slot; `steal` is `get`.
use lomp.Prelude.{
  ℕ, suc, ◌+◌, ◌-◌, ◌≤◌, ◌≡◌, refl, Bool, true, false, List, [], ◌∷◌, Option, none, some, arith,
  ltb, leb, if◌then◌else◌, length, update, subst, sym, lt→ltb, Bool-cases, inl, inr,
}
use lomp.Tasking.Pools.Spec.{Call, put, get, steal, Reply, stored, given, spec_step, replies}
use lomp.Tasking.Pools.Simulation.{replies-simulate}

pub record TaskPoolArray : Type 0 where
  pub task_count : ℕ
  pub pool : ℕ → Option ℕ

abbrev pub empty : TaskPoolArray
empty = record { task_count = 0; pool = λ _. none }

array_put : (max_size task : ℕ) → TaskPoolArray → TaskPoolArray × Bool
array_put max_size task p = if leb max_size p.task_count then (p, false) else (
  record { task_count = p.task_count + 1; pool = update p.pool p.task_count (some task) },
  true,
)

array_get : TaskPoolArray → TaskPoolArray × Option ℕ
array_get p =
    if ltb 0 p.task_count
    then (
      record { task_count = p.task_count - 1; pool = update p.pool (p.task_count - 1) none },
      p.pool (p.task_count - 1),
    )
    else (p, none)

unfoldable pub array_step : (max_size : ℕ) → Call → TaskPoolArray → TaskPoolArray × Reply
unfolding array_put array_get
array_step max_size (put task) p = let (p', r) = array_put max_size task p in (p', stored r)
array_step max_size get p = let (p', r) = array_get p in (p', given r)
array_step max_size steal p = let (p', r) = array_get p in (p', given r)

-- The slots below the count hold the listed tasks, the newest in the last of them.
abbrev Slots : (ℕ → Option ℕ) → List ℕ → Type 0
Slots pool [] = Unit {0}
Slots pool (x ∷ l) = (pool (length l) ≡ some x) × Slots pool l

abbrev Holds : TaskPoolArray → List ℕ → Type 0
Holds p l = (p.task_count ≡ length l) × Slots p.pool l

-- A write above the listed slots changes none of them.
Slots-update :
    (pool : ℕ → Option ℕ) (l : List ℕ) (i : ℕ) (v : Option ℕ)
    → length l ≤ i
    → Slots pool l
    → Slots (update pool i v) l
Slots-update pool [] i v h s = tt
Slots-update pool (x ∷ l) i v h s = (ground (arith, s.0), Slots-update pool l i v (omega arith) s.1)

taken :
    (pool : ℕ → Option ℕ) (x : ℕ) (l : List ℕ)
    → Slots pool (x ∷ l)
    → Holds (array_get (record { task_count = suc (length l); pool = pool })).0 l
unfolding array_get
taken pool x l s =
    rw (lt→ltb 0 (suc (length l)) (omega arith))
      ((omega arith, Slots-update pool l (suc (length l) - 1) none (omega arith) s.1))

abbrev Keeps : ℕ → Call → TaskPoolArray → List ℕ → Type 0
Keeps max_size c p l =
    Holds (array_step max_size c p).0 (spec_step (leb max_size) false c l).0
    × ((array_step max_size c p).1 ≡ (spec_step (leb max_size) false c l).1)

abbrev array_of : (ℕ → Option ℕ) → List ℕ → TaskPoolArray
array_of pool l = record { task_count = length l; pool = pool }

step-Keeps :
    (max_size : ℕ) (c : Call) (pool : ℕ → Option ℕ) (l : List ℕ)
    → Slots pool l
    → Keeps max_size c (array_of pool l) l
unfolding array_step spec_step
step-Keeps max_size (put task) pool l s = elim (Bool-cases (leb max_size (length l))) [
  | inl full ↦ rw full ((refl, s), refl)
  | inr room ↦
      rw room
        ((omega arith, (ground arith, Slots-update pool l (length l) _ (omega arith) s)), refl)
]
step-Keeps max_size get pool [] s = ((refl, s), refl)
step-Keeps max_size get pool (x ∷ l) s = (taken pool x l s, ground (arith, s.0))
step-Keeps max_size steal pool [] s = ((refl, s), refl)
step-Keeps max_size steal pool (x ∷ l) s = (taken pool x l s, ground (arith, s.0))

array_step-Holds :
    (max_size : ℕ) (c : Call) (p : TaskPoolArray) (l : List ℕ) → Holds p l → Keeps max_size c p l
array_step-Holds max_size c p l h =
    subst (λ n. Keeps max_size c (record { task_count = n; pool = p.pool }) l) (sym h.0)
      (step-Keeps max_size c p.pool l h.1)

-- The array pool answers every sequence of calls as a stack of at most `max_size` tasks, from which
-- owner and thieves alike take the newest task.
pub array_replies :
    (max_size : ℕ) (calls : List Call)
    → replies (array_step max_size) empty calls ≡ replies (spec_step (leb max_size) false) [] calls
array_replies max_size calls =
    replies-simulate (array_step max_size) (spec_step (leb max_size) false) Holds
      (array_step-Holds max_size) empty [] calls (refl, tt)
