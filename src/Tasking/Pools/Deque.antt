-- ===== src/Tasking/Pools/Deque.antt =====
-- src/tasking.cc: `struct TaskPoolDeque`. The head of the list is the back of the `std::deque`.
use lomp.Prelude.{
  ℕ, ◌+◌, ◌-◌, ◌≡◌, refl, Bool, true, false, List, [], ◌∷◌, Option, none, arith, ltb, leb,
  if◌then◌else◌, length,
}
use lomp.Tasking.Pools.Spec.{
  Call, put, get, steal, Reply, stored, given, head?, tail, last?, drop_last, spec_step, replies,
}
use lomp.Tasking.Pools.Simulation.{replies-simulate}

pub record TaskPoolDeque : Type 0 where
  pub task_count : ℕ
  pub pool : List ℕ

abbrev pub empty : TaskPoolDeque
empty = record { task_count = 0; pool = [] }

deque_put : (max_size task : ℕ) → TaskPoolDeque → TaskPoolDeque × Bool
deque_put max_size task p =
    if leb max_size p.task_count
    then (p, false)
    else (record { task_count = p.task_count + 1; pool = task ∷ p.pool }, true)

unfoldable pub deque_get : TaskPoolDeque → TaskPoolDeque × Option ℕ
deque_get p =
    if ltb 0 p.task_count
    then (record { task_count = p.task_count - 1; pool = tail p.pool }, head? p.pool)
    else (p, none)

unfoldable pub deque_steal : TaskPoolDeque → TaskPoolDeque × Option ℕ
deque_steal p =
    if ltb 0 p.task_count
    then (record { task_count = p.task_count - 1; pool = drop_last p.pool }, last? p.pool)
    else (p, none)

unfoldable pub deque_step : (max_size : ℕ) → Call → TaskPoolDeque → TaskPoolDeque × Reply
unfolding deque_put deque_get deque_steal
deque_step max_size (put task) p = let (p', r) = deque_put max_size task p in (p', stored r)
deque_step max_size get p = let (p', r) = deque_get p in (p', given r)
deque_step max_size steal p = let (p', r) = deque_steal p in (p', given r)

abbrev Holds : TaskPoolDeque → List ℕ → Type 0
Holds p l = (p.task_count ≡ length l) × (p.pool ≡ l)

length-drop_last : (x : ℕ) (l : List ℕ) → length (drop_last (x ∷ l)) ≡ length l
length-drop_last x [] = refl
length-drop_last x (y ∷ l) = omega (arith, length-drop_last y l)

deque_step-Holds :
    (max_size : ℕ) (c : Call) (p : TaskPoolDeque) (l : List ℕ)
    → Holds p l
    → Holds (deque_step max_size c p).0 (spec_step (leb max_size) true c l).0
      × ((deque_step max_size c p).1 ≡ (spec_step (leb max_size) true c l).1)
unfolding deque_step spec_step
deque_step-Holds max_size (put task) p l h = ground arith
deque_step-Holds max_size get p [] h = ground arith
deque_step-Holds max_size get p (x ∷ l) h = ground arith
deque_step-Holds max_size steal p [] h = ground arith
deque_step-Holds max_size steal p (x ∷ l) h = ground (arith, length-drop_last x l)

-- The deque pool answers every sequence of calls as a list that holds at most `max_size` tasks, from
-- which the owner takes the newest task and a thief the oldest.
pub deque_replies :
    (max_size : ℕ) (calls : List Call)
    → replies (deque_step max_size) empty calls ≡ replies (spec_step (leb max_size) true) [] calls
deque_replies max_size calls =
    replies-simulate (deque_step max_size) (spec_step (leb max_size) true) Holds
      (deque_step-Holds max_size) empty [] calls (refl, refl)
