-- ===== src/Examples/Stealing.antt =====
-- Examples of src/tasking.cc: a team of three threads, of which the thread 2 has two tasks.
use lomp.Prelude.{ℕ, ◌+◌, ◌*◌, arith, List, [], ◌∷◌, update, ℕ_discrete}
use lomp.Tasking.Pools.Deque.{empty}
use lomp.Tasking.Victims.{Pools, round_robin_steal}
use lomp.Tasking.Victims.Found.{Counted, Found, round_robin_steal-Found}

abbrev newest_first : List ℕ
newest_first = 8 ∷ 7 ∷ []

abbrev two_tasks : Pools
two_tasks = update (λ _. empty) 2 (record { task_count = 2; pool = newest_first })

two_tasks-Counted : Counted two_tasks
unfolding ℕ_discrete
two_tasks-Counted v = ground arith

round_robin_steal-Found_example : Found 3 two_tasks (round_robin_steal 3 1 two_tasks)
round_robin_steal-Found_example = round_robin_steal-Found (omega arith) two_tasks-Counted

-- Two domains of two cores, and thread `i` on core `i`.
abbrev cores : ℕ → List ℕ
cores d = (d * 2) ∷ (d * 2 + 1) ∷ []
