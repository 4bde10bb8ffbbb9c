-- ===== src/Tasking/Victims.antt =====
-- src/tasking.cc: the three ways to steal a task (`RoundRobinStealTask`, `RandomStealTask`,
-- `NumaStealStask`) and the part of `ScheduleTask` that chooses the next task, on the deque pools of
-- the threads of a team. Each call on a pool runs under the pool's lock; the loops are here without
-- the calls of other threads between their rounds.
pub mod Found
pub mod Numa
use lomp.Prelude.{
  ℕ, zero, suc, ◌+◌, ◌-◌, ◌%◌, Bool, true, false, ◌&&◌, not, List, [], ◌∷◌, ◌++◌, Option, none,
  some, ◌==◌, if◌then◌else◌, update,
}
use lomp.Tasking.Pools.Deque.{TaskPoolDeque, deque_get, deque_steal}

abbrev pub Pools : Type 0
Pools = ℕ → TaskPoolDeque

unfoldable pub steal_from : (victim : ℕ) → Pools → Pools × Option ℕ
steal_from victim pools = let (p, r) = deque_steal (pools victim) in (update pools victim p, r)

-- A task is kept; where there is none, the code goes on.
unfoldable pub found_or : Pools × Option ℕ → (Pools → Pools × Option ℕ) → Pools × Option ℕ
found_or (pools, some task) next = (pools, some task)
found_or (pools, none) next = next pools

-- A loop that goes on to the next victim as long as there is no task.
unfoldable pub steal_loop : (victims : List ℕ) → Pools → Pools × Option ℕ
steal_loop [] pools = (pools, none)
steal_loop (v ∷ victims) pools = found_or (steal_from v pools) (λ p. steal_loop victims p)

-- The victims of the rounds `i`, `i + 1`, ... of the loop, `rounds` of them.
unfoldable pub neighbours : (team_size me i rounds : ℕ) → List ℕ
neighbours team_size me i zero = []
neighbours team_size me i (suc rounds) =
    (me + i) % team_size ∷ neighbours team_size me (i + 1) rounds

unfoldable pub round_robin_steal : (team_size me : ℕ) → Pools → Pools × Option ℕ
round_robin_steal team_size me pools = steal_loop (neighbours team_size me 0 team_size) pools

-- `rnd` is the thread's `nextRandom`.
unfoldable pub random_steal : (team_size me rnd : ℕ) → Pools → Pools × Option ℕ
random_steal team_size me rnd pools = steal_from ((me + rnd) % team_size) pools

-- The threads on a domain's cores, but for the thief's own core and the cores that run no thread.
unfoldable pub domain_victims :
    (thread_for_core : ℕ → Option ℕ) (my_core : ℕ) (cores : List ℕ) → List ℕ
domain_victims thread_for_core my_core [] = []
domain_victims thread_for_core my_core (c ∷ cores) =
    let rest = domain_victims thread_for_core my_core cores in
    if my_core == c then rest else elim (thread_for_core c) [ none ↦ rest | some v ↦ v ∷ rest ]

-- The victims in the domains `my_domain + domain` and after, `rounds` of them.
unfoldable pub numa_victims :
    (thread_for_core : ℕ → Option ℕ) (cores_for_domain : ℕ → List ℕ)
    (number_of_domains my_core my_domain domain rounds : ℕ)
    → List ℕ
numa_victims thread_for_core cores_for_domain number_of_domains my_core my_domain domain zero = []
numa_victims thread_for_core cores_for_domain number_of_domains my_core my_domain domain
      (suc rounds) =
    domain_victims thread_for_core my_core
      (cores_for_domain ((my_domain + domain) % number_of_domains))
    ++ numa_victims thread_for_core cores_for_domain number_of_domains my_core my_domain
        (domain + 1) rounds

-- The tables of src/numa_support.h are parameters; `my_core` is `none` where it is not known.
unfoldable pub numa_steal :
    (thread_for_core : ℕ → Option ℕ) (cores_for_domain : ℕ → List ℕ) (domain_of_core : ℕ → ℕ)
    (number_of_domains : ℕ) (my_core : Option ℕ)
    → Pools
    → Pools × Option ℕ
numa_steal thread_for_core cores_for_domain domain_of_core number_of_domains none pools =
    (pools, none)
numa_steal thread_for_core cores_for_domain domain_of_core number_of_domains (some my_core) pools =
    steal_loop
      (numa_victims thread_for_core cores_for_domain number_of_domains my_core
        (domain_of_core my_core) 0 number_of_domains)
      pools

-- What `ScheduleTask` then invokes, `steal_task` being one of the above.
unfoldable pub next_task :
    (me : ℕ) (steal_task : Pools → Pools × Option ℕ) → Pools → Pools × Option ℕ
next_task me steal_task pools =
    let (p, own) = deque_get (pools me) in found_or (update pools me p, own) steal_task
