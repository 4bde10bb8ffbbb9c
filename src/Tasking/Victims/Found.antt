-- ===== src/Tasking/Victims/Found.antt =====
-- Which task a thread of src/tasking.cc finds in the pools of its team.
use lomp.Prelude.{
  ℕ, zero, suc, ◌+◌, ◌-◌, ◌%◌, ◌<◌, ◌≤◌, ◌≡◌, ◌≢◌, refl, sym, ap, ◌∙◌, subst, dec_lt, ◌⊎◌, inl, inr,
  arith, List, [], ◌∷◌, Option, none, some, length, update, ℕ_discrete,
}
use lomp.Prelude.Words.{wrap_once, wrap_below}
use native.Mathlib.Nat.{mod-lt}
use lomp.Tasking.Pools.Spec.{last?, drop_last}
use lomp.Tasking.Pools.Deque.{deque_get, deque_steal}
use lomp.Tasking.Victims.{
  Pools, found_or, steal_from, steal_loop, neighbours, round_robin_steal, next_task,
}

-- The counters of all pools agree with what the pools hold.
abbrev pub Counted : Pools → Type 0
Counted pools = (v : ℕ) → (pools v).task_count ≡ length (pools v).pool

-- `task` was the oldest in the pool of `v`, and only that pool has changed.
pub record Stolen (before after : Pools) (v task : ℕ) : Type 0 where
  pub oldest : last? (before v).pool ≡ some task
  pub left : (after v).pool ≡ drop_last (before v).pool
  pub others : (w : ℕ) → w ≢ v → after w ≡ before w

abbrev pub Among : ℕ → List ℕ → Type 0
Among x [] = ⊥
Among x (y ∷ l) = (x ≡ y) ⊎ Among x l

-- A loop over the victims finds nothing in pools that are all empty, or takes a task from one.
abbrev pub Outcome : (victims : List ℕ) → Pools → Pools × Option ℕ → Type 0
Outcome victims pools r =
    ((r.1 ≡ none) × (r.0 ≡ pools) × ((v : ℕ) → Among v victims → (pools v).pool ≡ []))
    ⊎ ((v : ℕ) × (task : ℕ) × (r.1 ≡ some task) × Among v victims × Stolen pools r.0 v task)

steal_from-empty :
    (v : ℕ) (pools : Pools)
    → Counted pools
    → (pools v).pool ≡ []
    → ((steal_from v pools).1 ≡ none) × ((steal_from v pools).0 ≡ pools)
unfolding steal_from deque_steal
steal_from-empty v pools counted e = (ground (arith, counted v), λ i w. same w i)
  where
    same : (w : ℕ) → (steal_from v pools).0 w ≡ pools w
    same w = ground (arith, counted v)

last_exists : (x : ℕ) (l : List ℕ) → (t : ℕ) × (last? (x ∷ l) ≡ some t)
last_exists x [] = (x, refl)
last_exists x (y ∷ l) = last_exists y l

steal_from-Stolen :
    (v x : ℕ) (l : List ℕ) (pools : Pools)
    → Counted pools
    → (pools v).pool ≡ x ∷ l
    → (t : ℕ) × ((steal_from v pools).1 ≡ some t) × Stolen pools (steal_from v pools).0 v t
unfolding steal_from deque_steal
steal_from-Stolen v x l pools counted e =
    let (t, is_last) = last_exists x l in
    (
      t,
      ground (arith, counted v),
      record {
        oldest = ground arith;
        left = ground (arith, counted v);
        others = λ w ne. ground arith;
      },
    )

steal_from-cases :
    (v : ℕ) (pools : Pools) (l : List ℕ)
    → Counted pools
    → (pools v).pool ≡ l
    → (((steal_from v pools).1 ≡ none) × ((steal_from v pools).0 ≡ pools) × ((pools v).pool ≡ []))
      ⊎ ((t : ℕ) × ((steal_from v pools).1 ≡ some t) × Stolen pools (steal_from v pools).0 v t)
steal_from-cases v pools [] counted e =
    let (none_left, same) = steal_from-empty v pools counted e in inl (none_left, same, e)
steal_from-cases v pools (x ∷ l) counted e = inr (steal_from-Stolen v x l pools counted e)

steal_loop-skip :
    (v : ℕ) (victims : List ℕ) (pools : Pools)
    → (steal_from v pools).1 ≡ none
    → (steal_from v pools).0 ≡ pools
    → steal_loop (v ∷ victims) pools ≡ steal_loop victims pools
unfolding steal_loop found_or
steal_loop-skip v victims pools none_left same =
    λ i. found_or (same i, none_left i) (λ p. steal_loop victims p)

steal_loop-stop :
    (v t : ℕ) (victims : List ℕ) (pools : Pools)
    → (steal_from v pools).1 ≡ some t
    → steal_loop (v ∷ victims) pools ≡ ((steal_from v pools).0, some t)
unfolding steal_loop found_or
steal_loop-stop v t victims pools got =
    λ i. found_or ((steal_from v pools).0, got i) (λ p. steal_loop victims p)

pub steal_loop-Outcome :
    (victims : List ℕ) (pools : Pools)
    → Counted pools
    → Outcome victims pools (steal_loop victims pools)
unfolding steal_loop
steal_loop-Outcome [] pools counted = inl (refl, refl, λ v in_none. elim in_none [ ])
steal_loop-Outcome (v ∷ victims) pools counted = elim (steal_from-cases v pools _ counted refl) [
  | inl (none_left, same, e) ↦
      subst (Outcome (v ∷ victims) pools) (sym (steal_loop-skip v victims pools none_left same))
        (elim (steal_loop-Outcome victims pools counted) [
          | inl (nothing, kept, all) ↦ inl (
            nothing,
            kept,
            λ u among. elim among [ inl is ↦ ap (λ x. (pools x).pool) is ∙ e | inr a ↦ all u a ],
          )
          | inr (u, t, got, a, st) ↦ inr (u, t, got, inr a, st)
        ])
  | inr (t, got, st) ↦
      subst (Outcome (v ∷ victims) pools) (sym (steal_loop-stop v t victims pools got))
        (inr (v, t, refl, inl refl, st))
]

-- The victim at distance `j` is one of the neighbours.
neighbours-has :
    (n me i rounds j : ℕ) → i ≤ j → j < i + rounds → Among ((me + j) % n) (neighbours n me i rounds)
unfolding neighbours
neighbours-has n me i zero j le lt = absurd (omega arith)
neighbours-has n me i (suc rounds) j le lt = elim (ℕ_discrete i j) [
  | yes e ↦ inl (ap (λ x. (me + x) % n) (sym e))
  | no ne ↦ inr (neighbours-has n me (i + 1) rounds j (omega arith) (omega arith))
]

neighbours-lt : (n me i rounds v : ℕ) → 0 < n → Among v (neighbours n me i rounds) → v < n
unfolding neighbours
neighbours-lt n me i zero v pos a = elim a [ ]
neighbours-lt n me i (suc rounds) v pos (inl e) = omega (arith, mod-lt (me + i) pos)
neighbours-lt n me i (suc rounds) v pos (inr a) = neighbours-lt n me (i + 1) rounds v pos a

neighbours-all : (n me v : ℕ) → me < n → v < n → Among v (neighbours n me 0 n)
neighbours-all n me v me_lt v_lt = elim (dec_lt v me) [
  | yes before ↦
      subst (λ x. Among x (neighbours n me 0 n))
        (wrap_once n v (me + (v + n - me)) v_lt (omega arith))
        (neighbours-has n me 0 n (v + n - me) (omega arith) (omega arith))
  | no after ↦
      subst (λ x. Among x (neighbours n me 0 n)) (wrap_below n v (me + (v - me)) v_lt (omega arith))
        (neighbours-has n me 0 n (v - me) (omega arith) (omega arith))
]

-- What became of the pools of a team of `n`, and the task: all pools were empty, or one of them has
-- lost its oldest task.
abbrev pub Found : (n : ℕ) (before : Pools) → Pools × Option ℕ → Type 0
Found n before (after, task) =
    ((task ≡ none) × (after ≡ before) × ((v : ℕ) → v < n → (before v).pool ≡ []))
    ⊎ ((v : ℕ) × (t : ℕ) × (task ≡ some t) × (v < n) × Stolen before after v t)

-- In a team whose pools' counters agree with what the pools hold, a thread `me` of the `n` that
-- steals round robin finds the pools of all threads empty and
-- changes nothing, or takes the oldest task of one thread's pool and changes no other pool.
pub round_robin_steal-Found :
    {n me : ℕ} {pools : Pools}
    → me < n
    → Counted pools
    → Found n pools (round_robin_steal n me pools)
unfolding round_robin_steal
round_robin_steal-Found {n} {me} {pools} me_lt counted =
    elim (steal_loop-Outcome (neighbours n me 0 n) pools counted) [
      | inl (nothing, kept, all) ↦
          inl (nothing, kept, λ v v_lt. all v (neighbours-all n me v me_lt v_lt))
      | inr (v, t, got, among, st) ↦
          inr (v, t, got, neighbours-lt n me 0 n v (omega arith) among, st)
    ]

own_empty :
    (n me : ℕ) (pools : Pools)
    → Counted pools
    → (pools me).pool ≡ []
    → next_task me (round_robin_steal n me) pools ≡ round_robin_steal n me pools
unfolding next_task found_or deque_get
own_empty n me pools counted e =
    λ i. found_or (λ w. same w i, none_left i) (λ p. round_robin_steal n me p)
  where
    none_left : (deque_get (pools me)).1 ≡ none
    none_left = ground (arith, counted me)

    same : (w : ℕ) → update pools me (deque_get (pools me)).0 w ≡ pools w
    same w = ground (arith, counted me)

own_newest :
    (n me x : ℕ) (l : List ℕ) (pools : Pools)
    → Counted pools
    → (pools me).pool ≡ x ∷ l
    → next_task me (round_robin_steal n me) pools
      ≡ (update pools me (record { task_count = length l; pool = l }), some x)
unfolding next_task found_or deque_get
own_newest n me x l pools counted e =
    λ i. found_or (update pools me (left i), got i) (λ p. round_robin_steal n me p)
  where
    got : (deque_get (pools me)).1 ≡ some x
    got = ground (arith, counted me)

    left : (deque_get (pools me)).0 ≡ record { task_count = length l; pool = l }
    left = ground (arith, counted me)

-- The task that `ScheduleTask` of a thread `me` of a team of `n` invokes, in a team whose pools'
-- counters agree with what the pools hold, if it steals round robin: the
-- newest of the thread's own pool, and where that is empty the oldest of the pool of some thread,
-- unless the pools of all threads are empty. The other pools keep what they hold.
pub next_task-Found :
    (n me : ℕ) (own : List ℕ) (pools : Pools)
    → me < n
    → Counted pools
    → (pools me).pool ≡ own
    → ((x : ℕ) × (l : List ℕ) × (own ≡ x ∷ l)
        × (next_task me (round_robin_steal n me) pools
            ≡ (update pools me (record { task_count = length l; pool = l }), some x)))
      ⊎ ((own ≡ []) × Found n pools (next_task me (round_robin_steal n me) pools))
next_task-Found n me [] pools me_lt counted e = inr (
  refl,
  subst (Found n pools) (sym (own_empty n me pools counted e))
      (round_robin_steal-Found me_lt counted),
)
next_task-Found n me (x ∷ l) pools me_lt counted e =
    inl (x, l, refl, own_newest n me x l pools counted e)
