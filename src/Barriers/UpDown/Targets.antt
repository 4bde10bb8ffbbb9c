-- ===== src/Barriers/UpDown/Targets.antt =====
-- The counters of `class AtomicUpDownBarrier`, src/barrier_impl.cc, against the levels of the
-- threads.
use lomp.Prelude.{ℕ, ◌+◌, ◌%◌, ◌^◌, ◌≤◌, ◌<◌, ◌≡◌, ◌≢◌, inl, inr, arith, Bool-cases}
use lomp.Prelude.Counting.{sum_below, sum_below-all, sum_below-none, sum_below-const}
use lomp.Barriers.Levels.{level, level_small}
use lomp.Barriers.UpDown.{count_idx, count_up, counted, target}

-- A counter that counts to its target has all threads counted.
pub target-all :
    (n b : ℕ) (f : ℕ → ℕ)
    → ((j : ℕ) → j < n → (b ≤ f j) × (f j ≤ b + 2))
    → sum_below n (λ j. level (count_idx b) (f j)) ≡ target n b
    → (j : ℕ) → j < n
    → b < f j
unfolding target
target-all n b f near e j lt = elim (Bool-cases (count_up b)) [
  | inl up ↦
      let full =
        sum_below-all n (λ k. level (count_idx b) (f k)) (λ k. level_small _ (f k)) (rw up at e) j
          lt in
      ground (arith, near j lt)
  | inr down ↦
      let none_left = sum_below-none n (λ k. level (count_idx b) (f k)) (rw down at e) j lt in
      ground (arith, near j lt)
]

-- And where all threads are counted, it is at its target.
pub all-target :
    (n b : ℕ) (f : ℕ → ℕ)
    → ((j : ℕ) → j < n → (b < f j) × (f j ≤ b + 2))
    → sum_below n (λ j. level (count_idx b) (f j)) ≡ target n b
unfolding target
all-target n b f near = elim (Bool-cases (count_up b)) [
  | inl up ↦ rw up (
      grind (
        arith,
        sum_below-const n 1 (λ j. level (count_idx b) (f j)) (λ j lt. ground (arith, near j lt))
            (omega arith),
      ))
  | inr down ↦ rw down (
      grind (
        arith,
        sum_below-const n 0 (λ j. level (count_idx b) (f j)) (λ j lt. ground (arith, near j lt))
            (omega arith),
      ))
]

-- The counter of the thread's barrier goes to the next level.
pub level-counted :
    (b c total total' n : ℕ)
    → n ≤ 256
    → total ≤ n
    → total' ≤ n
    → c ≡ b % 2 ^ 32
    → (a a' : ℕ) → a ≡ b
    → a' ≡ b + 1
    → total' + level (count_idx c) a ≡ total + level (count_idx c) a'
    → counted c total ≡ total'
unfolding counted
level-counted b c total total' n few small small' e a a' is is' change = ground arith

-- The other counter stays.
pub level-other :
    (b c q a a' : ℕ)
    → q < 2
    → c ≡ b % 2 ^ 32
    → count_idx c ≢ q
    → a ≡ b
    → a' ≡ b + 1
    → level q a ≡ level q a'
level-other b c q a a' lt e ne is is' = ground arith

pub target-number : (n b : ℕ) → target n (b % 2 ^ 32) ≡ target n b
unfolding target
target-number n b = ground arith
