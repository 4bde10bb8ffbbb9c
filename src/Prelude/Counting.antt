-- ===== src/Prelude/Counting.antt =====
-- Sums over the threads `0 .. n - 1` of a team, and how they change where one thread moves.
use Prim.Native.Nat.{ℕ, zero, suc, ◌+◌, ◌*◌, ◌≤◌, ◌<◌}
use mathlib.Core.Path.{◌≡◌, refl}
use mathlib.Core.Logic.{◌≢◌}
use native.Mathlib.Decide.{ℕ_discrete}
use native.Mathlib.Omega.{arith}

unfoldable pub sum_below : ℕ → (ℕ → ℕ) → ℕ
sum_below zero f = 0
sum_below (suc n) f = f n + sum_below n f

pub sum_below-same :
    (n : ℕ) (f g : ℕ → ℕ) → ((j : ℕ) → j < n → f j ≡ g j) → sum_below n f ≡ sum_below n g
unfolding sum_below
sum_below-same zero f g same = refl
sum_below-same (suc n) f g same =
    omega (arith, same n (omega arith), sum_below-same n f g (λ j lt. same j (omega arith)))

-- Two families that differ at one thread at most.
pub sum_below-change :
    (n : ℕ) (f g : ℕ → ℕ) (i : ℕ)
    → i < n
    → ((j : ℕ) → j ≢ i → f j ≡ g j)
    → sum_below n g + f i ≡ sum_below n f + g i
unfolding sum_below
sum_below-change zero f g i lt same = absurd (omega arith)
sum_below-change (suc n) f g i lt same = elim (ℕ_discrete n i) [
  | yes e ↦
      let rest = sum_below-same n f g (λ j below. same j (omega arith)) in grind (arith, rest, e)
  | no ne ↦ omega (arith, same n ne, sum_below-change n f g i (omega arith) same)
]

pub sum_below-le : (n : ℕ) (f : ℕ → ℕ) → ((j : ℕ) → f j ≤ 1) → sum_below n f ≤ n
unfolding sum_below
sum_below-le zero f small = omega arith
sum_below-le (suc n) f small = omega (arith, small n, sum_below-le n f small)

-- A sum that is as large as it can be has every thread.
pub sum_below-all :
    (n : ℕ) (f : ℕ → ℕ) → ((j : ℕ) → f j ≤ 1) → sum_below n f ≡ n → (j : ℕ) → j < n → f j ≡ 1
unfolding sum_below
sum_below-all zero f small e j lt = absurd (omega arith)
sum_below-all (suc n) f small e j lt = elim (ℕ_discrete j n) [
  | yes is ↦ grind (arith, small n, sum_below-le n f small, is)
  | no ne ↦ sum_below-all n f small (omega (arith, small n, sum_below-le n f small)) j (omega arith)
]

pub sum_below-none : (n : ℕ) (f : ℕ → ℕ) → sum_below n f ≡ 0 → (j : ℕ) → j < n → f j ≡ 0
unfolding sum_below
sum_below-none zero f e j lt = absurd (omega arith)
sum_below-none (suc n) f e j lt = elim (ℕ_discrete j n) [
  | yes is ↦ grind (arith, is)
  | no ne ↦ sum_below-none n f (omega arith) j (omega arith)
]

pub sum_below-const :
    (n c : ℕ) (f : ℕ → ℕ) → ((j : ℕ) → j < n → f j ≡ c) → c ≤ 1 → sum_below n f ≡ (n * c)
unfolding sum_below
sum_below-const zero c f all small = omega arith
sum_below-const (suc n) c f all small =
    grind (arith, all n, sum_below-const n c f (λ j lt. all j (omega arith)) small)
