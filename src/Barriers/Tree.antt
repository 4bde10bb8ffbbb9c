-- ===== src/Barriers/Tree.antt =====
-- src/barrier_impl.cc: the shape of the tree of `class fixedTreeCheckIn`, as `init` computes it.
use lomp.Prelude.{
  ℕ, zero, suc, ◌+◌, ◌-◌, ◌*◌, ◌/◌, ◌≤◌, ◌<◌, ◌≡◌, ◌↔◌, ◌∙◌, ap, arith, ltb, leb, ◌==◌, ◌&&◌,
  if◌then◌else◌, ℕ_discrete,
}
use lomp.Prelude.Counting.{sum_below}
use native.Mathlib.Nat.{suc-mul, mul-add, le-div_iff_mul-le, div-lt_iff_lt-mul, mul_comm}

-- For a thread other than the root.
unfoldable pub parent : (branching_factor me : ℕ) → ℕ
parent branching_factor me = (me + branching_factor - 1) / branching_factor - 1

unfoldable pub num_children : (branching_factor num_threads me : ℕ) → ℕ
num_children branching_factor num_threads me =
    if ltb (branching_factor * me) num_threads
    then if leb num_threads (branching_factor * (me + 1))
      then num_threads - me * branching_factor - 1
      else branching_factor
    else 0

in_range : (low width j : ℕ) → ℕ
in_range low width j = if ltb low j && leb j (low + width) then 1 else 0

range_size :
    (low width n : ℕ)
    → sum_below n (in_range low width)
      ≡ (if leb n (low + 1) then 0 else if leb n (low + width + 1) then n - low - 1 else width)
unfolding sum_below in_range
range_size low width zero = ground arith
range_size low width (suc n) = ground (arith, range_size low width n)

root_out_of_range : (low width j : ℕ) → j ≡ 0 → in_range low width j ≡ 0
unfolding in_range
root_out_of_range low width j e = ground arith

parent-range :
    (b me j : ℕ) → 0 < b → 0 < j → (if parent b j == me then 1 else 0) ≡ in_range (b * me) b j
unfolding parent in_range
parent-range b me j pos some_j =
    let q : ℕ = (j + b - 1) / b in
    let at_least : (me + 1 ≤ q) ↔ ((me + 1) * b ≤ j + b - 1) = le-div_iff_mul-le pos in
    let below : (q < me + 2) ↔ (j + b - 1 < (me + 2) * b) = div-lt_iff_lt-mul pos in
    let some_q : (1 ≤ q) ↔ (1 * b ≤ j + b - 1) = le-div_iff_mul-le pos in
    let one_more : (me + 1) * b ≡ b * me + b =
      ap (λ m. m * b) {y = suc me} (omega arith) ∙ suc-mul me b ∙ ap (λ p. p + b) (mul_comm me b) in
    let two_more : (me + 2) * b ≡ b * me + b + b =
      ap (λ m. m * b) {y = suc (me + 1)} (omega arith)
      ∙ suc-mul (me + 1) b
      ∙ ap (λ p. p + b) one_more in
    ground (arith, at_least, below, some_q, one_more, two_more)

-- The number of children that a thread waits for is the number of threads of the team, the root
-- left out, that report to it.
pub num_children-parent :
    (b n me : ℕ)
    → 0 < b
    → sum_below n (λ j. if ltb 0 j && parent b j == me then 1 else 0) ≡ num_children b n me
unfolding num_children
num_children-parent b n me pos =
    ap (sum_below n) (λ k j. reports j k)
    ∙ range_size (b * me) b n
    ∙ ground (arith, mul_comm me b, next)
  where
    next : b * (me + 1) ≡ b * me + b
    next = mul-add b me 1 ∙ omega arith

    reports : (j : ℕ) → (if ltb 0 j && parent b j == me then 1 else 0) ≡ in_range (b * me) b j
    reports j = elim (ℕ_discrete j 0) [
      | yes root ↦ ground (arith, root_out_of_range (b * me) b j root)
      | no ne ↦ ground (arith, parent-range b me j pos (omega arith))
    ]

-- A thread whose counter is set up without a child is the one that would have the next thread as its
-- first child.
pub num_children-zero :
    (b n me : ℕ) → 0 < b → b * me < n → (num_children b n me ≡ 0) ↔ (n ≡ b * me + 1)
unfolding num_children
num_children-zero b n me pos lt =
    let next : b * (me + 1) ≡ b * me + b = mul-add b me 1 ∙ omega arith in
    ground (arith, mul_comm me b, next)
