-- ===== src/Prelude/Blocks.antt =====
-- Where the blocks start when `count` items are dealt to `n` owners as evenly as possible, the
-- first `count % n` owners taking one more.
use Prim.Native.Nat.{ℕ, zero, suc, ◌+◌, ◌-◌, ◌*◌, ◌/◌, ◌%◌, ◌≤◌, ◌<◌, min}
use mathlib.Core.Path.{◌≡◌}
use mathlib.Core.Logic.{◌↔◌}
use native.Mathlib.Nat.{div-add-mod, mod-lt, mod-eq_of_lt}
use native.Mathlib.Decide.{dec_lt}
use native.Mathlib.Omega.{arith}

abbrev pub block_start : ℕ → ℕ → ℕ → ℕ
block_start count n t = t * (count / n) + min t (count % n)

pub block_start-suc :
    (count n t : ℕ)
    → block_start count n (suc t) ≡ block_start count n t + count / n + min 1 (count % n - t)
block_start-suc count n t = omega arith

pub block_start-all : (count n : ℕ) → 0 < n → block_start count n n ≡ count
block_start-all count n h = grind (arith, div-add-mod count n, mod-lt count h)

pub block_start_mono : (count n s t : ℕ) → s ≤ t → block_start count n s ≤ block_start count n t
block_start_mono count n s t h = grind arith

-- Every item lies in the block of some owner below any owner whose block starts after it.
pub block_owner :
    (count n t i : ℕ)
    → i < block_start count n t
    → (s : ℕ) × (s < t) × (block_start count n s ≤ i) × (i < block_start count n (suc s))
block_owner count n zero i h = absurd (omega arith)
block_owner count n (suc t) i h = elim (dec_lt i (block_start count n t)) [
  | yes below ↦ let (s, lt, lo, hi) = block_owner count n t i below in (s, omega arith, lo, hi)
  | no above ↦ (t, omega arith, omega arith, h)
]

-- No item lies in two blocks.
pub block_owner_unique :
    (count n s t i : ℕ)
    → block_start count n s ≤ i
    → i < block_start count n (suc s)
    → block_start count n t ≤ i
    → i < block_start count n (suc t)
    → s ≡ t
block_owner_unique count n s t i a b c d = elim (dec_lt s t) [
  | yes lt ↦ absurd (omega (arith, block_start_mono count n (suc s) t lt))
  | no ge ↦ elim (dec_lt t s) [
    | yes gt ↦ absurd (omega (arith, block_start_mono count n (suc t) s gt))
    | no le ↦ omega arith
  ]
]

few_items : (count n : ℕ) → count < n → (count / n ≡ 0) × (count % n ≡ count)
few_items count n h = grind (arith, div-add-mod count n, mod-eq_of_lt)

many_items : (count n : ℕ) → 0 < n → n ≤ count → 0 < count / n
many_items count n h k = grind (arith, div-add-mod count n, mod-lt count h)

-- An owner below the count has a block that is not empty.
pub block_start-lt :
    (count n t : ℕ) → t < n → t < count → block_start count n t < block_start count n (suc t)
block_start-lt count n t lt has = elim (dec_lt count n) [
  | yes few ↦ omega (arith, few_items count n few)
  | no many ↦ omega (arith, many_items count n (omega arith) (omega arith))
]

-- The block that ends with the items is that of the last owner who has one.
pub block_start-last :
    (count n t : ℕ)
    → t < n
    → t < count
    → (block_start count n (suc t) ≡ count) ↔ (suc t ≡ min count n)
block_start-last count n t lt has = elim (dec_lt count n) [
  | yes few ↦ (λ e. grind (arith, few_items count n few), λ e. grind (arith, few_items count n few))
  | no many ↦ (λ e. ends (omega arith) e, λ e. begins (omega arith))
]
  where
    ends : n ≤ count → block_start count n (suc t) ≡ count → suc t ≡ min count n
    ends many e = elim (dec_lt (suc t) n) [
      | yes more ↦ absurd (
          omega (
            arith,
            block_start_mono count n (suc (suc t)) n more,
            block_start-all count n (omega arith),
            many_items count n (omega arith) many,
          ))
      | no last ↦ omega arith
    ]

    begins : suc t ≡ n → block_start count n (suc t) ≡ count
    begins e = rw e (block_start-all count n (omega arith))

-- An owner with an item is below the count.
pub block_owner_has :
    (count n t i : ℕ)
    → t < n
    → block_start count n t ≤ i
    → i < block_start count n (suc t)
    → t < count
block_owner_has count n t i lt lo hi = elim (dec_lt count n) [
  | yes few ↦ omega (arith, few_items count n few)
  | no many ↦ omega arith
]
