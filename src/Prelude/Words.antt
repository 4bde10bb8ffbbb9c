-- ===== src/Prelude/Words.antt =====
-- Remainders by a modulus `m`, the wrap-around of a machine word of `m` values.
use Prim.Native.Nat.{ℕ, ◌+◌, ◌*◌, ◌/◌, ◌%◌, ◌≤◌, ◌<◌}
use mathlib.Core.Path.{◌≡◌}
use mathlib.Core.Logic.{◌↔◌}
use native.Mathlib.Nat.{mod-eq_of_lt, mod-eq-sub-mod, div-add-mod, mod-lt}
use native.Mathlib.Omega.{arith}

-- A value that fits is kept.
pub wrap_below : (m x y : ℕ) → x < m → y ≡ x → y % m ≡ x
wrap_below m x y h e = grind (arith, mod-eq_of_lt)

-- One modulus too many is taken off.
pub wrap_once : (m x y : ℕ) → x < m → y ≡ x + m → y % m ≡ x
wrap_once m x y h e = grind (arith, mod-eq_of_lt, mod-eq-sub-mod)

-- The bounds that make `q` the quotient of `n` by `d`.
pub div_unique : (n d q : ℕ) → 0 < d → q * d ≤ n → n < q * d + d → n / d ≡ q
div_unique n d q h lo hi = grind (arith, div-add-mod n d, mod-lt n h)

pub div_bounds : (n d : ℕ) → 0 < d → (n / d * d ≤ n) × (n < n / d * d + d)
div_bounds n d h = grind (arith, div-add-mod n d, mod-lt n h)

pub mul_mono : (a b d : ℕ) → a ≤ b → a * d ≤ b * d
mul_mono a b d h = grind arith

pub mul_reflects : (a b d : ℕ) → a * d < b * d → a < b
mul_reflects a b d h = grind arith

pub le-div_iff : (a x d : ℕ) → 0 < d → (a * d ≤ x) ↔ (a ≤ x / d)
le-div_iff a x d h = (
  λ p. le_of_lt_suc (mul_reflects a (x / d + 1) d (omega (arith, div_bounds x d h))),
  λ p. omega (arith, div_bounds x d h, mul_mono a (x / d) d p),
)
  where
    le_of_lt_suc : a < x / d + 1 → a ≤ x / d
    le_of_lt_suc q = omega arith

pub div-le_iff : (b x d : ℕ) → 0 < d → (x < (b + 1) * d) ↔ (x / d ≤ b)
div-le_iff b x d h = (
  λ p. le_of_lt_suc (mul_reflects (x / d) (b + 1) d (omega (arith, div_bounds x d h))),
  λ p. omega (arith, div_bounds x d h, mul_mono (x / d) b d p),
)
  where
    le_of_lt_suc : x / d < b + 1 → x / d ≤ b
    le_of_lt_suc q = omega arith
