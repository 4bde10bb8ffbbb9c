-- ===== src/Prelude/Lists.antt =====
-- Lists measured and indexed by native numbers, and how often a number lies in listed ranges.
use Prim.Native.Nat.{ℕ, zero, suc, ◌+◌, ◌<◌}
use mathlib.Core.Path.{◌≡◌}
use mathlib.Core.Bool.{◌&&◌}
use mathlib.Core.List.{List, [], ◌∷◌, ◌++◌}
use mathlib.Core.Option.{Option, none, some}
use native.Mathlib.Omega.{arith}
use lomp.Prelude.Tests.{ltb, leb, if◌then◌else◌}

module _ {ℓ} {A : Type ℓ} where
  abbrev pub length : List A → ℕ
  length [] = 0
  length (x ∷ xs) = suc (length xs)

  abbrev pub get_elem? : List A → ℕ → Option A
  get_elem? [] i = none
  get_elem? (x ∷ xs) zero = some x
  get_elem? (x ∷ xs) (suc i) = get_elem? xs i

  pub length-append : (xs ys : List A) → length (xs ++ ys) ≡ length xs + length ys
  length-append [] ys = omega arith
  length-append (x ∷ xs) ys = omega (arith, length-append xs ys)

-- 1 for a number of the half-open range `[lo, hi)`, 0 for any other.
abbrev pub within : ℕ → ℕ → ℕ → ℕ
within lo hi i = if leb lo i && ltb i hi then 1 else 0

-- How many of the listed ranges hold a number.
abbrev pub claims : ℕ → List (ℕ × ℕ) → ℕ
claims i [] = 0
claims i ((lo, hi) ∷ l) = within lo hi i + claims i l

-- Every listed number is below `m`.
abbrev pub AllBelow : ℕ → List ℕ → Type 0
AllBelow m [] = Unit {0}
AllBelow m (t ∷ l) = (t < m) × AllBelow m l

-- A name that has been given out, or none.
abbrev pub Known : (names : ℕ) → Option ℕ → Type 0
Known names none = Unit {0}
Known names (some x) = x < names
