-- ===== src/Support/Logarithm.antt =====
-- src/barrier_impl.cc: `power` and `ceilingLogN`, with which the barriers find the depth of their
-- trees. The products are those of `int` that do not overflow.
use lomp.Prelude.{
  ℕ, zero, suc, ◌+◌, ◌*◌, ◌^◌, ◌≤◌, ◌<◌, ◌≡◌, ap, sym, ◌∙◌, subst, Option, none, some, arith, ltb,
  ◌==◌, if◌then◌else◌, dec_lt, ℕ_discrete, lt→ltb,
}
use native.Mathlib.Nat.{pow-suc, pow-zero}

-- The loop of `power`, `n` more rounds.
unfoldable pub power_loop : (base n value : ℕ) → ℕ
power_loop base zero value = value
power_loop base (suc n) value = power_loop base n (value * base)

-- A shift by `k` bits is a product with `2 ^ k`.
unfoldable pub power : (base n : ℕ) → ℕ
power base n =
    if base == 2
    then 1 * 2 ^ n
    else if base == 4
    then 1 * 2 ^ (2 * n)
    else if base == 8
    then 1 * 2 ^ (3 * n)
    else power_loop base n 1

-- The loop of `ceilingLogN` from `i` and `p` on; `none` is out of fuel.
unfoldable pub log_loop : (fuel base value i p : ℕ) → Option ℕ
log_loop zero base value i p = none
log_loop (suc fuel) base value i p =
    let rest = log_loop fuel base value (i + 1) (p * base) in if ltb p value then rest else some i

unfoldable pub ceiling_log : (fuel base value : ℕ) → Option ℕ
ceiling_log fuel base value = if value == 1 then some 0 else log_loop fuel base value 1 base

pow_pos : (base k : ℕ) → 2 ≤ base → 0 < base ^ k
pow_pos base zero big = omega (arith, pow-zero base)
pow_pos base (suc k) big = grind (arith, pow-suc base k, pow_pos base k big)

pow_grows : (base k : ℕ) → 2 ≤ base → base ^ k < base ^ (k + 1)
pow_grows base k big = grind (arith, pow-suc base k, pow_pos base k big)

-- A number is the least power of the base that reaches the value.
abbrev pub Least : (base value k : ℕ) → Type 0
Least base value k = (value ≤ base ^ k) × ((j : ℕ) → k ≡ j + 1 → base ^ j < value)

one_more : (base k : ℕ) → base ^ k * base ≡ base ^ (k + 1)
one_more base k = grind (arith, pow-suc base k)

log_loop-Least :
    (fuel base value j : ℕ)
    → 2 ≤ base
    → value ≤ base ^ j + fuel
    → base ^ j < value
    → (k : ℕ) × (log_loop fuel base value (j + 1) (base ^ (j + 1)) ≡ some k) × Least base value k
unfolding log_loop
log_loop-Least zero base value j big enough below = absurd (omega arith)
log_loop-Least (suc fuel) base value j big enough below = elim (dec_lt (base ^ (j + 1)) value) [
  | yes lt ↦
      let (k, eq, least) =
        log_loop-Least fuel base value (j + 1) big (omega (arith, pow_grows base j big)) lt in
      (
        k,
        rw (lt→ltb _ _ lt) (ap (log_loop fuel base value (j + 1 + 1)) (one_more base (j + 1)) ∙ eq),
        least,
      )
  | no ge ↦
      (j + 1, ground arith, (omega arith, λ i e. subst (λ x. base ^ x < value) (same i e) below))
]
  where
    same : (i : ℕ) → j + 1 ≡ i + 1 → j ≡ i
    same i e = omega arith

log_steps :
    (base value : ℕ)
    → 2 ≤ base
    → 1 < value
    → (k : ℕ) × (log_loop value base value 1 base ≡ some k) × Least base value k
log_steps base value big more =
    let (k, eq, least) =
      log_loop-Least value base value 0 big (omega arith) (omega (arith, pow-zero base)) in
    (
      k,
      ap (log_loop value base value 1) (sym (grind (arith, pow-suc base 0, pow-zero base))) ∙ eq,
      least,
    )

-- `ceilingLogN` ends for every base of at least 2 and every value of at least 1, after at most as
-- many rounds as the value, and gives the least exponent for which the power of the base reaches
-- the value: the depth of a tree with that fan-in and enough leaves.
pub ceiling_log-Least :
    (base value : ℕ)
    → 2 ≤ base
    → 0 < value
    → (k : ℕ) × (ceiling_log value base value ≡ some k) × Least base value k
unfolding ceiling_log
ceiling_log-Least base value big pos = elim (ℕ_discrete value 1) [
  | yes e ↦ (0, ground arith, (omega (arith, pow-zero base), λ j h. absurd (omega arith)))
  | no ne ↦ let (k, eq, least) = log_steps base value big (omega arith) in (k, ground arith, least)
]

regroup : (v b p : ℕ) → v * b * p ≡ v * (p * b)
regroup v b p = grind arith

power_loop-pow : (base n value : ℕ) → power_loop base n value ≡ value * base ^ n
unfolding power_loop
power_loop-pow base zero value = grind (arith, pow-zero base)
power_loop-pow base (suc n) value =
    power_loop-pow base n (value * base)
    ∙ regroup value base (base ^ n)
    ∙ ap (λ q. value * q) (sym (pow-suc base n))

associate : (x y z : ℕ) → x * y * z ≡ x * (y * z)
associate x y z = grind arith

pow_add : (b a m : ℕ) → b ^ (a + m) ≡ b ^ a * b ^ m
pow_add b a zero = ap (λ e. b ^ e) {y = a} (omega arith) ∙ grind (arith, pow-zero b)
pow_add b a (suc m) =
    ap (λ e. b ^ e) {y = suc (a + m)} (omega arith)
    ∙ pow-suc b (a + m)
    ∙ ap (λ q. q * b) (pow_add b a m)
    ∙ associate (b ^ a) (b ^ m) b
    ∙ ap (λ q. b ^ a * q) (sym (pow-suc b m))

-- A shift by `k` bits a round.
shifts : (k n : ℕ) → 1 * 2 ^ (k * n) ≡ (2 ^ k) ^ n
shifts k zero = grind (arith, pow-zero 2, pow-zero (2 ^ k))
shifts k (suc n) =
    ap (λ e. 1 * 2 ^ e) {y = k * n + k} (grind arith)
    ∙ grind (arith, pow_add 2 (k * n) k, shifts k n, pow-suc (2 ^ k) n)

-- `power`, by its three shortcuts and by its loop, is the power.
pub power-pow : (base n : ℕ) → power base n ≡ base ^ n
unfolding power
power-pow base n = elim (ℕ_discrete base 2) [
  | yes e ↦ subst (λ b. power b n ≡ b ^ n) (sym e) (omega arith)
  | no n2 ↦ elim (ℕ_discrete base 4) [
    | yes e ↦ subst (λ b. power b n ≡ b ^ n) (sym e) (shifts 2 n)
    | no n4 ↦ elim (ℕ_discrete base 8) [
      | yes e ↦ subst (λ b. power b n ≡ b ^ n) (sym e) (shifts 3 n)
      | no n8 ↦ ground (arith, power_loop-pow base n 1)
    ]
  ]
]
