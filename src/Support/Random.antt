-- ===== src/Support/Random.antt =====
-- src/mlfsr32.h: `class mlfsr32`, and the masks of `class randomExponentialBackoff`.
use lomp.Prelude.{
  ℕ, zero, suc, ◌+◌, ◌-◌, ◌*◌, ◌/◌, ◌%◌, ◌^◌, ◌≤◌, ◌<◌, ◌≡◌, sym, ap, ◌∙◌, arith, ◌==◌,
  if◌then◌else◌, ℕ_discrete,
}
use native.Mathlib.Nat.{two-pow-succ}

-- `a ^ b` of the lowest `w` bits, one bit after the other.
unfoldable pub bit_xor : (w a b : ℕ) → ℕ
bit_xor zero a b = 0
bit_xor (suc w) a b = (a + b) % 2 + 2 * bit_xor w (a / 2) (b / 2)

-- The state of a new generator: `address` is that of the argument.
unfoldable pub initial_state : (initial address : ℕ) → ℕ
initial_state initial address =
    let state : ℕ = if initial == 0 then address % 2 ^ 32 else initial in
    if state == 0 then 1 else state

abbrev pub magic : ℕ
magic = 2147483735

-- `getNext`: the state after it, and what it returns.
unfoldable pub next_state : (state : ℕ) → ℕ
next_state state = if state % 2 == 1 then bit_xor 32 (state / 2) magic else state / 2

unfoldable pub get_next : (state : ℕ) → ℕ × ℕ
get_next state = (next_state state, next_state state - 1)

bit_xor-lt : (w a b : ℕ) → bit_xor w a b < 2 ^ w
unfolding bit_xor
bit_xor-lt zero a b = omega arith
bit_xor-lt (suc w) a b = omega (arith, bit_xor-lt w (a / 2) (b / 2), two-pow-succ w)

-- The exclusive or of a constant undoes itself.
bit_xor_twice : (w a b : ℕ) → a < 2 ^ w → bit_xor w (bit_xor w a b) b ≡ a
unfolding bit_xor
bit_xor_twice zero a b lt = omega arith
bit_xor_twice (suc w) a b lt =
    let inner : ((a + b) % 2 + 2 * bit_xor w (a / 2) (b / 2)) / 2 ≡ bit_xor w (a / 2) (b / 2) =
      omega arith in
    let back : bit_xor w (bit_xor w (a / 2) (b / 2)) (b / 2) ≡ a / 2 =
      bit_xor_twice w (a / 2) (b / 2) (omega (arith, two-pow-succ w)) in
    omega (arith, ap (λ x. bit_xor w x (b / 2)) inner, back)

-- Where only the constant has the highest bit, the exclusive or has it.
bit_xor_high : (w a b : ℕ) → a < 2 ^ w → 2 ^ w ≤ b → b < 2 ^ suc w → 2 ^ w ≤ bit_xor (suc w) a b
unfolding bit_xor
bit_xor_high zero a b la lo hi = omega arith
bit_xor_high (suc w) a b la lo hi = omega (
  arith,
  two-pow-succ w,
  bit_xor_high w (a / 2) (b / 2) (omega (arith, two-pow-succ w)) (omega (arith, two-pow-succ w))
      (omega (arith, two-pow-succ w, two-pow-succ (suc w))),
)

-- What `getNext` leaves for an odd state, and for an even one.
next_odd :
    (state : ℕ)
    → state < 2 ^ 32
    → state % 2 ≡ 1
    → (next_state state ≡ bit_xor 32 (state / 2) magic)
      × (2 ^ 31 ≤ next_state state)
      × (next_state state < 2 ^ 32)
unfolding next_state
next_odd state lt odd =
    let is : (if state % 2 == 1 then bit_xor 32 (state / 2) magic else state / 2)
        ≡ bit_xor 32 (state / 2) magic =
      ground (arith, odd) in
    let high = bit_xor_high 31 (state / 2) magic (omega arith) (omega arith) (omega arith) in
    let low = bit_xor-lt 32 (state / 2) magic in
    (is, omega (arith, is, high), omega (arith, is, low))

next_even : (state : ℕ) → state % 2 ≡ 0 → next_state state ≡ state / 2
unfolding next_state
next_even state even = ground (arith, even)

-- From a state that is not zero the generator goes to one that is not zero, and from different ones
-- to different ones, so that it runs through a cycle.
pub get_next_permutes :
    (a b : ℕ)
    → 0 < a
    → a < 2 ^ 32
    → b < 2 ^ 32
    → (0 < next_state a) × (next_state a < 2 ^ 32) × (next_state a ≡ next_state b → a ≡ b)
get_next_permutes a b pos la lb = elim (ℕ_discrete (a % 2) 1) [
  | yes odd ↦
      let (is, high, low) = next_odd a la odd in
      (
        omega arith,
        low,
        λ same. elim (ℕ_discrete (b % 2) 1) [
          | yes odd_b ↦
              let (is_b, _, _) = next_odd b lb odd_b in
              omega (
                arith,
                bit_xor_twice 32 (a / 2) magic (omega arith),
                bit_xor_twice 32 (b / 2) magic (omega arith),
                ap (λ x. bit_xor 32 x magic) (sym is ∙ same ∙ is_b),
              )
          | no even_b ↦ absurd (omega (arith, next_even b (omega arith)))
        ],
      )
  | no even ↦
      let is = next_even a (omega arith) in
      (
        omega arith,
        omega arith,
        λ same. elim (ℕ_discrete (b % 2) 1) [
          | yes odd_b ↦ let (is_b, high, low) = next_odd b lb odd_b in absurd (omega (arith, same))
          | no even_b ↦ omega (arith, next_even b (omega arith), same)
        ],
      )
]

unfoldable pub state_after : (rounds state : ℕ) → ℕ
state_after zero state = state
state_after (suc rounds) state = next_state (state_after rounds state)

initial_state_fits :
    (initial address : ℕ)
    → initial < 2 ^ 32
    → (0 < initial_state initial address) × (initial_state initial address < 2 ^ 32)
unfolding initial_state
initial_state_fits initial address lt = elim (ℕ_discrete initial 0) [
  | yes e ↦ ground (arith, e)
  | no ne ↦ ground (arith, ne)
]

state_after_fits :
    (rounds state : ℕ)
    → (0 < state) × (state < 2 ^ 32)
    → (0 < state_after rounds state) × (state_after rounds state < 2 ^ 32)
unfolding state_after
state_after_fits zero state fits = fits
state_after_fits (suc rounds) state fits =
    let (pos, lt) = state_after_fits rounds state fits in
    let (next_pos, next_lt, _) =
      get_next_permutes (state_after rounds state) 0 pos lt (omega arith) in
    (next_pos, next_lt)

-- Whatever number below `2 ^ 32` a generator is set up with, also where that is 0 and its argument
-- stands at an address that is a multiple of `2 ^ 32`: its state is a number from 1 to `2 ^ 32 - 1`
-- after any number of calls of `getNext`, and the next call returns the state that it leaves less one
-- without a wrap-around.
pub get_next_never_zero :
    (rounds initial address : ℕ)
    → initial < 2 ^ 32
    → let s = state_after rounds (initial_state initial address) in
      (0 < s) × (s < 2 ^ 32) × ((get_next s).1 + 1 ≡ (get_next s).0)
unfolding get_next
get_next_never_zero rounds initial address lt =
    let (pos, fits) = state_after_fits rounds _ (initial_state_fits initial address lt) in
    let (next_pos, _, _) = get_next_permutes _ 0 pos fits (omega arith) in (pos, fits, omega arith)
