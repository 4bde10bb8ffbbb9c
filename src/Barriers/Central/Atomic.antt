-- ===== src/Barriers/Central/Atomic.antt =====
-- src/barrier_impl.cc: `class atomicCounter`, as a way to check in.
use lomp.Prelude.{
  ℕ, ◌+◌, ◌%◌, ◌^◌, ◌≤◌, ◌<◌, ◌≡◌, ◌↔◌, refl, arith, Bool, true, false, ◌==◌, if◌then◌else◌, update,
}
use lomp.Prelude.Counting.{
  sum_below, sum_below-change, sum_below-le, sum_below-all, sum_below-const,
}
use lomp.Barriers.Central.Interface.{CheckIn}

pub record AtomicCounter : Type 0 where
  pub present : ℕ
  pub num : ℕ

abbrev pub init : ℕ → AtomicCounter
init count = record { present = 0; num = count }

abbrev pub reset : AtomicCounter → AtomicCounter
reset c = record c { present = 0 }

abbrev pub check_in : (me : ℕ) → AtomicCounter → AtomicCounter
check_in me c = record c { present = (c.present + 1) % 2 ^ 32 }

abbrev pub all_present : AtomicCounter → Bool
all_present c = c.present == c.num

abbrev pub bit : Bool → ℕ
bit b = if b then 1 else 0

bit_small : (b : Bool) → bit b ≤ 1
bit_small true = omega arith
bit_small false = omega arith

bit-true : (b : Bool) → bit b ≡ 1 → b ≡ true
bit-true true e = refl
bit-true false e = absurd (omega arith)

abbrev pub Represents : (n : ℕ) → AtomicCounter → (ℕ → Bool) → Type 0
Represents n c p = (c.num ≡ n) × (c.present ≡ sum_below n (λ j. bit (p j)))

pub check_in-Represents :
    (n i : ℕ) (c : AtomicCounter) (p : ℕ → Bool)
    → n < 2 ^ 32
    → i < n
    → p i ≡ false
    → Represents n c p
    → Represents n (check_in i c) (update p i true)
check_in-Represents n i c p word lt out (num, present) =
    let moved =
      sum_below-change n (λ j. bit (p j)) (λ j. bit (update p i true j)) i lt
        (λ j ne. ground (arith, ne)) in
    let more = sum_below-le n (λ j. bit (update p i true j)) (λ j. bit_small (update p i true j)) in
    (num, ground (arith, moved, more, out))

pub all_present_iff :
    (n : ℕ) (c : AtomicCounter) (p : ℕ → Bool)
    → Represents n c p
    → (all_present c ≡ true) ↔ ((j : ℕ) → j < n → p j ≡ true)
all_present_iff n c p (num, present) = (
  λ is j lt.
      bit-true (p j) (sum_below-all n (λ i. bit (p i)) (λ i. bit_small (p i)) (ground arith) j lt),
  λ all. ground (
    arith,
    sum_below-const n 1 (λ i. bit (p i)) (λ i lt. ground (arith, all i lt)) (omega arith),
  ),
)

pub nobody_present : (n : ℕ) → 0 ≡ sum_below n (λ j. bit false)
nobody_present n = omega (arith, sum_below-const n 0 (λ j. 0) (λ j lt. refl) (omega arith))

-- For a team of fewer than `2 ^ 32` threads.
abbrev pub AtomicCheckIn : (n : ℕ) → n < 2 ^ 32 → CheckIn n
AtomicCheckIn n word = record {
  State = AtomicCounter;
  fresh = init n;
  check_in = check_in;
  polls = 1;
  full = λ k. all_present;
  reset = reset;
  part = λ j. 0;
  part-lt = λ j lt. omega arith;
  Represents = Represents n;
  fresh-Represents = (refl, nobody_present n);
  check_in-Represents = λ i c p lt no h. check_in-Represents n i c p word lt no h;
  reset-Represents = λ c p h. (h.0, nobody_present n);
  full_iff = λ k c p lk h. (
    λ is j lt at. (all_present_iff n c p h).0 is j lt,
    λ all. (all_present_iff n c p h).1 (λ j lt. all j lt (omega arith)),
  );
}
