-- ===== src/Barriers/FixedTree/Counters.antt =====
-- What `class fixedTreeCheckIn` of src/barrier_impl.cc expects of its template parameter `counter`,
-- and the two counters that it is used with.
use lomp.Prelude.{
  ℕ, ◌+◌, ◌-◌, ◌*◌, ◌/◌, ◌^◌, ◌≤◌, ◌<◌, ◌≡◌, ◌↔◌, refl, ◌∙◌, ap, arith, Bool, true, false, update,
  if◌then◌else◌,
}
use lomp.Prelude.Counting.{sum_below-same}
use lomp.Barriers.Central.Atomic
use lomp.Barriers.Central.Atomic.{AtomicCounter, bit, nobody_present, all_present_iff}
use lomp.Barriers.Central.Flags
use lomp.Barriers.Central.Flags.{FlagCounter, init-Represents, word_full_iff, present}

-- A counter for at least one and at most `most` threads: `Represents count s p` says that since the
-- last reset the children `j < count` with `p j` have checked in.
pub record Counter : Type 1 where
  pub State : Type 0
  pub most : ℕ
  pub init : ℕ → State
  pub check_in : ℕ → State → State
  pub polls : (count : ℕ) → ℕ
  pub full : ℕ → State → Bool
  pub reset : State → State
  pub part : ℕ → ℕ
  pub part-lt : (count j : ℕ) → j < count → part j < polls count
  pub Represents : (count : ℕ) → State → (ℕ → Bool) → Type 0
  pub Represents-same :
      (count : ℕ) (s : State) (p q : ℕ → Bool)
      → ((j : ℕ) → j < count → p j ≡ q j)
      → Represents count s p
      → Represents count s q
  pub init-Represents :
      (count : ℕ) → 0 < count → count ≤ most → Represents count (init count) (λ _. false)
  pub check_in-Represents :
      (count i : ℕ) (s : State) (p : ℕ → Bool)
      → count ≤ most
      → i < count
      → p i ≡ false
      → Represents count s p
      → Represents count (check_in i s) (update p i true)
  pub reset-Represents :
      (count : ℕ) (s : State) (p : ℕ → Bool)
      → 0 < count
      → count ≤ most
      → Represents count s p
      → Represents count (reset s) (λ _. false)
  pub full_iff :
      (count k : ℕ) (s : State) (p : ℕ → Bool)
      → k < polls count
      → Represents count s p
      → (full k s ≡ true) ↔ ((j : ℕ) → j < count → part j ≡ k → p j ≡ true)

-- `atomicCounter`, in a tree of fewer than `2 ^ 32` children.
abbrev pub AtomicTreeCounter : Counter
AtomicTreeCounter = record {
  State = AtomicCounter;
  most = 2 ^ 32 - 1;
  init = Atomic.init;
  check_in = Atomic.check_in;
  polls = λ count. 1;
  full = λ k. Atomic.all_present;
  reset = Atomic.reset;
  part = λ j. 0;
  part-lt = λ count j lt. omega arith;
  Represents = Atomic.Represents;
  Represents-same = λ count s p q same h. (
    h.0,
    h.1 ∙ sum_below-same count (λ j. bit (p j)) (λ j. bit (q j)) (λ j lt. ap bit (same j lt)),
  );
  init-Represents = λ count pos le. (refl, nobody_present count);
  check_in-Represents =
      λ count i s p le lt out h. Atomic.check_in-Represents count i s p (omega arith) lt out h;
  reset-Represents = λ count s p pos le h. (h.0, nobody_present count);
  full_iff = λ count k s p lk h. (
    λ is j lt at. (all_present_iff count s p h).0 is j lt,
    λ all. (all_present_iff count s p h).1 (λ j lt. all j lt (omega arith)),
  );
}

pub bytes-same :
    (count : ℕ) (s : FlagCounter) (p q : ℕ → Bool)
    → ((j : ℕ) → j < count → p j ≡ q j)
    → Flags.Represents count s p
    → Flags.Represents count s q
bytes-same count s p q same h = record {
  mask_is = h.mask_is;
  last_is = h.last_is;
  bytes = λ word byte lw lb.
      h.bytes word byte lw lb
      ∙ ap (λ b. if b then 255 else 0) (ground (arith, same (8 * word + byte)));
}

-- `flagCounter`, whatever memory held before.
abbrev pub FlagTreeCounter : (garbage : ℕ → ℕ → ℕ) → Counter
FlagTreeCounter garbage = record {
  State = FlagCounter;
  most = 64;
  init = λ count. Flags.init count garbage;
  check_in = Flags.check_in;
  polls = λ count. (count + 7) / 8;
  full = Flags.word_full;
  reset = Flags.reset;
  part = λ j. j / 8;
  part-lt = λ count j lt. omega arith;
  Represents = Flags.Represents;
  Represents-same = bytes-same;
  init-Represents = λ count pos le. Flags.init-Represents count garbage pos le;
  check_in-Represents = λ count i s p le lt out h. Flags.check_in-Represents count i s p lt h;
  reset-Represents = λ count s p pos le h. Flags.reset-Represents count s p pos le h;
  full_iff = λ count k s p lk h. word_full_iff count k s p lk h;
}
