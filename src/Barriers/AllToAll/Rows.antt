-- ===== src/Barriers/AllToAll/Rows.antt =====
-- The counters of `class AllToAllAtomicBarrier`, src/barrier_impl.cc, and its invariant.
use lomp.Prelude.{
  ℕ, ◌+◌, ◌%◌, ◌^◌, ◌≤◌, ◌<◌, ◌≡◌, ◌≢◌, ap, ◌∙◌, subst, arith, if◌then◌else◌, ltb, leb, update,
  ℕ_discrete,
}
use lomp.Prelude.Counting.{sum_below, sum_below-change, sum_below-le, sum_below-const}
use lomp.Barriers.Spec
use lomp.Barriers.Spec.{Threads, arrive, leave, Reach-Kept}
use lomp.Barriers.AllToAll.{Pc, outside, marking, AllToAllAtomicBarrier, odd, even, set_flag}

abbrev pub reached : (bound barriers : ℕ) → ℕ
reached bound barriers = if leb bound barriers then 1 else 0

-- How many threads have counted themselves at thread `j` in `c` barriers.
abbrev pub tally : (n : ℕ) (told : ℕ → ℕ → ℕ) (j c : ℕ) → ℕ
tally n told j c = sum_below n (λ i. reached c (told i j))

-- The two flags of a thread that has come to `arrived` barriers: the one for its next barrier, and
-- the one for its last.
abbrev pub Row : (flags : ℕ → ℕ) (arrived : ℕ) (tallies : ℕ → ℕ) → Type 0
Row flags arrived tallies =
    (flags (arrived % 2) ≡ tallies (arrived + 1))
    × (0 < arrived → flags ((arrived + 1) % 2) ≡ tallies arrived)

abbrev pub PcHolds : (n arrived passed : ℕ) (told : ℕ → ℕ) → Pc → Type 0
PcHolds n arrived passed told outside = (arrived ≡ passed) × ((j : ℕ) → j < n → told j ≡ arrived)
PcHolds n arrived passed told (marking k) =
    (arrived ≡ passed + 1)
    × (k ≤ n)
    × ((j : ℕ) → j < n → told j ≡ passed + (if ltb j k then 1 else 0))

pub record Inv (n : ℕ) (s : AllToAllAtomicBarrier) : Type 0 where
  pub refines : Spec.Reach n s.view
  pub threads : (i : ℕ) → PcHolds n (s.view.arrived i) (s.view.passed i) (s.told i) (s.pc i)
  pub numbers : (i : ℕ) → s.sequence i ≡ s.view.passed i % 2 ^ 32
  pub seen : (i j : ℕ) → i < n → j < n → s.view.passed j ≤ s.told i j
  pub rows : (j : ℕ) → j < n → Row (λ q. s.flags q j) (s.view.arrived j) (tally n s.told j)

pub told_bounds :
    (n arrived passed : ℕ) (told : ℕ → ℕ) (c : Pc) (j : ℕ)
    → j < n
    → PcHolds n arrived passed told c
    → (told j ≤ arrived) × (arrived ≤ told j + 1)
told_bounds n arrived passed told outside j lt (e, all) = omega (arith, all j lt)
told_bounds n arrived passed told (marking k) j lt (e, le, all) = ground (arith, all j lt)

-- Nobody has counted itself at a thread in a barrier after the next.
pub tally-zero :
    {n : ℕ} (s : AllToAllAtomicBarrier) (i : ℕ)
    → Inv n s
    → i < n
    → tally n s.told i (s.view.arrived i + 2) ≡ 0
tally-zero {n} s i inv lt =
    let (turn, close) = Reach-Kept inv.refines in
    omega (
      arith,
      sum_below-const n 0 (λ k. reached (s.view.arrived i + 2) (s.told k i))
          (λ k lk. ground (
            arith,
            close k i lk lt,
            turn k,
            told_bounds n (s.view.arrived k) (s.view.passed k) (s.told k) (s.pc k) i lt
                (inv.threads k),
          ))
          (omega arith),
    )

pub set_flag-own :
    (p j x : ℕ) (flags : ℕ → ℕ → ℕ) (q : ℕ)
    → update (λ r. flags r j) p x q ≡ set_flag p j x flags q j
unfolding set_flag
set_flag-own p j x flags q = ground arith

pub set_flag-other :
    (p i j x : ℕ) (flags : ℕ → ℕ → ℕ) (q : ℕ) → i ≢ j → flags q j ≡ set_flag p i x flags q j
unfolding set_flag
set_flag-other p i j x flags q ne = ground arith

pub Row-same :
    (f g : ℕ → ℕ) (a : ℕ) (t u : ℕ → ℕ)
    → ((q : ℕ) → f q ≡ g q)
    → ((b : ℕ) → t b ≡ u b)
    → Row f a t
    → Row g a u
Row-same f g a t u same tallied = subst (λ X. X) (λ k. Row (λ q. same q k) a (λ b. tallied b k))

pub Row-clear :
    (f : ℕ → ℕ) (a number : ℕ) (t : ℕ → ℕ)
    → number ≡ a % 2 ^ 32
    → t (a + 2) ≡ 0
    → Row f a t
    → Row (update f (even number) 0) (a + 1) t
Row-clear f a number t e zero (now, last) = (
  ground (arith, zero, ap t {x = a + 1 + 1} {y = a + 2} (omega arith)),
  λ pos. ground (arith, now, ap f {x = (a + 1 + 1) % 2} {y = a % 2} (omega arith)),
)

pub Row-mark :
    (n : ℕ) (f : ℕ → ℕ) (a number passed : ℕ) (t u : ℕ → ℕ)
    → n < 2 ^ 32
    → number ≡ passed % 2 ^ 32
    → passed ≤ a
    → a ≤ passed + 1
    → ((b : ℕ) → u b ≤ n)
    → ((b : ℕ) → u b + reached b passed ≡ t b + reached b (passed + 1))
    → Row f a t
    → Row (update f (odd number) ((f (odd number) + 1) % 2 ^ 32)) a u
Row-mark n f a number passed t u word e lo hi small moved (now, last) = elim (ℕ_discrete a passed) [
  | yes at ↦ (
    ground
        (arith, now, moved (a + 1), small (a + 1), ap f {x = odd number} {y = a % 2} (omega arith)),
    λ pos. ground (arith, last pos, moved a, small a),
  )
  | no ne ↦ (
    ground (arith, now, moved (a + 1), small (a + 1)),
    λ pos.
        ground (
          arith,
          last pos,
          moved a,
          small a,
          ap f {x = odd number} {y = (a + 1) % 2} (omega arith),
        ),
  )
]

abbrev pub tell : (i k : ℕ) → (ℕ → ℕ → ℕ) → ℕ → ℕ → ℕ
tell i k told = update told i (update (told i) k (told i k + 1))

pub tell-other : (i k : ℕ) (told : ℕ → ℕ → ℕ) (m j : ℕ) → k ≢ j → told m j ≡ tell i k told m j
tell-other i k told m j ne = ground arith

pub tell-thread : (i k : ℕ) (told : ℕ → ℕ → ℕ) (m j : ℕ) → m ≢ i → told m j ≡ tell i k told m j
tell-thread i k told m j ne = ground arith

pub tell-own : (i k : ℕ) (told : ℕ → ℕ → ℕ) → tell i k told i k ≡ told i k + 1
tell-own i k told = ground arith

pub tell-rises : (i k : ℕ) (told : ℕ → ℕ → ℕ) (m j : ℕ) → told m j ≤ tell i k told m j
tell-rises i k told m j = ground arith

pub tally-tell :
    (n i k b : ℕ) (told : ℕ → ℕ → ℕ)
    → i < n
    → tally n (tell i k told) k b + reached b (told i k)
      ≡ tally n told k b + reached b (told i k + 1)
tally-tell n i k b told lt =
    sum_below-change n (λ m. reached b (told m k)) (λ m. reached b (tell i k told m k)) i lt
      (λ m ne. ap (reached b) (tell-thread i k told m k ne))
    ∙ ap (λ x. tally n told k b + reached b x) (tell-own i k told)

pub tally_small : (n : ℕ) (told : ℕ → ℕ → ℕ) (j b : ℕ) → tally n told j b ≤ n
tally_small n told j b = sum_below-le n (λ i. reached b (told i j)) (λ i. ground arith)
