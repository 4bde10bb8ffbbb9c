-- ===== src/Barriers/UpDown/Refines.antt =====
-- `class AtomicUpDownBarrier` of src/barrier_impl.cc against what a barrier promises.
use lomp.Prelude.{
  ℕ, ◌+◌, ◌%◌, ◌^◌, ◌≤◌, ◌<◌, ◌≡◌, ◌↔◌, refl, arith, update, ℕ_discrete, subst, sym, ap, ◌∙◌,
}
use lomp.Prelude.Counting.{sum_below, sum_below-change, sum_below-le, sum_below-const}
use lomp.Barriers.Spec
use lomp.Barriers.Spec.{Threads, arrive, leave, view-near, someone_ready}
use lomp.Barriers.Levels.{level, level_small}
use lomp.Barriers.UpDown.{
  Pc, outside, polling, AtomicUpDownBarrier, new_barrier, count_idx, counted, target, Step, counts,
  goes_on, Reach, start, then_step,
}
use lomp.Barriers.UpDown.Targets.{target-all, all-target, level-counted, level-other, target-number}

abbrev PcHolds : (arrived passed : ℕ) → Pc → Type 0
PcHolds arrived passed outside = arrived ≡ passed
PcHolds arrived passed polling = arrived ≡ passed + 1

record Inv (n : ℕ) (s : AtomicUpDownBarrier) : Type 0 where
  refines : Spec.Reach n s.view
  threads : (i : ℕ) → PcHolds (s.view.arrived i) (s.view.passed i) (s.pc i)
  numbers : (i : ℕ) → s.barrier_counts i ≡ s.view.passed i % 2 ^ 32
  levels : (q : ℕ) → q < 2 → s.counters q ≡ sum_below n (λ i. level q (s.view.arrived i))

module _ {n : ℕ} (few : n ≤ 256) where
  levels-arrive :
      (i q : ℕ) (s : AtomicUpDownBarrier)
      → i < n
      → q < 2
      → Inv n s
      → s.view.arrived i ≡ s.view.passed i
      → update s.counters
          (count_idx (s.barrier_counts i))
          (counted (s.barrier_counts i) (s.counters (count_idx (s.barrier_counts i))))
          q
        ≡ sum_below n (λ j. level q ((arrive i s.view).arrived j))
  levels-arrive i q s lt ql inv at = elim (ℕ_discrete idx q) [
    | yes is ↦
        subst (λ r. update s.counters idx (counted b (s.counters idx)) r ≡ after r) is
          (let known = inv.levels idx (omega arith) in
            ground (
              arith,
              level-counted (s.view.passed i) b (s.counters idx) (after idx) n few
                  (omega (
                    arith,
                    known,
                    sum_below-le n (λ j. level idx (s.view.arrived j)) (λ j. level_small idx _),
                  ))
                  (sum_below-le n _ (λ j. level_small idx _)) (inv.numbers i) (s.view.arrived i)
                  ((arrive i s.view).arrived i) at (ground arith)
                  (omega (arith, change idx, known)),
            ))
    | no ne ↦
        let same =
          level-other (s.view.passed i) b q (s.view.arrived i) ((arrive i s.view).arrived i) ql
            (inv.numbers i) ne at (ground arith) in
        let known : s.counters q ≡ after q = omega (arith, change q, inv.levels q ql, same) in
        ground arith
  ]
    where
      b : ℕ
      b = s.barrier_counts i

      idx : ℕ
      idx = count_idx b

      after : ℕ → ℕ
      after r = sum_below n (λ j. level r ((arrive i s.view).arrived j))

      change :
          (r : ℕ)
          → after r + level r (s.view.arrived i)
            ≡ sum_below n (λ j. level r (s.view.arrived j)) + level r ((arrive i s.view).arrived i)
      change r =
          sum_below-change n (λ j. level r (s.view.arrived j))
            (λ j. level r ((arrive i s.view).arrived j)) i lt (λ j ne. ground arith)

  all_arrived :
      (i : ℕ) (s : AtomicUpDownBarrier)
      → i < n
      → Inv n s
      → s.counters (count_idx (s.barrier_counts i)) ≡ target n (s.barrier_counts i)
      → (j : ℕ) → j < n
      → s.view.passed i < s.view.arrived j
  all_arrived i s lt inv e =
      target-all n (s.view.passed i) s.view.arrived (λ j lj. view-near inv.refines i j lt lj)
        (sym (inv.levels (count_idx (s.view.passed i)) (omega arith))
          ∙ ap s.counters (omega (arith, inv.numbers i))
          ∙ e
          ∙ ap (target n) (inv.numbers i)
          ∙ target-number n (s.view.passed i))

  Step-Inv : {s t : AtomicUpDownBarrier} → Step n s t → Inv n s → Inv n t
  Step-Inv {s} (counts i lt at) inv = record {
    refines = Spec.arrives i inv.refines lt (ground (arith, inv.threads i));
    threads = λ j. ground (arith, inv.threads j);
    numbers = inv.numbers;
    levels = λ q ql. levels-arrive i q s lt ql inv (ground (arith, inv.threads i));
  }
  Step-Inv {s} (goes_on i lt at e) inv = record {
    refines =
        Spec.leaves i inv.refines lt (ground (arith, inv.threads i)) (all_arrived i s lt inv e);
    threads = λ j. ground (arith, inv.threads j);
    numbers = λ j. ground (arith, inv.numbers j);
    levels = inv.levels;
  }

  new_barrier-Inv : Inv n new_barrier
  new_barrier-Inv = record {
    refines = Spec.start;
    threads = λ i. refl;
    numbers = λ i. refl;
    levels = λ q ql.
        sym (
          grind (arith, sum_below-const n 0 (λ j. level q 0) (λ j lj. ground arith) (omega arith)));
  }

  Reach-Inv : {s : AtomicUpDownBarrier} → Reach n s → Inv n s
  Reach-Inv start = new_barrier-Inv
  Reach-Inv (then_step r st) = Step-Inv st (Reach-Inv r)

-- Every run of the up-and-down barrier with at most 256 threads is a run of the barrier of the
-- specification: a thread goes on only after all threads have come to its barrier.
pub up_down-refines : {n : ℕ} {s : AtomicUpDownBarrier} → n ≤ 256 → Reach n s → Spec.Reach n s.view
up_down-refines few r = (Reach-Inv few r).refines

-- What a thread in the up-and-down barrier of at most 256 threads polls for holds exactly where all
-- threads have come to its barrier.
pub up_down-opens :
    {n : ℕ} {s : AtomicUpDownBarrier} (i : ℕ)
    → n ≤ 256
    → Reach n s
    → i < n
    → (s.counters (count_idx (s.barrier_counts i)) ≡ target n (s.barrier_counts i))
      ↔ ((j : ℕ) → j < n → s.view.passed i < s.view.arrived j)
up_down-opens {n} {s} i few r lt =
    let inv = Reach-Inv few r in
    (
      all_arrived few i s lt inv,
      λ all.
          ap s.counters (omega (arith, inv.numbers i))
          ∙ inv.levels (count_idx (s.view.passed i)) (omega arith)
          ∙ all-target n (s.view.passed i) s.view.arrived
              (λ j lj. (all j lj, (view-near inv.refines i j lt lj).1))
          ∙ sym (target-number n (s.view.passed i))
          ∙ ap (target n) (sym (inv.numbers i)),
    )

-- Where all of 1 to 256 threads poll in the up-and-down barrier, what one of them polls for holds.
pub up_down_live :
    {n : ℕ} {s : AtomicUpDownBarrier}
    → 0 < n
    → n ≤ 256
    → Reach n s
    → ((j : ℕ) → j < n → s.pc j ≡ polling)
    → (i : ℕ) × (i < n)
      × (s.counters (count_idx (s.barrier_counts i)) ≡ target n (s.barrier_counts i))
up_down_live {n} {s} pos few r all =
    let inv = Reach-Inv few r in
    let (i, lt, ready) =
      someone_ready {v = s.view} pos
        (λ j lj. subst (PcHolds (s.view.arrived j) (s.view.passed j)) (all j lj) (inv.threads j)) in
    (i, lt, (up_down-opens i few r lt).1 ready)
