-- ===== src/Barriers/AllToAll/Refines.antt =====
-- `class AllToAllAtomicBarrier` of src/barrier_impl.cc against what a barrier promises.
use lomp.Prelude.{
  ℕ, ◌+◌, ◌%◌, ◌^◌, ◌<◌, ◌≡◌, refl, sym, ap, ◌∙◌, subst, arith, update, update-elim, ℕ_discrete,
}
use lomp.Prelude.Counting.{sum_below, sum_below-all, sum_below-const}
use lomp.Barriers.Spec
use lomp.Barriers.Spec.{Threads, arrive, leave, Reach-Kept}
use lomp.Barriers.AllToAll.{
  outside, marking, AllToAllAtomicBarrier, new_barrier, odd, even, set_flag, Step, clears, marks,
  goes_on, Reach, start, then_step,
}
use lomp.Barriers.AllToAll.Rows.{
  reached, tally, Row, PcHolds, Inv, told_bounds, tally-zero, set_flag-own, set_flag-other,
  Row-same, Row-clear, Row-mark, tell, tell-other, tell-thread, tell-rises, tally-tell, tally_small,
}

clears-Inv :
    {n : ℕ} (i : ℕ) (s : AllToAllAtomicBarrier)
    → i < n
    → s.pc i ≡ outside
    → Inv n s
    → Inv n (record s {
      flags = set_flag (even (s.sequence i)) i 0 s.flags;
      pc = update s.pc i (marking 0);
      view = arrive i s.view;
    })
clears-Inv {n} i s lt at inv =
    let (out, all) : PcHolds n (s.view.arrived i) (s.view.passed i) (s.told i) outside =
      subst (PcHolds n (s.view.arrived i) (s.view.passed i) (s.told i)) at (inv.threads i) in
    record {
      refines = Spec.arrives i inv.refines lt out;
      threads = λ j.
          update-elim
            (λ m x. PcHolds n ((arrive i s.view).arrived m) (s.view.passed m) (s.told m) x) s.pc i
            (marking 0) j (ground arith, omega arith, λ m lm. ground (arith, all m lm))
            (λ ne.
              subst (λ a. PcHolds n a (s.view.passed j) (s.told j) (s.pc j)) (ground (arith, ne))
                (inv.threads j));
      numbers = inv.numbers;
      seen = inv.seen;
      rows = λ j lj.
          update-elim
            (λ m a. Row (λ q. set_flag (even (s.sequence i)) i 0 s.flags q m) a (tally n s.told m))
            s.view.arrived i (s.view.arrived i + 1) j
            (Row-same _ _ _ (tally n s.told i) _ (set_flag-own (even (s.sequence i)) i 0 s.flags)
              (λ b. refl)
              (Row-clear (λ q. s.flags q i) (s.view.arrived i) (s.sequence i) (tally n s.told i)
                (inv.numbers i ∙ ap (λ a. a % 2 ^ 32) (sym out)) (tally-zero s i inv lt)
                (inv.rows i lt)))
            (λ ne.
              Row-same _ _ _ (tally n s.told j) _
                (λ q. set_flag-other (even (s.sequence i)) i j 0 s.flags q ne) (λ b. refl)
                (inv.rows j lj));
    }

marks-Inv :
    {n : ℕ} (i k : ℕ) (s : AllToAllAtomicBarrier)
    → n < 2 ^ 32
    → i < n
    → s.pc i ≡ marking k
    → k < n
    → Inv n s
    → Inv n (record s {
      flags =
          set_flag (odd (s.sequence i)) k ((s.flags (odd (s.sequence i)) k + 1) % 2 ^ 32) s.flags;
      pc = update s.pc i (marking (k + 1));
      told = update s.told i (update (s.told i) k (s.told i k + 1));
    })
marks-Inv {n} i k s word lt at lk inv =
    let (come, le, all) : PcHolds n (s.view.arrived i) (s.view.passed i) (s.told i) (marking k) =
      subst (PcHolds n (s.view.arrived i) (s.view.passed i) (s.told i)) at (inv.threads i) in
    let (turn, close) = Reach-Kept inv.refines in
    let new : s.told i k ≡ s.view.passed i = ground (arith, all k lk) in
    record {
      refines = inv.refines;
      threads = λ j.
          update-elim (λ m x. PcHolds n (s.view.arrived m) (s.view.passed m) (tell i k s.told m) x)
            s.pc i (marking (k + 1)) j (come, omega arith, λ m lm. ground (arith, all m lm))
            (λ ne.
              subst (λ f. PcHolds n (s.view.arrived j) (s.view.passed j) f (s.pc j))
                (λ r m. tell-thread i k s.told j m (λ e. ne (sym e)) r) (inv.threads j));
      numbers = inv.numbers;
      seen = λ m j lm lj. omega (arith, inv.seen m j lm lj, tell-rises i k s.told m j);
      rows = λ j lj. elim (ℕ_discrete k j) [
        | yes e ↦
            subst
              (λ m.
                Row
                  (λ q.
                    set_flag (odd (s.sequence i)) k ((s.flags (odd (s.sequence i)) k + 1) % 2 ^ 32)
                      s.flags q m)
                  (s.view.arrived m) (tally n (tell i k s.told) m))
              e
              (Row-same _ _ _ (tally n (tell i k s.told) k) _
                (set_flag-own (odd (s.sequence i)) k _ s.flags) (λ b. refl)
                (Row-mark n (λ q. s.flags q k) (s.view.arrived k) (s.sequence i) (s.view.passed i)
                  (tally n s.told k) (tally n (tell i k s.told) k) word (inv.numbers i)
                  (close i k lt lk) (omega (arith, turn k, inv.seen i k lt lk))
                  (λ b. tally_small n (tell i k s.told) k b)
                  (λ b.
                    subst
                      (λ x.
                        tally n (tell i k s.told) k b + reached b x
                        ≡ tally n s.told k b + reached b (x + 1))
                      new (tally-tell n i k b s.told lt))
                  (inv.rows k lk)))
        | no ne ↦
            Row-same _ _ _ (tally n s.told j) _
              (λ q.
                set_flag-other (odd (s.sequence i)) k j
                  ((s.flags (odd (s.sequence i)) k + 1) % 2 ^ 32) s.flags q ne)
              (λ b r. sum_below n (λ m. reached b (tell-other i k s.told m j ne r))) (inv.rows j lj)
      ];
    }

-- Where a thread finds its counter full, all threads have counted themselves there in its barrier.
full-told :
    {n : ℕ} (i : ℕ) (s : AllToAllAtomicBarrier)
    → i < n
    → s.pc i ≡ marking n
    → s.flags (odd (s.sequence i)) i ≡ n
    → Inv n s
    → (j : ℕ) → j < n
    → s.view.passed i < s.told j i
full-told {n} i s lt at full inv j lj =
    let (come, le, all) : PcHolds n (s.view.arrived i) (s.view.passed i) (s.told i) (marking n) =
      subst (PcHolds n (s.view.arrived i) (s.view.passed i) (s.told i)) at (inv.threads i) in
    let last = (inv.rows i lt).1 (omega arith) in
    let own =
      ap (λ q. s.flags q i) {x = odd (s.sequence i)} {y = (s.view.arrived i + 1) % 2}
        (omega (arith, inv.numbers i)) in
    ground (
      arith,
      sum_below-all n (λ k. reached (s.view.arrived i) (s.told k i)) (λ k. ground arith)
          (sym last ∙ sym own ∙ full) j lj,
    )

goes_on-Inv :
    {n : ℕ} (i : ℕ) (s : AllToAllAtomicBarrier)
    → i < n
    → s.pc i ≡ marking n
    → s.flags (odd (s.sequence i)) i ≡ n
    → Inv n s
    → Inv n (record s {
      sequence = update s.sequence i ((s.sequence i + 1) % 2 ^ 32);
      pc = update s.pc i outside;
      view = leave i s.view;
    })
goes_on-Inv {n} i s lt at full inv =
    let (come, le, all) : PcHolds n (s.view.arrived i) (s.view.passed i) (s.told i) (marking n) =
      subst (PcHolds n (s.view.arrived i) (s.view.passed i) (s.told i)) at (inv.threads i) in
    let everyone = full-told i s lt at full inv in
    record {
      refines = Spec.leaves i inv.refines lt come (λ j lj. omega (
        arith,
        everyone j lj,
        told_bounds n (s.view.arrived j) (s.view.passed j) (s.told j) (s.pc j) i lt (inv.threads j),
      ));
      threads = λ j.
          update-elim (λ m x. PcHolds n (s.view.arrived m) ((leave i s.view).passed m) (s.told m) x)
            s.pc i outside j (ground arith, λ m lm. ground (arith, all m lm))
            (λ ne.
              subst (λ b. PcHolds n (s.view.arrived j) b (s.told j) (s.pc j)) (ground (arith, ne))
                (inv.threads j));
      numbers = λ j. ground (arith, inv.numbers j);
      seen = λ m j lm lj. ground (arith, inv.seen m j lm lj, everyone m lm);
      rows = inv.rows;
    }

Step-Inv : {n : ℕ} {s t : AllToAllAtomicBarrier} → n < 2 ^ 32 → Step n s t → Inv n s → Inv n t
Step-Inv {s = s} word (clears i lt at) inv = clears-Inv i s lt at inv
Step-Inv {s = s} word (marks i k lt at lk) inv = marks-Inv i k s word lt at lk inv
Step-Inv {s = s} word (goes_on i lt at full) inv = goes_on-Inv i s lt at full inv

new_barrier-Inv : (n : ℕ) (garbage : ℕ → ℕ) → Inv n (new_barrier garbage)
new_barrier-Inv n garbage = record {
  refines = Spec.start;
  threads = λ i. (refl, λ j lj. refl);
  numbers = λ i. refl;
  seen = λ i j li lj. omega arith;
  rows = λ j lj. (
    omega (arith, sum_below-const n 0 (λ i. 0) (λ i li. refl) (omega arith)),
    λ pos. absurd (omega arith),
  );
}

Reach-Inv :
    {n : ℕ} {garbage : ℕ → ℕ} {s : AllToAllAtomicBarrier} → n < 2 ^ 32 → Reach n garbage s → Inv n s
Reach-Inv {n} {garbage} word start = new_barrier-Inv n garbage
Reach-Inv word (then_step r st) = Step-Inv word st (Reach-Inv word r)

-- Every run of the all-to-all barrier of fewer than `2 ^ 32` threads, whatever memory held before,
-- is a run of the barrier of the specification: a thread goes on only after all threads have come
-- to its barrier.
pub all_to_all-refines :
    {n : ℕ} {garbage : ℕ → ℕ} {s : AllToAllAtomicBarrier}
    → n < 2 ^ 32
    → Reach n garbage s
    → Spec.Reach n s.view
all_to_all-refines word r = (Reach-Inv word r).refines
