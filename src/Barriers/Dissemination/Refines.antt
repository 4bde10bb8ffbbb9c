-- ===== src/Barriers/Dissemination/Refines.antt =====
-- `class DisseminationBarrier` of src/barrier_impl.cc against what a barrier promises.
use lomp.Prelude.{
  ℕ, ◌+◌, ◌^◌, ◌≤◌, ◌<◌, ◌≡◌, refl, sym, ap, ◌∙◌, subst, arith, ◌==◌, update-elim, none, some,
}
use lomp.Barriers.Spec
use lomp.Barriers.Spec.{Threads, arrive, leave, view-near, Reach-Kept}
use lomp.Barriers.Levels.{level}
use lomp.Barriers.Dissemination.{
  outside, in_round, polling, DisseminationBarrier, new_barrier, Step, enters, tells, is_told,
  goes_on, Reach, start, then_step,
}
use lomp.Barriers.Dissemination.Knowledge.{PcHolds, Inv, is_told-Known, Known-all}
use lomp.Support.Logarithm.{ceiling_log, ceiling_log-Least}
use lomp.Barriers.Dissemination.Places.{
  Known-self, PcHolds-arrive, PcHolds-leave, in_round-Known, polling-Known, Told, Told-all,
}

module _ {n rounds : ℕ} (pos : 0 < n) (enough : n ≤ 2 ^ rounds) where
  Step-Inv : {s t : DisseminationBarrier} → Step n rounds s t → Inv n rounds s → Inv n rounds t
  unfolding Told
  Step-Inv {s} (enters i lt at) inv = record {
    refines = Spec.arrives i inv.refines lt (ground (arith, inv.threads i));
    threads = λ j.
        update-elim (λ k c. PcHolds n rounds k (arrive i s.view) c) s.pc i (in_round 0) j
          (
            ground (arith, inv.threads i),
            omega arith,
            Known-self n i s.view lt (ground (arith, inv.threads i)),
          )
          (λ ne. PcHolds-arrive n rounds j i s.view (s.pc j) ne (inv.threads j));
    numbers = inv.numbers;
    flags = λ q me r lq lm lr.
        inv.flags q me r lq lm lr ∙ ap (λ k. level q k == 1) (ground (arith, inv.threads i));
  }
  Step-Inv {s} (tells i r lt at more) inv = record {
    refines = inv.refines;
    threads = λ j.
        update-elim (λ k c. PcHolds n rounds k s.view c) s.pc i (polling r) j
          (let (a, le, known) = in_round-Known n rounds i r s.view (s.pc i) at (inv.threads i) in
            (a, more, known))
          (λ ne. inv.threads j);
    numbers = inv.numbers;
    flags = λ q me k lq lm lk. Told-all n rounds i r s pos inv lt at q me k lq lm lk;
  }
  Step-Inv {s} (is_told i r lt at is) inv = record {
    refines = inv.refines;
    threads = λ j.
        update-elim (λ k c. PcHolds n rounds k s.view c) s.pc i (in_round (r + 1)) j
          (let (a, le, known) = polling-Known n rounds i r s.view (s.pc i) at (inv.threads i) in
            (a, omega arith, is_told-Known inv pos i r lt le known is))
          (λ ne. inv.threads j);
    numbers = inv.numbers;
    flags = λ q me k lq lm lk. inv.flags q me k lq lm lk ∙ ap (λ x. level q x == 1) (ground arith);
  }
  Step-Inv {s} (goes_on i lt at) inv = record {
    refines =
        Spec.leaves i inv.refines lt
          (in_round-Known n rounds i rounds s.view (s.pc i) at (inv.threads i)).0
          (Known-all inv pos i lt enough
            (in_round-Known n rounds i rounds s.view (s.pc i) at (inv.threads i)).2);
    threads = λ j.
        update-elim (λ k c. PcHolds n rounds k (leave i s.view) c) s.pc i outside j
          (let (a, le, known) =
              in_round-Known n rounds i rounds s.view (s.pc i) at (inv.threads i) in
            ground arith)
          (λ ne. PcHolds-leave n rounds j i s.view (s.pc j) ne (inv.threads j));
    numbers = λ j. ground (arith, inv.numbers j);
    flags = λ q me k lq lm lk. inv.flags q me k lq lm lk ∙ ap (λ x. level q x == 1) (ground arith);
  }

  new_barrier-Inv : Inv n rounds new_barrier
  new_barrier-Inv = record {
    refines = Spec.start;
    threads = λ i. refl;
    numbers = λ i. refl;
    flags = λ q me r lq lm lr. ground arith;
  }

  Reach-Inv : {s : DisseminationBarrier} → Reach n rounds s → Inv n rounds s
  Reach-Inv start = new_barrier-Inv
  Reach-Inv (then_step r st) = Step-Inv st (Reach-Inv r)

enough_rounds : (n rounds : ℕ) → 0 < n → ceiling_log n 2 n ≡ some rounds → n ≤ 2 ^ rounds
enough_rounds n rounds pos e =
    let (k, eq, least) = ceiling_log-Least 2 n (omega arith) pos in
    subst (λ r. n ≤ 2 ^ r) (ap (λ o. elim o as (λ _. ℕ) [ none ↦ 0 | some x ↦ x ]) (sym eq ∙ e))
      least.0

-- Every run of the dissemination barrier of `n` threads, with as many rounds as `ceilingLogN` gives
-- for them, is a run of the barrier of the specification: a thread goes on only after all threads
-- have come to its barrier.
pub dissemination-refines :
    {n rounds : ℕ} {s : DisseminationBarrier}
    → 0 < n
    → ceiling_log n 2 n ≡ some rounds
    → Reach n rounds s
    → Spec.Reach n s.view
dissemination-refines {n} {rounds} pos e r =
    (Reach-Inv pos (enough_rounds n rounds pos e) r).refines
