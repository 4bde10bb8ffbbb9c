-- ===== src/Barriers/FixedTree/Gather.antt =====
-- `class centralizedBarrier` over `class fixedTreeCheckIn`, src/barrier_impl.cc: the invariant, in
-- `checkIn`.
use lomp.Prelude.{
  ℕ, ◌+◌, ◌%◌, ◌^◌, ◌≤◌, ◌<◌, ◌≡◌, ◌≢◌, refl, sym, ap, ◌∙◌, subst, arith, true, update, update-elim,
  ℕ_discrete, ite, Option,
}
use lomp.Barriers.Spec
use lomp.Barriers.Spec.{arrive, Reach-Kept}
use lomp.Barriers.Tree.{parent, num_children}
use lomp.Barriers.Central.Interface.{Broadcast}
use lomp.Barriers.FixedTree.Shape.{position, parent_lt}
use lomp.Barriers.FixedTree.Counters.{Counter}
use lomp.Barriers.FixedTree.Rows.{Checks}
use lomp.Barriers.FixedTree.Checks.{Checks-enter, Checks-enter_leaf, Checks-report}
use lomp.Barriers.FixedTree.{
  Pc, outside, gathering, reporting, waiting, woken, FixedTreeBarrier, set_counter,
}
use lomp.Barriers.FixedTree.Invariant.{
  stored, PcHolds, Inv, PcHolds-tell, at_place, bounds, passed_told,
}

pub stored-update :
    (f : ℕ → Pc) (i k : ℕ) (c : Pc)
    → stored c ≡ 0
    → stored (f i) ≡ 0
    → stored (f 0) ≡ k
    → stored (update f i c 0) ≡ k
stored-update f i k c new old e = elim (ℕ_discrete i 0) as (λ d. stored (ite d c (f 0)) ≡ k) [
  | yes is ↦ new ∙ sym old ∙ ap (λ j. stored (f j)) is ∙ e
  | no ne ↦ e
]

module _ {n b : ℕ} {C : Counter} {B : Broadcast n} (pos_b : 0 < b) (fits : b ≤ C.most)
    {args : ℕ → Option ℕ} {s : FixedTreeBarrier b C B} {k : ℕ} (inv : Inv b C B args s k) (i : ℕ)
    (lt : i < n) where
  -- The places of the threads, where thread `i` comes to its barrier.
  arrive-threads :
      (c : Pc)
      → PcHolds n b C B.stores i (s.view.arrived i + 1) (s.view.passed i) s.told c
      → (j : ℕ) → j < n
      → PcHolds n b C B.stores j
          ((arrive i s.view).arrived j)
          (s.view.passed j)
          s.told
          (update s.pc i c j)
  arrive-threads c own j lj =
      update-elim
        (λ m x. PcHolds n b C B.stores m ((arrive i s.view).arrived m) (s.view.passed m) s.told x)
        s.pc i c j
        (subst (λ a. PcHolds n b C B.stores i a (s.view.passed i) s.told c) (ground arith) own)
        (λ ne.
          subst (λ a. PcHolds n b C B.stores j a (s.view.passed j) s.told (s.pc j))
            (ground (arith, ne)) (inv.threads j lj))

  -- The same, where it moves on within it.
  pub move-threads :
      (c : Pc)
      → PcHolds n b C B.stores i (s.view.arrived i) (s.view.passed i) s.told c
      → (j : ℕ) → j < n
      → PcHolds n b C B.stores j (s.view.arrived j) (s.view.passed j) s.told (update s.pc i c j)
  move-threads c own j lj =
      update-elim (λ m x. PcHolds n b C B.stores m (s.view.arrived m) (s.view.passed m) s.told x)
        s.pc i c j own (λ ne. inv.threads j lj)

  pub tell-threads :
      (c : Pc)
      → PcHolds n b C B.stores i
          (s.view.arrived i)
          (s.view.passed i)
          (update s.told i (s.told i + 1))
          c
      → (j : ℕ) → j < n
      → PcHolds n b C B.stores j
          (s.view.arrived j)
          (s.view.passed j)
          (update s.told i (s.told i + 1))
          (update s.pc i c j)
  tell-threads c own j lj =
      update-elim
        (λ m x.
          PcHolds n b C B.stores m (s.view.arrived m) (s.view.passed m)
            (update s.told i (s.told i + 1)) x)
        s.pc i c j own
        (λ ne. PcHolds-tell n b C B.stores i j _ _ s.told (s.pc j) ne (inv.threads j lj))

  -- No thread is woken that was not, where thread `i` moves on to a place other than that.
  pub free-update :
      (c : Pc) → c ≢ woken → (j : ℕ) → j < n → update s.pc i c j ≡ woken → s.pc j ≡ woken
  free-update c ne j lj =
      update-elim (λ m x. x ≡ woken → s.pc m ≡ woken) s.pc i c j (λ e. absurd (ne e)) (λ nj e. e)

  pub enters_leaf-Inv :
      s.pc i ≡ outside
      → num_children b n i ≡ 0
      → Inv b C B args
          (record s {
            sequence = update s.sequence i ((s.sequence i + 1) % 2 ^ 32);
            pc = update s.pc i (reporting (s.sequence i % 2));
            view = arrive i s.view;
          })
          k
  enters_leaf-Inv at leaf =
      let (out, told) : PcHolds n b C B.stores i _ _ s.told outside =
        at_place pos_b inv i outside lt at in
      record {
        at_root = stored-update s.pc i k _ refl (ap stored at) inv.at_root;
        refines = Spec.arrives i inv.refines lt out;
        threads =
            arrive-threads (reporting (s.sequence i % 2)) (
              omega arith,
              told,
              omega (arith, inv.checks.numbers i),
              λ c lc. absurd (omega arith),
            );
        checks = Checks-enter_leaf pos_b fits i _ _ _ _ leaf inv.checks;
        ahead = inv.ahead;
        free = λ j lj at_j. inv.free j lj (free-update _ (ground arith) j lj at_j);
        spread = inv.spread;
        handed = inv.handed;
      }

  pub enters-Inv :
      s.pc i ≡ outside
      → 0 < num_children b n i
      → Inv b C B args
          (record s {
            counters =
                set_counter
                  ((s.sequence i + 1) % 2)
                  i
                  (C.reset (s.counters ((s.sequence i + 1) % 2) i))
                  s.counters;
            sequence = update s.sequence i ((s.sequence i + 1) % 2 ^ 32);
            pc = update s.pc i (gathering (s.sequence i % 2) 0);
            view = arrive i s.view;
          })
          k
  enters-Inv at parents =
      let (out, told) : PcHolds n b C B.stores i _ _ s.told outside =
        at_place pos_b inv i outside lt at in
      record {
        at_root = stored-update s.pc i k _ refl (ap stored at) inv.at_root;
        refines = Spec.arrives i inv.refines lt out;
        threads = arrive-threads (gathering (s.sequence i % 2) 0) (
          omega arith,
          told,
          omega (arith, inv.checks.numbers i),
          parents,
          omega arith,
          λ c lc small. absurd (omega arith),
        );
        checks =
            Checks-enter pos_b fits i (s.sequence i) s.counters s.sequence s.view.arrived s.told lt
              parents
              (λ j lj. omega (arith, bounds pos_b inv j lj, passed_told pos_b inv j i lj lt, told))
              refl inv.checks;
        ahead = inv.ahead;
        free = λ j lj at_j. inv.free j lj (free-update _ (ground arith) j lj at_j);
        spread = inv.spread;
        handed = inv.handed;
      }

  pub polls-Inv :
      (parity m : ℕ)
      → s.pc i ≡ gathering parity m
      → m < C.polls (num_children b n i)
      → C.full m (s.counters parity i) ≡ true
      → Inv b C B args (record s { pc = update s.pc i (gathering parity (m + 1)) }) k
  polls-Inv parity m at lm full =
      let (come, told, same, parents, le, all) : PcHolds n b C B.stores i _ _ s.told
          (gathering parity m) =
        at_place pos_b inv i (gathering parity m) lt at in
      let (_, last) = inv.checks.rows i lt parents in
      let counted =
        subst (λ q. C.full m (s.counters q i) ≡ true) {y = (s.view.arrived i + 1) % 2} (omega arith)
          full in
      record {
        at_root = stored-update s.pc i k _ refl (ap stored at) inv.at_root;
        refines = inv.refines;
        threads = move-threads (gathering parity (m + 1)) (
          come,
          told,
          same,
          parents,
          omega arith,
          λ c lc small. elim (ℕ_discrete (C.part c) m) [
            | yes is ↦
                ground (arith, (C.full_iff (num_children b n i) m _ _ lm last).0 counted c lc is)
            | no ne ↦ all c lc (omega arith)
          ],
        );
        checks = inv.checks;
        ahead = inv.ahead;
        free = λ j lj at_j. inv.free j lj (free-update _ (ground arith) j lj at_j);
        spread = inv.spread;
        handed = inv.handed;
      }

  pub gathered-Inv :
      (parity : ℕ)
      → s.pc i ≡ gathering parity (C.polls (num_children b n i))
      → Inv b C B args (record s { pc = update s.pc i (reporting parity) }) k
  gathered-Inv parity at =
      let (come, told, same, parents, le, all) : PcHolds n b C B.stores i _ _ s.told
          (gathering parity (C.polls (num_children b n i))) =
        at_place pos_b inv i _ lt at in
      record {
        at_root = stored-update s.pc i k _ refl (ap stored at) inv.at_root;
        refines = inv.refines;
        threads =
            move-threads (reporting parity)
              (come, told, same, λ c lc. all c lc (C.part-lt (num_children b n i) c lc));
        checks = inv.checks;
        ahead = inv.ahead;
        free = λ j lj at_j. inv.free j lj (free-update _ (ground arith) j lj at_j);
        spread = inv.spread;
        handed = inv.handed;
      }

  pub reports-Inv :
      (parity : ℕ)
      → i ≢ 0
      → s.pc i ≡ reporting parity
      → Inv b C B args
          (record s {
            counters =
                set_counter parity
                  (parent b i)
                  (C.check_in (position b i) (s.counters parity (parent b i)))
                  s.counters;
            pc = update s.pc i waiting;
            told = update s.told i (s.told i + 1);
          })
          k
  reports-Inv parity ne at =
      let (come, told, same, all) : PcHolds n b C B.stores i _ _ s.told (reporting parity) =
        at_place pos_b inv i (reporting parity) lt at in
      let above = parent_lt b i pos_b (omega arith) in
      let (low, mid, high) = bounds pos_b inv (parent b i) (omega arith) in
      let level : s.told (parent b i) ≡ s.told i = omega (
        arith,
        inv.checks.up i (omega arith) lt,
        passed_told pos_b inv i (parent b i) lt (omega arith),
      ) in
      record {
        at_root = stored-update s.pc i k _ refl (ap stored at) inv.at_root;
        refines = inv.refines;
        threads = tell-threads waiting (ne, come, ground arith);
        checks =
            subst
              (λ p.
                Checks n b C
                  (set_counter p (parent b i)
                    (C.check_in (position b i) (s.counters p (parent b i))) s.counters)
                  s.sequence s.view.arrived (update s.told i (s.told i + 1)))
              {x = s.told i % 2} (omega arith)
              (Checks-report pos_b fits i s.counters s.sequence s.view.arrived s.told (omega arith)
                lt level (omega arith) (omega arith) (λ c lc. omega (arith, all c lc)) inv.checks);
        ahead = inv.ahead;
        free = λ j lj at_j. inv.free j lj (free-update _ (ground arith) j lj at_j);
        spread = inv.spread;
        handed = inv.handed;
      }
