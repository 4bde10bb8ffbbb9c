-- ===== src/Barriers/FixedTree/Refines.antt =====
-- `class centralizedBarrier` over `class fixedTreeCheckIn`, src/barrier_impl.cc, with any way to
-- broadcast, against what a barrier promises.
use lomp.Prelude.{ℕ, ◌-◌, ◌≤◌, ◌<◌, ◌≡◌, ◌≢◌, refl, sym, ap, ◌∙◌, subst, arith, Option, some}
use lomp.Barriers.Spec
use lomp.Barriers.Tree.{num_children}
use lomp.Barriers.Central.Interface.{Broadcast}
use lomp.Barriers.FixedTree.Shape.{num_children_le}
use lomp.Barriers.FixedTree.Counters.{Counter}
use lomp.Barriers.FixedTree.{
  waking, FixedTreeBarrier, new_barrier, Step, enters_leaf, enters, polls, gathered, reports,
  root_reports, stores, root_leaves, wakes, takes, Reach, start, then_step,
}
use lomp.Barriers.FixedTree.Invariant.{Inv, stored}
use lomp.Barriers.FixedTree.Gather.{
  enters_leaf-Inv, enters-Inv, polls-Inv, gathered-Inv, reports-Inv,
}
use lomp.Barriers.FixedTree.Wake.{
  root_reports-Inv, stores-Inv, root_leaves-Inv, wakes-Inv, takes-Inv,
}

module _ {n b : ℕ} (C : Counter) (B : Broadcast n) (pos_b : 0 < b) (fits : b ≤ C.most)
    (args : ℕ → Option ℕ) where
  abbrev Holds : FixedTreeBarrier b C B → Type 0
  Holds s = (k : ℕ) × Inv b C B args s k

  Inv-at : {s : FixedTreeBarrier b C B} (k : ℕ) → s.pc 0 ≡ waking k → Holds s → Inv b C B args s k
  Inv-at {s} k at (j, inv) = subst (Inv b C B args s) (sym inv.at_root ∙ ap stored at) inv

  new_barrier-Inv : Inv b C B args (new_barrier b C B) 0
  new_barrier-Inv = record {
    at_root = refl;
    refines = Spec.start;
    threads = λ i lt. (refl, refl);
    checks = record {
      numbers = λ i. refl;
      up = λ j some_j lt. omega arith;
      rows = λ me lt parents.
          let empty =
            C.init-Represents (num_children b n me) parents
              (omega (arith, num_children_le b n me)) in
          (
            C.Represents-same _ _ _ _ (λ c lc. ground arith) empty,
            C.Represents-same _ _ _ _ (λ c lc. ground arith) empty,
          );
    };
    ahead = λ i lt ne. omega arith;
    free = λ i lt at. absurd (ground arith);
    spread = B.fresh-Represents args;
    handed = λ i a lt ne some_left. absurd (omega arith);
  }

  Step-Inv : {s t : FixedTreeBarrier b C B} → Step b C B args s t → Holds s → Holds t
  Step-Inv (enters_leaf i lt at leaf) (k, inv) = (k, enters_leaf-Inv pos_b fits inv i lt at leaf)
  Step-Inv (enters i lt at parents) (k, inv) = (k, enters-Inv pos_b fits inv i lt at parents)
  Step-Inv (polls i parity m lt at lm full) (k, inv) =
      (k, polls-Inv pos_b fits inv i lt parity m at lm full)
  Step-Inv (gathered i parity lt at) (k, inv) = (k, gathered-Inv pos_b fits inv i lt parity at)
  Step-Inv (reports i parity lt ne at) (k, inv) = (k, reports-Inv pos_b fits inv i lt parity ne at)
  Step-Inv (root_reports parity pos at) (k, inv) =
      (k, root_reports-Inv pos_b fits parity pos at inv)
  Step-Inv (stores k pos at lk) h = (_, stores-Inv pos_b fits k pos at lk (Inv-at k at h))
  Step-Inv (root_leaves pos at) h = (_, root_leaves-Inv pos_b fits pos at (Inv-at _ at h))
  Step-Inv (wakes i lt at awake) (k, inv) = (k, wakes-Inv pos_b fits i lt at awake inv)
  Step-Inv (takes i lt at) (k, inv) = (k, takes-Inv pos_b fits i lt at inv)

  Reach-Inv : {s : FixedTreeBarrier b C B} → Reach b C B args s → Holds s
  Reach-Inv start = (0, new_barrier-Inv)
  Reach-Inv (then_step r st) = Step-Inv st (Reach-Inv r)

-- Every run of the tree barrier, with a branching factor above 0 that its counters can count to and
-- any way to broadcast that keeps to its interface, is a run of the barrier of the specification: a
-- thread goes on only after all threads have come to its barrier. And what a thread other than the
-- root has from its last `checkOut` is what the root handed out at that barrier, where the root
-- handed out a function.
pub fixed_tree-refines :
    {n b : ℕ} (C : Counter) (B : Broadcast n) {args : ℕ → Option ℕ} {s : FixedTreeBarrier b C B}
    → 0 < b
    → b ≤ C.most
    → Reach b C B args s
    → Spec.Reach n s.view
      × ((i a : ℕ)
          → i < n
          → i ≢ 0
          → 0 < s.view.passed i
          → args (s.view.passed i - 1) ≡ some a
          → s.taken i ≡ some a)
fixed_tree-refines C B pos_b fits r =
    let (k, inv) = Reach-Inv C B pos_b fits _ r in (inv.refines, inv.handed)
