-- ===== src/Examples/Trees.antt =====
-- Examples of the tree barriers of src/barrier_impl.cc.
use lomp.Prelude.{ℕ, ◌+◌, ◌-◌, ◌≡◌, ◌≢◌, ◌<◌, refl, arith, Option, none, some, ℕ_discrete}
use lomp.Barriers.Spec
use lomp.Barriers.Tree
use lomp.Barriers.Central.Interface.{Broadcast}
use lomp.Barriers.Central.Flags
use lomp.Barriers.Central.Lines.Waking.{Lbw}
use lomp.Barriers.FixedTree
use lomp.Barriers.FixedTree.Shape
use lomp.Barriers.FixedTree.Counters.{Counter, FlagTreeCounter}
use lomp.Barriers.FixedTree.Refines.{fixed_tree-refines}

-- `FT16FlagLBW4` for two threads.
abbrev flags : Counter
flags = FlagTreeCounter (λ word byte. 9)

abbrev one_line : Broadcast 2
one_line = Lbw 4 2 (λ line. none) (omega arith)

abbrev functions : ℕ → Option ℕ
functions b = some (b + 7)

one_barrier :
    (s : FixedTree.FixedTreeBarrier 16 flags one_line) × FixedTree.Reach 16 flags one_line functions
      s
unfolding ℕ_discrete Flags.all_below Tree.num_children Tree.parent Shape.position
    FixedTree.set_counter
one_barrier = (
  _,
  FixedTree.then_step
      (FixedTree.then_step
        (FixedTree.then_step
          (FixedTree.then_step
            (FixedTree.then_step
              (FixedTree.then_step
                (FixedTree.then_step
                  (FixedTree.then_step
                    (FixedTree.then_step
                      (FixedTree.then_step
                        (FixedTree.then_step FixedTree.start
                          (FixedTree.enters_leaf 1 (omega arith) refl refl))
                        (FixedTree.enters 0 (omega arith) refl (omega arith)))
                      (FixedTree.reports 1 0 (omega arith) (omega arith) refl))
                    (FixedTree.polls 0 0 0 (omega arith) refl (omega arith) refl))
                  (FixedTree.gathered 0 0 (omega arith) refl))
                (FixedTree.root_reports 0 (omega arith) refl))
              (FixedTree.stores 0 (omega arith) refl (omega arith)))
            (FixedTree.stores 1 (omega arith) refl (omega arith)))
          (FixedTree.root_leaves (omega arith) refl))
        (FixedTree.wakes 1 (omega arith) refl refl))
      (FixedTree.takes 1 (omega arith) refl),
)

fixed_tree-refines_example :
    Spec.Reach 2 one_barrier.0.view
    × ((i a : ℕ)
        → i < 2
        → i ≢ 0
        → 0 < one_barrier.0.view.passed i
        → functions (one_barrier.0.view.passed i - 1) ≡ some a
        → one_barrier.0.taken i ≡ some a)
fixed_tree-refines_example =
    fixed_tree-refines flags one_line (omega arith) (omega arith) one_barrier.1
