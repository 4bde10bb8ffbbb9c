-- ===== src/Examples/Reductions.antt =====
-- Examples of the reductions of src/threads.cc.
use lomp.Prelude.{ℕ, ◌≡◌, true, some}
use lomp.Sync.Reduction.{
  Reduction, ReductionType, initial, enter_reduction, leave_reduction, has_atomic, Done,
  enter_reduction-leave_reduction,
}

-- A reduction with compiled atomic code, where the tree is forced.
abbrev forced_tree : Reduction
forced_tree = record initial { forced_reduction = ReductionType.tree }

enter_reduction-leave_reduction_example :
    (s : Reduction) × (code : ℕ) × (enter_reduction 16 forced_tree ≡ some (s, code))
    × Done (has_atomic 16) code true forced_tree.events (leave_reduction true s).events
enter_reduction-leave_reduction_example = enter_reduction-leave_reduction 16 true forced_tree
