-- ===== src/Loops/Steal/Once.antt =====
-- The chunks of a `contiguousWork` of src/loops.h that the owner and its thieves take, while the
-- owner does not refill the range.
use lomp.Prelude.{ℕ, ◌≤◌, ◌≡◌, false, arith, claims, within}
use lomp.Loops.Steal.{empty, Work, assigned_work, Reach}
use lomp.Loops.Steal.Invariant.{Reach-Inv}

-- Once `incrementBase` has returned false to the owner, every chunk of the range `lo .. hi - 1` was
-- taken exactly once, and no other chunk.
pub steal_drained :
    {lo hi : ℕ} {w : Work} (x : ℕ)
    → lo ≤ hi
    → Reach false (assigned_work lo hi) w
    → w.owner ≡ empty
    → claims x w.handed ≡ within lo hi x
steal_drained x h r at = let inv = Reach-Inv r h in ground (arith, inv.conserved x, inv.owner_holds)
