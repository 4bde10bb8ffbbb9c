-- ===== src/Barriers/Central/Refines.antt =====
-- `class centralizedBarrier` of src/barrier_impl.cc, with any way to check in and any way to
-- broadcast, against what a barrier promises.
use lomp.Prelude.{ℕ, ◌-◌, ◌<◌, ◌≡◌, ◌≢◌, refl, sym, ◌∙◌, subst, arith, Option, some}
use lomp.Barriers.Spec
use lomp.Barriers.Central.Interface.{CheckIn, Broadcast}
use lomp.Barriers.Central.{
  Pc, outside, CentralizedBarrier, new_barrier, Step, checks_in, root_checks_in, polls, resets,
  stores, root_leaves, wakes, takes, Reach, start, then_step,
}
use lomp.Barriers.Central.Invariant.{Inv}
use lomp.Barriers.Central.Workers.{checks_in-Inv, wakes-Inv, takes-Inv}
use lomp.Barriers.Central.Root.{
  root_checks_in-Inv, polls-Inv, resets-Inv, stores-Inv, root_leaves-Inv,
}

module _ {n : ℕ} (C : CheckIn n) (B : Broadcast n) (args : ℕ → Option ℕ) where
  abbrev Holds : CentralizedBarrier C B → Type 0
  Holds s = (root : Pc) × Inv C B args s root

  Inv-at : {s : CentralizedBarrier C B} (c : Pc) → s.pc 0 ≡ c → Holds s → Inv C B args s c
  Inv-at {s} c at (root, inv) = subst (Inv C B args s) (sym inv.at_root ∙ at) inv

  new_barrier-Inv : Inv C B args (new_barrier C B) outside
  new_barrier-Inv = record {
    at_root = refl;
    refines = Spec.start;
    threads = λ i. refl;
    ahead = λ i lt ne. omega arith;
    counted = C.fresh-Represents;
    spread = B.fresh-Represents args;
    handed = λ i a lt ne some_left. absurd (omega arith);
  }

  Step-Inv : {s t : CentralizedBarrier C B} → Step C B args s t → Holds s → Holds t
  Step-Inv (checks_in i lt ne at) (root, inv) = (root, checks_in-Inv C B inv i lt ne at)
  Step-Inv (root_checks_in pos at) h = (_, root_checks_in-Inv C B pos (Inv-at outside at h))
  Step-Inv (polls k at lk full) h = (_, polls-Inv C B k lk full (Inv-at _ at h))
  Step-Inv (resets at) h = (_, resets-Inv C B (Inv-at _ at h))
  Step-Inv (stores k at lk) h = (_, stores-Inv C B k lk (Inv-at _ at h))
  Step-Inv (root_leaves pos at) h = (_, root_leaves-Inv C B pos (Inv-at _ at h))
  Step-Inv (wakes i lt at awake) (root, inv) = (root, wakes-Inv C B inv i lt at awake)
  Step-Inv (takes i lt at) (root, inv) = (root, takes-Inv C B inv i lt at)

  Reach-Inv : {s : CentralizedBarrier C B} → Reach C B args s → Holds s
  Reach-Inv start = (outside, new_barrier-Inv)
  Reach-Inv (then_step r st) = Step-Inv st (Reach-Inv r)

-- Every run of the centralized barrier, with any way to check in and any way to broadcast that keep
-- to their interface, is a run of the barrier of the specification: a thread goes on only after all
-- threads have come to its barrier.
pub central-refines :
    {n : ℕ} (C : CheckIn n) (B : Broadcast n) {args : ℕ → Option ℕ} {s : CentralizedBarrier C B}
    → Reach C B args s
    → Spec.Reach n s.view
central-refines C B r = let (root, inv) = Reach-Inv C B _ r in inv.refines

-- What a thread other than the root has from its last `checkOut` is what the root handed out at that
-- barrier, where the root handed out a function.
pub central-hands :
    {n : ℕ} (C : CheckIn n) (B : Broadcast n) {args : ℕ → Option ℕ} {s : CentralizedBarrier C B}
    (i a : ℕ)
    → Reach C B args s
    → i < n
    → i ≢ 0
    → 0 < s.view.passed i
    → args (s.view.passed i - 1) ≡ some a
    → s.taken i ≡ some a
central-hands C B i a r lt ne left is =
    let (root, inv) = Reach-Inv C B _ r in inv.handed i a lt ne left is
