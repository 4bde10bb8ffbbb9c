-- ===== src/Loops/Steal/Invariant.antt =====
-- The invariant of a `contiguousWork` of src/loops.h that is not refilled.
use lomp.Prelude.{ℕ, suc, ◌+◌, ◌≤◌, ◌<◌, ◌≡◌, false, arith, claims, within, subst, List, [], ◌∷◌}
use lomp.Loops.Steal.{
  OwnerPc, idle, got_base, got_end, stored, empty, hunting, base_assigned, assigned, left, Work,
  assigned_work, new_end, Step, Reach, here, then_step, load_base, load_end, no_iterations,
  store_base, was_stolen, got_it, saw_finished, set_stealing, stop_stealing, assign_base,
  assign_end, clear_stealing, look, copy_base, copy_end, give_up, exchange, try_again,
}

-- The first chunk that nobody has taken: while the owner has not looked at the end again, the
-- chunk that it is about to take is still open.
abbrev pub front : OwnerPc → ℕ → ℕ
front (stored b) base = b
front _ base = base

abbrev pub OwnerHolds : OwnerPc → (base end : ℕ) → Type 0
OwnerHolds idle base end = base ≤ suc end
OwnerHolds (got_base b) base end = (b ≡ base) × (base ≤ suc end)
OwnerHolds (got_end b e) base end = (b ≡ base) × (base ≤ suc end) × (end ≤ e) × (b < e → b ≤ end)
OwnerHolds (stored b) base end = (base ≡ b + 1) × (b ≤ end)
OwnerHolds empty base end = (end ≤ base) × (base ≤ suc end)
OwnerHolds hunting base end = (end ≤ base) × (base ≤ suc end)
OwnerHolds (base_assigned _) base end = ⊥
OwnerHolds assigned base end = ⊥
OwnerHolds left base end = (end ≤ base) × (base ≤ suc end)

-- No range was empty, so that whoever was handed one has a chunk to execute.
abbrev pub NonEmpty : List (ℕ × ℕ) → Type 0
NonEmpty [] = Unit
NonEmpty ((b, e) ∷ l) = (b < e) × NonEmpty l

pub record Inv (lo hi : ℕ) (w : Work) : Type 0 where
  pub owner_holds : OwnerHolds w.owner w.base w.end
  pub conserved :
      (x : ℕ) → claims x w.handed + within (front w.owner w.base) w.end x ≡ within lo hi x
  pub non_empty : NonEmpty w.handed

new_end_bounds : (b e : ℕ) → b < e → (b ≤ new_end b e) × (new_end b e < e)
unfolding new_end
new_end_bounds b e h = omega arith

-- A theft keeps what the owner relies on.
steal_owner :
    (o : OwnerPc) (base end b e : ℕ)
    → b < e
    → base ≡ b
    → end ≡ e
    → OwnerHolds o base end
    → OwnerHolds o base (new_end b e)
steal_owner idle base end b e h p q o = ground (arith, new_end_bounds b e h)
steal_owner (got_base c) base end b e h p q o = ground (arith, new_end_bounds b e h)
steal_owner (got_end c d) base end b e h p q o = ground (arith, new_end_bounds b e h)
steal_owner (stored c) base end b e h p q o = ground (arith, new_end_bounds b e h)
steal_owner empty base end b e h p q o = ground (arith, new_end_bounds b e h)
steal_owner hunting base end b e h p q o = ground (arith, new_end_bounds b e h)
steal_owner left base end b e h p q o = ground (arith, new_end_bounds b e h)
steal_owner (base_assigned c) base end b e h p q o = o
steal_owner assigned base end b e h p q o = o

front-le : (o : OwnerPc) (base end : ℕ) → OwnerHolds o base end → front o base ≤ base
front-le (stored b) base end h = omega arith
front-le idle base end h = omega arith
front-le _ base end h = omega arith

-- What the thief takes is what leaves the range.
steal_conserved :
    (o : OwnerPc) (base end b e x taken total : ℕ)
    → b < e
    → base ≡ b
    → end ≡ e
    → OwnerHolds o base end
    → taken + within (front o base) end x ≡ total
    → within (new_end b e) e x + taken + within (front o base) (new_end b e) x ≡ total
steal_conserved o base end b e x taken total h p q oh c =
    ground (arith, new_end_bounds b e h, front-le o base end oh)

module _ {lo hi : ℕ} where
  Step-Inv : {w v : Work} → Step false w v → Inv lo hi w → Inv lo hi v
  Step-Inv (load_base at) inv = record {
    owner_holds = ground (arith, inv.owner_holds);
    conserved = λ x. ground (arith, inv.conserved x);
    non_empty = inv.non_empty;
  }
  Step-Inv (load_end b at) inv = record {
    owner_holds = ground (arith, inv.owner_holds);
    conserved = λ x. ground (arith, inv.conserved x);
    non_empty = inv.non_empty;
  }
  Step-Inv (no_iterations b e at none_left) inv = record {
    owner_holds = ground (arith, inv.owner_holds);
    conserved = λ x. ground (arith, inv.conserved x);
    non_empty = inv.non_empty;
  }
  Step-Inv (store_base b e at more) inv = record {
    owner_holds = ground (arith, inv.owner_holds);
    conserved = λ x. ground (arith, inv.owner_holds, inv.conserved x);
    non_empty = inv.non_empty;
  }
  Step-Inv (was_stolen b at same) inv = record {
    owner_holds = ground (arith, inv.owner_holds);
    conserved = λ x. ground (arith, inv.owner_holds, inv.conserved x);
    non_empty = inv.non_empty;
  }
  Step-Inv (got_it b at other) inv = record {
    owner_holds = ground (arith, inv.owner_holds);
    conserved = λ x. ground (arith, inv.owner_holds, inv.conserved x);
    non_empty = (omega arith, inv.non_empty);
  }
  Step-Inv (saw_finished at) inv = record {
    owner_holds = ground (arith, inv.owner_holds);
    conserved = λ x. ground (arith, inv.conserved x);
    non_empty = inv.non_empty;
  }
  Step-Inv (stop_stealing at) inv = record {
    owner_holds = ground (arith, inv.owner_holds);
    conserved = λ x. ground (arith, inv.conserved x);
    non_empty = inv.non_empty;
  }
  Step-Inv (set_stealing at) inv = record {
    owner_holds = ground (arith, inv.owner_holds);
    conserved = λ x. ground (arith, inv.conserved x);
    non_empty = inv.non_empty;
  }
  Step-Inv (assign_base sb se no_refill at more) inv = cc
  Step-Inv {w} (assign_end e at) inv =
      absurd (subst (λ o. OwnerHolds o w.base w.end) at inv.owner_holds)
  Step-Inv {w} (clear_stealing at) inv =
      absurd (subst (λ o. OwnerHolds o w.base w.end) at inv.owner_holds)
  Step-Inv (look i at _) inv = record {
    owner_holds = inv.owner_holds;
    conserved = inv.conserved;
    non_empty = inv.non_empty;
  }
  Step-Inv (copy_base i at) inv = record {
    owner_holds = inv.owner_holds;
    conserved = inv.conserved;
    non_empty = inv.non_empty;
  }
  Step-Inv (copy_end i b at) inv = record {
    owner_holds = inv.owner_holds;
    conserved = inv.conserved;
    non_empty = inv.non_empty;
  }
  Step-Inv (give_up i b e at _) inv = record {
    owner_holds = inv.owner_holds;
    conserved = inv.conserved;
    non_empty = inv.non_empty;
  }
  Step-Inv {w} (exchange i b e at more same_base same_end) inv = record {
    owner_holds = steal_owner w.owner w.base w.end b e more same_base same_end inv.owner_holds;
    conserved = λ x.
        steal_conserved w.owner w.base w.end b e x (claims x w.handed) (within lo hi x) more
          same_base same_end inv.owner_holds (inv.conserved x);
    non_empty = ((new_end_bounds b e more).1, inv.non_empty);
  }
  Step-Inv (try_again i b e at _) inv = record {
    owner_holds = inv.owner_holds;
    conserved = inv.conserved;
    non_empty = inv.non_empty;
  }

  pub Reach-Inv : {w : Work} → Reach false (assigned_work lo hi) w → lo ≤ hi → Inv lo hi w
  Reach-Inv here h = record {
    owner_holds = omega arith;
    conserved = λ x. ground arith;
    non_empty = tt;
  }
  Reach-Inv (then_step r st) h = Step-Inv st (Reach-Inv r h)
