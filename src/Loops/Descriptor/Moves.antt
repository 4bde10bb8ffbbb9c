-- ===== src/Loops/Descriptor/Moves.antt =====
-- The phases of the descriptors of src/loops.h, as one thread moves on.
use lomp.Prelude.{
  ℕ, ◌+◌, ◌%◌, ◌≤◌, ◌<◌, ◌≡◌, ◌≢◌, ◌∙◌, sym, ap, subst, arith, Option, leb, if◌then◌else◌, update,
  update-elim,
}
use lomp.Prelude.Counting.{sum_below-change}
use lomp.Loops.Descriptor.{Pc, Team}
use lomp.Loops.Descriptor.Phases.{
  Phase, free, claimed, active, drained, loop_of, Referred, grade, drains, Placed, Holds,
}

Referred-same :
    (n : ℕ) (p : Phase) (count k : ℕ → ℕ) (ref i : ℕ)
    → i < n
    → ((j : ℕ) → i ≢ j → count j ≡ k j)
    → leb (count i) (loop_of p) ≡ leb (k i) (loop_of p)
    → Referred n p count ref
    → Referred n p k ref
Referred-same n (free l) count k ref i lt same own h = h
Referred-same n (claimed l t) count k ref i lt same own h = h
Referred-same n (active l) count k ref i lt same own (is, some_left) = (
  ground (
    arith,
    sum_below-change n (λ j. if leb (count j) l then 1 else 0) (λ j. if leb (k j) l then 1 else 0) i
        lt (λ j ne. ap (λ c. if leb c l then 1 else 0) (same j (λ e. ne (sym e)))),
    own,
  ),
  some_left,
)
Referred-same n (drained l t) count k ref i lt same own h = h

-- Thread `i` moves on, and descriptor `d` stays as it is.
pub Holds-move :
    {n d : ℕ} {s : Team} {p : Phase} (i : ℕ) (c : Pc) (q : ℕ → Option ℕ) (r k : ℕ → ℕ)
    → Holds n d s p
    → i < n
    → q d ≡ s.sequence d
    → r d ≡ s.ref_count d
    → ((j : ℕ) → i ≢ j → s.loop_count j ≡ k j)
    → leb (s.loop_count i) (loop_of p) ≡ leb (k i) (loop_of p)
    → Placed p i (k i) (grade c) (drains d c)
    → Holds n d (record { sequence = q; ref_count = r; loop_count = k; pc = update s.pc i c }) p
Holds-move {n} {d} {s} {p} i c q r k h lt eq er same own here = record {
  slot = h.slot;
  sequence_is = eq ∙ h.sequence_is;
  referred =
      subst (Referred n p k) (sym er)
        (Referred-same n p s.loop_count k (s.ref_count d) i lt same own h.referred);
  placed = λ j lj.
      update-elim (λ m x. Placed p m (k m) (grade x) (drains d x)) s.pc i c j here
        (λ ne.
          subst (λ m. Placed p j m (grade (s.pc j)) (drains d (s.pc j))) (same j ne)
            (h.placed j lj));
}

-- A step by which a thread neither comes nearer to the descriptor nor changes it.
pub Placed-lower :
    (d : ℕ) (p : Phase) (i count g x : ℕ)
    → g ≤ 1
    → Placed p i count g x
    → x ≡ 0
    → Placed p i count 0 0
Placed-lower d (free l) i count g x small h no_drain = ground arith
Placed-lower d (claimed l t) i count g x small h no_drain = ground arith
Placed-lower d (active l) i count g x small h no_drain = ground arith
Placed-lower d (drained l t) i count g x small h no_drain = ground arith

-- The place of a thread with another descriptor does not depend on how far it is with its own.
pub Placed-other :
    (d : ℕ) (p : Phase) (i count g g' x : ℕ)
    → count % 16 ≢ d
    → loop_of p % 16 ≡ d
    → Placed p i count g x
    → Placed p i count g' x
Placed-other d (free l) i count g g' x ne slot h = ground arith
Placed-other d (claimed l t) i count g g' x ne slot h = ground arith
Placed-other d (active l) i count g g' x ne slot h = ground arith
Placed-other d (drained l t) i count g g' x ne slot h = ground arith

-- The next loop is no further away for another descriptor.
pub Placed-next :
    (d : ℕ) (p : Phase) (i count g x : ℕ)
    → count % 16 ≢ d
    → loop_of p % 16 ≡ d
    → Placed p i count g x
    → Placed p i (count + 1) 0 x
Placed-next d (free l) i count g x ne slot h = ground arith
Placed-next d (claimed l t) i count g x ne slot h = ground arith
Placed-next d (active l) i count g x ne slot h = ground arith
Placed-next d (drained l t) i count g x ne slot h = ground arith
