-- ===== src/Loops/Steal/Torn.antt =====
-- A refill of a `contiguousWork` of src/loops.h by `assign`, under the eyes of a thief.
use mathlib.Core.Bool.{Bool}
use lomp.Prelude.{
  ℕ, zero, suc, ◌+◌, ◌-◌, ◌≤◌, ◌<◌, ◌≡◌, true, refl, arith, claims, within, List, [], ◌∷◌, update,
  subst, ℕ_discrete,
}
use lomp.Loops.Steal.{
  Work, assigned_work, idle, entered, away, new_end, Reach, here, then_step, load_base, load_end,
  no_iterations, store_base, got_it, set_stealing, assign_base, look, copy_base, copy_end, exchange,
}

-- The owner has taken the chunks `lo .. lo + n - 1`, one at a time.
abbrev taken : (lo n : ℕ) → List (ℕ × ℕ)
taken lo zero = []
taken lo (suc n) = (lo + n, lo + n + 1) ∷ taken lo n

abbrev after_taking : (lo hi n : ℕ) → Work
after_taking lo hi n = record {
  base = lo + n;
  end = hi;
  stealing = Bool.false;
  owner = idle;
  thief = update (λ _. away) 0 entered;
  handed = taken lo n;
}

claims-taken : (lo n x : ℕ) → claims x (taken lo n) ≡ within lo (lo + n) x
claims-taken lo zero x = ground arith
claims-taken lo (suc n) x = ground (arith, claims-taken lo n x)

take_one :
    (lo hi n : ℕ) {w : Work}
    → lo + n < hi
    → Reach true w (after_taking lo hi n)
    → Reach true w (after_taking lo hi (suc n))
take_one lo hi n {w} h r =
    let r1 = then_step r (load_base refl) in
    let r2 = then_step r1 (load_end (lo + n) refl) in
    let r3 = then_step r2 (store_base (lo + n) hi refl h) in
    let r4 = then_step r3 (got_it (lo + n) refl (omega arith)) in
    subst (λ b. Reach true w (record (after_taking lo hi (suc n)) { base = b })) (omega arith) r4

take_all : (lo hi n : ℕ) → lo + n ≤ hi → Reach true (assigned_work lo hi) (after_taking lo hi n)
take_all lo hi zero h =
    subst (λ b. Reach true (assigned_work lo hi) (record (after_taking lo hi zero) { base = b }))
      (omega arith) (then_step here (look 0 refl refl))
take_all lo hi (suc n) h = take_one lo hi n (omega arith) (take_all lo hi n (omega arith))

-- An owner that has executed its whole range `lo .. hi - 1`, and that then refills it with a stolen
-- range `stolen_b .. stolen_e - 1` of lower chunks, at least two of them, can have its old chunks
-- taken again: for each chunk from the middle of `stolen_b + 1 .. hi - 1` on that the owner has
-- executed there is a run in which it is handed out a second time.
pub refill_repeats :
    (lo hi stolen_b stolen_e x : ℕ)
    → stolen_b + 1 < stolen_e
    → stolen_e ≤ lo
    → lo ≤ x
    → new_end (stolen_b + 1) hi ≤ x
    → x < hi
    → (w : Work) × Reach true (assigned_work lo hi) w × (claims x w.handed ≡ 2)
unfolding ℕ_discrete
refill_repeats lo hi sb se x two lower a b c =
    let n : ℕ = hi - lo in
    let r0 = take_all lo hi n (omega arith) in
    let r1 = then_step r0 (load_base refl) in
    let r2 = then_step r1 (load_end (lo + n) refl) in
    let r3 = then_step r2 (no_iterations (lo + n) hi refl (omega arith)) in
    let r4 = then_step r3 (set_stealing refl) in
    let r5 = then_step r4 (assign_base sb se refl refl (omega arith)) in
    let r6 = then_step r5 (copy_base 0 refl) in
    let r7 = then_step r6 (copy_end 0 (sb + 1) refl) in
    let r8 = then_step r7 (exchange 0 (sb + 1) hi refl (omega arith) refl refl) in (_, r8, twice)
  where
    twice : claims x ((new_end (sb + 1) hi, hi) ∷ taken lo (hi - lo)) ≡ 2
    twice = ground (arith, claims-taken lo (hi - lo) x)
