-- ===== src/Loops/Counter/Invariant.antt =====
-- The invariant of the shared counter of src/loops.cc and of the ranges handed out, for any schedule whose attempts take
-- at least one chunk and no more than remain.
use lomp.Prelude.{ℕ, ◌+◌, ◌≤◌, ◌<◌, ◌≡◌, arith, ltb, if◌then◌else◌, claims}
use lomp.Loops.Counter.{
  Attempt, no_work, take, Pc, ready, loaded, finished, System, Step, leave, load, exchange, retry,
  Reach, here, then_step,
}

pub record Sound (count : ℕ) (attempt : ℕ → Attempt) : Type 0 where
  pub stops : (next : ℕ) → attempt next ≡ no_work → next ≤ count → next ≡ count
  pub takes :
      (next delta : ℕ)
      → attempt next ≡ take delta
      → next ≤ count
      → (0 < delta) × (next + delta ≤ count)

-- A thread that has left saw the end; one that has loaded a value may still take what it planned.
abbrev pub PcHolds : (count next : ℕ) → Pc → Type 0
PcHolds count next ready = Unit
PcHolds count next (loaded l d) = (0 < d) × (l + d ≤ count)
PcHolds count next finished = next ≡ count

pub record Inv (count : ℕ) (s : System) : Type 0 where
  pub room : s.next ≤ count
  pub threads : (i : ℕ) → PcHolds count s.next (s.pc i)
  pub once : (x : ℕ) → claims x s.handed ≡ (if ltb x s.next then 1 else 0)

module _ {count : ℕ} {attempt : ℕ → Attempt} (sound : Sound count attempt) where
  Step-Inv : {s t : System} → Step attempt s t → Inv count s → Inv count t
  Step-Inv (leave i at none_left) inv = record {
    room = inv.room;
    threads = λ j. ground (arith, inv.threads j, sound.stops _ none_left inv.room);
    once = inv.once;
  }
  Step-Inv (load i d at work) inv = record {
    room = inv.room;
    threads = λ j. ground (arith, inv.threads j, sound.takes _ d work inv.room);
    once = inv.once;
  }
  Step-Inv {s} (exchange i l d at same) inv = record {
    room = ground (arith, inv.threads i);
    threads = λ j. ground (arith, inv.threads i, inv.threads j);
    once = λ x. ground (arith, inv.once x);
  }
  Step-Inv (retry i l d at changed) inv = record {
    room = inv.room;
    threads = λ j. ground (arith, inv.threads j);
    once = inv.once;
  }

  pub Reach-Inv : {s : System} → Reach attempt s → Inv count s
  Reach-Inv here = record { room = omega arith; threads = λ _. tt; once = λ x. ground arith }
  Reach-Inv (then_step r st) = Step-Inv st (Reach-Inv r)
