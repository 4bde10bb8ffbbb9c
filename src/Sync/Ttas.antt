-- ===== src/Sync/Ttas.antt =====
-- src/locks.cc: `class TTASLock` and `class TTASLockBO`, a flag that threads set by a
-- compare-exchange, a shared access at a time and in any order. The two differ in how long a thread
-- waits between its looks at the flag, which is not modelled.
use lomp.Prelude.{ℕ, ◌≡◌, ◌≢◌, refl, sym, ◌∙◌, ◌⊎◌, inl, inr, Bool, true, false, arith, update}

pub data Pc : Type 0 where
  outside : Pc
  trying : Pc  -- in `lock`, before the compare-exchange of `try_lock`
  polling : Pc  -- in `lock`, has seen the flag set
  holding : Pc

pub record TtasLock : Type 0 where
  pub locked : Bool
  pub pc : ℕ → Pc

abbrev pub unlocked : TtasLock
unlocked = record { locked = false; pc = λ _. outside }

pub data Step (s : TtasLock) : TtasLock → Type 0 where
  enter : (i : ℕ) → s.pc i ≡ outside → Step s (record s { pc = update s.pc i trying })
  acquire :
      (i : ℕ)
      → s.pc i ≡ trying
      → s.locked ≡ false
      → Step s (record { locked = true; pc = update s.pc i holding })
  refused :
      (i : ℕ) → s.pc i ≡ trying → s.locked ≡ true → Step s (record s { pc = update s.pc i polling })
  poll : (i : ℕ) → s.pc i ≡ polling → s.locked ≡ true → Step s s
  saw_free :
      (i : ℕ)
      → s.pc i ≡ polling
      → s.locked ≡ false
      → Step s (record s { pc = update s.pc i trying })
  -- A call of `try_lock` by the program.
  try_acquire :
      (i : ℕ)
      → s.pc i ≡ outside
      → s.locked ≡ false
      → Step s (record { locked = true; pc = update s.pc i holding })
  try_refused : (i : ℕ) → s.pc i ≡ outside → s.locked ≡ true → Step s s
  unlock :
      (i : ℕ) → s.pc i ≡ holding → Step s (record { locked = false; pc = update s.pc i outside })

pub data Reach : TtasLock → Type 0 where
  start : Reach unlocked
  then_step : {s t : TtasLock} → Reach s → Step s t → Reach t

-- The flag is clear and no thread holds the lock, or it is set and one thread holds it.
abbrev pub Owned : TtasLock → Type 0
Owned s =
    ((s.locked ≡ false) × ((i : ℕ) → s.pc i ≢ holding))
    ⊎ ((s.locked ≡ true) × ((o : ℕ) × (s.pc o ≡ holding) × ((i : ℕ) → s.pc i ≡ holding → i ≡ o)))

-- A thread that does not hold the lock moves and does not get it.
moved :
    (i : ℕ) (c : Pc) (s : TtasLock)
    → s.pc i ≢ holding
    → c ≢ holding
    → Owned s
    → Owned (record s { pc = update s.pc i c })
moved i c s was is (inl (free, none_holds)) = inl (free, λ j. ground (arith, none_holds j))
moved i c s was is (inr (set, (o, holds, only))) =
    inr (set, (o, ground arith, λ j h. ground (arith, only j)))

taken :
    (i : ℕ) (s : TtasLock)
    → s.locked ≡ false
    → Owned s
    → Owned (record { locked = true; pc = update s.pc i holding })
taken i s free (inl (_, none_holds)) =
    inr (refl, (i, ground arith, λ j h. ground (arith, none_holds j)))
taken i s free (inr (set, _)) = absurd (ground arith)

released :
    (i : ℕ) (s : TtasLock)
    → s.pc i ≡ holding
    → Owned s
    → Owned (record { locked = false; pc = update s.pc i outside })
released i s at (inl (free, none_holds)) = absurd (none_holds i at)
released i s at (inr (set, (o, holds, only))) = inl (refl, λ j h. ground (arith, only i at, only j))

Step-Owned : {s t : TtasLock} → Step s t → Owned s → Owned t
Step-Owned {s} (enter i at) o = moved i trying s (ground arith) (ground arith) o
Step-Owned {s} (acquire i at free) o = taken i s free o
Step-Owned {s} (refused i at set) o = moved i polling s (ground arith) (ground arith) o
Step-Owned (poll i at set) o = o
Step-Owned {s} (saw_free i at free) o = moved i trying s (ground arith) (ground arith) o
Step-Owned {s} (try_acquire i at free) o = taken i s free o
Step-Owned (try_refused i at set) o = o
Step-Owned {s} (unlock i at) o = released i s at o

Reach-Owned : {s : TtasLock} → Reach s → Owned s
Reach-Owned start = inl (refl, λ i h. ground arith)
Reach-Owned (then_step r st) = Step-Owned st (Reach-Owned r)

-- In every reachable state of a test-and-set lock used by any number of threads, no other thread
-- holds it beside one that does.
pub ttas_exclusive :
    {s : TtasLock} (i j : ℕ) → Reach s → s.pc i ≡ holding → i ≢ j → s.pc j ≢ holding
ttas_exclusive i j r hi ne hj = elim (Reach-Owned r) [
  | inl (free, none_holds) ↦ absurd (none_holds i hi)
  | inr (set, (o, holds, only)) ↦ ne (only i hi ∙ sym (only j hj))
]

-- In every reachable state of a test-and-set lock its flag is clear and no thread holds the lock, or
-- the flag is set and some thread holds it.
pub ttas_locked :
    {s : TtasLock}
    → Reach s
    → ((s.locked ≡ false) × ((i : ℕ) → s.pc i ≢ holding))
      ⊎ ((s.locked ≡ true) × ((i : ℕ) × (s.pc i ≡ holding)))
ttas_locked r = elim (Reach-Owned r) [
  | inl free ↦ inl free
  | inr (set, (o, holds, only)) ↦ inr (set, (o, holds))
]
