-- ===== src/Sync/Speculative.antt =====
-- src/locks.cc: `class speculativeLock` over a base lock that one thread holds at a time. The hardware
-- may refuse or abort a transaction at any time; it aborts one where another thread writes what the
-- transaction has read, and then `StartSpeculation` returns again. A step is one access of one
-- thread, in any order.
use lomp.Prelude.{
  ℕ, ◌≡◌, ◌≢◌, ◌↔◌, ◌⊎◌, inl, inr, refl, sym, ap, ◌∙◌, subst, arith, Bool, true, false, update,
  update-elim, if◌then◌else◌, Bool-cases,
}

pub data Pc : Type 0 where
  outside : Pc
  polling : Pc  -- in `lock`, while it sees the base lock held
  starting : (in_lock : Bool) → Pc  -- in `try_lock`, called by `lock` or by the program
  speculating : (in_lock : Bool) → Pc  -- runs user code in a transaction
  falling_back : Pc  -- in `baseLock.lock`
  holding : Pc  -- runs user code with the base lock

pub record SpeculativeLock : Type 0 where
  pub locked : Bool
  pub pc : ℕ → Pc

abbrev pub unlocked : SpeculativeLock
unlocked = record { locked = false; pc = λ _. outside }

-- Where `try_lock` leads that answers false.
abbrev pub refused : (in_lock : Bool) → Pc
refused true = falling_back
refused false = outside

-- Every transaction has read the base lock, and is aborted where that is written.
abbrev pub aborted : Pc → Pc
aborted outside = outside
aborted polling = polling
aborted (starting in_lock) = starting in_lock
aborted (speculating in_lock) = refused in_lock
aborted falling_back = falling_back
aborted holding = holding

-- `unlock` by thread `i`: the write that frees the base lock aborts who has read it, and the end of a
-- transaction leaves the base lock as it is.
unfoldable pub unlock : ℕ → SpeculativeLock → SpeculativeLock
unlock i s =
    if s.locked
    then record { locked = false; pc = update (λ j. aborted (s.pc j)) i outside }
    else record s { pc = update s.pc i outside }

-- A thread that has the lock and calls `unlock`.
pub data HasLock : Pc → Type 0 where
  by_speculation : (in_lock : Bool) → HasLock (speculating in_lock)
  by_base : HasLock holding

pub data Step (s : SpeculativeLock) : SpeculativeLock → Type 0 where
  calls_lock : (i : ℕ) → s.pc i ≡ outside → Step s (record s { pc = update s.pc i polling })
  calls_try_lock :
      (i : ℕ) → s.pc i ≡ outside → Step s (record s { pc = update s.pc i (starting false) })
  sees_held : (i : ℕ) → s.pc i ≡ polling → s.locked ≡ true → Step s s
  sees_free :
      (i : ℕ)
      → s.pc i ≡ polling
      → s.locked ≡ false
      → Step s (record s { pc = update s.pc i (starting true) })
  starts :
      (i : ℕ) (in_lock : Bool)
      → s.pc i ≡ starting in_lock
      → s.locked ≡ false
      → Step s (record s { pc = update s.pc i (speculating in_lock) })
  -- The hardware refuses, or the transaction finds the base lock held.
  is_refused :
      (i : ℕ) (in_lock : Bool)
      → s.pc i ≡ starting in_lock
      → Step s (record s { pc = update s.pc i (refused in_lock) })
  is_aborted :
      (i : ℕ) (in_lock : Bool)
      → s.pc i ≡ speculating in_lock
      → Step s (record s { pc = update s.pc i (refused in_lock) })
  takes_base :
      (i : ℕ)
      → s.pc i ≡ falling_back
      → s.locked ≡ false
      → Step s (record { locked = true; pc = update (λ j. aborted (s.pc j)) i holding })
  unlocks : (i : ℕ) → HasLock (s.pc i) → Step s (unlock i s)

pub data Reach : SpeculativeLock → Type 0 where
  start : Reach unlocked
  then_step : {s t : SpeculativeLock} → Reach s → Step s t → Reach t

-- The base lock is free and no thread runs with it, or it is held, by one thread, and no thread
-- speculates.
abbrev Free : SpeculativeLock → Type 0
Free s = (s.locked ≡ false) × ((i : ℕ) → s.pc i ≢ holding)

abbrev Held : SpeculativeLock → Type 0
Held s = (s.locked ≡ true) × ((o : ℕ) × (s.pc o ≡ holding) × ((i : ℕ) → HasLock (s.pc i) → i ≡ o))

holds-HasLock : (c : Pc) → c ≡ holding → HasLock c
holds-HasLock c e = subst HasLock (sym e) by_base

aborted-HasLock : (c : Pc) → HasLock (aborted c) → c ≡ holding
aborted-HasLock outside h = elim h [ ]
aborted-HasLock polling h = elim h [ ]
aborted-HasLock (starting in_lock) h = elim h [ ]
aborted-HasLock (speculating true) h = elim h [ ]
aborted-HasLock (speculating false) h = elim h [ ]
aborted-HasLock falling_back h = elim h [ ]
aborted-HasLock holding h = refl

-- A thread that holds the base lock neither before nor after moves on.
moved :
    (i : ℕ) (c : Pc) (s : SpeculativeLock)
    → s.pc i ≢ holding
    → (HasLock c → s.locked ≡ false)
    → c ≢ holding
    → Free s ⊎ Held s
    → Free (record s { pc = update s.pc i c }) ⊎ Held (record s { pc = update s.pc i c })
moved i c s was free is (inl (unheld, none_holds)) = inl (unheld, λ j. ground (arith, none_holds j))
moved i c s was free is (inr (held, (o, holds, only))) = inr (
  held,
  (
    o,
    ground (arith, holds, was),
    λ j.
        update-elim (λ m x. HasLock x → m ≡ o) s.pc i c j
          (λ h. absurd (ground (arith, free h, held))) (λ ne. only j),
  ),
)

-- A thread that has the lock while the base lock is held is its holder.
held-holds : (i : ℕ) (s : SpeculativeLock) → HasLock (s.pc i) → Held s → s.pc i ≡ holding
held-holds i s h (_, (o, holds, only)) = ap s.pc (only i h) ∙ holds

taken :
    (i : ℕ) (s : SpeculativeLock)
    → s.locked ≡ false
    → Free s ⊎ Held s
    → Held (record { locked = true; pc = update (λ j. aborted (s.pc j)) i holding })
taken i s free (inr (held, _)) = absurd (ground (arith, free, held))
taken i s free (inl (_, none_holds)) = (
  refl,
  (
    i,
    ground arith,
    λ j.
        update-elim (λ m x. HasLock x → m ≡ i) (λ k. aborted (s.pc k)) i holding j (λ h. refl)
          (λ ne h. absurd (none_holds j (aborted-HasLock (s.pc j) h))),
  ),
)

released :
    (i : ℕ) (s : SpeculativeLock)
    → HasLock (s.pc i)
    → s.locked ≡ true
    → Free s ⊎ Held s
    → Free (record { locked = false; pc = update (λ j. aborted (s.pc j)) i outside })
released i s h locked (inl (free, _)) = absurd (ground (arith, free, locked))
released i s h locked (inr (_, (o, holds, only))) = (
  refl,
  λ j.
      update-elim (λ m x. x ≢ holding) (λ k. aborted (s.pc k)) i outside j (ground arith)
        (λ ne at. ne (
          only i h
          ∙ sym (
              only j (
                holds-HasLock (s.pc j)
                  (aborted-HasLock (s.pc j) (holds-HasLock (aborted (s.pc j)) at)))))),
)

not_refused : (in_lock : Bool) → (¬ HasLock (refused in_lock)) × (refused in_lock ≢ holding)
not_refused true = (λ h. elim h [ ], ground arith)
not_refused false = (λ h. elim h [ ], ground arith)

committed : (i : ℕ) (s : SpeculativeLock) → s.locked ≡ false → Free s ⊎ Held s → s.pc i ≢ holding
committed i s free (inl (_, none_holds)) = none_holds i
committed i s free (inr (held, _)) = absurd (ground (arith, free, held))

unlocked-Owned :
    (i : ℕ) (s : SpeculativeLock)
    → HasLock (s.pc i)
    → Free s ⊎ Held s
    → Free (unlock i s) ⊎ Held (unlock i s)
unfolding unlock
unlocked-Owned i s h v = elim (Bool-cases s.locked) [
  | inl locked ↦ leads locked (inl (released i s h locked v))
  | inr free ↦
      leads free (moved i outside s (committed i s free v) (λ h. elim h [ ]) (ground arith) v)
]
  where
    way : Bool → SpeculativeLock
    way b =
        if b
        then record { locked = false; pc = update (λ j. aborted (s.pc j)) i outside }
        else record s { pc = update s.pc i outside }

    leads :
        {b : Bool}
        → s.locked ≡ b
        → Free (way b) ⊎ Held (way b)
        → Free (way s.locked) ⊎ Held (way s.locked)
    leads e w = subst (λ b. Free (way b) ⊎ Held (way b)) (sym e) w

Step-Owned : {s t : SpeculativeLock} → Step s t → Free s ⊎ Held s → Free t ⊎ Held t
Step-Owned {s = s} (calls_lock i at) v =
    moved i polling s (ground arith) (λ h. elim h [ ]) (ground arith) v
Step-Owned {s = s} (calls_try_lock i at) v =
    moved i (starting false) s (ground arith) (λ h. elim h [ ]) (ground arith) v
Step-Owned (sees_held i at held) v = v
Step-Owned {s = s} (sees_free i at free) v =
    moved i (starting true) s (ground arith) (λ h. elim h [ ]) (ground arith) v
Step-Owned {s = s} (starts i in_lock at free) v =
    moved i (speculating in_lock) s (ground arith) (λ h. free) (ground arith) v
Step-Owned {s = s} (is_refused i in_lock at) v =
    moved i (refused in_lock) s (ground arith) (λ h. absurd ((not_refused in_lock).0 h))
      (not_refused in_lock).1 v
Step-Owned {s = s} (is_aborted i in_lock at) v =
    moved i (refused in_lock) s (ground arith) (λ h. absurd ((not_refused in_lock).0 h))
      (not_refused in_lock).1 v
Step-Owned {s = s} (takes_base i at free) v = inr (taken i s free v)
Step-Owned {s = s} (unlocks i h) v = unlocked-Owned i s h v

Reach-Owned : {s : SpeculativeLock} → Reach s → Free s ⊎ Held s
Reach-Owned start = inl (refl, λ i. ground arith)
Reach-Owned (then_step r st) = Step-Owned st (Reach-Owned r)

-- In every reachable state of a speculative lock, whatever the hardware refuses or aborts: no other
-- thread runs user code, speculating or not, beside one that holds the base lock; of the threads that
-- have the lock, the base lock is held for one that holds it, and free for one that speculates; and
-- where the base lock is held, some thread runs user code with it, so that no `unlock` leaves it held.
pub speculative_exclusive :
    {s : SpeculativeLock}
    → Reach s
    → ((i j : ℕ) → s.pc i ≡ holding → i ≢ j → ¬ HasLock (s.pc j))
      × ((i : ℕ) → HasLock (s.pc i) → (s.locked ≡ true) ↔ (s.pc i ≡ holding))
      × (s.locked ≡ true → (o : ℕ) × (s.pc o ≡ holding))
speculative_exclusive {s} r = elim (Reach-Owned r) [
  | inl (free, none_holds) ↦ (
    λ i j hi. absurd (none_holds i hi),
    λ i h. (λ locked. absurd (ground (arith, free, locked)), λ hi. absurd (none_holds i hi)),
    λ locked. absurd (ground (arith, free, locked)),
  )
  | inr held ↦ (
    λ i j hi ne hj. ne (held.1.2 i (holds-HasLock (s.pc i) hi) ∙ sym (held.1.2 j hj)),
    λ i h. (λ locked. held-holds i s h held, λ hi. held.0),
    λ locked. (held.1.0, held.1.1),
  )
]
