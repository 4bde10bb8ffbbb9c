-- ===== src/Sync/Critical.antt =====
-- src/locks.cc: `EnterCritical` and `LeaveCritical` on one lock variable, which the first thread sets up
-- under a mutex of its own. A step is one access of one thread to the variable, the mutex or the
-- lock, in any order. A lock of `lockFactory` is held by one thread at a time, as the locks of
-- Sync/Ttas and Sync/Mcs are.
use lomp.Prelude.{
  ℕ, ◌+◌, ◌≤◌, ◌≡◌, ◌≢◌, ◌⊎◌, inl, inr, refl, sym, ap, ◌∙◌, subst, arith, Option, none, some,
  update, update-elim,
}

pub data Pc : Type 0 where
  outside : Pc
  seen_null : Pc  -- before it takes the mutex
  guarded : Pc  -- has the mutex, before the second test
  initialized : Pc  -- has the mutex, before it gives it back
  setting : Pc  -- before `SetLock` has the lock
  inside : Pc

-- `lk` is the lock that the variable points to, `guard` who has the mutex, `owner` who has each lock,
-- `locks` how many the factory has made.
pub record Critical : Type 0 where
  pub lk : Option ℕ
  pub guard : Option ℕ
  pub owner : ℕ → Option ℕ
  pub locks : ℕ
  pub pc : ℕ → Pc

abbrev pub fresh : Critical
fresh = record { lk = none; guard = none; owner = λ _. none; locks = 0; pc = λ _. outside }

pub data Step (s : Critical) : Critical → Type 0 where
  finds_lock :
      (i l : ℕ)
      → s.pc i ≡ outside
      → s.lk ≡ some l
      → Step s (record s { pc = update s.pc i setting })
  finds_null :
      (i : ℕ) → s.pc i ≡ outside → s.lk ≡ none → Step s (record s { pc = update s.pc i seen_null })
  takes_guard :
      (i : ℕ)
      → s.pc i ≡ seen_null
      → s.guard ≡ none
      → Step s (record s { guard = some i; pc = update s.pc i guarded })
  too_late :
      (i l : ℕ)
      → s.pc i ≡ guarded
      → s.lk ≡ some l
      → Step s (record s { pc = update s.pc i initialized })
  initializes :
      (i : ℕ)
      → s.pc i ≡ guarded
      → s.lk ≡ none
      → Step s (record s { lk = some s.locks; locks = s.locks + 1; pc = update s.pc i initialized })
  gives_guard :
      (i : ℕ)
      → s.pc i ≡ initialized
      → Step s (record s { guard = none; pc = update s.pc i setting })
  sets_lock :
      (i l : ℕ)
      → s.pc i ≡ setting
      → s.lk ≡ some l
      → s.owner l ≡ none
      → Step s (record s { owner = update s.owner l (some i); pc = update s.pc i inside })
  leaves :
      (i l : ℕ)
      → s.pc i ≡ inside
      → s.lk ≡ some l
      → Step s (record s { owner = update s.owner l none; pc = update s.pc i outside })

pub data Reach : Critical → Type 0 where
  start : Reach fresh
  then_step : {s t : Critical} → Reach s → Step s t → Reach t

abbrev PcHolds : (i : ℕ) (lk guard owner : Option ℕ) → Pc → Type 0
PcHolds i lk guard owner outside = Unit {0}
PcHolds i lk guard owner seen_null = Unit {0}
PcHolds i lk guard owner guarded = guard ≡ some i
PcHolds i lk guard owner initialized = (guard ≡ some i) × (lk ≡ some 0)
PcHolds i lk guard owner setting = lk ≡ some 0
PcHolds i lk guard owner inside = (lk ≡ some 0) × (owner ≡ some i)

record Inv (s : Critical) : Type 0 where
  threads : (i : ℕ) → PcHolds i s.lk s.guard (s.owner 0) (s.pc i)
  made : ((s.lk ≡ none) × (s.locks ≡ 0)) ⊎ ((s.lk ≡ some 0) × (s.locks ≡ 1))

at_place :
    (i : ℕ) (c : Pc) (s : Critical) → s.pc i ≡ c → Inv s → PcHolds i s.lk s.guard (s.owner 0) c
at_place i c s at inv = subst (PcHolds i s.lk s.guard (s.owner 0)) at (inv.threads i)

-- The lock variable has one lock where it has any.
the_lock : (l : ℕ) (s : Critical) → s.lk ≡ some l → Inv s → (l ≡ 0) × (s.lk ≡ some 0)
the_lock l s e inv = elim inv.made [
  | inl (null, _) ↦ absurd (ground (arith, null, e))
  | inr (one, _) ↦ (ground (arith, one, e), one)
]

-- Thread `i` moves on, and what other threads stand on is kept.
moves-Inv :
    (i : ℕ) (c : Pc) (s t : Critical)
    → ((j : ℕ) → t.pc j ≡ update s.pc i c j)
    → PcHolds i t.lk t.guard (t.owner 0) c
    → ((j : ℕ)
        → i ≢ j
        → PcHolds j s.lk s.guard (s.owner 0) (s.pc j)
        → PcHolds j t.lk t.guard (t.owner 0) (s.pc j))
    → ((t.lk ≡ none) × (t.locks ≡ 0)) ⊎ ((t.lk ≡ some 0) × (t.locks ≡ 1))
    → Inv s
    → Inv t
moves-Inv i c s t same own other made inv = record {
  threads = λ j. subst (PcHolds j t.lk t.guard (t.owner 0)) (sym (same j)) (
      update-elim (λ m x. PcHolds m t.lk t.guard (t.owner 0) x) s.pc i c j own
        (λ ne. other j ne (inv.threads j)));
  made = made;
}

-- What another thread stands on where the mutex goes from or to thread `i`, where the variable is
-- set, and where the lock goes from or to thread `i`.
guard-kept :
    (i j : ℕ) (lk g g' owner : Option ℕ) (c : Pc)
    → i ≢ j
    → (g ≡ none) ⊎ (g ≡ some i)
    → PcHolds j lk g owner c
    → PcHolds j lk g' owner c
guard-kept i j lk g g' owner outside ne free h = tt
guard-kept i j lk g g' owner seen_null ne free h = tt
guard-kept i j lk g g' owner guarded ne free h = absurd (ground (arith, h, free, ne))
guard-kept i j lk g g' owner initialized ne free h = absurd (ground (arith, h.0, free, ne))
guard-kept i j lk g g' owner setting ne free h = h
guard-kept i j lk g g' owner inside ne free h = h

null-kept :
    (j : ℕ) (lk g owner : Option ℕ) (c : Pc)
    → lk ≡ none
    → PcHolds j lk g owner c
    → PcHolds j (some 0) g owner c
null-kept j lk g owner outside e h = tt
null-kept j lk g owner seen_null e h = tt
null-kept j lk g owner guarded e h = h
null-kept j lk g owner initialized e h = (h.0, refl)
null-kept j lk g owner setting e h = refl
null-kept j lk g owner inside e h = (refl, h.1)

owner-kept :
    (i j : ℕ) (lk g o o' : Option ℕ) (c : Pc)
    → i ≢ j
    → (o ≡ none) ⊎ (o ≡ some i)
    → PcHolds j lk g o c
    → PcHolds j lk g o' c
owner-kept i j lk g o o' outside ne free h = tt
owner-kept i j lk g o o' seen_null ne free h = tt
owner-kept i j lk g o o' guarded ne free h = h
owner-kept i j lk g o o' initialized ne free h = h
owner-kept i j lk g o o' setting ne free h = h
owner-kept i j lk g o o' inside ne free h = absurd (ground (arith, h.1, free, ne))

Step-Inv : {s t : Critical} → Step s t → Inv s → Inv t
Step-Inv {s = s} (finds_lock i l at e) inv =
    moves-Inv i setting s _ (λ j. refl) (the_lock l s e inv).1 (λ j ne h. h) inv.made inv
Step-Inv {s = s} (finds_null i at e) inv =
    moves-Inv i seen_null s _ (λ j. refl) tt (λ j ne h. h) inv.made inv
Step-Inv {s = s} (takes_guard i at free) inv =
    moves-Inv i guarded s _ (λ j. refl) refl
      (λ j ne h. guard-kept i j _ _ _ _ (s.pc j) ne (inl free) h) inv.made inv
Step-Inv {s = s} (too_late i l at e) inv =
    moves-Inv i initialized s _ (λ j. refl) (at_place i guarded s at inv, (the_lock l s e inv).1)
      (λ j ne h. h) inv.made inv
Step-Inv {s = s} (initializes i at e) inv = elim inv.made [
  | inr (one, _) ↦ absurd (ground (arith, one, e))
  | inl (null, zero_locks) ↦
      let first : some s.locks ≡ some 0 = ap some zero_locks in
      moves-Inv i initialized s _ (λ j. refl) (at_place i guarded s at inv, first)
        (λ j ne h.
          subst (λ x. PcHolds j x s.guard (s.owner 0) (s.pc j)) (sym first)
            (null-kept j _ _ _ (s.pc j) null h))
        (inr (first, omega (arith, zero_locks))) inv
]
Step-Inv {s = s} (gives_guard i at) inv =
    let (mine, lk) = at_place i initialized s at inv in
    moves-Inv i setting s _ (λ j. refl) lk
      (λ j ne h. guard-kept i j _ _ _ _ (s.pc j) ne (inr mine) h) inv.made inv
Step-Inv {s = s} (sets_lock i l at e free) inv =
    let (first, lk) = the_lock l s e inv in
    moves-Inv i inside s _ (λ j. refl) (lk, ground (arith, first))
      (λ j ne h. owner-kept i j _ _ _ _ (s.pc j) ne (inl (sym (ap s.owner first) ∙ free)) h)
      inv.made inv
Step-Inv {s = s} (leaves i l at e) inv =
    let (lk, mine) = at_place i inside s at inv in
    moves-Inv i outside s _ (λ j. refl) tt
      (λ j ne h. owner-kept i j _ _ _ _ (s.pc j) ne (inr mine) h) inv.made inv

Reach-Inv : {s : Critical} → Reach s → Inv s
Reach-Inv start = record { threads = λ i. tt; made = inl (refl, refl) }
Reach-Inv (then_step r st) = Step-Inv st (Reach-Inv r)

-- In every reachable state of a critical construct that any number of threads enter, also where they
-- all find its lock variable null: the factory has made at most one lock, no other thread is inside
-- beside one that is, and a thread that goes on to `SetLock` finds a lock in the variable.
pub critical_exclusive :
    {s : Critical}
    → Reach s
    → (s.locks ≤ 1)
      × ((i j : ℕ) → s.pc i ≡ inside → i ≢ j → s.pc j ≢ inside)
      × ((i : ℕ) → s.pc i ≡ setting → s.lk ≡ some 0)
critical_exclusive {s} r =
    let inv = Reach-Inv r in
    (
      at_most inv,
      λ i j hi ne hj. ground (arith, at_place i inside s hi inv, at_place j inside s hj inv, ne),
      λ i at. at_place i setting s at inv,
    )
  where
    at_most : Inv s → s.locks ≤ 1
    at_most inv = elim inv.made [
      | inl (_, none_made) ↦ omega arith
      | inr (_, one_made) ↦ omega arith
    ]
