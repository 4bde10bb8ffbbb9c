-- ===== src/Barriers/Central/Invariant.antt =====
-- The invariant of `class centralizedBarrier`, src/barrier_impl.cc.
use lomp.Prelude.{
  ℕ, ◌+◌, ◌-◌, ◌≤◌, ◌<◌, ◌≡◌, ◌≢◌, sym, subst, arith, Bool, true, Option, some, ltb, if◌then◌else◌,
  update,
}
use lomp.Barriers.Spec
use lomp.Barriers.Spec.{Threads, arrive, leave, Reach-Kept, view-near}
use lomp.Barriers.Central.Interface.{CheckIn, Broadcast}
use lomp.Barriers.Central.{Pc, outside, gathering, waking, waiting, woken, CentralizedBarrier}

-- The barrier for which threads check in, after `passed` barriers of the root.
abbrev pub era : (passed : ℕ) → Pc → ℕ
era passed outside = passed
era passed (gathering k) = passed
era passed (waking k) = passed + 1
era passed waiting = passed
era passed woken = passed

abbrev pub stored : Pc → ℕ
stored outside = 0
stored (gathering k) = 0
stored (waking k) = k
stored waiting = 0
stored woken = 0

-- A thread that comes to its barrier checks in for it.
pub checked :
    (e i : ℕ) (v : Threads) (j : ℕ)
    → e ≤ v.arrived i
    → update (λ k. ltb e (v.arrived k)) i true j ≡ ltb e ((arrive i v).arrived j)
checked e i v j le = ground arith

module _ {n : ℕ} (C : CheckIn n) (B : Broadcast n) where
  -- To how many wake-ups a thread may have gone on.
  abbrev pub released : (passed i : ℕ) → Pc → ℕ
  released passed i root = passed + (if ltb (B.slot i) (stored root) then 1 else 0)

  abbrev pub PcHolds : (i : ℕ) → Threads → (root own : Pc) → Type 0
  PcHolds i v root outside = v.arrived i ≡ v.passed i
  PcHolds i v root (gathering k) =
      (i ≡ 0)
      × (v.arrived i ≡ v.passed i + 1)
      × (k ≤ C.polls)
      × ((j : ℕ) → j < n → C.part j < k → v.passed 0 < v.arrived j)
  PcHolds i v root (waking k) =
      (i ≡ 0)
      × (v.arrived i ≡ v.passed i + 1)
      × (k ≤ B.stores)
      × ((j : ℕ) → j < n → v.passed 0 < v.arrived j)
  PcHolds i v root waiting = (i ≢ 0) × (v.arrived i ≡ v.passed i + 1)
  PcHolds i v root woken =
      (i ≢ 0) × (v.arrived i ≡ v.passed i + 1) × (v.passed i < released (v.passed 0) i root)

  -- `root` is where thread 0 stands.
  pub record Inv (args : ℕ → Option ℕ) (s : CentralizedBarrier C B) (root : Pc) : Type 0 where
    pub at_root : s.pc 0 ≡ root
    pub refines : Spec.Reach n s.view
    pub threads : (i : ℕ) → PcHolds i s.view root (s.pc i)
    pub ahead : (i : ℕ) → i < n → i ≢ 0 → s.view.passed i ≤ released (s.view.passed 0) i root
    pub counted :
        C.Represents s.checked_in (λ j. ltb (era (s.view.passed 0) root) (s.view.arrived j))
    pub spread : B.Represents s.broadcast args (s.view.passed 0) (stored root) s.view.passed
    pub handed :
        (i a : ℕ)
        → i < n
        → i ≢ 0
        → 0 < s.view.passed i
        → args (s.view.passed i - 1) ≡ some a
        → s.taken i ≡ some a

  pub counted-same :
      (c : C.State) (p q : ℕ → Bool) → ((j : ℕ) → p j ≡ q j) → C.Represents c p → C.Represents c q
  counted-same c p q same = subst (C.Represents c) (λ i j. same j i)

  pub spread-same :
      (b : B.State) (args : ℕ → Option ℕ) (w w' k : ℕ) (t t' : ℕ → ℕ)
      → w ≡ w'
      → ((j : ℕ) → t j ≡ t' j)
      → B.Represents b args w k t
      → B.Represents b args w' k t'
  spread-same b args w w' k t t' ew same =
      subst (λ X. X) (λ i. B.Represents b args (ew i) k (λ j. same j i))

  pub released-era : (passed i : ℕ) (root : Pc) → released passed i root ≤ era passed root
  released-era passed i outside = ground arith
  released-era passed i (gathering k) = ground arith
  released-era passed i (waking k) = ground arith
  released-era passed i waiting = ground arith
  released-era passed i woken = ground arith

  pub PcHolds-raise :
      (i : ℕ) (v : Threads) (r r' c : Pc)
      → released (v.passed 0) i r ≤ released (v.passed 0) i r'
      → PcHolds i v r c
      → PcHolds i v r' c
  PcHolds-raise i v r r' outside le h = h
  PcHolds-raise i v r r' (gathering k) le h = h
  PcHolds-raise i v r r' (waking k) le h = h
  PcHolds-raise i v r r' waiting le h = h
  PcHolds-raise i v r r' woken le (ne, at, lt) = (ne, at, omega arith)

  pub PcHolds-arrive :
      (i j : ℕ) (v : Threads) (r c : Pc) → i ≢ j → PcHolds j v r c → PcHolds j (arrive i v) r c
  PcHolds-arrive i j v r outside ne h = ground arith
  PcHolds-arrive i j v r (gathering k) ne (z, at, le, all) =
      (z, ground arith, le, λ m lm small. ground (arith, all m lm small))
  PcHolds-arrive i j v r (waking k) ne (z, at, le, all) =
      (z, ground arith, le, λ m lm. ground (arith, all m lm))
  PcHolds-arrive i j v r waiting ne h = ground arith
  PcHolds-arrive i j v r woken ne h = ground arith

  -- A thread other than the root leaves.
  pub PcHolds-leave :
      (i j : ℕ) (v : Threads) (r c : Pc)
      → i ≢ j
      → i ≢ 0
      → PcHolds j v r c
      → PcHolds j (leave i v) r c
  PcHolds-leave i j v r outside ne nz h = ground arith
  PcHolds-leave i j v r (gathering k) ne nz (z, at, le, all) =
      (z, ground arith, le, λ m lm small. ground (arith, all m lm small))
  PcHolds-leave i j v r (waking k) ne nz (z, at, le, all) =
      (z, ground arith, le, λ m lm. ground (arith, all m lm))
  PcHolds-leave i j v r waiting ne nz h = ground arith
  PcHolds-leave i j v r woken ne nz (z, at, lt) = (z, ground arith, ground (arith, lt))

  -- The root leaves.
  pub PcHolds-root_leave :
      (j : ℕ) (v : Threads) (c : Pc)
      → 0 ≢ j
      → PcHolds j v (waking B.stores) c
      → PcHolds j (leave 0 v) outside c
  PcHolds-root_leave j v outside ne h = ground arith
  PcHolds-root_leave j v (gathering k) ne (z, at, le, all) = absurd (ne (sym z))
  PcHolds-root_leave j v (waking k) ne (z, at, le, all) = absurd (ne (sym z))
  PcHolds-root_leave j v waiting ne h = ground arith
  PcHolds-root_leave j v woken ne (z, at, lt) = (z, ground arith, ground (arith, lt))

  era_close :
      (v : Threads) (root : Pc) (j : ℕ)
      → v.passed 0 ≤ v.arrived j
      → j < n
      → PcHolds 0 v root root
      → era (v.passed 0) root ≤ v.arrived j
  era_close v outside j le lt h = le
  era_close v (gathering k) j le lt h = le
  era_close v (waking k) j le lt (z, at, k_le, all) = omega (arith, all j lt)
  era_close v waiting j le lt h = le
  era_close v woken j le lt h = le

  waking_passed :
      (v : Threads) (root : Pc) (j : ℕ)
      → j < n
      → v.arrived j ≡ v.passed j + 1
      → 0 < stored root
      → PcHolds 0 v root root
      → v.passed 0 ≤ v.passed j
  waking_passed v outside j lt here some_stored h = absurd (omega arith)
  waking_passed v (gathering k) j lt here some_stored h = absurd (omega arith)
  waking_passed v (waking k) j lt here some_stored (z, at, le, all) = omega (arith, all j lt)
  waking_passed v waiting j lt here some_stored h = absurd (omega arith)
  waking_passed v woken j lt here some_stored h = absurd (omega arith)

  module _ {args : ℕ → Option ℕ} {s : CentralizedBarrier C B} {root : Pc}
      (inv : Inv args s root) where
    pub root_holds : PcHolds 0 s.view root root
    root_holds = subst (PcHolds 0 s.view root) inv.at_root (inv.threads 0)

    pub thread_holds : (i : ℕ) (c : Pc) → s.pc i ≡ c → PcHolds i s.view root c
    thread_holds i c at = subst (PcHolds i s.view root) at (inv.threads i)

    -- Every thread has come to the barriers before the one that is being counted.
    pub era_reached : 0 < n → (j : ℕ) → j < n → era (s.view.passed 0) root ≤ s.view.arrived j
    era_reached pos j lt =
        era_close s.view root j ((Reach-Kept inv.refines).1 0 j pos lt) lt root_holds

    pub passed_era : (j : ℕ) → j < n → j ≢ 0 → s.view.passed j ≤ era (s.view.passed 0) root
    passed_era j lt ne = omega (arith, inv.ahead j lt ne, released-era (s.view.passed 0) j root)

    -- Where the root has begun to wake the threads, they have all left the barriers before.
    pub passed_reached :
        (j : ℕ)
        → j < n
        → s.view.arrived j ≡ s.view.passed j + 1
        → 0 < stored root
        → s.view.passed 0 ≤ s.view.passed j
    passed_reached j lt at some_stored = waking_passed s.view root j lt at some_stored root_holds
