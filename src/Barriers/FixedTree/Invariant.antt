-- ===== src/Barriers/FixedTree/Invariant.antt =====
-- The invariant of `class centralizedBarrier` over `class fixedTreeCheckIn`, src/barrier_impl.cc.
use lomp.Prelude.{
  ℕ, zero, suc, ◌+◌, ◌-◌, ◌%◌, ◌≤◌, ◌<◌, ◌≡◌, ◌≢◌, ap, subst, arith, Option, some, ltb,
  if◌then◌else◌, update, ℕ_discrete,
}
use lomp.Barriers.Spec
use lomp.Barriers.Tree.{parent, num_children}
use lomp.Barriers.Central.Interface.{Broadcast}
use lomp.Barriers.FixedTree.Shape.{child, parent_lt}
use lomp.Barriers.FixedTree.Counters.{Counter}
use lomp.Barriers.FixedTree.Rows.{Checks}
use lomp.Barriers.FixedTree.{
  Pc, outside, gathering, reporting, waking, waiting, woken, FixedTreeBarrier,
}

abbrev pub stored : Pc → ℕ
stored outside = 0
stored (gathering parity k) = 0
stored (reporting parity) = 0
stored (waking k) = k
stored waiting = 0
stored woken = 0

-- Where a thread `i` stands that has come to `arrived` barriers and left `passed`.
abbrev pub PcHolds :
    (n b : ℕ) (C : Counter) (stores i arrived passed : ℕ) (told : ℕ → ℕ) → Pc → Type 0
PcHolds n b C stores i arrived passed told outside = (arrived ≡ passed) × (told i ≡ passed)
PcHolds n b C stores i arrived passed told (gathering parity k) =
    (arrived ≡ passed + 1)
    × (told i ≡ passed)
    × (parity ≡ passed % 2)
    × (0 < num_children b n i)
    × (k ≤ C.polls (num_children b n i))
    × ((c : ℕ) → c < num_children b n i → C.part c < k → passed < told (child b i c))
PcHolds n b C stores i arrived passed told (reporting parity) =
    (arrived ≡ passed + 1)
    × (told i ≡ passed)
    × (parity ≡ passed % 2)
    × ((c : ℕ) → c < num_children b n i → passed < told (child b i c))
PcHolds n b C stores i arrived passed told (waking k) =
    (i ≡ 0) × (arrived ≡ passed + 1) × (told i ≡ arrived) × (k ≤ stores)
PcHolds n b C stores i arrived passed told waiting =
    (i ≢ 0) × (arrived ≡ passed + 1) × (told i ≡ arrived)
PcHolds n b C stores i arrived passed told woken =
    (i ≢ 0) × (arrived ≡ passed + 1) × (told i ≡ arrived)

module _ {n : ℕ} (b : ℕ) (C : Counter) (B : Broadcast n) where
  -- To how many wake-ups a thread may have gone on, where the root has made `k` stores of the next.
  abbrev pub released : (passed i k : ℕ) → ℕ
  released passed i k = passed + (if ltb (B.slot i) k then 1 else 0)

  -- `k` is how many stores the root has made of its wake-up.
  pub record Inv (args : ℕ → Option ℕ) (s : FixedTreeBarrier b C B) (k : ℕ) : Type 0 where
    pub at_root : stored (s.pc 0) ≡ k
    pub refines : Spec.Reach n s.view
    pub threads :
        (i : ℕ)
        → i < n
        → PcHolds n b C B.stores i (s.view.arrived i) (s.view.passed i) s.told (s.pc i)
    pub checks : Checks n b C s.counters s.sequence s.view.arrived s.told
    pub ahead : (i : ℕ) → i < n → i ≢ 0 → s.view.passed i ≤ released (s.view.passed 0) i k
    pub free : (i : ℕ) → i < n → s.pc i ≡ woken → s.view.passed i < released (s.view.passed 0) i k
    pub spread : B.Represents s.broadcast args (s.view.passed 0) k s.view.passed
    pub handed :
        (i a : ℕ)
        → i < n
        → i ≢ 0
        → 0 < s.view.passed i
        → args (s.view.passed i - 1) ≡ some a
        → s.taken i ≡ some a

pub told_bounds :
    (n b : ℕ) (C : Counter) (stores i arrived passed : ℕ) (told : ℕ → ℕ) (c : Pc)
    → PcHolds n b C stores i arrived passed told c
    → (passed ≤ told i) × (told i ≤ arrived) × (arrived ≤ passed + 1)
told_bounds n b C stores i arrived passed told outside h = omega arith
told_bounds n b C stores i arrived passed told (gathering parity k)
      (come, at, same, parents, le, all) =
    omega arith
told_bounds n b C stores i arrived passed told (reporting parity) (come, at, same, all) =
    omega arith
told_bounds n b C stores i arrived passed told (waking k) (z, come, at, le) = omega arith
told_bounds n b C stores i arrived passed told waiting (ne, come, at) = omega arith
told_bounds n b C stores i arrived passed told woken (ne, come, at) = omega arith

-- A root that has begun to wake the threads has found all its children.
stored_told :
    (n b : ℕ) (C : Counter) (stores i arrived passed : ℕ) (told : ℕ → ℕ) (c : Pc)
    → PcHolds n b C stores i arrived passed told c
    → 0 < stored c
    → told i ≡ passed + 1
stored_told n b C stores i arrived passed told outside h some_stored = absurd (omega arith)
stored_told n b C stores i arrived passed told (gathering parity k) h some_stored =
    absurd (omega arith)
stored_told n b C stores i arrived passed told (reporting parity) h some_stored =
    absurd (omega arith)
stored_told n b C stores i arrived passed told (waking k) (z, come, at, le) some_stored =
    omega arith
stored_told n b C stores i arrived passed told waiting h some_stored = absurd (omega arith)
stored_told n b C stores i arrived passed told woken h some_stored = absurd (omega arith)

-- Another thread tells its parent.
pub PcHolds-tell :
    (n b : ℕ) (C : Counter) (stores i j arrived passed : ℕ) (told : ℕ → ℕ) (c : Pc)
    → i ≢ j
    → PcHolds n b C stores j arrived passed told c
    → PcHolds n b C stores j arrived passed (update told i (told i + 1)) c
PcHolds-tell n b C stores i j arrived passed told outside ne h = ground (arith, ne, h)
PcHolds-tell n b C stores i j arrived passed told (gathering parity k) ne
      (come, at, same, parents, le, all) =
    (come, ground (arith, ne, at), same, parents, le, λ c lc small. ground (arith, all c lc small))
PcHolds-tell n b C stores i j arrived passed told (reporting parity) ne (come, at, same, all) =
    (come, ground (arith, ne, at), same, λ c lc. ground (arith, all c lc))
PcHolds-tell n b C stores i j arrived passed told (waking k) ne (z, come, at, le) =
    (z, come, ground (arith, ne, at), le)
PcHolds-tell n b C stores i j arrived passed told waiting ne (z, come, at) =
    (z, come, ground (arith, ne, at))
PcHolds-tell n b C stores i j arrived passed told woken ne (z, come, at) =
    (z, come, ground (arith, ne, at))

-- In a tree where no thread has told more than its children, none has told less than the root.
root_least :
    (n b : ℕ) (told : ℕ → ℕ) (bound : ℕ)
    → 0 < b
    → ((j : ℕ) → 0 < j → j < n → told (parent b j) ≤ told j)
    → (j : ℕ) → j < n
    → j < bound
    → told 0 ≤ told j
root_least n b told zero pos up j lt below = absurd (omega arith)
root_least n b told (suc bound) pos up j lt below = elim (ℕ_discrete j 0) [
  | yes e ↦ ground (arith, ap told e)
  | no ne ↦
      let above = parent_lt b j pos (omega arith) in
      omega (
        arith,
        up j (omega arith) lt,
        root_least n b told bound pos up (parent b j) (omega arith) (omega arith),
      )
]

module _ {n b : ℕ} {C : Counter} {B : Broadcast n} {args : ℕ → Option ℕ}
    {s : FixedTreeBarrier b C B} {k : ℕ} (pos_b : 0 < b) (inv : Inv b C B args s k) where
  pub at_place :
      (i : ℕ) (c : Pc)
      → i < n
      → s.pc i ≡ c
      → PcHolds n b C B.stores i (s.view.arrived i) (s.view.passed i) s.told c
  at_place i c lt at =
      subst (PcHolds n b C B.stores i (s.view.arrived i) (s.view.passed i) s.told) at
        (inv.threads i lt)

  pub bounds :
      (i : ℕ)
      → i < n
      → (s.view.passed i ≤ s.told i)
        × (s.told i ≤ s.view.arrived i)
        × (s.view.arrived i ≤ s.view.passed i + 1)
  bounds i lt = told_bounds n b C B.stores i _ _ s.told (s.pc i) (inv.threads i lt)

  pub waking_told : 0 < n → 0 < k → s.told 0 ≡ s.view.passed 0 + 1
  waking_told pos some_stored =
      stored_told n b C B.stores 0 _ _ s.told (s.pc 0) (inv.threads 0 pos)
        (omega (arith, inv.at_root))

  -- A thread goes on to a wake-up after the root has found all its children in that barrier.
  pub released_told : (i : ℕ) → 0 < n → released b C B (s.view.passed 0) i k ≤ s.told 0
  released_told i pos = elim (ℕ_discrete k 0) [
    | yes e ↦ ground (arith, bounds 0 pos, e)
    | no ne ↦ ground (arith, waking_told pos (omega arith))
  ]

  pub root_told : (j : ℕ) → j < n → s.told 0 ≤ s.told j
  root_told j lt = root_least n b s.told (j + 1) pos_b inv.checks.up j lt (omega arith)

  -- No thread has left more barriers than another has told its parent of.
  pub passed_told : (i j : ℕ) → i < n → j < n → s.view.passed i ≤ s.told j
  passed_told i j li lj = elim (ℕ_discrete i 0) [
    | yes e ↦ omega (arith, root_told j lj, bounds 0 (omega arith), ap s.view.passed e)
    | no ne ↦ omega (arith, root_told j lj, released_told i (omega arith), inv.ahead i li ne)
  ]
