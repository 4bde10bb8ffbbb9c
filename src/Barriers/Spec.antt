-- ===== src/Barriers/Spec.antt =====
-- What a barrier of src/barriers.h promises: a thread that has come to its barrier number `b` goes on
-- only after every thread of the team has come to its barrier number `b`.
use lomp.Prelude.{
  zero, suc, dec_lt, ℕ_discrete, ℕ, ◌+◌, ◌≤◌, ◌<◌, ◌≡◌, ◌⊎◌, inl, refl, arith, update,
}

-- To how many barriers each thread has come, and how many it has left.
pub record Threads : Type 0 where
  pub arrived : ℕ → ℕ
  pub passed : ℕ → ℕ

abbrev pub nobody : Threads
nobody = record { arrived = λ _. 0; passed = λ _. 0 }

abbrev pub arrive : ℕ → Threads → Threads
arrive i v = record v { arrived = update v.arrived i (v.arrived i + 1) }

abbrev pub leave : ℕ → Threads → Threads
leave i v = record v { passed = update v.passed i (v.passed i + 1) }

pub data Reach (n : ℕ) : Threads → Type 0 where
  start : Reach n nobody
  arrives :
      {v : Threads} (i : ℕ) → Reach n v → i < n → v.arrived i ≡ v.passed i → Reach n (arrive i v)
  leaves :
      {v : Threads} (i : ℕ)
      → Reach n v
      → i < n
      → v.arrived i ≡ v.passed i + 1
      → ((j : ℕ) → j < n → v.passed i < v.arrived j)
      → Reach n (leave i v)

-- No thread is more than one barrier ahead of any other.
abbrev pub Kept : ℕ → Threads → Type 0
Kept n v =
    ((i : ℕ) → (v.arrived i ≡ v.passed i) ⊎ (v.arrived i ≡ v.passed i + 1))
    × ((i j : ℕ) → i < n → j < n → v.passed i ≤ v.arrived j)

pub Reach-Kept : {n : ℕ} {v : Threads} → Reach n v → Kept n v
Reach-Kept start = (λ i. inl refl, λ i j li lj. omega arith)
Reach-Kept (arrives i r lt e) =
    let (turn, close) = Reach-Kept r in
    (λ j. ground (arith, turn j), λ j k lj lk. ground (arith, close j k lj lk))
Reach-Kept (leaves i r lt e all) =
    let (turn, close) = Reach-Kept r in
    (λ j. ground (arith, turn j), λ j k lj lk. ground (arith, close j k lj lk, all k lk))

-- The barriers that two threads have come to and left.
pub view-near :
    {n : ℕ} {v : Threads}
    → Reach n v
    → (i j : ℕ) → i < n
    → j < n
    → (v.passed i ≤ v.arrived j) × (v.arrived j ≤ v.passed i + 2)
view-near {v} r i j li lj =
    let (turn, close) = Reach-Kept r in
    (close i j li lj, ground (arith, turn i, turn j, close j i lj li))

-- No thread beyond the team comes to a barrier.
pub Reach-beyond : {n : ℕ} {v : Threads} → Reach n v → (j : ℕ) → n ≤ j → v.arrived j ≡ 0
Reach-beyond start j le = refl
Reach-beyond (arrives i r lt e) j le = ground (arith, Reach-beyond r j le)
Reach-beyond (leaves i r lt e all) j le = Reach-beyond r j le

first_least : (n : ℕ) (f : ℕ → ℕ) → (i : ℕ) × (i < suc n) × ((j : ℕ) → j < suc n → f i ≤ f j)
first_least zero f = (0, omega arith, λ j lt. ground arith)
first_least (suc n) f =
    let (i, li, least) = first_least n f in
    elim (dec_lt (f (suc n)) (f i)) [
      | yes less ↦ (
        suc n,
        omega arith,
        λ j lt. elim (ℕ_discrete j (suc n)) [
          | yes e ↦ ground (arith, e)
          | no ne ↦ omega (arith, least j (omega arith))
        ],
      )
      | no more ↦ (
        i,
        omega arith,
        λ j lt. elim (ℕ_discrete j (suc n)) [
          | yes e ↦ ground (arith, e)
          | no ne ↦ least j (omega arith)
        ],
      )
    ]

-- Where all threads are in a barrier, there is one to whose barrier all have come.
pub someone_ready :
    {n : ℕ} {v : Threads}
    → 0 < n
    → ((j : ℕ) → j < n → v.arrived j ≡ v.passed j + 1)
    → (i : ℕ) × (i < n) × ((j : ℕ) → j < n → v.passed i < v.arrived j)
someone_ready {n = zero} pos all = absurd (omega arith)
someone_ready {n = suc n} {v} pos all =
    let (i, li, least) = first_least n v.passed in
    (i, li, λ j lj. omega (arith, least j lj, all j lj))
