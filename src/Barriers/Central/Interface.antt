-- ===== src/Barriers/Central/Interface.antt =====
-- What `class centralizedBarrier` of src/barrier_impl.cc expects of its template parameters, among
-- `n` threads of which thread 0 is the root.
use lomp.Prelude.{
  ℕ, ◌+◌, ◌≤◌, ◌<◌, ◌≡◌, ◌≢◌, ◌↔◌, Bool, true, false, Option, some, ltb, if◌then◌else◌, update,
}

-- A way to check in: `check_in`, `wait` as a number of polls one after the other, and `reset`.
-- `Represents s p` says that since the last reset the threads `j` with `p j` have checked in; the
-- poll number `part j` is the one that sees thread `j`.
pub record CheckIn (n : ℕ) : Type 1 where
  pub State : Type 0
  pub fresh : State
  pub check_in : ℕ → State → State
  pub polls : ℕ
  pub full : ℕ → State → Bool
  pub reset : State → State
  pub part : ℕ → ℕ
  pub part-lt : (j : ℕ) → j < n → part j < polls
  pub Represents : State → (ℕ → Bool) → Type 0
  pub fresh-Represents : Represents fresh (λ _. false)
  pub check_in-Represents :
      (i : ℕ) (s : State) (p : ℕ → Bool)
      → i < n
      → p i ≡ false
      → Represents s p
      → Represents (check_in i s) (update p i true)
  pub reset-Represents :
      (s : State) (p : ℕ → Bool) → Represents s p → Represents (reset s) (λ _. false)
  pub full_iff :
      (k : ℕ) (s : State) (p : ℕ → Bool)
      → k < polls
      → Represents s p
      → (full k s ≡ true) ↔ ((j : ℕ) → j < n → part j ≡ k → p j ≡ true)

-- A way to broadcast: `wakeUp` by the root as a number of stores one after the other, and what it
-- does after them, `finish`; `wait` as a poll `awake`, and the rest, `take` and `body`.
-- `Represents s args w k t`: the root has woken the threads `w` times, with `args b` at the time
-- number `b`, and made `k` stores of the next wake-up; thread `j` has taken `t j` wake-ups. The
-- store number `slot j` is the one that wakes thread `j`.
pub record Broadcast (n : ℕ) : Type 1 where
  pub State : Type 0
  pub fresh : State
  pub stores : ℕ
  pub store : ℕ → Option ℕ → State → State
  pub finish : State → State
  pub awake : ℕ → State → Bool
  pub take : ℕ → State → State
  pub body : ℕ → State → Option ℕ
  pub slot : ℕ → ℕ
  pub slot-lt : (j : ℕ) → j < n → slot j < stores
  pub Represents : State → (ℕ → Option ℕ) → (w k : ℕ) → (ℕ → ℕ) → Type 0
  pub fresh-Represents : (args : ℕ → Option ℕ) → Represents fresh args 0 0 (λ _. 0)
  pub store-Represents :
      (s : State) (args : ℕ → Option ℕ) (w k : ℕ) (t : ℕ → ℕ)
      → k < stores
      → ((j : ℕ) → j < n → j ≢ 0 → (w ≤ t j) × (t j ≤ w + (if ltb (slot j) k then 1 else 0)))
      → t 0 ≡ w
      → Represents s args w k t
      → Represents (store k (args w) s) args w (k + 1) t
  pub finish-Represents :
      (s : State) (args : ℕ → Option ℕ) (w : ℕ) (t : ℕ → ℕ)
      → t 0 ≡ w
      → Represents s args w stores t
      → Represents (finish s) args (w + 1) 0 (update t 0 (t 0 + 1))
  pub awake_iff :
      (i : ℕ) (s : State) (args : ℕ → Option ℕ) (w k : ℕ) (t : ℕ → ℕ)
      → i < n
      → i ≢ 0
      → t i ≤ w + (if ltb (slot i) k then 1 else 0)
      → w + (if ltb (slot i) k then 1 else 0) ≤ t i + 1
      → Represents s args w k t
      → (awake i s ≡ true) ↔ (t i < w + (if ltb (slot i) k then 1 else 0))
  pub take-Represents :
      (i : ℕ) (s : State) (args : ℕ → Option ℕ) (w k : ℕ) (t : ℕ → ℕ)
      → i < n
      → i ≢ 0
      → t i + 1 ≡ w + (if ltb (slot i) k then 1 else 0)
      → Represents s args w k t
      → Represents (take i s) args w k (update t i (t i + 1))
  pub body-args :
      (i a : ℕ) (s : State) (args : ℕ → Option ℕ) (w k : ℕ) (t : ℕ → ℕ)
      → i < n
      → i ≢ 0
      → (0 < k → w ≤ t i)
      → t i + 1 ≡ w + (if ltb (slot i) k then 1 else 0)
      → Represents s args w k t
      → args (t i) ≡ some a
      → body i s ≡ some a
