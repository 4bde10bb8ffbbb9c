-- ===== src/Sync/Mcs/Queue.antt =====
-- What is kept of the queue of `class MCSLock`, src/locks.cc.
use lomp.Prelude.{ℕ, ◌+◌, ◌-◌, ◌≤◌, ◌<◌, ◌≡◌, true, false, none, some}
use lomp.Sync.Mcs.{
  Pc, outside, trying, linking, waiting, holding, passing, handing, clearing_go, clearing_next,
  McsLock,
}

-- The thread is in the queue.
abbrev pub Queued : Pc → Type 0
Queued (linking t) = Unit
Queued waiting = Unit
Queued holding = Unit
Queued passing = Unit
Queued (handing n) = Unit
Queued outside = ⊥
Queued trying = ⊥
Queued clearing_go = ⊥
Queued clearing_next = ⊥

-- What a thread at the given point knows; `i` is its number and `k` its ticket.
abbrev pub PcHolds : McsLock → (i k : ℕ) → Pc → Type 0
PcHolds s i k outside = (s.go i ≡ false) × (s.next i ≡ none)
PcHolds s i k trying = (s.go i ≡ false) × (s.next i ≡ none)
PcHolds s i k (linking t) =
    (s.served < k)
    × (k < s.issued)
    × (s.owner k ≡ i)
    × (s.owner (k - 1) ≡ t)
    × (s.go i ≡ false)
    × (s.next t ≡ none)
PcHolds s i k waiting =
    (s.served ≤ k)
    × (k < s.issued)
    × (s.owner k ≡ i)
    × (s.served < k → (s.go i ≡ false) × (s.next (s.owner (k - 1)) ≡ some i))
    × (s.served ≡ k → s.go i ≡ true)
PcHolds s i k holding = (s.served ≡ k) × (k < s.issued) × (s.owner k ≡ i)
PcHolds s i k passing = (s.served ≡ k) × (k + 1 < s.issued) × (s.owner k ≡ i)
PcHolds s i k (handing n) =
    (s.served ≡ k)
    × (k + 1 < s.issued)
    × (s.owner k ≡ i)
    × (s.owner (k + 1) ≡ n)
    × (s.pc n ≡ waiting)
PcHolds s i k clearing_go = Unit
PcHolds s i k clearing_next = s.go i ≡ false

pub record Inv (s : McsLock) : Type 0 where
  pub threads : (i : ℕ) → PcHolds s i (s.ticket i) (s.pc i)
  pub tickets :
      (k : ℕ) → s.served ≤ k → k < s.issued → (s.ticket (s.owner k) ≡ k) × Queued (s.pc (s.owner k))
  pub order : s.served ≤ s.issued
  pub no_tail : s.tail ≡ none → s.served ≡ s.issued
  pub last :
      (t : ℕ)
      → s.tail ≡ some t
      → (s.served < s.issued) × (s.owner (s.issued - 1) ≡ t) × (s.next t ≡ none)
