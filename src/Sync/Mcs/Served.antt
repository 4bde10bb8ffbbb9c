-- ===== src/Sync/Mcs/Served.antt =====
-- Whom `class MCSLock` of src/locks.cc serves, and when.
use lomp.Prelude.{ℕ, ◌≤◌, ◌<◌, ◌≡◌, ◌≢◌, ◌⊎◌, inl, inr, true, arith, refl, subst}
use lomp.Sync.Mcs.{
  Pc, outside, trying, linking, waiting, holding, passing, handing, clearing_go, clearing_next,
  McsLock, Reach,
}
use lomp.Sync.Mcs.Queue.{Queued, PcHolds}
use lomp.Sync.Mcs.Invariant.{Reach-Inv}

-- In every reachable state of an MCS lock used by any number of threads, no other thread holds it
-- beside one that does.
pub mcs_exclusive : {s : McsLock} (i j : ℕ) → Reach s → s.pc i ≡ holding → i ≢ j → s.pc j ≢ holding
mcs_exclusive i j r hi ne hj = let inv = Reach-Inv r in ground (arith, inv.threads i, inv.threads j)

oldest : (s : McsLock) (j k : ℕ) (c : Pc) → Queued c → PcHolds s j k c → s.served ≤ k
oldest s j k outside q h = elim q [ ]
oldest s j k trying q h = elim q [ ]
oldest s j k (linking t) q h = omega arith
oldest s j k waiting q h = omega arith
oldest s j k holding q h = omega arith
oldest s j k passing q h = omega arith
oldest s j k (handing n) q h = omega arith
oldest s j k clearing_go q h = elim q [ ]
oldest s j k clearing_next q h = elim q [ ]

-- In every reachable state of an MCS lock the thread that holds it has drawn its ticket before every
-- other thread in the queue, tickets being drawn with the exchange of the tail.
pub mcs_order :
    {s : McsLock} (i j : ℕ) → Reach s → s.pc i ≡ holding → Queued (s.pc j) → s.ticket i ≤ s.ticket j
mcs_order {s} i j r hi q =
    let inv = Reach-Inv r in
    let first : s.served ≤ s.ticket j = oldest s j (s.ticket j) (s.pc j) q (inv.threads j) in
    ground (arith, inv.threads i)

awake :
    (s : McsLock) (i : ℕ) (c : Pc)
    → s.pc i ≡ c
    → Queued c
    → PcHolds s i s.served c
    → (s.pc i ≡ holding)
      ⊎ (s.pc i ≡ passing)
      ⊎ ((n : ℕ) × (s.pc i ≡ handing n))
      ⊎ ((s.pc i ≡ waiting) × (s.go i ≡ true))
awake s i outside e q h = elim q [ ]
awake s i trying e q h = elim q [ ]
awake s i (linking t) e q h = absurd (omega arith)
awake s i waiting e q (lo, hi, own, behind, front) = inr (inr (inr (e, front refl)))
awake s i holding e q h = inl e
awake s i passing e q h = inr (inl e)
awake s i (handing n) e q h = inr (inr (inl (n, e)))
awake s i clearing_go e q h = elim q [ ]
awake s i clearing_next e q h = elim q [ ]

-- In every reachable state of an MCS lock with threads in its queue, the first of them holds the lock,
-- is in `unlock`, or waits and has been woken.
pub mcs_awake :
    {s : McsLock}
    → Reach s
    → s.served < s.issued
    → (s.pc (s.owner s.served) ≡ holding)
      ⊎ (s.pc (s.owner s.served) ≡ passing)
      ⊎ ((n : ℕ) × (s.pc (s.owner s.served) ≡ handing n))
      ⊎ ((s.pc (s.owner s.served) ≡ waiting) × (s.go (s.owner s.served) ≡ true))
mcs_awake {s} r some_queue =
    let inv = Reach-Inv r in
    let (number, queued) = inv.tickets s.served (omega arith) some_queue in
    awake s (s.owner s.served) (s.pc (s.owner s.served)) refl queued (
      subst (λ k. PcHolds s (s.owner s.served) k (s.pc (s.owner s.served))) number
        (inv.threads (s.owner s.served)))
