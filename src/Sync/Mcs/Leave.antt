-- ===== src/Sync/Mcs/Leave.antt =====
-- The queue under the steps of `unlock` of `class MCSLock`, src/locks.cc.
use lomp.Prelude.{
  ℕ, ◌+◌, ◌-◌, ◌<◌, ◌≡◌, ◌≢◌, inl, inr, Option-cases, true, false, none, some, update, arith,
}
use lomp.Sync.Mcs.{outside, waiting, holding, passing, handing, clearing_go, clearing_next, McsLock}
use lomp.Sync.Mcs.Queue.{Inv}

pub Inv-unlock_last :
    (i : ℕ) (s : McsLock)
    → s.pc i ≡ holding
    → s.tail ≡ some i
    → Inv s
    → Inv (record s { tail = none; pc = update s.pc i clearing_go; served = s.served + 1 })
Inv-unlock_last i s at cond inv = record {
  threads = λ j.
      ground (arith, inv.threads i, inv.threads j, inv.last i cond, inv.tickets (s.issued - 1));
  tickets = λ k lo hi.
      ground (arith, inv.threads i, inv.tickets k, inv.last i cond, inv.tickets (s.issued - 1));
  order = ground (arith, inv.last i cond);
  no_tail = λ e. ground (arith, inv.threads i, inv.last i cond, inv.tickets (s.issued - 1));
  last = λ t' e. ground arith;
}

-- A holder that is not the tail has a successor in the queue.
has_successor :
    (i : ℕ) (s : McsLock) → s.pc i ≡ holding → s.tail ≢ some i → Inv s → s.ticket i + 1 < s.issued
has_successor i s at ne inv = elim (Option-cases s.tail) [
  | inl free ↦ ground (arith, inv.threads i, inv.no_tail free)
  | inr (t, is) ↦ ground (arith, inv.threads i, inv.last t is)
]

-- The successor that `next` names waits behind the holder.
successor :
    (i n : ℕ) (s : McsLock)
    → s.pc i ≡ passing
    → s.next i ≡ some n
    → Inv s
    → (s.owner (s.ticket i + 1) ≡ n) × (s.pc n ≡ waiting)
successor i n s at sees inv =
    ground
      (arith, inv.threads i, inv.tickets (s.ticket i + 1), inv.threads (s.owner (s.ticket i + 1)))

pub Inv-unlock_waited :
    (i : ℕ) (s : McsLock)
    → s.pc i ≡ holding
    → s.tail ≢ some i
    → Inv s
    → Inv (record s { pc = update s.pc i passing })
Inv-unlock_waited i s at cond inv = record {
  threads = λ j. ground (arith, inv.threads i, inv.threads j, has_successor i s at cond inv);
  tickets = λ k lo hi. ground (arith, inv.threads i, inv.tickets k);
  order = inv.order;
  no_tail = λ e. inv.no_tail e;
  last = λ t' e. inv.last t' e;
}

pub Inv-sees_next :
    (i n : ℕ) (s : McsLock)
    → s.pc i ≡ passing
    → s.next i ≡ some n
    → Inv s
    → Inv (record s { pc = update s.pc i (handing n) })
Inv-sees_next i n s at cond inv = record {
  threads = λ j. ground (arith, inv.threads i, inv.threads j, successor i n s at cond inv);
  tickets = λ k lo hi. ground (arith, inv.threads i, inv.tickets k);
  order = inv.order;
  no_tail = λ e. inv.no_tail e;
  last = λ t' e. inv.last t' e;
}

pub Inv-hands_over :
    (i n : ℕ) (s : McsLock)
    → s.pc i ≡ handing n
    → Inv s
    → Inv (record s {
      go = update s.go n true;
      pc = update s.pc i clearing_go;
      served = s.served + 1;
    })
Inv-hands_over i n s at inv = record {
  threads = λ j. ground (arith, inv.threads i, inv.threads j, inv.tickets (s.ticket i + 1));
  tickets = λ k lo hi. ground (arith, inv.threads i, inv.tickets k, inv.tickets s.served);
  order = ground (arith, inv.threads i);
  no_tail = λ e. ground (arith, inv.threads i, inv.no_tail e);
  last = λ t' e. ground (arith, inv.threads i, inv.last t' e);
}

pub Inv-clear_go :
    (i : ℕ) (s : McsLock)
    → s.pc i ≡ clearing_go
    → Inv s
    → Inv (record s { go = update s.go i false; pc = update s.pc i clearing_next })
Inv-clear_go i s at inv = record {
  threads = λ j. ground (arith, inv.threads i, inv.threads j);
  tickets = λ k lo hi. ground (arith, inv.tickets k);
  order = inv.order;
  no_tail = λ e. inv.no_tail e;
  last = λ t' e. inv.last t' e;
}

pub Inv-clear_next :
    (i : ℕ) (s : McsLock)
    → s.pc i ≡ clearing_next
    → Inv s
    → Inv (record s { next = update s.next i none; pc = update s.pc i outside })
Inv-clear_next i s at inv = record {
  threads = λ j. ground (arith, inv.threads i, inv.threads j, inv.tickets (s.ticket j - 1));
  tickets = λ k lo hi. ground (arith, inv.tickets k);
  order = inv.order;
  no_tail = λ e. inv.no_tail e;
  last = λ t' e. ground (arith, inv.last t' e);
}
