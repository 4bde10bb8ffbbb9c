-- ===== src/Sync/Mcs/Enter.antt =====
-- The queue under the steps of `lock` and `try_lock` of `class MCSLock`, src/locks.cc.
use lomp.Prelude.{ℕ, ◌-◌, ◌≡◌, ◌⊎◌, true, none, some, update, arith}
use lomp.Sync.Mcs.{Pc, outside, trying, linking, waiting, holding, McsLock, queue_up}
use lomp.Sync.Mcs.Queue.{Queued, PcHolds, Inv}

-- A thread that is not in the queue takes a free lock.
pub Inv-takes :
    (i : ℕ) (s : McsLock)
    → PcHolds s i (s.ticket i) outside
    → s.tail ≡ none
    → (Queued (s.pc i) → ⊥)
    → Inv s
    → Inv (queue_up i holding s)
Inv-takes i s at free not_in inv = record {
  threads = λ j. ground (arith, inv.threads j, inv.no_tail free);
  tickets = λ k lo hi. ground (arith, inv.tickets k, inv.no_tail free);
  order = ground (arith, inv.order);
  no_tail = λ e. ground arith;
  last = λ t e. ground arith;
}

pub Inv-exchange_behind :
    (i t : ℕ) (s : McsLock)
    → s.pc i ≡ outside
    → s.tail ≡ some t
    → Inv s
    → Inv (queue_up i (linking t) s)
Inv-exchange_behind i t s at cond inv = record {
  threads = λ j.
      ground (arith, inv.threads i, inv.threads j, inv.last t cond, inv.tickets (s.ticket j - 1));
  tickets = λ k lo hi. ground (arith, inv.threads i, inv.tickets k, inv.last t cond);
  order = ground (arith, inv.order);
  no_tail = λ e. ground arith;
  last = λ t' e. ground (arith, inv.threads i, inv.last t cond);
}

pub Inv-link :
    (i t : ℕ) (s : McsLock)
    → s.pc i ≡ linking t
    → Inv s
    → Inv (record s { next = update s.next t (some i); pc = update s.pc i waiting })
Inv-link i t s at inv = record {
  threads = λ j. ground (
    arith,
    inv.threads i,
    inv.threads j,
    inv.tickets (s.ticket i - 1),
    inv.tickets (s.ticket j - 1),
  );
  tickets = λ k lo hi. ground (arith, inv.threads i, inv.tickets k);
  order = inv.order;
  no_tail = λ e. inv.no_tail e;
  last = λ t' e. ground (
    arith,
    inv.threads i,
    inv.last t' e,
    inv.tickets (s.ticket i - 1),
    inv.tickets (s.issued - 1),
  );
}

pub Inv-woken :
    (i : ℕ) (s : McsLock)
    → s.pc i ≡ waiting
    → s.go i ≡ true
    → Inv s
    → Inv (record s { pc = update s.pc i holding })
Inv-woken i s at cond inv = record {
  threads = λ j. ground (arith, inv.threads i, inv.threads j);
  tickets = λ k lo hi. ground (arith, inv.threads i, inv.tickets k);
  order = inv.order;
  no_tail = λ e. inv.no_tail e;
  last = λ t' e. inv.last t' e;
}

pub Inv-outside :
    (i : ℕ) (c : Pc) (s : McsLock)
    → PcHolds s i (s.ticket i) outside
    → (c ≡ outside) ⊎ (c ≡ trying)
    → ¬ Queued (s.pc i)
    → Inv s
    → Inv (record s { pc = update s.pc i c })
Inv-outside i c s at new not_in inv = record {
  threads = λ j. ground (arith, inv.threads j);
  tickets = λ k lo hi. ground (arith, inv.tickets k);
  order = inv.order;
  no_tail = λ e. inv.no_tail e;
  last = λ t' e. inv.last t' e;
}
