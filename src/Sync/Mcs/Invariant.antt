-- ===== src/Sync/Mcs/Invariant.antt =====
-- The invariant of `class MCSLock` of src/locks.cc over all its steps.
use lomp.Prelude.{inl, inr, refl, arith}
use lomp.Sync.Mcs.{
  outside, trying, McsLock, new_lock, Step, exchange_free, exchange_behind, link, woken, try_looks,
  try_takes, try_fails, unlock_last, unlock_waited, sees_next, hands_over, clear_go, clear_next,
  Reach, start, then_step,
}
use lomp.Sync.Mcs.Queue.{Inv}
use lomp.Sync.Mcs.Enter.{Inv-takes, Inv-exchange_behind, Inv-link, Inv-woken, Inv-outside}
use lomp.Sync.Mcs.Leave.{
  Inv-unlock_last, Inv-unlock_waited, Inv-sees_next, Inv-hands_over, Inv-clear_go, Inv-clear_next,
}

new_lock-Inv : Inv new_lock
new_lock-Inv = record {
  threads = λ i. (refl, refl);
  tickets = λ k lo hi. ground arith;
  order = omega arith;
  no_tail = λ e. refl;
  last = λ t e. ground arith;
}

Step-Inv : {s t : McsLock} → Step s t → Inv s → Inv t
Step-Inv {s} (exchange_free i at free) inv =
    Inv-takes i s (ground (arith, inv.threads i)) free (λ q. ground arith) inv
Step-Inv {s} (exchange_behind i t at full) inv = Inv-exchange_behind i t s at full inv
Step-Inv {s} (link i t at) inv = Inv-link i t s at inv
Step-Inv {s} (woken i at go) inv = Inv-woken i s at go inv
Step-Inv {s} (try_looks i at free) inv =
    Inv-outside i trying s (ground (arith, inv.threads i)) (inr refl) (λ q. ground arith) inv
Step-Inv {s} (try_takes i at free) inv =
    Inv-takes i s (ground (arith, inv.threads i)) free (λ q. ground arith) inv
Step-Inv {s} (try_fails i t at full) inv =
    Inv-outside i outside s (ground (arith, inv.threads i)) (inl refl) (λ q. ground arith) inv
Step-Inv {s} (unlock_last i at is) inv = Inv-unlock_last i s at is inv
Step-Inv {s} (unlock_waited i at ne) inv = Inv-unlock_waited i s at ne inv
Step-Inv {s} (sees_next i n at sees) inv = Inv-sees_next i n s at sees inv
Step-Inv {s} (hands_over i n at) inv = Inv-hands_over i n s at inv
Step-Inv {s} (clear_go i at) inv = Inv-clear_go i s at inv
Step-Inv {s} (clear_next i at) inv = Inv-clear_next i s at inv

pub Reach-Inv : {s : McsLock} → Reach s → Inv s
Reach-Inv start = new_lock-Inv
Reach-Inv (then_step r st) = Step-Inv st (Reach-Inv r)
