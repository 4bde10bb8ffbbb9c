-- ===== src/Sync/Mcs.antt =====
-- src/locks.cc: `class MCSLock`, in which waiting threads form a queue. The entry of a thread has
-- the thread's number; `next` and `go` are the fields of all entries. A step is one shared access of
-- one thread, in any order. There is no step where a thread only looks again.
pub mod Queue
pub mod Enter
pub mod Leave
pub mod Invariant
pub mod Served
use lomp.Prelude.{ℕ, ◌+◌, ◌≡◌, ◌≢◌, Bool, true, false, Option, none, some, update}

pub data Pc : Type 0 where
  outside : Pc
  trying : Pc  -- in `try_lock`, has seen no tail
  linking : (t : ℕ) → Pc  -- in `lock`, has put itself behind `t`
  waiting : Pc  -- until `go`
  holding : Pc
  passing : Pc  -- in `unlock`, is not the tail, waits for `next`
  handing : (next_in_line : ℕ) → Pc  -- before the store to the next thread's `go`
  clearing_go : Pc
  clearing_next : Pc

-- Beside the lock's fields, the numbers that the threads draw when they queue up: `ticket` of each
-- thread, `owner` of each ticket, and the tickets `served`, .., `issued - 1` that are in the queue.
pub record McsLock : Type 0 where
  pub tail : Option ℕ
  pub next : ℕ → Option ℕ
  pub go : ℕ → Bool
  pub pc : ℕ → Pc
  pub ticket : ℕ → ℕ
  pub owner : ℕ → ℕ
  pub served : ℕ
  pub issued : ℕ

abbrev pub new_lock : McsLock
new_lock = record {
  tail = none;
  next = λ _. none;
  go = λ _. false;
  pc = λ _. outside;
  ticket = λ _. 0;
  owner = λ _. 0;
  served = 0;
  issued = 0;
}

-- Thread `i` makes itself the tail and goes on at `c`.
abbrev pub queue_up : ℕ → Pc → McsLock → McsLock
queue_up i c s = record s {
  tail = some i;
  pc = update s.pc i c;
  ticket = update s.ticket i s.issued;
  owner = update s.owner s.issued i;
  issued = s.issued + 1;
}

pub data Step (s : McsLock) : McsLock → Type 0 where
  exchange_free : (i : ℕ) → s.pc i ≡ outside → s.tail ≡ none → Step s (queue_up i holding s)
  exchange_behind :
      (i t : ℕ) → s.pc i ≡ outside → s.tail ≡ some t → Step s (queue_up i (linking t) s)
  link :
      (i t : ℕ)
      → s.pc i ≡ linking t
      → Step s (record s { next = update s.next t (some i); pc = update s.pc i waiting })
  woken :
      (i : ℕ) → s.pc i ≡ waiting → s.go i ≡ true → Step s (record s { pc = update s.pc i holding })
  try_looks :
      (i : ℕ) → s.pc i ≡ outside → s.tail ≡ none → Step s (record s { pc = update s.pc i trying })
  try_takes : (i : ℕ) → s.pc i ≡ trying → s.tail ≡ none → Step s (queue_up i holding s)
  try_fails :
      (i t : ℕ)
      → s.pc i ≡ trying
      → s.tail ≡ some t
      → Step s (record s { pc = update s.pc i outside })
  unlock_last :
      (i : ℕ)
      → s.pc i ≡ holding
      → s.tail ≡ some i
      → Step s (record s { tail = none; pc = update s.pc i clearing_go; served = s.served + 1 })
  unlock_waited :
      (i : ℕ)
      → s.pc i ≡ holding
      → s.tail ≢ some i
      → Step s (record s { pc = update s.pc i passing })
  sees_next :
      (i n : ℕ)
      → s.pc i ≡ passing
      → s.next i ≡ some n
      → Step s (record s { pc = update s.pc i (handing n) })
  hands_over :
      (i n : ℕ)
      → s.pc i ≡ handing n
      → Step s (record s {
        go = update s.go n true;
        pc = update s.pc i clearing_go;
        served = s.served + 1;
      })
  clear_go :
      (i : ℕ)
      → s.pc i ≡ clearing_go
      → Step s (record s { go = update s.go i false; pc = update s.pc i clearing_next })
  clear_next :
      (i : ℕ)
      → s.pc i ≡ clearing_next
      → Step s (record s { next = update s.next i none; pc = update s.pc i outside })

pub data Reach : McsLock → Type 0 where
  start : Reach new_lock
  then_step : {s t : McsLock} → Reach s → Step s t → Reach t
