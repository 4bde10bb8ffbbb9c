-- ===== src/Sync/Single.antt =====
-- src/entrypoints.cc: `__kmpc_single`, and what it uses of src/threads.h: the thread's count
-- `SinglesSeen` (`fetchAndIncrSingleCount`) and the team's counter `NextSingle`
-- (`tryIncrementNextSingle`), a shared access at a time and in any order. Every thread of the team
-- meets the `single` constructs in the same order. Both counters have 64 bits.
use lomp.Prelude.{ℕ, ◌+◌, ◌≤◌, ◌≡◌, ◌≢◌, arith, List, [], ◌∷◌, ◌==◌, if◌then◌else◌, ltb, update}

pub data Pc : Type 0 where
  outside : Pc
  counted : (my_single : ℕ) → Pc  -- has counted this construct, before the load
  tested : (my_single : ℕ) → Pc  -- the load gave its number, before the compare-exchange

-- `executed` lists the constructs that a call has returned true for, `passed` the number of
-- constructs that each thread has got an answer for.
pub record Team : Type 0 where
  pub next_single : ℕ
  pub singles_seen : ℕ → ℕ
  pub pc : ℕ → Pc
  pub executed : List ℕ
  pub passed : ℕ → ℕ

abbrev pub new_team : Team
new_team = record {
  next_single = 0;
  singles_seen = λ _. 0;
  pc = λ _. outside;
  executed = [];
  passed = λ _. 0;
}

pub data Step (s : Team) : Team → Type 0 where
  count :
      (i : ℕ)
      → s.pc i ≡ outside
      → Step s (record s {
        singles_seen = update s.singles_seen i (s.singles_seen i + 1);
        pc = update s.pc i (counted (s.singles_seen i));
      })
  is_next :
      (i n : ℕ)
      → s.pc i ≡ counted n
      → s.next_single ≡ n
      → Step s (record s { pc = update s.pc i (tested n) })
  not_next :
      (i n : ℕ)
      → s.pc i ≡ counted n
      → s.next_single ≢ n
      → Step s (record s { pc = update s.pc i outside; passed = update s.passed i (n + 1) })
  exchange :
      (i n : ℕ)
      → s.pc i ≡ tested n
      → s.next_single ≡ n
      → Step s (record s {
        next_single = n + 1;
        pc = update s.pc i outside;
        executed = n ∷ s.executed;
        passed = update s.passed i (n + 1);
      })
  too_late :
      (i n : ℕ)
      → s.pc i ≡ tested n
      → s.next_single ≢ n
      → Step s (record s { pc = update s.pc i outside; passed = update s.passed i (n + 1) })

pub data Reach : Team → Type 0 where
  start : Reach new_team
  then_step : {s t : Team} → Reach s → Step s t → Reach t

-- How often a construct was executed.
abbrev pub executions : ℕ → List ℕ → ℕ
executions x [] = 0
executions x (y ∷ l) = (if x == y then 1 else 0) + executions x l

-- A thread has an answer for the constructs before its next, and the team's counter has passed them.
abbrev PcHolds : (next seen passed : ℕ) → Pc → Type 0
PcHolds next seen passed outside = (passed ≡ seen) × (seen ≤ next)
PcHolds next seen passed (counted n) = (passed ≡ n) × (seen ≡ n + 1) × (n ≤ next)
PcHolds next seen passed (tested n) = (passed ≡ n) × (seen ≡ n + 1) × (n ≤ next)

record Inv (s : Team) : Type 0 where
  threads : (i : ℕ) → PcHolds s.next_single (s.singles_seen i) (s.passed i) (s.pc i)
  once : (x : ℕ) → executions x s.executed ≡ (if ltb x s.next_single then 1 else 0)

Step-Inv : {s t : Team} → Step s t → Inv s → Inv t
Step-Inv (count i at) inv = record {
  threads = λ j. ground (arith, inv.threads j, inv.threads i);
  once = inv.once;
}
Step-Inv (is_next i n at same) inv = record {
  threads = λ j. ground (arith, inv.threads j, inv.threads i);
  once = inv.once;
}
Step-Inv (not_next i n at other) inv = record {
  threads = λ j. ground (arith, inv.threads j, inv.threads i);
  once = inv.once;
}
Step-Inv (exchange i n at same) inv = record {
  threads = λ j. ground (arith, inv.threads j, inv.threads i);
  once = λ x. ground (arith, inv.once x);
}
Step-Inv (too_late i n at other) inv = record {
  threads = λ j. ground (arith, inv.threads j, inv.threads i);
  once = inv.once;
}

Reach-Inv : {s : Team} → Reach s → Inv s
Reach-Inv start = record { threads = λ i. ground arith; once = λ x. ground arith }
Reach-Inv (then_step r st) = Step-Inv st (Reach-Inv r)

-- In every reachable state, with any number of threads, each `single` construct whose number is
-- below the team's counter was executed by exactly one call and no other construct by any, and
-- no thread has an answer for a construct that the counter has not passed: where a thread has gone
-- on, one thread executes the construct.
pub single_once :
    {s : Team} (i : ℕ)
    → Reach s
    → ((x : ℕ) → executions x s.executed ≡ (if ltb x s.next_single then 1 else 0))
      × (s.passed i ≤ s.next_single)
single_once {s} i r = ((Reach-Inv r).once, passed_le (s.pc i) ((Reach-Inv r).threads i))
  where
    passed_le :
        (c : Pc)
        → PcHolds s.next_single (s.singles_seen i) (s.passed i) c
        → s.passed i ≤ s.next_single
    passed_le outside h = omega arith
    passed_le (counted n) h = omega arith
    passed_le (tested n) h = omega arith
