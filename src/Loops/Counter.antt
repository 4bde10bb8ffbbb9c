-- ===== src/Loops/Counter.antt =====
-- src/loops.cc: `dispatchMonotonic` and `dispatchGuided`, in which the threads of a team share the
-- counter `nextIteration`, a shared access at a time and in any order.
pub mod Invariant
pub mod Once
use lomp.Prelude.{
  ℕ, ◌+◌, ◌-◌, ◌/◌, ◌%◌, ◌^◌, ◌<◌, ◌≡◌, ◌≢◌, Bool, List, [], ◌∷◌, ◌==◌, if◌then◌else◌, update,
}

-- What a thread does with the value of the counter that it has loaded: leave the loop, or try to
-- move the counter on by `delta`.
pub data Attempt : Type 0 where
  no_work : Attempt
  take : (delta : ℕ) → Attempt

unfoldable pub monotonic_attempt : (count next : ℕ) → Attempt
monotonic_attempt count next = if next == count then no_work else take 1

-- Half of the thread's share of what remains, in the 64 bits of the counter.
unfoldable pub guided_attempt : (thread_count count next : ℕ) → Attempt
guided_attempt thread_count count next =
    let remaining : ℕ = (count + 2 ^ 64 - next) % 2 ^ 64 in
    let my_share : ℕ = (remaining + thread_count + 2 ^ 64 - 1) % 2 ^ 64 / thread_count in
    let delta : ℕ = (my_share + 1) % 2 ^ 64 / 2 in if remaining == 0 then no_work else take delta

-- Where a thread stands in the `for (;;)` of its dispatch function.
pub data Pc : Type 0 where
  ready : Pc
  loaded : (local_next delta : ℕ) → Pc  -- before the compare-exchange
  finished : Pc  -- the call has returned false

-- The shared counter, the threads, and the half-open ranges of chunks that were handed out.
pub record System : Type 0 where
  pub next : ℕ
  pub pc : ℕ → Pc
  pub handed : List (ℕ × ℕ)

abbrev pub start : System
start = record { next = 0; pc = λ _. ready; handed = [] }

-- One step of thread `i` of any number of threads, `attempt` being that of the schedule. A call
-- that returns true is followed by the next call.
pub data Step (attempt : ℕ → Attempt) (s : System) : System → Type 0 where
  leave :
      (i : ℕ)
      → s.pc i ≡ ready
      → attempt s.next ≡ no_work
      → Step attempt s (record s { pc = update s.pc i finished })
  load :
      (i delta : ℕ)
      → s.pc i ≡ ready
      → attempt s.next ≡ take delta
      → Step attempt s (record s { pc = update s.pc i (loaded s.next delta) })
  exchange :
      (i local_next delta : ℕ)
      → s.pc i ≡ loaded local_next delta
      → s.next ≡ local_next
      → Step attempt s (record {
        next = local_next + delta;
        pc = update s.pc i ready;
        handed = (local_next, local_next + delta) ∷ s.handed;
      })
  retry :
      (i local_next delta : ℕ)
      → s.pc i ≡ loaded local_next delta
      → s.next ≢ local_next
      → Step attempt s (record s { pc = update s.pc i ready })

pub data Reach (attempt : ℕ → Attempt) : System → Type 0 where
  here : Reach attempt start
  then_step : {s t : System} → Reach attempt s → Step attempt s t → Reach attempt t
