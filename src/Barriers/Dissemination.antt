-- ===== src/Barriers/Dissemination.antt =====
-- src/barrier_impl.cc: `fullBarrier` of `class distributedLogBarrier` as `class DisseminationBarrier`
-- has it: in each round a thread sets a flag of one other thread and polls one of its own. A step
-- is one access of one thread to a flag, or its entry or exit, in any order.
pub mod Knowledge
pub mod Places
pub mod Refines
use lomp.Prelude.{ℕ, ◌+◌, ◌/◌, ◌%◌, ◌^◌, ◌<◌, ◌≡◌, Bool, false, ◌==◌, update}
use lomp.Barriers.Spec.{Threads, nobody, arrive, leave}

pub data Pc : Type 0 where
  outside : Pc
  in_round : (round : ℕ) → Pc  -- before the test of the loop over the rounds
  polling : (round : ℕ) → Pc

-- `thread_flags` by parity, thread and round. `view` records the barriers that the threads have come
-- to and left.
pub record DisseminationBarrier : Type 0 where
  pub thread_flags : ℕ → ℕ → ℕ → Bool
  pub entry_count : ℕ → ℕ
  pub pc : ℕ → Pc
  pub view : Threads

abbrev pub new_barrier : DisseminationBarrier
new_barrier = record {
  thread_flags = λ _ _ _. false;
  entry_count = λ _. 0;
  pc = λ _. outside;
  view = nobody;
}

unfoldable pub neighbour : (n me round : ℕ) → ℕ
neighbour n me round = (me + 2 ^ round) % n

abbrev pub parity : ℕ → ℕ
parity entry_count = entry_count % 2

abbrev pub sense : ℕ → Bool
sense entry_count = (entry_count / 2) % 2 == 0

abbrev pub set_flag : (parity thread round : ℕ) → Bool → (ℕ → ℕ → ℕ → Bool) → ℕ → ℕ → ℕ → Bool
set_flag parity thread round b flags =
    update flags parity (update (flags parity) thread (update (flags parity thread) round b))

-- `rounds` is `NumRounds`.
pub data Step (n rounds : ℕ) (s : DisseminationBarrier) : DisseminationBarrier → Type 0 where
  enters :
      (i : ℕ)
      → i < n
      → s.pc i ≡ outside
      → Step n rounds s (record s { pc = update s.pc i (in_round 0); view = arrive i s.view })
  tells :
      (i r : ℕ)
      → i < n
      → s.pc i ≡ in_round r
      → r < rounds
      → Step n rounds s (record s {
        thread_flags =
            set_flag
              (parity (s.entry_count i))
              (neighbour n i r)
              r
              (sense (s.entry_count i))
              s.thread_flags;
        pc = update s.pc i (polling r);
      })
  is_told :
      (i r : ℕ)
      → i < n
      → s.pc i ≡ polling r
      → s.thread_flags (parity (s.entry_count i)) i r ≡ sense (s.entry_count i)
      → Step n rounds s (record s { pc = update s.pc i (in_round (r + 1)) })
  goes_on :
      (i : ℕ)
      → i < n
      → s.pc i ≡ in_round rounds
      → Step n rounds s (record s {
        entry_count = update s.entry_count i ((s.entry_count i + 1) % 2 ^ 32);
        pc = update s.pc i outside;
        view = leave i s.view;
      })

pub data Reach (n rounds : ℕ) : DisseminationBarrier → Type 0 where
  start : Reach n rounds new_barrier
  then_step : {s t : DisseminationBarrier} → Reach n rounds s → Step n rounds s t → Reach n rounds t
