-- ===== src/Examples/Barriers.antt =====
-- Examples of src/barrier_impl.cc: teams of two threads.
use lomp.Prelude.{
  ℕ, ◌-◌, ◌≢◌, ◌+◌, ◌≡◌, ◌<◌, refl, arith, Option, none, some, ℕ_discrete, ltb, ◌&&◌, ◌==◌,
  if◌then◌else◌,
}
use lomp.Prelude.Counting.{sum_below}
use lomp.Barriers.Spec
use lomp.Support.Logarithm
use lomp.Barriers.UpDown
use lomp.Barriers.UpDown.Refines.{up_down-refines}
use lomp.Barriers.Dissemination
use lomp.Barriers.Dissemination.Refines.{dissemination-refines}
use lomp.Barriers.AllToAll
use lomp.Barriers.AllToAll.Refines.{all_to_all-refines}
use lomp.Barriers.Tree.{parent, num_children, num_children-parent}
use lomp.Barriers.Central
use lomp.Barriers.Central.Interface.{CheckIn, Broadcast}
use lomp.Barriers.Central.Atomic.{AtomicCheckIn}
use lomp.Barriers.Central.Flags
use lomp.Barriers.Central.Flags.{FlagCheckIn}
use lomp.Barriers.Central.Naive.{Naive}
use lomp.Barriers.Central.Lines.Waking.{Lbw}
use lomp.Barriers.Central.Refines.{central-refines}
use lomp.Barriers.Central.Kinds.{flag_lbw-hands}

-- Both threads have counted, and thread 0 has gone on.
counted_up : (s : UpDown.AtomicUpDownBarrier) × UpDown.Reach 2 s
unfolding ℕ_discrete UpDown.counted UpDown.target
counted_up = (
  _,
  UpDown.then_step
      (UpDown.then_step (UpDown.then_step UpDown.start (UpDown.counts 0 (omega arith) refl))
        (UpDown.counts 1 (omega arith) refl))
      (UpDown.goes_on 0 (omega arith) refl refl),
)

up_down-refines_example : Spec.Reach 2 counted_up.0.view
up_down-refines_example = up_down-refines (omega arith) counted_up.1

-- Both threads poll.
both_polling : (s : UpDown.AtomicUpDownBarrier) × UpDown.Reach 2 s
unfolding ℕ_discrete
both_polling = (
  _,
  UpDown.then_step (UpDown.then_step UpDown.start (UpDown.counts 0 (omega arith) refl))
      (UpDown.counts 1 (omega arith) refl),
)

both_poll : (j : ℕ) → j < 2 → both_polling.0.pc j ≡ UpDown.polling
unfolding both_polling
both_poll j lt = ground arith

-- Each thread has told the other, and thread 0 has gone on.
told_once : (s : Dissemination.DisseminationBarrier) × Dissemination.Reach 2 1 s
unfolding ℕ_discrete Dissemination.neighbour
told_once = (
  _,
  Dissemination.then_step
      (Dissemination.then_step
        (Dissemination.then_step
          (Dissemination.then_step
            (Dissemination.then_step
              (Dissemination.then_step Dissemination.start
                (Dissemination.enters 0 (omega arith) refl))
              (Dissemination.enters 1 (omega arith) refl))
            (Dissemination.tells 0 0 (omega arith) refl (omega arith)))
          (Dissemination.tells 1 0 (omega arith) refl (omega arith)))
        (Dissemination.is_told 0 0 (omega arith) refl refl))
      (Dissemination.goes_on 0 (omega arith) refl),
)

dissemination-refines_example : Spec.Reach 2 told_once.0.view
unfolding Logarithm.ceiling_log Logarithm.log_loop
dissemination-refines_example = dissemination-refines (omega arith) refl told_once.1

-- What the root hands out.
abbrev functions : ℕ → Option ℕ
functions b = some (b + 7)

-- One barrier of two threads, with any way to check in and to broadcast that polls once and stores
-- twice.
abbrev atomic : CheckIn 2
atomic = AtomicCheckIn 2 (omega arith)

one_barrier :
    (s : Central.CentralizedBarrier atomic (Naive 2)) × Central.Reach atomic (Naive 2) functions s
unfolding ℕ_discrete
one_barrier = (
  _,
  Central.then_step
      (Central.then_step
        (Central.then_step
          (Central.then_step
            (Central.then_step
              (Central.then_step
                (Central.then_step
                  (Central.then_step
                    (Central.then_step Central.start
                      (Central.checks_in 1 (omega arith) (omega arith) refl))
                    (Central.root_checks_in (omega arith) refl))
                  (Central.polls 0 refl (omega arith) refl))
                (Central.resets refl))
              (Central.stores 0 refl (omega arith)))
            (Central.stores 1 refl (omega arith)))
          (Central.root_leaves (omega arith) refl))
        (Central.wakes 1 (omega arith) refl refl))
      (Central.takes 1 (omega arith) refl),
)

central-refines_example : Spec.Reach 2 one_barrier.0.view
central-refines_example = central-refines atomic (Naive 2) one_barrier.1

-- The same barrier with a byte for each thread and a cache line for both of them.
abbrev flags : CheckIn 2
flags = FlagCheckIn 2 (λ word byte. 9) (omega arith) (omega arith)

abbrev one_line : Broadcast 2
one_line = Lbw 2 2 (λ line. none) (omega arith)

line_barrier :
    (s : Central.CentralizedBarrier flags one_line) × Central.Reach flags one_line functions s
unfolding ℕ_discrete Flags.all_below
line_barrier = (
  _,
  Central.then_step
      (Central.then_step
        (Central.then_step
          (Central.then_step
            (Central.then_step
              (Central.then_step
                (Central.then_step
                  (Central.then_step
                    (Central.then_step Central.start
                      (Central.checks_in 1 (omega arith) (omega arith) refl))
                    (Central.root_checks_in (omega arith) refl))
                  (Central.polls 0 refl (omega arith) refl))
                (Central.resets refl))
              (Central.stores 0 refl (omega arith)))
            (Central.stores 1 refl (omega arith)))
          (Central.root_leaves (omega arith) refl))
        (Central.wakes 1 (omega arith) refl refl))
      (Central.takes 1 (omega arith) refl),
)

flag_lbw-hands_example :
    Spec.Reach 2 line_barrier.0.view
    × ((i a : ℕ)
        → i < 2
        → i ≢ 0
        → 0 < line_barrier.0.view.passed i
        → functions (line_barrier.0.view.passed i - 1) ≡ some a
        → line_barrier.0.taken i ≡ some a)
flag_lbw-hands_example =
    flag_lbw-hands {lbw = 2} (λ word byte. 9) (λ line. none) (omega arith) (omega arith)
      (omega arith) line_barrier.1

-- Both threads have counted themselves everywhere, and thread 0 has gone on.
counted_everywhere : (s : AllToAll.AllToAllAtomicBarrier) × AllToAll.Reach 2 (λ j. 9) s
unfolding ℕ_discrete AllToAll.set_flag
counted_everywhere = (
  _,
  AllToAll.then_step
      (AllToAll.then_step
        (AllToAll.then_step
          (AllToAll.then_step
            (AllToAll.then_step
              (AllToAll.then_step
                (AllToAll.then_step AllToAll.start (AllToAll.clears 0 (omega arith) refl))
                (AllToAll.clears 1 (omega arith) refl))
              (AllToAll.marks 0 0 (omega arith) refl (omega arith)))
            (AllToAll.marks 0 1 (omega arith) refl (omega arith)))
          (AllToAll.marks 1 0 (omega arith) refl (omega arith)))
        (AllToAll.marks 1 1 (omega arith) refl (omega arith)))
      (AllToAll.goes_on 0 (omega arith) refl refl),
)

all_to_all-refines_example : Spec.Reach 2 counted_everywhere.0.view
all_to_all-refines_example = all_to_all-refines (omega arith) counted_everywhere.1

-- Thread 1 of six in a tree of branching factor 2 has threads 3 and 4 as its children.
num_children-parent_example :
    sum_below 6 (λ j. if ltb 0 j && parent 2 j == 1 then 1 else 0) ≡ num_children 2 6 1
num_children-parent_example = num_children-parent 2 6 1 (omega arith)
