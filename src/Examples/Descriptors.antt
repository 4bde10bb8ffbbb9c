-- ===== src/Examples/Descriptors.antt =====
-- Examples of the descriptors of dynamic loops, src/loops.h: a team of two threads.
use lomp.Prelude.{◌≡◌, ◌≢◌, inr, refl, arith, some, false, ℕ_discrete}
use lomp.Loops.Descriptor
use lomp.Loops.Descriptor.Phases.{to_leave}
use lomp.Loops.Descriptor.Owned.{inside-counted, initializing-exclusive}

-- Thread 0 has claimed the descriptor of the first loop.
claimed_first : (s : Descriptor.Team) × Descriptor.Reach 2 s
unfolding ℕ_discrete Descriptor.sequence_number
claimed_first = (
  _,
  Descriptor.then_step
      (Descriptor.then_step
        (Descriptor.then_step Descriptor.start (Descriptor.comes 0 (omega arith) refl))
        (Descriptor.not_current 0 false (omega arith) refl (ground arith)))
      (Descriptor.claims 0 (omega arith) refl refl),
)

-- It is in the loop, and thread 1 has joined it.
joined : (s : Descriptor.Team) × Descriptor.Reach 2 s
unfolding ℕ_discrete Descriptor.sequence_number claimed_first
joined = (
  _,
  Descriptor.then_step
      (Descriptor.then_step
        (Descriptor.then_step
          (Descriptor.then_step claimed_first.1 (Descriptor.completes 0 (omega arith) refl))
          (Descriptor.comes 1 (omega arith) refl))
        (Descriptor.is_current 1 false (omega arith) refl refl))
      (Descriptor.is_initialized 1 false (omega arith) refl (ground arith)),
)

joined-InRange : Descriptor.InRange joined.1
unfolding ℕ_discrete Descriptor.sequence_number joined claimed_first
joined-InRange = (
  λ i h. ground arith,
  (
    λ i h. ground arith,
    (
      λ i h. ground arith,
      (
        λ i h. ground arith,
        (λ i h. ground arith, (λ i h. ground arith, (λ i h. ground arith, tt))),
      ),
    ),
  ),
)

inside-counted_example :
    let s = joined.0 in
    (s.sequence (Descriptor.loop_index (s.loop_count 1)) ≡ some (s.loop_count 1))
    × (s.ref_count (Descriptor.loop_index (s.loop_count 1))
        ≡ to_leave 2 (s.loop_count 1) s.loop_count)
unfolding ℕ_discrete Descriptor.sequence_number joined
inside-counted_example = inside-counted 1 joined.1 joined-InRange (omega arith) refl

-- Thread 0 has left the first loop and claimed the descriptor of the second.
claimed_second : (s : Descriptor.Team) × Descriptor.Reach 2 s
unfolding ℕ_discrete Descriptor.sequence_number joined
claimed_second = (
  _,
  Descriptor.then_step
      (Descriptor.then_step
        (Descriptor.then_step
          (Descriptor.then_step joined.1 (Descriptor.leaves 0 (omega arith) refl (omega arith)))
          (Descriptor.comes 0 (omega arith) refl))
        (Descriptor.not_current 0 false (omega arith) refl (ground arith)))
      (Descriptor.claims 0 (omega arith) refl refl),
)

claimed_second-InRange : Descriptor.InRange claimed_second.1
unfolding ℕ_discrete Descriptor.sequence_number claimed_second
claimed_second-InRange = (
  λ i h. ground arith,
  (λ i h. ground arith, (λ i h. ground arith, (λ i h. ground arith, joined-InRange))),
)

initializing-exclusive_example :
    Descriptor.loop_index (claimed_second.0.loop_count 0)
    ≢ Descriptor.loop_index (claimed_second.0.loop_count 1)
unfolding ℕ_discrete Descriptor.sequence_number claimed_second
initializing-exclusive_example =
    initializing-exclusive 0 1 claimed_second.1 claimed_second-InRange (omega arith) (omega arith)
      (omega arith) refl (inr refl)
