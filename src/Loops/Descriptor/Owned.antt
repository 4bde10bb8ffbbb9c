-- ===== src/Loops/Descriptor/Owned.antt =====
-- What the threads of a team may count on from the descriptors of src/loops.h.
use lomp.Prelude.{
  ℕ, ◌+◌, ◌%◌, ◌≤◌, ◌<◌, ◌≡◌, ◌≢◌, ◌∙◌, ◌⊎◌, inl, inr, refl, sym, ap, subst, arith, some,
}
use lomp.Loops.Descriptor.{
  initializing, inside, Team, loop_index, max_concurrent_loops, Reach, InRange,
}
use lomp.Loops.Descriptor.Phases.{Phase, free, claimed, active, drained, to_leave, grade, Holds}
use lomp.Loops.Descriptor.Steps.{Reach-Inv}
use lomp.Loops.Descriptor.Changes.{inside-active}

-- In a run on which no thread has come to loop number `2 ^ 32 - 1`: while a thread is in a loop, its descriptor has the number of that loop and counts the threads of
-- the team that have not left the loop.
pub inside-counted :
    {n : ℕ} {s : Team} (i : ℕ) (r : Reach n s)
    → InRange r
    → i < n
    → s.pc i ≡ inside
    → (s.sequence (loop_index (s.loop_count i)) ≡ some (s.loop_count i))
      × (s.ref_count (loop_index (s.loop_count i)) ≡ to_leave n (s.loop_count i) s.loop_count)
inside-counted {n} {s} i r few lt at =
    let (p, h) = Reach-Inv r few (s.loop_count i % 16) (omega arith) in
    let (l, active_now, now) = inside-active i (s.loop_count i % 16) s lt refl p h at in
    let h' : Holds n (s.loop_count i % 16) s (active l) =
      subst (Holds n (s.loop_count i % 16) s) active_now h in
    (
      h'.sequence_is ∙ ap some (sym now),
      h'.referred.0 ∙ ap (λ x. to_leave n x s.loop_count) (sym now),
    )

initializing-alone :
    {n : ℕ} {s : Team} (i j d : ℕ) (p : Phase)
    → Holds n d s p
    → i < n
    → j < n
    → s.loop_count i % 16 ≡ d
    → s.loop_count j % 16 ≡ d
    → grade (s.pc i) ≡ 2
    → 2 ≤ grade (s.pc j)
    → i ≡ j
initializing-alone i j d (free l) h li lj ei ej gi gj =
    absurd (ground (arith, h.slot, h.placed i li))
initializing-alone i j d (claimed l t) h li lj ei ej gi gj =
    ground (arith, h.slot, h.placed i li, h.placed j lj)
initializing-alone i j d (active l) h li lj ei ej gi gj =
    absurd (ground (arith, h.slot, h.placed i li))
initializing-alone i j d (drained l t) h li lj ei ej gi gj =
    absurd (ground (arith, h.slot, h.placed i li))

-- In a run on which no thread has come to loop number `2 ^ 32 - 1`: while a thread initializes a descriptor, any other thread that initializes a descriptor or is in
-- a loop is at another descriptor.
pub initializing-exclusive :
    {n : ℕ} {s : Team} (i j : ℕ) (r : Reach n s)
    → InRange r
    → i < n
    → j < n
    → i ≢ j
    → s.pc i ≡ initializing
    → (s.pc j ≡ initializing) ⊎ (s.pc j ≡ inside)
    → loop_index (s.loop_count i) ≢ loop_index (s.loop_count j)
initializing-exclusive {n} {s} i j r few li lj ne at busy = λ same.
    let (p, h) = Reach-Inv r few (s.loop_count i % 16) (omega arith) in
    ne (
      initializing-alone i j (s.loop_count i % 16) p h li lj refl (sym same) (ap grade at)
        (busy_grade busy))
  where
    busy_grade : (s.pc j ≡ initializing) ⊎ (s.pc j ≡ inside) → 2 ≤ grade (s.pc j)
    busy_grade (inl e) = omega (arith, ap grade e)
    busy_grade (inr e) = omega (arith, ap grade e)

near :
    {n : ℕ} {s : Team} (i j d : ℕ) (p : Phase)
    → Holds n d s p
    → i < n
    → j < n
    → s.loop_count i % 16 ≡ d
    → s.loop_count j ≤ s.loop_count i + 16
near i j d (free l) h li lj e = ground (arith, h.slot, h.placed i li, h.placed j lj)
near i j d (claimed l t) h li lj e = ground (arith, h.slot, h.placed i li, h.placed j lj)
near i j d (active l) h li lj e = ground (arith, h.slot, h.placed i li, h.placed j lj)
near i j d (drained l t) h li lj e = ground (arith, h.slot, h.placed i li, h.placed j lj)

-- In a run on which no thread has come to loop number `2 ^ 32 - 1`: no thread is more dynamic loops ahead of another one than there are descriptors.
pub loop_count_near :
    {n : ℕ} {s : Team} (i j : ℕ) (r : Reach n s)
    → InRange r
    → i < n
    → j < n
    → s.loop_count j ≤ s.loop_count i + max_concurrent_loops
loop_count_near {n} {s} i j r few li lj =
    let (p, h) = Reach-Inv r few (s.loop_count i % 16) (omega arith) in
    near i j (s.loop_count i % 16) p h li lj refl
