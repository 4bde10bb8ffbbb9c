-- ===== src/Examples/Atomics.antt =====
-- Examples of src/atomics.cc: an addition and a maximum on one target.
use lomp.Prelude.{
  ℕ, zero, suc, ◌+◌, ◌≡◌, refl, arith, Bool, false, ◌==◌, ltb, if◌then◌else◌, ℕ_discrete,
}
use lomp.Sync.Single.{executions}
use lomp.Sync.Atomics
use lomp.Sync.Atomics.{Entry, cas_op, checked_op, in_turn, has_returned}
use lomp.Sync.Atomics.Once.{atomic_once}
use lomp.Sync.Atomics.Alone.{Returns, atomic-Returns}

abbrev same : ℕ → ℕ → Bool
same a b = a == b

-- Call 0 adds 3, all others take the maximum with 5.
abbrev entries : ℕ → Entry
entries zero = cas_op (λ a b. a + b) false 3
entries (suc i) = checked_op (λ a b. if ltb a b then b else a) 5

-- Call 0 loses its first attempt to call 1, and then call 2 finds nothing to do.
contended : (s : Atomics.Target) × Atomics.Reach same entries 4 s
unfolding ℕ_discrete Atomics.look Atomics.finds Atomics.nothing_to_do Atomics.next
contended = (
  _,
  Atomics.then_step 2
      (Atomics.then_step 0
        (Atomics.then_step 0
          (Atomics.then_step 1
            (Atomics.then_step 1
              (Atomics.then_step 0 Atomics.start
                (Atomics.loads (Atomics.is_cas (λ a b. a + b) false 3) refl))
              (Atomics.loads (Atomics.is_checked (λ a b. if ltb a b then b else a) 5) refl))
            (Atomics.stores 0 4 refl refl))
          (Atomics.retries 0 4 refl (omega arith) refl))
        (Atomics.stores 1 5 refl refl))
      (Atomics.loads (Atomics.is_checked (λ a b. if ltb a b then b else a) 5) refl),
)

atomic_once_example :
    (contended.0.value ≡ in_turn same entries contended.0.done 4)
    × ((i : ℕ) → executions i contended.0.done ≡ has_returned (contended.0.pc i))
atomic_once_example = atomic_once contended.1

-- Call 7 has not been made in that state.
atomic-Returns_example : Returns same entries 7 3 contended.0
unfolding contended ℕ_discrete
atomic-Returns_example = atomic-Returns same entries 7 contended.0 (ground arith)
