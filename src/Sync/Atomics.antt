-- ===== src/Sync/Atomics.antt =====
-- src/atomics.cc: the entry points for `#pragma omp atomic` on one target, which any number of calls
-- update at the same time. A step is one access of one call to the target, in any order. The values
-- are the bits of the target's type; what an operator computes on them is a parameter.
pub mod Alone
pub mod Once
use lomp.Prelude.{
  ℕ, zero, suc, ◌+◌, ◌≤◌, ◌≡◌, ◌≢◌, ◌⊎◌, inl, inr, refl, sym, ap, ◌∙◌, arith, Bool, true, false,
  ◌%◌, ◌==◌, Bool-cases, if◌then◌else◌, List, [], ◌∷◌, update, update-elim, ℕ_discrete,
}
use lomp.Sync.Single.{executions}

-- What the three macros make: `expandInlineBinaryOp`, `expandCasBinaryOp` and `expandCasCheckedOp`,
-- with the operator, the argument `reversed` of the second, and the operand.
pub data Entry : Type 0 where
  inline_op : (operator : ℕ → ℕ → ℕ) (operand : ℕ) → Entry
  cas_op : (mutator : ℕ → ℕ → ℕ) (reversed : Bool) (operand : ℕ) → Entry
  checked_op : (function : ℕ → ℕ → ℕ) (operand : ℕ) → Entry

-- `next` for a value of `current`.
unfoldable pub next : Entry → (current : ℕ) → ℕ
next (inline_op operator operand) current = operator current operand
next (cas_op mutator reversed operand) current =
    if reversed then mutator operand current else mutator current operand
next (checked_op function operand) current = function current operand

-- Whether the macro's first test finds that there is nothing to store: `==` of the type, `same`, on
-- `next` and `current`.
unfoldable pub nothing_to_do : (same : ℕ → ℕ → Bool) → Entry → (current : ℕ) → Bool
nothing_to_do same (inline_op operator operand) current = false
nothing_to_do same (cas_op mutator reversed operand) current = false
nothing_to_do same (checked_op function operand) current = same (function current operand) current

-- Where a call stands. Attempts 0 and 1 are those before the loop, 2 and 3 those in it, each with its
-- `current`.
pub data Pc : Type 0 where
  called : Pc
  attempting : (attempt current : ℕ) → Pc  -- before that compare-exchange
  backing_off : Pc  -- in `backoff.sleep`, before the load of the loop
  returned : Pc

-- Where a call is once it has found `current` in the target.
unfoldable pub look : (same : ℕ → ℕ → Bool) → Entry → (attempt current : ℕ) → Pc
look same e attempt current =
    if nothing_to_do same e current then returned else attempting attempt current

-- `done` records the calls that have been carried out, the last one first.
pub record Target : Type 0 where
  pub value : ℕ
  pub pc : ℕ → Pc
  pub done : List ℕ

abbrev pub new_target : ℕ → Target
new_target initial = record { value = initial; pc = λ _. called; done = [] }

-- A call that finds nothing to do is carried out where it has found so.
unfoldable pub finds : (same : ℕ → ℕ → Bool) → Entry → (call value : ℕ) → List ℕ → List ℕ
finds same e call value done = if nothing_to_do same e value then call ∷ done else done

abbrev pub has_returned : Pc → ℕ
has_returned called = 0
has_returned (attempting attempt current) = 0
has_returned backing_off = 0
has_returned returned = 1

-- What the call leaves in a target that holds `current`.
unfoldable pub result : (same : ℕ → ℕ → Bool) → Entry → (current : ℕ) → ℕ
result same e current = if nothing_to_do same e current then current else next e current

pub data InLoop : Entry → Type 0 where
  is_cas : (f : ℕ → ℕ → ℕ) (reversed : Bool) (x : ℕ) → InLoop (cas_op f reversed x)
  is_checked : (f : ℕ → ℕ → ℕ) (x : ℕ) → InLoop (checked_op f x)

module _ (same : ℕ → ℕ → Bool) (entries : ℕ → Entry) where
  -- A step of the call `i`.
  pub data Step (s : Target) (i : ℕ) : Target → Type 0 where
    updates :
        (operator : ℕ → ℕ → ℕ) (operand : ℕ)
        → entries i ≡ inline_op operator operand
        → s.pc i ≡ called
        → Step s i (record {
          value = operator s.value operand;
          pc = update s.pc i returned;
          done = i ∷ s.done;
        })
    loads :
        InLoop (entries i)
        → s.pc i ≡ called
        → Step s i (record s {
          pc = update s.pc i (look same (entries i) 0 s.value);
          done = finds same (entries i) i s.value s.done;
        })
    stores :
        (attempt current : ℕ)
        → s.pc i ≡ attempting attempt current
        → s.value ≡ current
        → Step s i (record {
          value = next (entries i) current;
          pc = update s.pc i returned;
          done = i ∷ s.done;
        })
    -- A compare-exchange that fails sets `current`. After attempts 0 and 2 there is another.
    retries :
        (attempt current : ℕ)
        → s.pc i ≡ attempting attempt current
        → s.value ≢ current
        → attempt % 2 ≡ 0
        → Step s i (record s {
          pc = update s.pc i (look same (entries i) (attempt + 1) s.value);
          done = finds same (entries i) i s.value s.done;
        })
    backs_off :
        (attempt current : ℕ)
        → s.pc i ≡ attempting attempt current
        → s.value ≢ current
        → attempt % 2 ≡ 1
        → Step s i (record s { pc = update s.pc i backing_off })
    reloads :
        s.pc i ≡ backing_off
        → Step s i (record s {
          pc = update s.pc i (look same (entries i) 2 s.value);
          done = finds same (entries i) i s.value s.done;
        })

  pub data Reach (initial : ℕ) : Target → Type 0 where
    start : Reach initial (new_target initial)
    then_step : {s : Target} (i : ℕ) {t : Target} → Reach initial s → Step s i t → Reach initial t

  -- What the calls leave, carried out whole and one after the other.
  abbrev pub in_turn : (calls : List ℕ) (initial : ℕ) → ℕ
  in_turn [] initial = initial
  in_turn (i ∷ calls) initial = result same (entries i) (in_turn calls initial)
