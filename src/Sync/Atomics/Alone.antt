-- ===== src/Sync/Atomics/Alone.antt =====
-- src/atomics.cc: a call that is not disturbed.
use lomp.Prelude.{
  ℕ, suc, ◌+◌, ◌≤◌, ◌≡◌, ◌≢◌, inl, inr, refl, sym, ap, ◌∙◌, subst, arith, Bool, Bool-cases, ◌%◌,
  update, ℕ_discrete,
}
use lomp.Sync.Atomics.{
  Entry, inline_op, cas_op, checked_op, Pc, called, attempting, backing_off, returned, Target,
  InLoop, is_cas, is_checked, look, finds, nothing_to_do, Step, updates, loads, stores, retries,
  backs_off, reloads,
}

module _ (same : ℕ → ℕ → Bool) (entries : ℕ → Entry) where
  -- Steps of the call `i`, with no other call's between them.
  pub data Alone (i : ℕ) : (steps : ℕ) → Target → Target → Type 0 where
    stays : {s : Target} → Alone i 0 s s
    goes : {k : ℕ} {s t u : Target} → Step same entries s i t → Alone i k t u → Alone i (suc k) s u

  abbrev pub Returns : (i bound : ℕ) → Target → Type 0
  Returns i bound s = (k : ℕ) × (k ≤ bound) × ((t : Target) × Alone i k s t × (t.pc i ≡ returned))

  widen :
      {i bound : ℕ} {s : Target} (wider : ℕ) → bound ≤ wider → Returns i bound s → Returns i wider s
  widen wider more (k, le, run) = (k, omega arith, run)

  first :
      {i bound : ℕ} {s t : Target}
      → Step same entries s i t
      → Returns i bound t
      → Returns i (bound + 1) s
  first st (k, le, (t, run, at)) = (suc k, omega arith, (t, goes st run, at))

  updated : (f : ℕ → Pc) (i : ℕ) (c : Pc) → update f i c i ≡ c
  updated f i c = ground arith

  stores-Returns : (i a : ℕ) (s : Target) → s.pc i ≡ attempting a s.value → Returns i 1 s
  stores-Returns i a s at =
      (1, omega arith, (_, goes (stores a s.value at refl) stays, updated s.pc i returned))

  look-Returns : (i a : ℕ) (s : Target) → s.pc i ≡ look same (entries i) a s.value → Returns i 1 s
  unfolding look
  look-Returns i a s at = elim (Bool-cases (nothing_to_do same (entries i) s.value)) [
    | inl idle ↦ (0, omega arith, (s, stays, ground (arith, at, idle)))
    | inr work ↦ stores-Returns i a s (ground (arith, at, work))
  ]

  found-Returns :
      (i a : ℕ) (s : Target)
      → Returns i 1 (record s {
        pc = update s.pc i (look same (entries i) a s.value);
        done = finds same (entries i) i s.value s.done;
      })
  found-Returns i a s = look-Returns i a _ (updated s.pc i _)

  reloads-Returns : (i : ℕ) (s : Target) → s.pc i ≡ backing_off → Returns i 2 s
  reloads-Returns i s at = first (reloads at) (found-Returns i 2 s)

  attempting-Returns :
      (i a current : ℕ) (s : Target) → s.pc i ≡ attempting a current → Returns i 3 s
  attempting-Returns i a current s at = elim (ℕ_discrete s.value current) [
    | yes e ↦ widen 3 (omega arith) (stores-Returns i a s (at ∙ ap (attempting a) (sym e)))
    | no ne ↦ elim (ℕ_discrete (a % 2) 0) [
      | yes even ↦
          widen 3 (omega arith) (first (retries a current at ne even) (found-Returns i (a + 1) s))
      | no odd ↦
          first (backs_off a current at ne (omega arith)) (reloads-Returns i _ (updated s.pc i _))
    ]
  ]

  called-Returns :
      (i : ℕ) (s : Target) (e : Entry) → entries i ≡ e → s.pc i ≡ called → Returns i 3 s
  called-Returns i s (inline_op operator operand) is at =
      (1, omega arith, (_, goes (updates operator operand is at) stays, updated s.pc i returned))
  called-Returns i s (cas_op mutator reversed operand) is at = widen 3 (omega arith) (
      first (loads (subst InLoop (sym is) (is_cas mutator reversed operand)) at)
        (found-Returns i 0 s))
  called-Returns i s (checked_op function operand) is at =
      widen 3 (omega arith) (
        first (loads (subst InLoop (sym is) (is_checked function operand)) at)
          (found-Returns i 0 s))

  at-Returns : (i : ℕ) (s : Target) (c : Pc) → s.pc i ≡ c → c ≢ returned → Returns i 3 s
  at-Returns i s called at ne = called-Returns i s (entries i) refl at
  at-Returns i s (attempting a current) at ne = attempting-Returns i a current s at
  at-Returns i s backing_off at ne = widen 3 (omega arith) (reloads-Returns i s at)
  at-Returns i s returned at ne = absurd (ne refl)

-- In any state, a call of any entry point that has not returned does so within three steps of its
-- own where no other call comes between them.
pub atomic-Returns :
    (same : ℕ → ℕ → Bool) (entries : ℕ → Entry) (i : ℕ) (s : Target)
    → s.pc i ≢ returned
    → Returns same entries i 3 s
atomic-Returns same entries i s ne = at-Returns same entries i s (s.pc i) refl ne
