-- ===== src/Sync/Atomics/Once.antt =====
-- src/atomics.cc: the calls on one target are carried out one after the other.
use lomp.Prelude.{
  ℕ, ◌+◌, ◌≡◌, ◌≢◌, refl, sym, ap, ◌∙◌, arith, Bool, true, false, if◌then◌else◌, ◌∷◌, update,
  update-elim,
}
use lomp.Sync.Single.{executions}
use lomp.Sync.Atomics.{
  Entry, Pc, called, attempting, backing_off, returned, Target, has_returned, look, finds,
  nothing_to_do, result, next, Step, updates, loads, stores, retries, backs_off, reloads, Reach,
  start, then_step, in_turn,
}

module _ (same : ℕ → ℕ → Bool) (entries : ℕ → Entry) where
  record Inv (initial : ℕ) (s : Target) : Type 0 where
    pub value_is : s.value ≡ in_turn same entries s.done initial
    pub once : (i : ℕ) → executions i s.done ≡ has_returned (s.pc i)
    pub to_do :
        (i attempt current : ℕ)
        → s.pc i ≡ attempting attempt current
        → nothing_to_do same (entries i) current ≡ false

  has_returned-zero : (c : Pc) → c ≢ returned → has_returned c ≡ 0
  has_returned-zero called ne = refl
  has_returned-zero (attempting attempt current) ne = refl
  has_returned-zero backing_off ne = refl
  has_returned-zero returned ne = absurd (ne refl)

  module _ {initial : ℕ} {s : Target} (inv : Inv initial s) (i : ℕ)
      (not_yet : s.pc i ≢ returned) where
    carried_out-Inv :
        (v : ℕ)
        → v ≡ result same (entries i) s.value
        → Inv initial (record { value = v; pc = update s.pc i returned; done = i ∷ s.done })
    carried_out-Inv v e = record {
      value_is = e ∙ ap (result same (entries i)) inv.value_is;
      once = λ j.
          update-elim (λ m c. executions m (i ∷ s.done) ≡ has_returned c) s.pc i returned j
            (ground (arith, inv.once i, has_returned-zero (s.pc i) not_yet))
            (λ ne. ground (arith, inv.once j, ne));
      to_do = λ j.
          update-elim
            (λ m c.
              (attempt current : ℕ)
              → c ≡ attempting attempt current
              → nothing_to_do same (entries m) current ≡ false)
            s.pc i returned j (λ attempt current e. absurd (ground arith)) (λ ne. inv.to_do j);
    }

    moved-Inv :
        (c : Pc)
        → c ≢ returned
        → ((attempt current : ℕ)
            → c ≡ attempting attempt current
            → nothing_to_do same (entries i) current ≡ false)
        → Inv initial (record s { pc = update s.pc i c })
    moved-Inv c ne work = record {
      value_is = inv.value_is;
      once = λ j.
          update-elim (λ m x. executions m s.done ≡ has_returned x) s.pc i c j
            (inv.once i ∙ has_returned-zero (s.pc i) not_yet ∙ sym (has_returned-zero c ne))
            (λ nj. inv.once j);
      to_do = λ j.
          update-elim
            (λ m x.
              (attempt current : ℕ)
              → x ≡ attempting attempt current
              → nothing_to_do same (entries m) current ≡ false)
            s.pc i c j work (λ nj. inv.to_do j);
    }

    -- A call that has found a value in the target.
    look-Inv :
        (attempt : ℕ)
        → Inv initial (record s {
          pc = update s.pc i (look same (entries i) attempt s.value);
          done = finds same (entries i) i s.value s.done;
        })
    unfolding look finds result
    look-Inv attempt =
        elim (nothing_to_do same (entries i) s.value)
            as (λ x.
              (nothing_to_do same (entries i) s.value ≡ x)
              → Inv initial (record s {
                pc = update s.pc i (if x then returned else attempting attempt s.value);
                done = if x then i ∷ s.done else s.done;
              })) [
                | true ↦ λ idle. carried_out-Inv s.value (ground (arith, idle))
                | false ↦ λ work.
                    moved-Inv (attempting attempt s.value) (ground arith)
                      (λ a c e. ground (arith, work, e))
              ]
          refl

  Step-Inv :
      {initial : ℕ} {s : Target} (i : ℕ) {t : Target}
      → Step same entries s i t
      → Inv initial s
      → Inv initial t
  unfolding result next nothing_to_do
  Step-Inv {s = s} i (updates operator operand is at) inv =
      carried_out-Inv inv i (ground (arith, at)) _ (ap (λ e. result same e s.value) (sym is))
  Step-Inv i (loads in_loop at) inv = look-Inv inv i (ground (arith, at)) 0
  Step-Inv {s = s} i (stores attempt current at e) inv =
      carried_out-Inv inv i (ground (arith, at)) _ (
        ground (
          arith,
          inv.to_do i attempt current at,
          ap (nothing_to_do same (entries i)) e,
          ap (next (entries i)) e,
        ))
  Step-Inv i (retries attempt current at ne even) inv =
      look-Inv inv i (ground (arith, at)) (attempt + 1)
  Step-Inv i (backs_off attempt current at ne odd) inv =
      moved-Inv inv i (ground (arith, at)) backing_off (ground arith)
        (λ a c e. absurd (ground arith))
  Step-Inv i (reloads at) inv = look-Inv inv i (ground (arith, at)) 2

  Reach-Inv : {initial : ℕ} {s : Target} → Reach same entries initial s → Inv initial s
  Reach-Inv start = record {
    value_is = refl;
    once = λ i. refl;
    to_do = λ i attempt current e. absurd (ground arith);
  }
  Reach-Inv (then_step i r st) = Step-Inv i st (Reach-Inv r)

-- Whatever the entry points that any number of calls use, in any order of their accesses: the target
-- holds what the calls that have been carried out leave in it one after the other, in the order of
-- the record; a call that has returned has been carried out once, and no other call has been.
pub atomic_once :
    {same : ℕ → ℕ → Bool} {entries : ℕ → Entry} {initial : ℕ} {s : Target}
    → Reach same entries initial s
    → (s.value ≡ in_turn same entries s.done initial)
      × ((i : ℕ) → executions i s.done ≡ has_returned (s.pc i))
atomic_once {same} {entries} r = let inv = Reach-Inv same entries r in (inv.value_is, inv.once)
