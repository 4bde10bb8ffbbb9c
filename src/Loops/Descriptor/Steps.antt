-- ===== src/Loops/Descriptor/Steps.antt =====
-- The phases of the descriptors of src/loops.h, over the steps of a team.
use lomp.Prelude.{
  ℕ, ◌+◌, ◌%◌, ◌^◌, ◌-◌, ◌<◌, ◌≡◌, ◌≢◌, ◌∙◌, refl, sym, ap, subst, arith, true, false, Option, none,
  some, update, ℕ_discrete,
}
use lomp.Prelude.Words.{wrap_below}
use lomp.Loops.Descriptor.{
  Pc, outside, testing, tested, claiming, initializing, inside, leaving, Team, new_team, loop_index,
  sequence_number, Numbered, InRange, Step, comes, is_current, not_current, is_initialized,
  not_initialized, claims, is_refused, completes, leaves, leaves_last, releases, Reach, start,
  then_step,
}
use lomp.Loops.Descriptor.Phases.{
  Phase, free, claimed, active, drained, loop_of, sequence_of, Referred, grade, drains, Placed,
  Holds, Inv,
}
use lomp.Loops.Descriptor.Moves.{Holds-move, Placed-lower, Placed-other, Placed-next}
use lomp.Loops.Descriptor.Changes.{
  claims-Holds, completes-Holds, inside-active, leaves-Holds, leaves_last-Holds, releases-Holds,
}

current-Placed :
    (p : Phase) (i c x : ℕ) → sequence_of p ≡ some c → Placed p i c 0 x → Placed p i c 1 x
current-Placed (free l) i c x e h = absurd (ground (arith, e))
current-Placed (claimed l t) i c x e h = ground (arith, e)
current-Placed (active l) i c x e h = ground (arith, e)
current-Placed (drained l t) i c x e h = ground (arith, e)

enter-Placed :
    (n : ℕ) (p : Phase) (i c x ref : ℕ) (count : ℕ → ℕ)
    → c % 16 ≡ loop_of p % 16
    → ref ≢ 0
    → Referred n p count ref
    → Placed p i c 1 x
    → Placed p i c 3 x
enter-Placed n (free l) i c x ref count e more r h = absurd (omega arith)
enter-Placed n (claimed l t) i c x ref count e more r h = absurd (omega arith)
enter-Placed n (active l) i c x ref count e more r h = ground (arith, e)
enter-Placed n (drained l t) i c x ref count e more r h = absurd (omega arith)

module _ {n : ℕ} {s : Team} (inv : Inv n s) (i : ℕ) (lt : i < n) where
  -- Thread `i` goes on to `c` without a change of the descriptors.
  quiet :
      (c c' : Pc)
      → s.pc i ≡ c
      → ((d : ℕ) → drains d c ≡ drains d c')
      → ((d : ℕ) (p : Phase)
          → s.loop_count i % 16 ≡ d
          → Holds n d s p
          → Placed p i (s.loop_count i) (grade c) (drains d c)
          → Placed p i (s.loop_count i) (grade c') (drains d c'))
      → Inv n (record s { pc = update s.pc i c' })
  quiet c c' at same own d ld =
      let (p, h) = inv d ld in
      let here : Placed p i (s.loop_count i) (grade c) (drains d c) =
        subst (λ x. Placed p i (s.loop_count i) (grade x) (drains d x)) at (h.placed i lt) in
      (
        p,
        Holds-move i c' s.sequence s.ref_count s.loop_count h lt refl refl (λ j ne. refl) refl
            (elim (ℕ_discrete (s.loop_count i % 16) d) [
              | yes e ↦ own d p e h here
              | no ne ↦ subst (Placed p i (s.loop_count i) (grade c')) (same d) (
                  Placed-other d p i (s.loop_count i) (grade c) (grade c') (drains d c) ne h.slot
                    here)
            ]),
      )

  -- It changes its own descriptor.
  changes :
      (c c' : Pc) (q : ℕ → Option ℕ) (r : ℕ → ℕ)
      → s.pc i ≡ c
      → ((d : ℕ) → drains d c ≡ drains d c')
      → ((d : ℕ) → s.loop_count i % 16 ≢ d → (q d ≡ s.sequence d) × (r d ≡ s.ref_count d))
      → ((d : ℕ) (p : Phase)
          → s.loop_count i % 16 ≡ d
          → Holds n d s p
          → (p' : Phase) × Holds n d
              (record {
                sequence = q;
                ref_count = r;
                loop_count = s.loop_count;
                pc = update s.pc i c';
              })
              p')
      → Inv n
          (record { sequence = q; ref_count = r; loop_count = s.loop_count; pc = update s.pc i c' })
  changes c c' q r at same others own d ld =
      let (p, h) = inv d ld in
      elim (ℕ_discrete (s.loop_count i % 16) d) [
        | yes e ↦ own d p e h
        | no ne ↦ (
          p,
          Holds-move i c' q r s.loop_count h lt (others d ne).0 (others d ne).1 (λ j ne. refl) refl
              (subst (Placed p i (s.loop_count i) (grade c')) (same d) (
                Placed-other d p i (s.loop_count i) (grade c) (grade c') (drains d c) ne h.slot (
                  subst (λ x. Placed p i (s.loop_count i) (grade x) (drains d x)) at
                    (h.placed i lt)))),
        )
      ]

  -- It leaves its loop.
  departs :
      (c : Pc) (ref : ℕ)
      → s.pc i ≡ inside
      → grade c ≡ 0
      → ((d : ℕ) → s.loop_count i % 16 ≢ d → drains d c ≡ 0)
      → ((d l : ℕ)
          → s.loop_count i % 16 ≡ d
          → s.loop_count i ≡ l
          → Holds n d s (active l)
          → (p' : Phase) × Holds n d
              (record s {
                ref_count = update s.ref_count (loop_index (s.loop_count i)) ref;
                loop_count = update s.loop_count i (s.loop_count i + 1);
                pc = update s.pc i c;
              })
              p')
      → Inv n (record s {
        ref_count = update s.ref_count (loop_index (s.loop_count i)) ref;
        loop_count = update s.loop_count i (s.loop_count i + 1);
        pc = update s.pc i c;
      })
  departs c ref at low undrained own d ld =
      let (p, h) = inv d ld in
      elim (ℕ_discrete (s.loop_count i % 16) d) [
        | yes e ↦
            let (l, active_now, now) = inside-active i d s lt e p h at in
            own d l e now (subst (Holds n d s) active_now h)
        | no ne ↦ (
          p,
          Holds-move i c s.sequence _ _ h lt refl (ground (arith, ne))
              (λ j other. ground (arith, other)) (ground (arith, ne, h.slot))
              (subst (λ X. X) (λ k. Placed p i (moved k) (low_again k) (undrained_again d ne k))
                (Placed-next d p i (s.loop_count i) 3 0 ne h.slot (
                  subst (λ x. Placed p i (s.loop_count i) (grade x) (drains d x)) at
                    (h.placed i lt)))),
        )
      ]
    where
      moved : s.loop_count i + 1 ≡ update s.loop_count i (s.loop_count i + 1) i
      moved = ground arith

      low_again : 0 ≡ grade c
      low_again = sym low

      undrained_again : (d : ℕ) → s.loop_count i % 16 ≢ d → 0 ≡ drains d c
      undrained_again d ne = sym (undrained d ne)

-- A number in use is its own sequence, and the next one does not wrap.
sequence_number-eq : (c : ℕ) → c < 2 ^ 32 - 1 → sequence_number c ≡ some c
unfolding sequence_number
sequence_number-eq c h = ground arith

counted :
    (n : ℕ) (s : Team) (i : ℕ)
    → (k : ℕ) → s.loop_count i + 1 ≡ k
    → (ref : ℕ → ℕ) (c : Pc)
    → Inv n (record s {
      ref_count = ref;
      loop_count = update s.loop_count i (s.loop_count i + 1);
      pc = update s.pc i c;
    })
    → Inv n
        (record s { ref_count = ref; loop_count = update s.loop_count i k; pc = update s.pc i c })
counted n s i k e ref c inv =
    subst
      (λ x.
        Inv n (record s {
          ref_count = ref;
          loop_count = update s.loop_count i x;
          pc = update s.pc i c;
        }))
      e inv

next_number : (c : ℕ) → c < 2 ^ 32 - 1 → c + 1 ≡ (c + 1) % 2 ^ 32
next_number c h = sym (wrap_below (2 ^ 32) (c + 1) (c + 1) (omega arith) refl)

Step-Inv : {n : ℕ} {s t : Team} → Numbered n s → Step n s t → Inv n s → Inv n t
Step-Inv {n} {s} few (comes i lt at) inv =
    quiet inv i lt outside (testing false) at (λ d. refl) (λ d p e h here. here)
Step-Inv {n} {s} few (is_current i w lt at is) inv =
    quiet inv i lt (testing w) (tested w) at (λ d. refl)
      (λ d p e h here.
        current-Placed p i (s.loop_count i) 0
          (sym h.sequence_is
            ∙ ap s.sequence (sym e)
            ∙ is
            ∙ sequence_number-eq (s.loop_count i) (few i lt))
          here)
Step-Inv {n} {s} few (not_current i true lt at is) inv =
    quiet inv i lt (testing true) (testing true) at (λ d. refl) (λ d p e h here. here)
Step-Inv {n} {s} few (not_current i false lt at is) inv =
    quiet inv i lt (testing false) claiming at (λ d. refl) (λ d p e h here. here)
Step-Inv {n} {s} few (is_initialized i w lt at more) inv =
    quiet inv i lt (tested w) inside at (λ d. refl)
      (λ d p e h here.
        enter-Placed n p i (s.loop_count i) 0 (s.ref_count d) s.loop_count (e ∙ sym h.slot)
          (λ z. more (ap s.ref_count e ∙ z)) h.referred here)
Step-Inv {n} {s} few (not_initialized i true lt at is) inv =
    quiet inv i lt (tested true) (testing true) at (λ d. refl)
      (λ d p e h here. Placed-lower d p i (s.loop_count i) 1 0 (omega arith) here refl)
Step-Inv {n} {s} few (not_initialized i false lt at is) inv =
    quiet inv i lt (tested false) claiming at (λ d. refl)
      (λ d p e h here. Placed-lower d p i (s.loop_count i) 1 0 (omega arith) here refl)
Step-Inv {n} {s} few (claims i lt at is) inv =
    subst
      (λ q. Inv n (record s {
        sequence = update s.sequence (loop_index (s.loop_count i)) q;
        pc = update s.pc i initializing;
      }))
      (sym (sequence_number-eq (s.loop_count i) (few i lt)))
      (changes inv i lt claiming initializing _ s.ref_count at (λ d. refl)
        (λ d ne. (ground (arith, ne), refl)) (λ d p e h. claims-Holds i d s lt e p h at is))
Step-Inv {n} {s} few (is_refused i lt at is) inv =
    quiet inv i lt claiming (testing true) at (λ d. refl) (λ d p e h here. here)
Step-Inv {n} {s} few (completes i lt at) inv =
    changes inv i lt initializing inside s.sequence _ at (λ d. refl)
      (λ d ne. (refl, ground (arith, ne))) (λ d p e h. completes-Holds i d s lt e p h at)
Step-Inv {n} {s} few (leaves i lt at more) inv =
    counted n s i _ (next_number (s.loop_count i) (few i lt)) _ outside (
      departs inv i lt outside _ at refl (λ d ne. refl)
        (λ d l e now h. (active l, leaves-Holds i d s lt e l now more h)))
Step-Inv {n} {s} few (leaves_last i lt at last) inv =
    counted n s i _ (next_number (s.loop_count i) (few i lt)) _
      (leaving (loop_index (s.loop_count i)))
      (departs inv i lt (leaving (loop_index (s.loop_count i))) _ at refl
        (λ d ne. ground (arith, ne))
        (λ d l e now h. (drained l i, leaves_last-Holds i d s lt e l now last h)))
Step-Inv {n} {s} few (releases i d lt at) inv = λ e le.
    let (p, h) = inv e le in
    elim (ℕ_discrete d e) [
      | yes is ↦
          subst
            (λ x.
              (p' : Phase) × Holds n x
                (record s { sequence = update s.sequence d none; pc = update s.pc i outside }) p')
            is (releases-Holds i d s lt p (subst (λ x. Holds n x s p) (sym is) h) at)
      | no ne ↦ (
        p,
        Holds-move i outside _ s.ref_count s.loop_count h lt (ground (arith, ne)) refl
            (λ j other. refl) refl
            (subst (Placed p i (s.loop_count i) 0) (ground (arith, ne))
              (subst (λ x. Placed p i (s.loop_count i) (grade x) (drains e x)) at (h.placed i lt))),
      )
    ]

new_team-Inv : (n : ℕ) → Inv n new_team
new_team-Inv n d lt = (
  free d,
  record { slot = omega arith; sequence_is = refl; referred = refl; placed = λ i li. ground arith },
)

pub Reach-Inv : {n : ℕ} {s : Team} (r : Reach n s) → InRange r → Inv n s
Reach-Inv {n} start few = new_team-Inv n
Reach-Inv (then_step r st) few = Step-Inv few.0 st (Reach-Inv r few.1)
