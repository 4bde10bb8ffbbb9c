-- ===== src/Loops/Descriptor/Changes.antt =====
-- The phases of the descriptors of src/loops.h, as one thread claims, completes, leaves or releases a
-- descriptor.
use lomp.Prelude.{
  ℕ, ◌+◌, ◌-◌, ◌%◌, ◌<◌, ◌≡◌, ◌≢◌, ◌∙◌, refl, ap, subst, arith, none, some, leb, if◌then◌else◌,
  update, update-elim,
}
use lomp.Prelude.Counting.{sum_below-change, sum_below-none, sum_below-const}
use lomp.Loops.Descriptor.{Pc, outside, claiming, initializing, inside, leaving, Team, loop_index}
use lomp.Loops.Descriptor.Phases.{
  Phase, free, claimed, active, drained, to_leave, grade, drains, Placed, Holds,
}

module _ {n : ℕ} (i d : ℕ) (s : Team) (lt : i < n) (own : s.loop_count i % 16 ≡ d) where
  pub claims-Holds :
      (p : Phase)
      → Holds n d s p
      → s.pc i ≡ claiming
      → s.sequence (loop_index (s.loop_count i)) ≡ none
      → (p' : Phase) × Holds n d
          (record s {
            sequence = update s.sequence (loop_index (s.loop_count i)) (some (s.loop_count i));
            pc = update s.pc i initializing;
          })
          p'
  claims-Holds (free l) h at is =
      let here : Placed (free l) i (s.loop_count i) 0 0 =
        subst (λ c. Placed (free l) i (s.loop_count i) (grade c) (drains d c)) at (h.placed i lt) in
      (
        claimed l i,
        record {
          slot = h.slot;
          sequence_is = ground (arith, h.slot);
          referred = h.referred;
          placed = λ j lj.
              update-elim (λ m x. Placed (claimed l i) m (s.loop_count m) (grade x) (drains d x))
                s.pc i initializing j (ground (arith, h.slot))
                (λ ne. ground (arith, h.placed j lj));
        },
      )
  claims-Holds (claimed l t) h at is = absurd (ground (arith, h.sequence_is, is, ap s.sequence own))
  claims-Holds (active l) h at is = absurd (ground (arith, h.sequence_is, is, ap s.sequence own))
  claims-Holds (drained l t) h at is = absurd (ground (arith, h.sequence_is, is, ap s.sequence own))

  pub completes-Holds :
      (p : Phase)
      → Holds n d s p
      → s.pc i ≡ initializing
      → (p' : Phase) × Holds n d
          (record s {
            ref_count = update s.ref_count (loop_index (s.loop_count i)) n;
            pc = update s.pc i inside;
          })
          p'
  completes-Holds (free l) h at = absurd (
      ground (
        arith,
        h.slot,
        subst (λ c. Placed (free l) i (s.loop_count i) (grade c) (drains d c)) at (h.placed i lt),
      ))
  completes-Holds (claimed l t) h at =
      let here : Placed (claimed l t) i (s.loop_count i) 2 0 =
        subst (λ c. Placed (claimed l t) i (s.loop_count i) (grade c) (drains d c)) at
          (h.placed i lt) in
      let by : i ≡ t = ground (arith, h.slot) in
      (
        active l,
        record {
          slot = h.slot;
          sequence_is = h.sequence_is;
          referred = ground (
            arith,
            sum_below-const n 1 (λ j. if leb (s.loop_count j) l then 1 else 0)
                (λ j lj. ground (arith, h.placed j lj)) (omega arith),
          );
          placed = λ j lj.
              update-elim (λ m x. Placed (active l) m (s.loop_count m) (grade x) (drains d x)) s.pc
                i inside j (ground arith) (λ ne. ground (arith, h.placed j lj));
        },
      )
  completes-Holds (active l) h at = absurd (
      ground (
        arith,
        h.slot,
        subst (λ c. Placed (active l) i (s.loop_count i) (grade c) (drains d c)) at (h.placed i lt),
      ))
  completes-Holds (drained l t) h at = absurd (
      ground (
        arith,
        h.slot,
        subst (λ c. Placed (drained l t) i (s.loop_count i) (grade c) (drains d c)) at
            (h.placed i lt),
      ))

  count_down :
      (l : ℕ)
      → s.loop_count i ≡ l
      → to_leave n l (update s.loop_count i (s.loop_count i + 1)) + 1 ≡ to_leave n l s.loop_count
  count_down l at = ground (
    arith,
    sum_below-change n (λ j. if leb (s.loop_count j) l then 1 else 0)
        (λ j. if leb (update s.loop_count i (s.loop_count i + 1) j) l then 1 else 0) i lt
        (λ j ne. ground (arith, ne)),
  )

  -- A thread that is in a loop is in the one that its descriptor is active for.
  pub inside-active :
      (p : Phase)
      → Holds n d s p
      → s.pc i ≡ inside
      → (l : ℕ) × (p ≡ active l) × (s.loop_count i ≡ l)
  inside-active (free l) h at = absurd (
      ground (
        arith,
        h.slot,
        subst (λ c. Placed (free l) i (s.loop_count i) (grade c) (drains d c)) at (h.placed i lt),
      ))
  inside-active (claimed l t) h at = absurd (
      ground (
        arith,
        h.slot,
        subst (λ c. Placed (claimed l t) i (s.loop_count i) (grade c) (drains d c)) at
            (h.placed i lt),
      ))
  inside-active (active l) h at = (
    l,
    refl,
    ground (
      arith,
      h.slot,
      subst (λ c. Placed (active l) i (s.loop_count i) (grade c) (drains d c)) at (h.placed i lt),
    ),
  )
  inside-active (drained l t) h at = absurd (
      ground (
        arith,
        h.slot,
        subst (λ c. Placed (drained l t) i (s.loop_count i) (grade c) (drains d c)) at
            (h.placed i lt),
      ))

  abbrev left : Pc → Team
  left c = record s {
    ref_count =
        update s.ref_count (loop_index (s.loop_count i))
          (s.ref_count (loop_index (s.loop_count i)) - 1);
    loop_count = update s.loop_count i (s.loop_count i + 1);
    pc = update s.pc i c;
  }

  pub leaves-Holds :
      (l : ℕ)
      → s.loop_count i ≡ l
      → s.ref_count (loop_index (s.loop_count i)) - 1 ≢ 0
      → Holds n d s (active l)
      → Holds n d (left outside) (active l)
  leaves-Holds l at more h = record {
    slot = h.slot;
    sequence_is = h.sequence_is;
    referred = ground (arith, own, count_down l at, h.referred, ap s.ref_count own);
    placed = λ j lj.
        update-elim
          (λ m x.
            Placed (active l) m (update s.loop_count i (s.loop_count i + 1) m) (grade x)
              (drains d x))
          s.pc i outside j (ground arith) (λ ne. ground (arith, h.placed j lj));
  }

  pub leaves_last-Holds :
      (l : ℕ)
      → s.loop_count i ≡ l
      → s.ref_count (loop_index (s.loop_count i)) - 1 ≡ 0
      → Holds n d s (active l)
      → Holds n d (left (leaving (loop_index (s.loop_count i)))) (drained l i)
  leaves_last-Holds l at last h =
      let none_left : to_leave n l (update s.loop_count i (s.loop_count i + 1)) ≡ 0 =
        ground (arith, count_down l at, h.referred, ap s.ref_count own) in
      record {
        slot = h.slot;
        sequence_is = h.sequence_is;
        referred = ground (arith, own, last);
        placed = λ j lj.
            update-elim
              (λ m x.
                Placed (drained l i) m (update s.loop_count i (s.loop_count i + 1) m) (grade x)
                  (drains d x))
              s.pc i (leaving (loop_index (s.loop_count i))) j (ground arith)
              (λ ne. ground (
                arith,
                h.placed j lj,
                sum_below-none n
                    (λ k. if leb (update s.loop_count i (s.loop_count i + 1) k) l then 1 else 0)
                    none_left j lj,
              ));
      }

module _ {n : ℕ} (i d : ℕ) (s : Team) (lt : i < n) where
  leaving-drains : s.pc i ≡ leaving d → drains d (s.pc i) ≡ 1
  leaving-drains at = ap (drains d) at ∙ ground arith

  pub releases-Holds :
      (p : Phase)
      → Holds n d s p
      → s.pc i ≡ leaving d
      → (p' : Phase) × Holds n d
          (record s { sequence = update s.sequence d none; pc = update s.pc i outside })
          p'
  releases-Holds (free l) h at = absurd (ground (arith, h.placed i lt, leaving-drains at))
  releases-Holds (claimed l t) h at = absurd (ground (arith, h.placed i lt, leaving-drains at))
  releases-Holds (active l) h at = absurd (ground (arith, h.placed i lt, leaving-drains at))
  releases-Holds (drained l t) h at = (
    free (l + 16),
    record {
      slot = ground (arith, h.slot);
      sequence_is = ground arith;
      referred = h.referred;
      placed = λ j lj.
          update-elim (λ m x. Placed (free (l + 16)) m (s.loop_count m) (grade x) (drains d x)) s.pc
            i outside j (ground (arith, h.placed i lt))
            (λ ne. ground (arith, h.placed j lj, h.placed i lt, leaving-drains at));
    },
  )
