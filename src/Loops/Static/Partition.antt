-- ===== src/Loops/Static/Partition.antt =====
-- Which thread of a team executes an iteration under `schedule(static)`, src/loops.cc.
use mathlib.Core.Option.{some-injective}
use lomp.Prelude.{ℕ, suc, ◌≤◌, ◌<◌, ◌≡◌, ◌↔◌, dec_lt, arith, some, sym, ap, subst, ◌∙◌}
use lomp.Prelude.Blocks.{
  block_start, block_start-all, block_owner, block_owner_unique, block_owner_has,
}
use lomp.Loops.Kinds.{kmp_sch_static}
use lomp.Loops.Canonical.{CanonicalLoop}
use lomp.Loops.Canonical.Laws.{Fits}
use lomp.Loops.Static.{Bounds, for_static_init}
use lomp.Loops.Static.Laws.{unit_loop, unit_fields, static_block, static_idle, block_end-le}

-- Thread `t` of `n` executes iteration `x` of a loop under the schedule: `x` lies in the bounds that it
-- gets. `__kmpc_for_static_init` discards the result of `forStaticInit`, so `found` has no part in it.
abbrev pub Executes : (m : ℕ) → CanonicalLoop → (n schedtype t x : ℕ) → Type 0
Executes m cl n schedtype t x =
    (t < n)
    × (r : Bounds) × (for_static_init m cl t n schedtype 0 cl.end ≡ some r)
    × (r.lower ≤ x)
    × (x ≤ r.upper)

module _ {m e : ℕ} (f : Fits m e 1) where
  abbrev count : ℕ
  count = (unit_loop f).count

  Executes-has : (n t x : ℕ) → Executes m (unit_loop f) n kmp_sch_static t x → t < count
  Executes-has n t x (lt, r, eq, lo, hi) = elim (dec_lt t count) [
    | yes has ↦ has
    | no idle ↦
        let (r', eq', lo', hi') = static_idle f n t 0 (unit_loop f).end lt (omega arith) in
        let same : r ≡ r' = some-injective r r' (sym eq ∙ eq') in
        absurd (omega (arith, ap (λ (b : Bounds). b.lower) same, ap (λ (b : Bounds). b.upper) same))
  ]

  Executes-block :
      (n t x : ℕ)
      → t < n
      → t < count
      → Executes m (unit_loop f) n kmp_sch_static t x
        ↔ ((block_start count n t ≤ x) × (x < block_start count n (suc t)))
  Executes-block n t x lt has =
      let (r', eq', found', lo', hi', last) = static_block f n t 0 (unit_loop f).end lt has in
      (
        λ (lt', r, eq, lo, hi).
            let same : r ≡ r' = some-injective r r' (sym eq ∙ eq') in
            (
              omega (arith, ap (λ (b : Bounds). b.lower) same),
              omega (arith, ap (λ (b : Bounds). b.upper) same),
            ),
        λ (lo, hi). (lt, r', eq', omega arith, omega arith),
      )

  has_executor :
      (n x : ℕ)
      → 0 < n
      → x ≤ e
      → (t : ℕ) × ((s : ℕ) → Executes m (unit_loop f) n kmp_sch_static s x ↔ (s ≡ t))
  has_executor n x pos xe =
      let below : x < block_start count n n =
        rw (block_start-all count n pos) (omega (arith, unit_fields f)) in
      let (t, lt, lo, hi) = block_owner count n n x below in
      let has : t < count = block_owner_has count n t x lt lo hi in
      (
        t,
        λ s. (
          λ ex.
              let (a, b) = (Executes-block n s x ex.0 (Executes-has n s x ex)).0 ex in
              block_owner_unique count n s t x a b lo hi,
          λ same.
              subst (λ u. Executes m (unit_loop f) n kmp_sch_static u x) (sym same)
                ((Executes-block n t x lt has).1 (lo, hi)),
        ),
      )

  -- Under `schedule(static)` every iteration of a loop that fits its type is executed by one of the
  -- `n` threads and by no other, and no thread executes anything past the loop's end, also where
  -- there are more threads than iterations.
  pub static_partition :
      (n : ℕ)
      → 0 < n
      → ((x : ℕ)
          → x ≤ e
          → (t : ℕ) × ((s : ℕ) → Executes m (unit_loop f) n kmp_sch_static s x ↔ (s ≡ t)))
        × ((x s : ℕ) → Executes m (unit_loop f) n kmp_sch_static s x → x ≤ e)
  static_partition n pos = (
    λ x xe. has_executor n x pos xe,
    λ x s ex.
        let (a, b) = (Executes-block n s x ex.0 (Executes-has n s x ex)).0 ex in
        omega (arith, block_end-le count n s ex.0, unit_fields f),
  )
