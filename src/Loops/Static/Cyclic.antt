-- ===== src/Loops/Static/Cyclic.antt =====
-- The cyclic static schedule as compiled in: one call of `forStaticInit`, then the compiled loop
-- goes on by the stride.
use native.Mathlib.Nat.{div-add-mod, mod-lt, le_antisymm}
use lomp.Prelude.{ℕ, ◌+◌, ◌-◌, ◌*◌, ◌/◌, ◌%◌, ◌≤◌, ◌<◌, ◌≡◌, ◌↔◌, true, some, arith, refl}
use lomp.Prelude.Words.{wrap_below, wrap_once, le-div_iff, div-le_iff, mul_mono}
use lomp.Loops.Kinds.{kmp_sch_static_chunked}
use lomp.Loops.Canonical.Laws.{Fits, loop, init-fields, count-pos}
use lomp.Loops.Static.{Bounds, static_cyclic, for_static_init}

-- `q` lies in the turn of thread `t` exactly if it is `t` plus a number of rounds.
turn_iff : (n t q : ℕ) → t < n → (q % n ≡ t) ↔ ((k : ℕ) × (q ≡ t + k * n))
turn_iff n t q lt = (λ e. (q / n, omega (arith, div-add-mod q n)), λ (k, e). turn_of k e)
  where
    turn_of : (k : ℕ) → q ≡ t + k * n → q % n ≡ t
    turn_of k e = grind (arith, div-add-mod q n, mod-lt q {m = n} (omega arith))

-- The `k`-th block of thread `t` holds `x` exactly if the chunk of `x` has the number `t + k * n`.
block_iff :
    (n t k x chunk : ℕ)
    → 0 < chunk
    → ((t * chunk + k * (n * chunk) ≤ x) × (x < (t + 1) * chunk + k * (n * chunk)))
      ↔ (x / chunk ≡ t + k * n)
block_iff n t k x chunk pos = (
  λ (lo, hi).
      le_antisymm ((div-le_iff (t + k * n) x chunk pos).0 (omega arith))
        ((le-div_iff (t + k * n) x chunk pos).0 (omega arith)),
  λ e. (
    omega (arith, (le-div_iff (t + k * n) x chunk pos).1 (omega arith)),
    omega (arith, (div-le_iff (t + k * n) x chunk pos).1 (omega arith)),
  ),
)

module _ {m e chunk : ℕ} (f : Fits m e chunk) where
  cyclic_fields :
      (n t : ℕ)
      → t < n
      → n * chunk < m
      → ((static_cyclic m (loop f) t n).lower ≡ t * chunk)
        × ((static_cyclic m (loop f) t n).upper + 1 ≡ (t + 1) * chunk)
        × ((static_cyclic m (loop f) t n).stride ≡ n * chunk)
  unfolding static_cyclic
  cyclic_fields n t lt fits = rw ((init-fields f).1) (
    wrap_below m (t * chunk) (0 + t * chunk)
        (omega (arith, f.positive, mul_mono (t + 1) n chunk (omega arith))) (omega arith),
    omega (
      arith,
      f.positive,
      wrap_once m ((t + 1) * chunk - 1) (0 + (t + 1) * chunk + m - 1)
          (omega (arith, f.positive, mul_mono (t + 1) n chunk (omega arith)))
          (omega (arith, f.positive)),
    ),
    wrap_below m (n * chunk) _ fits refl,
  )

  -- Thread `t` of `n` is told to start if there is a chunk of its number, and one of the blocks at
  -- the stride from its bounds holds the iteration `x` exactly if the chunk of `x` is dealt to it,
  -- chunk numbers going round the threads, where a round of chunks fits the loop's type.
  pub static_cyclic_deal :
      (n t lb ub x : ℕ)
      → t < n
      → n * chunk < m
      → x ≤ e
      → (r : Bounds) × (for_static_init m (loop f) t n kmp_sch_static_chunked lb ub ≡ some r)
        × ((r.found ≡ true) ↔ (t < (loop f).count))
        × ((r.last ≡ true) ↔ (((loop f).count - 1) % n ≡ t))
        × (((k : ℕ) × (r.lower + k * r.stride ≤ x) × (x ≤ r.upper + k * r.stride))
            ↔ ((x / chunk) % n ≡ t))
  unfolding for_static_init static_cyclic
  static_cyclic_deal n t lb ub x lt fits xe = (
    static_cyclic m (loop f) t n,
    ground (arith, count-pos f),
    ground arith,
    ground arith,
    (
      λ (k, lo, hi).
          (turn_iff n t (x / chunk) lt).1
            (k, (block_iff n t k x chunk f.positive).0 ((held k x).0 (lo, hi))),
      λ turn.
          let (k, e) = (turn_iff n t (x / chunk) lt).0 turn in
          let (lo, hi) = (held k x).1 ((block_iff n t k x chunk f.positive).1 e) in (k, lo, hi),
    ),
  )
    where
      r : Bounds
      r = static_cyclic m (loop f) t n

      held :
          (k x : ℕ)
          → ((r.lower + k * r.stride ≤ x) × (x ≤ r.upper + k * r.stride))
            ↔ ((t * chunk + k * (n * chunk) ≤ x) × (x < (t + 1) * chunk + k * (n * chunk)))
      held k x = ground (arith, cyclic_fields n t lt fits)
