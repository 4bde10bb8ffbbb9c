-- ===== src/Loops/Static/Laws.antt =====
-- The blocks of `forStaticInit` and `initializeBalanced` of src/loops.cc, against the even blocks
-- of lomp.Prelude.Blocks.
use native.Mathlib.Nat.{mod-lt, mod-eq_of_lt, div-eq_of_lt}
use lomp.Prelude.{
  ℕ, suc, ◌+◌, ◌-◌, ◌*◌, ◌/◌, ◌%◌, ◌≤◌, ◌<◌, ◌≡◌, ap, subst, ◌↔◌, true, refl, some, arith, ltb,
  lt→ltb, Bool-cases, dec_lt, inl, inr, if◌then◌else◌,
}
use lomp.Prelude.Words.{wrap_below, wrap_once}
use lomp.Prelude.Blocks.{
  block_start, block_start-all, block_start_mono, block_start-lt, block_start-last,
}
use lomp.Loops.Kinds.{kmp_sch_static}
use lomp.Loops.Canonical.{CanonicalLoop, init, get_chunk_lower, get_chunk_upper}
use lomp.Loops.Canonical.Laws.{Fits, init-fields, count-lt}
use lomp.Loops.Static.{Bounds, my_base, static_blocked, for_static_init, initialize_balanced}

-- The thread's block ends within the count.
pub block_end-le : (count n t : ℕ) → t < n → block_start count n (suc t) ≤ count
block_end-le count n t h =
    subst (λ x. block_start count n (suc t) ≤ x) (block_start-all count n (omega arith))
      (block_start_mono count n (suc t) n h)

-- The base that both functions compute is the start of the thread's block.
my_base-eq :
    (m count n t : ℕ) → block_start count n t < m → my_base m count t n ≡ block_start count n t
unfolding my_base
my_base-eq m count n t h = elim (Bool-cases (ltb t (count % n))) [
  | inl less ↦ ground (arith, wrap_below m (block_start count n t) (t * (count / n + 1)) h)
  | inr more ↦ ground (arith, wrap_below m (block_start count n t) (t * (count / n) + count % n) h)
]

-- Thread `t` of `n` starts with the even block of number `t` of the iterations `0 .. count - 1`.
pub initialize_balanced-block :
    (m count n t : ℕ)
    → t < n
    → count < m
    → initialize_balanced m count t n ≡ (block_start count n t, block_start count n (suc t))
unfolding initialize_balanced
initialize_balanced-block m count n t lt fits =
    rw (my_base-eq m count n t (omega (arith, bounds))) (ap (λ x. (b, x)) stop)
  where
    b : ℕ
    b = block_start count n t

    e : ℕ
    e = block_start count n (suc t)

    bounds : (b ≤ e) × (e < m)
    bounds =
        (block_start_mono count n t (suc t) (omega arith), omega (arith, block_end-le count n t lt))

    stop : (if ltb t (count % n) then (b + count / n + 1) % m else (b + count / n) % m) ≡ e
    stop = ground (
      arith,
      wrap_below m e (b + count / n + 1) bounds.1,
      wrap_below m e (b + count / n) bounds.1,
    )

-- The last item of a block, as the source computes it: one before the block that has no extra
-- item, plus the extra item. For the first block of a single item that goes round through m - 1.
last_of_block :
    (m start whole extra stop : ℕ)
    → stop ≡ start + whole + extra
    → extra ≤ 1
    → 0 < stop
    → stop < m
    → ((start + whole + m - 1) % m + extra * 1) % m + 1 ≡ stop
last_of_block m start whole extra stop e small pos fits = elim (dec_lt 0 (start + whole)) [
  | yes some_whole ↦
      rw
        (
          wrap_once m (start + whole - 1) (start + whole + m - 1) (omega arith) (omega arith),
          wrap_below m (stop - 1) (start + whole - 1 + extra * 1) (omega arith) (omega arith),
        )
        (omega arith)
  | no first ↦
      rw
        (
          wrap_below m (m - 1) (start + whole + m - 1) (omega arith) (omega arith),
          wrap_once m 0 (m - 1 + extra * 1) (omega arith) (omega arith),
        )
        (omega arith)
]

-- What a thread executes of a loop with chunks of one iteration: from `lower` up to `upper`.
module _ {m e : ℕ} (f : Fits m e 1) where
  abbrev pub unit_loop : CanonicalLoop
  unit_loop = init m e 1

  pub unit_fields : (unit_loop.end ≡ e) × (unit_loop.scale ≡ 1) × (unit_loop.count ≡ e + 1)
  unit_fields = ((init-fields f).0, (init-fields f).1, omega (arith, init-fields f))

  -- A chunk is its one iteration, also at the indices that are no chunk of the loop.
  unit_lower : (i : ℕ) → i < m → get_chunk_lower m unit_loop i ≡ i
  unfolding get_chunk_lower
  unit_lower i h = wrap_below m i _ h (rw (unit_fields.1) (omega arith))

  unit_upper : (i : ℕ) → i < m → get_chunk_upper m unit_loop i ≡ i
  unfolding get_chunk_upper
  unit_upper i h = ground (
    arith,
    unit_fields,
    unit_lower i h,
    f.room,
    wrap_once m e (unit_loop.count + m - 1) (omega (arith, f.room)) (omega (arith, unit_fields)),
    wrap_once m i (i + unit_loop.scale + m - 1) h (omega (arith, unit_fields)),
  )

  -- While there are more iterations than its number, thread `t` of `n` gets the even block of
  -- number `t`, and the thread whose block ends with the loop is told that it is the last.
  pub static_block :
      (n t lb ub : ℕ)
      → t < n
      → t < unit_loop.count
      → (r : Bounds) × (for_static_init m unit_loop t n kmp_sch_static lb ub ≡ some r)
        × (r.found ≡ true)
        × (r.lower ≡ block_start unit_loop.count n t)
        × (r.upper + 1 ≡ block_start unit_loop.count n (suc t))
        × ((r.last ≡ true) ↔ (block_start unit_loop.count n (suc t) ≡ unit_loop.count))
  unfolding for_static_init static_blocked
  static_block n t lb ub lt has = (
    static_blocked m unit_loop t n,
    ground arith,
    lt→ltb _ _ has,
    rw (my_base-eq m count n t start_fits) (unit_lower start start_fits),
    rw (my_base-eq m count n t start_fits) upper,
    ground (arith, block_start-last count n t lt has),
  )
    where
      count : ℕ
      count = unit_loop.count

      start : ℕ
      start = block_start count n t

      stop : ℕ
      stop = block_start count n (suc t)

      stop_fits : stop < m
      stop_fits = omega (arith, block_end-le count n t lt, count-lt f)

      start_fits : start < m
      start_fits = omega (arith, block_start_mono count n t (suc t) (omega arith), stop_fits)

      extra : ℕ
      extra = if ltb t (count % n) then 1 else 0

      upper :
          (get_chunk_upper m unit_loop ((start + count / n + m - 1) % m) + extra * 1) % m + 1 ≡ stop
      upper = rw (unit_upper ((start + count / n + m - 1) % m) (mod-lt _ (omega (arith, f.room)))) (
          last_of_block m start (count / n) extra stop (ground arith) (ground arith)
            (omega (arith, block_start-lt count n t lt has)) stop_fits)

  -- A thread whose number is no iteration's gets an empty range, at the end of the loop.
  pub static_idle :
      (n t lb ub : ℕ)
      → t < n
      → unit_loop.count ≤ t
      → (r : Bounds) × (for_static_init m unit_loop t n kmp_sch_static lb ub ≡ some r)
        × (r.lower ≡ unit_loop.count)
        × (r.upper + 1 ≡ unit_loop.count)
  unfolding for_static_init static_blocked my_base
  static_idle n t lb ub lt idle = (
    static_blocked m unit_loop t n,
    ground (arith, unit_fields),
    rw (none_whole, all_left, base) (unit_lower count (count-lt f)),
    rw (none_whole, all_left, base) upper,
  )
    where
      count : ℕ
      count = unit_loop.count

      none_whole : count / n ≡ 0
      none_whole = div-eq_of_lt (omega arith)

      all_left : count % n ≡ count
      all_left = mod-eq_of_lt (omega arith)

      base : (if ltb t count then t * (0 + 1) % m else (t * 0 + count) % m) ≡ count
      base = ground (arith, wrap_below m count (t * 0 + count) (count-lt f))

      upper :
          (get_chunk_upper m unit_loop ((count + 0 + m - 1) % m)
                + (if ltb t count then 1 else 0) * 1)
              % m
            + 1
          ≡ count
      upper = ground (
        arith,
        unit_fields,
        wrap_once m (count - 1) (count + 0 + m - 1) (omega (arith, count-lt f))
            (omega (arith, unit_fields)),
        unit_upper (count - 1) (omega (arith, count-lt f)),
        wrap_below m (count - 1) (count - 1) (omega (arith, count-lt f)) refl,
      )
