-- ===== src/Loops/Counter/Once.antt =====
-- The chunks that `dispatchMonotonic` and `dispatchGuided` of src/loops.cc hand out.
use lomp.Prelude.{
  ℕ, refl, ◌==◌, ℕ_discrete, ◌+◌, ◌-◌, ◌/◌, ◌%◌, ◌^◌, ◌≤◌, ◌<◌, ◌≡◌, arith, ltb, if◌then◌else◌,
  claims,
}
use lomp.Prelude.Words.{div_bounds, mul_reflects, wrap_below, wrap_once}
use lomp.Loops.Counter.{System, no_work, take, monotonic_attempt, guided_attempt, finished, Reach}
use lomp.Loops.Counter.Invariant.{Sound, Inv, Reach-Inv}

monotonic-Sound : (count : ℕ) → Sound count (monotonic_attempt count)
unfolding monotonic_attempt
monotonic-Sound count = record {
  stops = λ next e h. ground arith;
  takes = λ next delta e h. ground arith;
}

-- A share of what remains is at least one and at most all of it.
share_bounds : (n r : ℕ) → 0 < n → 0 < r → (1 ≤ (r + n - 1) / n) × ((r + n - 1) / n ≤ r)
share_bounds n r pos some_left = (
  mul_reflects 0 _ n (omega (arith, div_bounds (r + n - 1) n pos)),
  grind (arith, div_bounds (r + n - 1) n pos),
)

-- Where the count leaves room for the rounding up, nothing wraps.
guided_attempt-eq :
    (n count next : ℕ)
    → 0 < n
    → count + n < 2 ^ 64
    → next ≤ count
    → guided_attempt n count next
      ≡ (if count - next == 0 then no_work else take (((count - next + n - 1) / n + 1) / 2))
unfolding guided_attempt
guided_attempt-eq n count next pos fits le = elim (ℕ_discrete (count - next) 0) [
  | yes e ↦ rw (remaining, e) refl
  | no some_left ↦
      rw (remaining, share, wrap_below (2 ^ 64) (s + 1) (s + 1) (omega (arith, bound)) refl) refl
]
  where
    r : ℕ
    r = count - next

    s : ℕ
    s = (r + n - 1) / n

    remaining : (count + 2 ^ 64 - next) % 2 ^ 64 ≡ r
    remaining = wrap_once (2 ^ 64) r _ (omega arith) (omega arith)

    share : (r + n + 2 ^ 64 - 1) % 2 ^ 64 ≡ r + n - 1
    share = wrap_once (2 ^ 64) (r + n - 1) _ (omega arith) (omega arith)

    bound : s ≤ r + n - 1
    bound = ground (arith, div_bounds (r + n - 1) n pos)

guided-Sound : (n count : ℕ) → 0 < n → count + n < 2 ^ 64 → Sound count (guided_attempt n count)
guided-Sound n count pos fits = record {
  stops = λ next e h. ground (arith, guided_attempt-eq n count next pos fits h);
  takes = λ next delta e h.
      ground (arith, guided_attempt-eq n count next pos fits h, share_bounds n (count - next) pos);
}

-- In every reachable state of a `monotonic:dynamic` loop of `count` chunks, with any number of
-- threads, the counter is within the count, and the chunks below it were handed out exactly once
-- and no other ever.
pub monotonic_once :
    {count : ℕ} {s : System}
    → Reach (monotonic_attempt count) s
    → (s.next ≤ count) × ((x : ℕ) → claims x s.handed ≡ (if ltb x s.next then 1 else 0))
monotonic_once {count} r = let inv = Reach-Inv (monotonic-Sound count) r in (inv.room, inv.once)

finished_all :
    {count i : ℕ} {s : System} (x : ℕ)
    → Inv count s
    → s.pc i ≡ finished
    → claims x s.handed ≡ (if ltb x count then 1 else 0)
finished_all {i} x inv at = ground (arith, inv.threads i, inv.once x)

-- Once the call of some thread of a `monotonic:dynamic` loop has returned false, every chunk of the
-- loop was handed out exactly once, and no other chunk.
pub monotonic_finished :
    (count i x : ℕ) {s : System}
    → Reach (monotonic_attempt count) s
    → s.pc i ≡ finished
    → claims x s.handed ≡ (if ltb x count then 1 else 0)
monotonic_finished count i x r at = finished_all x (Reach-Inv (monotonic-Sound count) r) at

-- In every reachable state of a `guided` loop of `count` chunks, with any number of threads and a
-- positive team size that together with the count is below `2 ^ 64`, the counter is within the count, and the chunks below it were handed
-- out exactly once and no other ever.
pub guided_once :
    {n count : ℕ} {s : System}
    → 0 < n
    → count + n < 2 ^ 64
    → Reach (guided_attempt n count) s
    → (s.next ≤ count) × ((x : ℕ) → claims x s.handed ≡ (if ltb x s.next then 1 else 0))
guided_once {n} {count} pos fits r =
    let inv = Reach-Inv (guided-Sound n count pos fits) r in (inv.room, inv.once)

-- Once the call of some thread of a `guided` loop has returned false, the count and the team size
-- being below `2 ^ 64` together, every chunk of the loop was
-- handed out exactly once, and no other chunk.
pub guided_finished :
    (n count i x : ℕ) {s : System}
    → 0 < n
    → count + n < 2 ^ 64
    → Reach (guided_attempt n count) s
    → s.pc i ≡ finished
    → claims x s.handed ≡ (if ltb x count then 1 else 0)
guided_finished n count i x pos fits r at =
    finished_all x (Reach-Inv (guided-Sound n count pos fits) r) at
