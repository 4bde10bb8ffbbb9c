-- ===== src/Loops/Static/Chunked.antt =====
-- The cyclic static schedule, as compiled in (`forStaticInit`) and as dispatched chunk by chunk.
use native.Mathlib.Nat.{div-add-mod, mod-eq_of_lt, le_refl}
use lomp.Prelude.{
  ℕ, zero, suc, ◌+◌, ◌/◌, ◌%◌, ◌≤◌, ◌<◌, ◌≡◌, List, [], ◌∷◌, none, some, ◌>>=◌, ◌^◌, Option, refl,
  arith, ◌==◌, leb, if◌then◌else◌, ◌&&◌, claims, within, Bool-cases, inl, inr,
}
use lomp.Prelude.Words.{wrap_below}
use lomp.Loops.Canonical.{CanonicalLoop, get_count, get_chunk_lower, get_chunk_upper}
use lomp.Loops.Canonical.Laws.{Fits, loop, chunk_range, chunk_of-lt}
use lomp.Loops.Static.{Bounds, dispatch_static_chunked}

-- The half-open ranges that a thread gets from its calls of `dispatchStaticChunked`, from the
-- value `my_chunk` of its `nextLoopChunk` until a call finds nothing; `none` where none of the first
-- `fuel` calls finds nothing.
abbrev next_ranges : ℕ × Option Bounds → (ℕ → Option (List (ℕ × ℕ))) → Option (List (ℕ × ℕ))
next_ranges (c, none) rest = some []
next_ranges (c, some b) rest = do ranges ← rest c; some ((b.lower, suc b.upper) ∷ ranges)

pub collect : (fuel m : ℕ) → CanonicalLoop → (n my_chunk : ℕ) → Option (List (ℕ × ℕ))
collect zero m cl n my_chunk = none
collect (suc fuel) m cl n my_chunk =
    next_ranges (dispatch_static_chunked m cl n my_chunk) (collect fuel m cl n)

-- A number at least `c` with the remainder of `c` is `c`, or is at least the next such number.
same_remainder : (n c q : ℕ) → c ≤ q → q < c + n → q % n ≡ c % n → q ≡ c
same_remainder n c q lo hi e = grind (arith, div-add-mod q n, div-add-mod c n)

next_remainder : (n c : ℕ) → (c + n) % n ≡ c % n
next_remainder n c = grind arith

-- 1 for a chunk of the thread's sequence from `c` on, 0 for any other.
abbrev in_turn : (n c q : ℕ) → ℕ
in_turn n c q = if leb c q && (q % n == c % n) then 1 else 0

in_turn-step : (n c q : ℕ) → 0 < n → in_turn n c q ≡ (if q == c then 1 else 0) + in_turn n (c + n) q
in_turn-step n c q pos = ground (arith, same_remainder n c q, next_remainder n c)

module _ {m e chunk : ℕ} (f : Fits m e chunk) where
  -- The range of one chunk holds exactly the iterations of the loop that have this chunk.
  within_chunk :
      (c x : ℕ)
      → c < (loop f).count
      → within (get_chunk_lower m (loop f) c) (suc (get_chunk_upper m (loop f) c)) x
        ≡ (if leb x e && (x / chunk == c) then 1 else 0)
  within_chunk c x lt = ground (arith, chunk_range f c c x (le_refl c) lt)

  -- The calls end with ranges that hold what the thread's chunks from `c` on hold.
  collect-claims :
      (fuel n c : ℕ)
      → 0 < n
      → 0 < fuel
      → (loop f).count < c + fuel
      → (loop f).count + n ≤ 2 ^ 64
      → (ranges : List (ℕ × ℕ)) × (collect fuel m (loop f) n c ≡ some ranges)
        × ((x : ℕ) → claims x ranges ≡ (if leb x e then in_turn n c (x / chunk) else 0))
  unfolding collect dispatch_static_chunked get_count
  collect-claims zero n c pos some_fuel enough room = absurd (omega arith)
  collect-claims (suc fuel) n c pos some_fuel enough room =
      elim (Bool-cases (leb (loop f).count c)) [
        | inl over ↦ ([], rw over refl, λ x. ground (arith, chunk_of-lt f x))
        | inr more ↦
            let (ranges, eq, all) =
              collect-claims fuel n (c + n) pos (ground arith) (omega arith) room in
            (
              (get_chunk_lower m (loop f) c, suc (get_chunk_upper m (loop f) c)) ∷ ranges,
              rw (more, wrap_below (2 ^ 64) (c + n) (c + n) (ground arith) refl, eq) refl,
              λ x.
                  ground (
                    arith,
                    within_chunk c x (ground arith),
                    in_turn-step n c (x / chunk) pos,
                    all x,
                  ),
            )
      ]

  -- For a loop that fits its type, with a count and a team size of at most `2 ^ 64` together: starting
  -- from its own number, the calls of thread `t` of `n` end, after at most `count + 1` of them, and the
  -- ranges they give hold every iteration of the loop whose chunk is dealt to the thread exactly once,
  -- chunk numbers going round the threads, and nothing else, also past the loop's end.
  pub static_chunked_deal :
      (n t : ℕ)
      → t < n
      → (loop f).count + n ≤ 2 ^ 64
      → (ranges : List (ℕ × ℕ)) × (collect (suc (loop f).count) m (loop f) n t ≡ some ranges)
        × ((x : ℕ) → claims x ranges ≡ (if leb x e && ((x / chunk) % n == t) then 1 else 0))
  static_chunked_deal n t lt room =
      let (ranges, eq, all) =
        collect-claims (suc (loop f).count) n t (omega arith) (omega arith) (omega arith) room in
      (ranges, eq, λ x. ground (arith, all x, mod-eq_of_lt lt))
