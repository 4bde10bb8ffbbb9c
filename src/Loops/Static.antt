-- ===== src/Loops/Static.antt =====
-- src/loops.cc: `forStaticInit`, `initializeBalanced` and the dispatch functions of the static
-- schedules. Arithmetic is that of the loop's type, modulo `m`.
pub mod Laws
pub mod Partition
pub mod Chunked
pub mod Cyclic
pub mod Modifiers
use lomp.Prelude.{
  ℕ, ◌+◌, ◌-◌, ◌*◌, ◌/◌, ◌%◌, ◌^◌, Bool, true, false, Option, none, some, ◌==◌, ltb, leb,
  if◌then◌else◌,
}
use lomp.Loops.Kinds.{kmp_sch_static, kmp_sch_static_chunked}
use lomp.Loops.Canonical.{
  CanonicalLoop, get_count, is_last_chunk, get_chunk_lower, get_chunk_upper, get_stride,
}

-- What a scheduling call leaves in its output parameters, and its result. The caller's last flag
-- is a value here, also where the source skips the write because the pointer is null.
pub record Bounds : Type 0 where
  pub found : Bool
  pub last : Bool
  pub lower : ℕ
  pub upper : ℕ
  pub stride : ℕ

-- The first of the `count` items that thread `me` gets: `myBase`, and `b` of `initializeBalanced`.
unfoldable pub my_base : (m count me num_threads : ℕ) → ℕ
my_base m count me num_threads =
    let whole_iters : ℕ = count / num_threads in
    let leftover : ℕ = count % num_threads in
    if ltb me leftover then me * (whole_iters + 1) % m else (me * whole_iters + leftover) % m

unfoldable pub static_blocked : (m : ℕ) → CanonicalLoop → ℕ → ℕ → Bounds
static_blocked m cl me num_threads =
    let whole_iters : ℕ = cl.count / num_threads in
    let base : ℕ = my_base m cl.count me num_threads in
    let extras : ℕ = if ltb me (cl.count % num_threads) then 1 else 0 in
    record {
      found = ltb me cl.count;
      last = if ltb cl.count num_threads then me == cl.count - 1 else me == num_threads - 1;
      lower = get_chunk_lower m cl base;
      upper = (get_chunk_upper m cl ((base + whole_iters + m - 1) % m) + extras * 1) % m;
      stride = cl.count;
    }

unfoldable pub static_cyclic : (m : ℕ) → CanonicalLoop → ℕ → ℕ → Bounds
static_cyclic m cl me num_threads = record {
  found = ltb me cl.count;
  last = me == (cl.count - 1) % num_threads;
  lower = (0 + me * cl.scale) % m;
  upper = (0 + (me + 1) * cl.scale + m - 1) % m;
  stride = num_threads * cl.scale % m;
}

-- `none` is the fatal error of an unknown schedule. A loop with no iterations leaves the bounds
-- `lb` and `ub` of the caller as they are.
unfoldable pub for_static_init :
    (m : ℕ) → CanonicalLoop → (me num_threads schedtype lb ub : ℕ) → Option Bounds
for_static_init m cl me num_threads schedtype lb ub =
    if cl.count == 0
    then some (record { found = false; last = false; lower = lb; upper = ub; stride = 1 })
    else if schedtype == kmp_sch_static
    then some (static_blocked m cl me num_threads)
    else if schedtype == kmp_sch_static_chunked
    then some (static_cyclic m cl me num_threads)
    else none

-- The half-open range that a thread starts with under `nonmonotonic:dynamic`.
unfoldable pub initialize_balanced : (m count me num_threads : ℕ) → ℕ × ℕ
initialize_balanced m count me num_threads =
    let whole_iters : ℕ = count / num_threads in
    let b : ℕ = my_base m count me num_threads in
    let e : ℕ =
      if ltb me (count % num_threads) then (b + whole_iters + 1) % m else (b + whole_iters) % m in
    (b, e)

-- The results of a dispatch function: the next value of the thread's `nextLoopChunk`, and the
-- bounds, `none` where there are no more iterations. The outer `none` is a fatal error.
unfoldable pub dispatch_static :
    (m : ℕ) → CanonicalLoop → (me num_threads schedule lb ub chunk : ℕ) → Option (ℕ × Option Bounds)
dispatch_static m cl me num_threads schedule lb ub chunk =
    if chunk == 0
    then elim (for_static_init m cl me num_threads schedule lb ub) [
      | none ↦ none
      | some r ↦ some (1, if r.found then some r else none)
    ]
    else some (chunk, none)

-- `nextLoopChunk` and the sum that it gets have 64 bits, the loop's arguments the width of the loop's
-- type.
unfoldable pub dispatch_static_chunked :
    (m : ℕ) → CanonicalLoop → (num_threads my_chunk : ℕ) → ℕ × Option Bounds
dispatch_static_chunked m cl num_threads my_chunk =
    if leb (get_count cl) my_chunk then (my_chunk, none) else (
      (my_chunk + num_threads) % 2 ^ 64,
      some (record {
        found = true;
        last = is_last_chunk m cl my_chunk;
        lower = get_chunk_lower m cl my_chunk;
        upper = get_chunk_upper m cl my_chunk;
        stride = num_threads * get_stride m cl my_chunk ((my_chunk + num_threads) % m) % m;
      }),
    )
