-- ===== src/Loops/Canonical.antt =====
-- src/loops.h: `class canonicalLoop`, in its LLVM form (`base` 0 and `incr` 1).
-- A value of the loop's type of width w is the number of its bit pattern, below `m` = 2 ^ w, so a
-- signed and an unsigned loop of one width compute alike.
pub mod Laws
use lomp.Prelude.{ℕ, ◌+◌, ◌-◌, ◌*◌, ◌/◌, ◌%◌, Bool, ◌==◌, if◌then◌else◌}

pub record CanonicalLoop : Type 0 where
  pub end : ℕ
  pub scale : ℕ
  pub count : ℕ

-- The division by a zero chunk, a fault in the source, has no place here: every caller under
-- src/ passes a positive chunk, and the theorems assume one.
unfoldable pub init : (m e chunk : ℕ) → CanonicalLoop
init m e chunk = record {
  end = e;
  scale = chunk % m;
  count = ((e + 1) % m + chunk + m - 1) % m / chunk;
}

unfoldable pub get_count : CanonicalLoop → ℕ
get_count cl = cl.count

-- `scale / incr`
unfoldable pub get_chunk : CanonicalLoop → ℕ
get_chunk cl = cl.scale / 1

unfoldable pub is_last_chunk : (m : ℕ) → CanonicalLoop → ℕ → Bool
is_last_chunk m cl iteration = iteration == (cl.count + m - 1) % m

unfoldable pub get_chunk_lower : (m : ℕ) → CanonicalLoop → ℕ → ℕ
get_chunk_lower m cl iteration = (0 + iteration * cl.scale) % m

unfoldable pub get_chunk_upper : (m : ℕ) → CanonicalLoop → ℕ → ℕ
unfolding get_chunk_lower is_last_chunk
get_chunk_upper m cl iteration =
    if is_last_chunk m cl iteration
    then cl.end
    else (get_chunk_lower m cl iteration + cl.scale + m - 1) % m

unfoldable pub get_stride : (m : ℕ) → CanonicalLoop → ℕ → ℕ → ℕ
unfolding get_chunk_lower get_chunk_upper
get_stride m cl base end = (get_chunk_upper m cl end + m - get_chunk_lower m cl base + 1) % m
