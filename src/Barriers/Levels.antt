-- ===== src/Barriers/Levels.antt =====
-- The pattern of four by which barriers of src/barrier_impl.cc use two counters or two arrays of
-- flags in turn, up and down.
use lomp.Prelude.{ℕ, ◌+◌, ◌-◌, ◌%◌, ◌≤◌, ◌||◌, ◌==◌, if◌then◌else◌, arith}

-- Whether a thread that has come to `k` barriers has what belongs to parity `q` up.
abbrev pub level : (q k : ℕ) → ℕ
level q k = if (k + 4 - q) % 4 == 1 || (k + 4 - q) % 4 == 2 then 1 else 0

pub level_small : (q k : ℕ) → level q k ≤ 1
level_small q k = ground arith
