-- ===== src/Loops/Kinds.antt =====
-- The numbers of the schedules: `kmp_sched_t` of src/interface.h and `omp_sched_t` of
-- include/omp.h, as 32-bit patterns.
use lomp.Prelude.{ℕ, ◌+◌, ◌*◌, ◌/◌, ◌%◌, ◌^◌, Bool, not, ◌==◌}

abbrev pub kmp_sch_static_chunked : ℕ
kmp_sch_static_chunked = 33

abbrev pub kmp_sch_static : ℕ
kmp_sch_static = 34

abbrev pub kmp_sch_dynamic_chunked : ℕ
kmp_sch_dynamic_chunked = 35

abbrev pub kmp_sch_guided_chunked : ℕ
kmp_sch_guided_chunked = 36

abbrev pub kmp_sch_runtime : ℕ
kmp_sch_runtime = 37

abbrev pub kmp_sch_auto : ℕ
kmp_sch_auto = 38

abbrev pub kmp_sch_imbalanced : ℕ
kmp_sch_imbalanced = 256

abbrev pub kmp_sch_modifier_monotonic : ℕ
kmp_sch_modifier_monotonic = 2 ^ 29

abbrev pub kmp_sch_modifier_nonmonotonic : ℕ
kmp_sch_modifier_nonmonotonic = 2 ^ 30

abbrev pub omp_sched_static : ℕ
omp_sched_static = 1

abbrev pub omp_sched_dynamic : ℕ
omp_sched_dynamic = 2

abbrev pub omp_sched_guided : ℕ
omp_sched_guided = 3

abbrev pub omp_sched_auto : ℕ
omp_sched_auto = 4

abbrev pub lomp_sched_imbalanced : ℕ
lomp_sched_imbalanced = 32

abbrev pub omp_sched_monotonic : ℕ
omp_sched_monotonic = 2 ^ 31

-- `s & ~(nonmonotonic | monotonic)`: bits 29 and 30 are cleared.
unfoldable pub without_modifiers : ℕ → ℕ
without_modifiers s = s % 2 ^ 29 + s / 2 ^ 31 * 2 ^ 31

-- Bit 29 is set.
unfoldable pub has_monotonic : ℕ → Bool
has_monotonic s = not (s / 2 ^ 29 % 2 == 0)
