-- ===== src/Examples/Loops.antt =====
-- Examples of src/loops.h and src/loops.cc: bounds of chunks and of static schedules.
use lomp.Prelude.{
  ℕ, suc, List, leb, ◌&&◌, ◌/◌, ◌%◌, ◌≤◌, ◌≡◌, ◌↔◌, refl, some, none, claims, arith, if◌then◌else◌,
  ◌==◌, ◌^◌,
}
use lomp.Loops.Kinds.{kmp_sch_static}
use lomp.Loops.Canonical.{init, get_chunk_lower, get_chunk_upper}
use lomp.Loops.Canonical.Laws.{Fits, loop, chunk_range}
use lomp.Loops.Static
use lomp.Loops.Static.{Bounds, for_static_init, initialize_balanced}
use lomp.Loops.Static.Laws.{unit_loop}
use lomp.Loops.Static.Partition.{Executes, static_partition}
use lomp.Loops.Static.Chunked.{collect, static_chunked_deal}
use lomp.Loops.Static.Modifiers.{static_modifier_fatal}
use lomp.Loops.Schedule.{dispatch_static, Runtime, set_schedule, resolve}
use lomp.Loops.Schedule.Laws.{
  code, resolve-dispatched, get-set, after_set, with_chunk, external, reported,
}
use lomp.Loops.Schedule.Laws

-- A loop over 0 .. 9 with an `int32_t` variable, in chunks of three.
threes : Fits (2 ^ 32) 9 3
threes = record { positive = omega arith; room = omega arith }

ones : Fits (2 ^ 32) 9 1
ones = record { positive = omega arith; room = omega arith }

threes_count : (init (2 ^ 32) 9 3).count ≡ 4
unfolding init
threes_count = refl

last_of_threes :
    (get_chunk_lower (2 ^ 32) (init (2 ^ 32) 9 3) 3 ≡ 9)
    × (get_chunk_upper (2 ^ 32) (init (2 ^ 32) 9 3) 3 ≡ 9)
unfolding init get_chunk_lower get_chunk_upper
last_of_threes = (refl, refl)

chunk_range_example :
    ((get_chunk_lower (2 ^ 32) (loop threes) 1 ≤ 7)
      × (7 ≤ get_chunk_upper (2 ^ 32) (loop threes) 2))
    ↔ ((7 ≤ 9) × (1 ≤ 7 / 3) × (7 / 3 ≤ 2))
unfolding init
chunk_range_example = chunk_range threes 1 2 7 (omega arith) (omega arith)

balanced_run : initialize_balanced (2 ^ 32) 10 1 4 ≡ (3, 6)
unfolding initialize_balanced Static.my_base
balanced_run = refl

static_partition_example :
    ((x : ℕ)
      → x ≤ 9
      → (t : ℕ) × ((s : ℕ) → Executes (2 ^ 32) (unit_loop ones) 12 kmp_sch_static s x ↔ (s ≡ t)))
    × ((x s : ℕ) → Executes (2 ^ 32) (unit_loop ones) 12 kmp_sch_static s x → x ≤ 9)
static_partition_example = static_partition ones 12 (omega arith)

static_chunked_deal_example :
    (ranges : List (ℕ × ℕ)) × (collect (suc (loop threes).count) (2 ^ 32) (loop threes) 2 0
      ≡ some ranges)
    × ((x : ℕ) → claims x ranges ≡ (if leb x 9 && ((x / 3) % 2 == 0) then 1 else 0))
unfolding init
static_chunked_deal_example = static_chunked_deal threes 2 0 (omega arith) (omega arith)

abbrev guided_by_default : Runtime
guided_by_default = record { schedule = 36; chunk = 4 }

static_modifier_fatal_example :
    let s = (resolve guided_by_default 4 (code Laws.Base.static Laws.Modifier.monotonic) 0).0 in
    (set_schedule s ≡ some dispatch_static)
    × (Static.dispatch_static (2 ^ 32) (loop threes) 1 4 s 0 9 1 ≡ some (1, none))
unfolding init
static_modifier_fatal_example =
    static_modifier_fatal guided_by_default (2 ^ 32) (loop threes) 1 4 0 0 9 1
      Laws.Modifier.monotonic (omega arith) (omega arith) (grind arith)
