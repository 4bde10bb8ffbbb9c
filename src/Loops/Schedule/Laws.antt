-- ===== src/Loops/Schedule/Laws.antt =====
-- The scheduling variables and the schedules that a program can ask for, src/loops.cc.
use lomp.Prelude.{ℕ, ◌+◌, ◌<◌, ◌≡◌, ◌≢◌, ◌⊎◌, Bool, true, false, Option, none, some, arith}
use lomp.Loops.Kinds.{
  kmp_sch_static_chunked, kmp_sch_static, kmp_sch_dynamic_chunked, kmp_sch_guided_chunked,
  kmp_sch_runtime, kmp_sch_auto, kmp_sch_imbalanced, kmp_sch_modifier_monotonic,
  kmp_sch_modifier_nonmonotonic, omp_sched_static, omp_sched_dynamic, omp_sched_guided,
  omp_sched_auto, lomp_sched_imbalanced, omp_sched_monotonic, without_modifiers, has_monotonic,
}
use lomp.Loops.Schedule.{Runtime, set_schedule_info, get_schedule_info, set_schedule, resolve}

-- The kinds of `omp_set_schedule`, each with or without the monotonic modifier.
pub data Kind : Type 0 where
  static dynamic guided auto imbalanced : Kind

abbrev pub external : Kind → Bool → ℕ
external static false = omp_sched_static
external static true = omp_sched_static + omp_sched_monotonic
external dynamic false = omp_sched_dynamic
external dynamic true = omp_sched_dynamic + omp_sched_monotonic
external guided false = omp_sched_guided
external guided true = omp_sched_guided + omp_sched_monotonic
external auto false = omp_sched_auto
external auto true = omp_sched_auto + omp_sched_monotonic
external imbalanced false = lomp_sched_imbalanced
external imbalanced true = lomp_sched_imbalanced + omp_sched_monotonic

-- What `omp_get_schedule` reports: `auto` became static, and only dynamic keeps its modifier.
abbrev pub reported : Kind → Bool → Option ℕ
reported static _ = some omp_sched_static
reported dynamic m = some (external dynamic m)
reported guided _ = some omp_sched_guided
reported auto false = some omp_sched_static
reported auto true = none
reported imbalanced false = some lomp_sched_imbalanced
reported imbalanced true = none

abbrev pub after_set : Option Runtime → Option (ℕ × ℕ)
after_set none = none
after_set (some t) = get_schedule_info t

abbrev pub with_chunk : Option ℕ → ℕ → Option (ℕ × ℕ)
with_chunk none c = none
with_chunk (some s) c = some (s, c)

-- Setting a schedule and asking for it gives the same chunk and the kind of `reported`, for every
-- kind, modifier and chunk; the two combinations that are missing from the table are fatal.
pub get-set :
    (k : Kind) (mono : Bool) (chunk : ℕ) (team : Runtime)
    → after_set (set_schedule_info (external k mono) chunk team)
      ≡ with_chunk (reported k mono) chunk
unfolding set_schedule_info get_schedule_info
get-set static false chunk team = ground arith
get-set static true chunk team = ground arith
get-set dynamic false chunk team = ground arith
get-set dynamic true chunk team = ground arith
get-set guided false chunk team = ground arith
get-set guided true chunk team = ground arith
get-set auto false chunk team = ground arith
get-set auto true chunk team = ground arith
get-set imbalanced false chunk team = ground arith
get-set imbalanced true chunk team = ground arith

-- The schedules that the scheduling variables of a team can hold.
abbrev pub IsInternal : ℕ → Type 0
IsInternal s =
    (s ≡ kmp_sch_static)
    ⊎ (s ≡ kmp_sch_static_chunked)
    ⊎ (s ≡ kmp_sch_guided_chunked)
    ⊎ (s ≡ kmp_sch_modifier_nonmonotonic + kmp_sch_dynamic_chunked)
    ⊎ (s ≡ kmp_sch_modifier_monotonic + kmp_sch_dynamic_chunked)
    ⊎ (s ≡ kmp_sch_imbalanced)

pub set_schedule_info-IsInternal :
    (sched chunk : ℕ) (team t : Runtime)
    → set_schedule_info sched chunk team ≡ some t
    → IsInternal t.schedule × (t.chunk ≡ chunk)
unfolding set_schedule_info
set_schedule_info-IsInternal sched chunk team t h = ground arith

-- What a compiler passes to `__kmpc_dispatch_init`.
pub data Base : Type 0 where
  static static_chunked dynamic_chunked guided_chunked runtime auto : Base

pub data Modifier : Type 0 where
  plain monotonic nonmonotonic : Modifier

abbrev base_code : Base → ℕ
base_code static = kmp_sch_static
base_code static_chunked = kmp_sch_static_chunked
base_code dynamic_chunked = kmp_sch_dynamic_chunked
base_code guided_chunked = kmp_sch_guided_chunked
base_code runtime = kmp_sch_runtime
base_code auto = kmp_sch_auto

abbrev pub code : Base → Modifier → ℕ
code b plain = base_code b
code b monotonic = base_code b + kmp_sch_modifier_monotonic
code b nonmonotonic = base_code b + kmp_sch_modifier_nonmonotonic

-- Whatever schedule, modifier and chunk a loop is started with, the schedule that it is resolved
-- to has a dispatch function, and the chunk is positive.
pub resolve-dispatched :
    (team : Runtime) (n c : ℕ) (b : Base) (m : Modifier)
    → IsInternal team.schedule
    → (set_schedule (resolve team n (code b m) c).0 ≢ none) × (0 < (resolve team n (code b m) c).1)
unfolding set_schedule resolve without_modifiers has_monotonic
resolve-dispatched team n c static plain h = ground arith
resolve-dispatched team n c static monotonic h = ground arith
resolve-dispatched team n c static nonmonotonic h = ground arith
resolve-dispatched team n c static_chunked plain h = ground arith
resolve-dispatched team n c static_chunked monotonic h = ground arith
resolve-dispatched team n c static_chunked nonmonotonic h = ground arith
resolve-dispatched team n c dynamic_chunked plain h = ground arith
resolve-dispatched team n c dynamic_chunked monotonic h = ground arith
resolve-dispatched team n c dynamic_chunked nonmonotonic h = ground arith
resolve-dispatched team n c guided_chunked plain h = ground arith
resolve-dispatched team n c guided_chunked monotonic h = ground arith
resolve-dispatched team n c guided_chunked nonmonotonic h = ground arith
resolve-dispatched team n c runtime plain h = ground arith
resolve-dispatched team n c runtime monotonic h = ground arith
resolve-dispatched team n c runtime nonmonotonic h = ground arith
resolve-dispatched team n c auto plain h = ground arith
resolve-dispatched team n c auto monotonic h = ground arith
resolve-dispatched team n c auto nonmonotonic h = ground arith
