-- ===== src/Loops/Schedule.antt =====
-- src/loops.cc: the table `schedules`, the lookups in it, the scheduling variables of the team, the
-- choice of a dispatch function, and how a loop's schedule is resolved.
-- `none` is a fatal error.
pub mod Laws
use Prim.Native.String.{String}
use text.Mathlib.Text.{◌==◌ as str_eq}
use lomp.Prelude.{
  ℕ, ◌+◌, Bool, true, false, List, [], ◌∷◌, Option, none, some, not, ◌&&◌, ◌==◌, if◌then◌else◌,
}
use lomp.Loops.Kinds.{
  kmp_sch_static_chunked, kmp_sch_static, kmp_sch_dynamic_chunked, kmp_sch_guided_chunked,
  kmp_sch_runtime, kmp_sch_auto, kmp_sch_imbalanced, kmp_sch_modifier_monotonic,
  kmp_sch_modifier_nonmonotonic, omp_sched_static, omp_sched_dynamic, omp_sched_guided,
  omp_sched_auto, lomp_sched_imbalanced, omp_sched_monotonic, without_modifiers, has_monotonic,
}

pub record Entry : Type 0 where
  pub name : String
  pub internal_value : ℕ
  pub external_value : ℕ

abbrev entry : String → ℕ → ℕ → Entry
entry n i e = record { name = n; internal_value = i; external_value = e }

abbrev pub schedules : List Entry
schedules =
    entry "static" kmp_sch_static omp_sched_static
    ∷ entry "static" kmp_sch_static_chunked omp_sched_static
    ∷ entry "monotonic:static" kmp_sch_static (omp_sched_static + omp_sched_monotonic)
    ∷ entry "nonmonotonic:static" kmp_sch_static omp_sched_static
    ∷ entry "auto" kmp_sch_static omp_sched_auto
    ∷ entry "guided" kmp_sch_guided_chunked omp_sched_guided
    ∷ entry "monotonic:guided" kmp_sch_guided_chunked (omp_sched_guided + omp_sched_monotonic)
    ∷ entry "nonmonotonic:guided" kmp_sch_guided_chunked omp_sched_guided
    ∷ entry "dynamic" (kmp_sch_modifier_nonmonotonic + kmp_sch_dynamic_chunked) omp_sched_dynamic
    ∷ entry "nonmonotonic:dynamic" (kmp_sch_modifier_nonmonotonic + kmp_sch_dynamic_chunked)
        omp_sched_dynamic
    ∷ entry "monotonic:dynamic" (kmp_sch_modifier_monotonic + kmp_sch_dynamic_chunked)
        (omp_sched_dynamic + omp_sched_monotonic)
    ∷ entry "imbalanced" kmp_sch_imbalanced lomp_sched_imbalanced
    ∷ []

lookup_in : List Entry → String → ℕ
lookup_in [] candidate = omp_sched_static
lookup_in (s ∷ rest) candidate =
    if str_eq s.name candidate then s.external_value else lookup_in rest candidate

-- The warning about an unknown name is not modelled.
unfoldable pub lookup_schedule : String → ℕ
unfolding lookup_in
lookup_schedule candidate = lookup_in schedules candidate

externalise_in : List Entry → ℕ → Option ℕ
externalise_in [] internal = none
externalise_in (s ∷ rest) internal =
    if s.internal_value == internal then some s.external_value else externalise_in rest internal

unfoldable pub externalise_schedule : ℕ → Option ℕ
unfolding externalise_in
externalise_schedule internal = externalise_in schedules internal

internalise_in : List Entry → ℕ → Option ℕ
internalise_in [] external = none
internalise_in (s ∷ rest) external =
    if s.external_value == external then some s.internal_value else internalise_in rest external

unfoldable pub internalise_schedule : ℕ → Option ℕ
unfolding internalise_in
internalise_schedule external = internalise_in schedules external

-- The scheduling variables of a team: `RuntimeLoopSchedule` and `RuntimeLoopChunk`.
pub record Runtime : Type 0 where
  pub schedule : ℕ
  pub chunk : ℕ

unfoldable pub get_schedule_info : Runtime → Option (ℕ × ℕ)
unfolding externalise_schedule
get_schedule_info team = elim (externalise_schedule team.schedule) [
  | none ↦ none
  | some external ↦ some (external, team.chunk)
]

unfoldable pub set_schedule_info : ℕ → ℕ → Runtime → Option Runtime
unfolding internalise_schedule
set_schedule_info sched chunk team = elim (internalise_schedule sched) [
  | none ↦ none
  | some internal ↦ some (record {
    schedule =
        if internal == kmp_sch_static && not (chunk == 0) then kmp_sch_static_chunked else internal;
    chunk = chunk;
  })
]

-- The member function that `setSchedule` stores.
pub data Dispatch : Type 0 where
  dispatch_static dispatch_static_chunked dispatch_guided dispatch_monotonic : Dispatch
  dispatch_nonmonotonic : Dispatch

abbrev either_modifier : ℕ → ℕ → Bool
either_modifier base s =
    if s == base
    then true
    else if s == base + kmp_sch_modifier_monotonic
    then true
    else s == base + kmp_sch_modifier_nonmonotonic

unfoldable pub set_schedule : ℕ → Option Dispatch
set_schedule s =
    if either_modifier kmp_sch_static s
    then some dispatch_static
    else if either_modifier kmp_sch_static_chunked s
    then some dispatch_static_chunked
    else if either_modifier kmp_sch_guided_chunked s
    then some dispatch_guided
    else if s == kmp_sch_dynamic_chunked
    then some dispatch_monotonic
    else if s == kmp_sch_dynamic_chunked + kmp_sch_modifier_monotonic
    then some dispatch_monotonic
    else if s == kmp_sch_imbalanced
    then some dispatch_nonmonotonic
    else if s == kmp_sch_dynamic_chunked + kmp_sch_modifier_nonmonotonic
    then some dispatch_nonmonotonic
    else none

-- The first half of `computeDynamicLoopParams`: the schedule and the chunk that it works with.
resolve_runtime : Runtime → ℕ × ℕ → ℕ × ℕ
resolve_runtime team (schedule, chunk) =
    if without_modifiers schedule == kmp_sch_runtime
    then (team.schedule, team.chunk)
    else (schedule, chunk)

resolve_auto : ℕ × ℕ → ℕ × ℕ
resolve_auto (schedule, chunk) =
    if without_modifiers schedule == kmp_sch_auto
    then (if not (has_monotonic schedule)
        then (kmp_sch_modifier_nonmonotonic + kmp_sch_dynamic_chunked, chunk)
        else if chunk == 0
        then (kmp_sch_static, chunk)
        else (kmp_sch_static_chunked, chunk))
    else (schedule, chunk)

resolve_chunk : ℕ → ℕ × ℕ → ℕ × ℕ
resolve_chunk thread_count (schedule, chunk) =
    (if thread_count == 1 then kmp_sch_static else schedule, if chunk == 0 then 1 else chunk)

unfoldable pub resolve : Runtime → ℕ → ℕ → ℕ → ℕ × ℕ
unfolding resolve_runtime resolve_auto resolve_chunk
resolve team thread_count schedule chunk =
    resolve_chunk thread_count (resolve_auto (resolve_runtime team (schedule, chunk)))

-- `values` is what `getStringWithIntArgument` has stored for `OMP_SCHEDULE`, `none` where it has
-- returned false.
unfoldable pub initialize_loops : (values : Option (String × ℕ)) → Runtime → Option Runtime
initialize_loops none team = some team
initialize_loops (some (kind, chunk)) team = set_schedule_info (lookup_schedule kind) chunk team
