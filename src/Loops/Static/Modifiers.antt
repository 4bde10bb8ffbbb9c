-- ===== src/Loops/Static/Modifiers.antt =====
-- A blocked static schedule with a modifier bit, on its way from `setSchedule` to `forStaticInit`.
use lomp.Prelude.{ℕ, ◌<◌, ◌≡◌, ◌≢◌, refl, none, some, arith, ◌==◌, if◌then◌else◌}
use lomp.Loops.Kinds.{without_modifiers}
use lomp.Loops.Canonical.{CanonicalLoop}
use lomp.Loops.Schedule.{Runtime, resolve, set_schedule, dispatch_static}
use lomp.Loops.Schedule.Laws.{Modifier, plain, monotonic, nonmonotonic, code}
use lomp.Loops.Schedule.Laws
use lomp.Loops.Static

-- For a loop that has iterations, in a team of more than one thread, and the blocked static schedule
-- with either modifier: the resolved schedule is given the blocked dispatch function, which hands no
-- iteration out, whatever value `c` the thread's `nextLoopChunk` has. It ends in the fatal error of an
-- unknown schedule where `c` is 0, and returns that there are no iterations where it is not.
pub static_modifier_fatal :
    (team : Runtime) (m : ℕ) (cl : CanonicalLoop) (me n chunk lb ub c : ℕ) (modifier : Modifier)
    → n ≢ 1
    → 0 < cl.count
    → modifier ≢ plain
    → let s = (resolve team n (code Laws.Base.static modifier) chunk).0 in
      (set_schedule s ≡ some dispatch_static)
      × (Static.dispatch_static m cl me n s lb ub c ≡ (if c == 0 then none else some (c, none)))
unfolding resolve set_schedule without_modifiers Static.dispatch_static Static.for_static_init
static_modifier_fatal team m cl me n chunk lb ub c plain two some_work bit = absurd (bit refl)
static_modifier_fatal team m cl me n chunk lb ub c monotonic two some_work bit =
    (ground arith, ground arith)
static_modifier_fatal team m cl me n chunk lb ub c nonmonotonic two some_work bit =
    (ground arith, ground arith)
