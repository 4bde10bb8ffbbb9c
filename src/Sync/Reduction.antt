-- ===== src/Sync/Reduction.antt =====
-- Reductions of src/threads.cc: which kind a thread uses, and what it does on entry and exit.
use lomp.Prelude.{
  ℕ, ◌+◌, ◌/◌, ◌%◌, ◌≡◌, ◌∙◌, ◌≢◌, ap, ◌⊎◌, inl, inr, refl, Bool, true, false, Option, none, some,
  List, [], ◌∷◌, ◌++◌, ◌==◌, if◌then◌else◌,
}
use lomp.Support.Environment.{Text, get_string, or_default}

pub data ReductionType : Type 0 where
  unknown : ReductionType
  atomic : ReductionType
  critical_section : ReductionType
  tree : ReductionType

pub data Event : Type 0 where
  enters_critical : Event
  leaves_critical : Event
  meets_barrier : Event

-- What the thread and the program keep, and what the thread has done, the latest first. `warnings`
-- counts the messages.
pub record Reduction : Type 0 where
  pub forced_reduction : ReductionType
  pub warned : Bool
  pub warnings : ℕ
  pub current_reduction : ReductionType
  pub events : List Event

abbrev pub initial : Reduction
initial = record {
  forced_reduction = unknown;
  warned = false;
  warnings = 0;
  current_reduction = unknown;
  events = [];
}

-- `flags & KMP_IDENT_ATOMIC_REDUCE`
abbrev pub has_atomic : (flags : ℕ) → Bool
has_atomic flags = (flags / 16) % 2 == 1

abbrev pub complain : Reduction → Reduction
complain r = record r { warned = true; warnings = if r.warned then r.warnings else r.warnings + 1 }

-- `compiled` tells whether the compiler has generated the atomic code.
unfoldable pub choose_forced :
    ReductionType → (compiled : Bool) → Reduction → Reduction × ReductionType
choose_forced atomic true r = (r, atomic)
choose_forced atomic false r = (complain r, critical_section)
choose_forced critical_section compiled r = (r, critical_section)
choose_forced unknown true r = (r, atomic)
choose_forced unknown false r = (r, critical_section)
choose_forced tree compiled r = (complain r, critical_section)

abbrev pub choose_reduction : (flags : ℕ) → Reduction → Reduction × ReductionType
choose_reduction flags r = choose_forced r.forced_reduction (has_atomic flags) r

-- `none` is a fatal error.
unfoldable pub enter_as : ReductionType → Reduction → Option (Reduction × ℕ)
enter_as atomic r = some (r, 2)
enter_as critical_section r = some (record r { events = enters_critical ∷ r.events }, 1)
enter_as tree r = none
enter_as unknown r = none

unfoldable pub enter_reduction : (flags : ℕ) → Reduction → Option (Reduction × ℕ)
enter_reduction flags r =
    let (chosen, kind) = choose_reduction flags r in
    enter_as kind (record chosen { current_reduction = kind })

abbrev pub leave_lock : ReductionType → List Event → List Event
leave_lock critical_section events = leaves_critical ∷ events
leave_lock atomic events = events
leave_lock tree events = events
leave_lock unknown events = events

abbrev pub barrier : (need_barrier : Bool) → List Event
barrier need_barrier = if need_barrier then meets_barrier ∷ [] else []

unfoldable pub leave_reduction : (need_barrier : Bool) → Reduction → Reduction
leave_reduction need_barrier r = record r {
  events = barrier need_barrier ++ leave_lock r.current_reduction r.events;
}

-- The names of the kinds by their characters.
abbrev pub name_of : ReductionType → Text
name_of unknown = 117 ∷ 110 ∷ 107 ∷ 110 ∷ 111 ∷ 119 ∷ 110 ∷ []
name_of atomic = 97 ∷ 116 ∷ 111 ∷ 109 ∷ 105 ∷ 99 ∷ []
name_of critical_section = 99 ∷ 114 ∷ 105 ∷ 116 ∷ 105 ∷ 99 ∷ 97 ∷ 108 ∷ []
name_of tree = 116 ∷ 114 ∷ 101 ∷ 101 ∷ []

abbrev pub same_text : Text → Text → Bool
same_text [] [] = true
same_text [] (y ∷ t) = false
same_text (x ∷ s) [] = false
same_text (x ∷ s) (y ∷ t) = if x == y then same_text s t else false

abbrev pub find_name : Text → List ReductionType → Option ReductionType
find_name requested [] = none
find_name requested (kind ∷ kinds) =
    if same_text (name_of kind) requested then some kind else find_name requested kinds

unfoldable pub force_named : Option ReductionType → Reduction → Reduction
force_named none r = record r { warnings = r.warnings + 1 }
force_named (some kind) r = record r { forced_reduction = kind }

unfoldable pub initialize_forced : Text × Bool → Reduction → Reduction
initialize_forced (requested, false) r = r
initialize_forced (requested, true) r =
    force_named (find_name requested (atomic ∷ critical_section ∷ tree ∷ [])) r

-- `variable` and `default` are "LOMP_REDUCTION_STYLE" and "none".
abbrev pub initialize_forced_reduction :
    (getenv : Text → Option Text) → (variable default : Text) → Reduction → Reduction
initialize_forced_reduction getenv variable default r =
    initialize_forced (get_string getenv variable default) r

-- What a reduction does between its entry and its exit.
abbrev pub Done :
    (compiled : Bool) (code : ℕ) (need_barrier : Bool) (before after : List Event) → Type 0
Done compiled code need_barrier before after =
    ((code ≡ 1) × (after ≡ barrier need_barrier ++ (leaves_critical ∷ enters_critical ∷ before)))
    ⊎ ((code ≡ 2) × (compiled ≡ true) × (after ≡ barrier need_barrier ++ before))

choose_forced-Done :
    (forced : ReductionType) (compiled need_barrier : Bool) (r : Reduction)
    → let (chosen, kind) = choose_forced forced compiled r in
      (s : Reduction) × (code : ℕ) × (enter_as kind (record chosen { current_reduction = kind })
        ≡ some (s, code))
      × Done compiled code need_barrier r.events (leave_reduction need_barrier s).events
unfolding choose_forced enter_as leave_reduction
choose_forced-Done atomic true need_barrier r = (_, _, refl, inr (refl, refl, refl))
choose_forced-Done atomic false need_barrier r = (_, _, refl, inl (refl, refl))
choose_forced-Done critical_section compiled need_barrier r = (_, _, refl, inl (refl, refl))
choose_forced-Done unknown true need_barrier r = (_, _, refl, inr (refl, refl, refl))
choose_forced-Done unknown false need_barrier r = (_, _, refl, inl (refl, refl))
choose_forced-Done tree compiled need_barrier r = (_, _, refl, inl (refl, refl))

-- Whatever kind of reduction is forced, a thread enters a reduction without a fatal error. Where it
-- answers 1 it has entered the critical section, and it leaves it at the end; it answers 2 only
-- where the compiler has generated the atomic code, and then it stays out of the critical section.
-- Only where it needs the barrier does it meet it, after it has left the critical section.
pub enter_reduction-leave_reduction :
    (flags : ℕ) (need_barrier : Bool) (r : Reduction)
    → (s : Reduction) × (code : ℕ) × (enter_reduction flags r ≡ some (s, code))
      × Done (has_atomic flags) code need_barrier r.events (leave_reduction need_barrier s).events
unfolding enter_reduction
enter_reduction-leave_reduction flags need_barrier r =
    choose_forced-Done r.forced_reduction (has_atomic flags) need_barrier r

-- The kind that a reduction uses where a kind is forced.
abbrev pub kind_for : (forced : ReductionType) → (compiled : Bool) → ReductionType
kind_for atomic compiled = if compiled then atomic else critical_section
kind_for critical_section compiled = critical_section
kind_for tree compiled = critical_section
kind_for unknown compiled = if compiled then atomic else critical_section

choose_forced-kind_for :
    (forced : ReductionType) (compiled : Bool) (r : Reduction)
    → (choose_forced forced compiled r).1 ≡ kind_for forced compiled
unfolding choose_forced
choose_forced-kind_for atomic true r = refl
choose_forced-kind_for atomic false r = refl
choose_forced-kind_for critical_section compiled r = refl
choose_forced-kind_for unknown true r = refl
choose_forced-kind_for unknown false r = refl
choose_forced-kind_for tree compiled r = refl

named-forced :
    (kind : ReductionType) (r : Reduction)
    → kind ≢ unknown
    → (initialize_forced (name_of kind, true) r).forced_reduction ≡ kind
unfolding initialize_forced force_named
named-forced atomic r ne = refl
named-forced critical_section r ne = refl
named-forced tree r ne = refl
named-forced unknown r ne = absurd (ne refl)

-- Where LOMP_REDUCTION_STYLE names a kind, every reduction uses the critical section, but for
-- reductions with compiled atomic code where the name is that of the atomic kind.
pub initialize_forced_reduction-choose_reduction :
    (getenv : Text → Option Text) (variable default : Text) (kind : ReductionType) (flags : ℕ)
    (r : Reduction)
    → kind ≢ unknown
    → getenv variable ≡ some (name_of kind)
    → (choose_reduction flags (initialize_forced_reduction getenv variable default r)).1
      ≡ kind_for kind (has_atomic flags)
unfolding get_string or_default
initialize_forced_reduction-choose_reduction getenv variable default kind flags r ne named =
    let set = initialize_forced_reduction getenv variable default r in
    choose_forced-kind_for set.forced_reduction (has_atomic flags) set
    ∙ ap (λ k. kind_for k (has_atomic flags))
        (ap (λ o. (initialize_forced (or_default default o) r).forced_reduction) named
          ∙ named-forced kind r ne)
