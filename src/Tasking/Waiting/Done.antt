-- ===== src/Tasking/Waiting/Done.antt =====
-- src/tasking.cc: which tasks the counters of `TaskWait` and `TaskgroupEnd` stand for, in every run.
use lomp.Prelude.{
  ℕ, ◌≡◌, ◌≢◌, refl, sym, ap, ◌∙◌, subst, arith, true, false, Option, none, some, List, [], ◌∷◌,
  ◌++◌, AllBelow, Known, Bool-cases, inl, inr,
}
use lomp.Tasking.Store.{Store, prepare_task, complete_task, free_task, register, settle}
use lomp.Tasking.Store.Accounting.{Counts, members, implicit_children, ParentAlive}
use lomp.Tasking.Waiting.{
  Team, new_team, waits, outer_of, group_waits, taskgroup_end, Step, allocates, prepares, invokes,
  completes, frees, resumes, ends_wait, begins_group, ends_group, Reach, start, then_step,
}
use lomp.Tasking.Waiting.Names.{
  Inv, AllBelow-append, allocates-Inv, Kept-Inv, begins_group-Inv, outer-Inv, task-Inv,
}
use lomp.Tasking.Store.Accounting.{prepare-Kept, complete-Kept}

-- No task of the list has `f` equal to `x`.
abbrev pub NoneHas : (f : ℕ → Option ℕ) → (x : Option ℕ) → List ℕ → Type 0
NoneHas f x [] = Unit {0}
NoneHas f x (t ∷ l) = (f t ≢ x) × NoneHas f x l

members-NoneHas : (f : ℕ → Option ℕ) (q : ℕ) (l : List ℕ) → members f q l ≡ 0 → NoneHas f (some q) l
members-NoneHas f q [] e = tt
members-NoneHas f q (t ∷ l) e =
    (λ is. ground (arith, e, is), members-NoneHas f q l (ground (arith, e)))

-- No task of the list is a child of the implicit task of thread `i`.
abbrev pub NoChild : (parent : ℕ → Option ℕ) (creator : ℕ → ℕ) (i : ℕ) → List ℕ → Type 0
NoChild parent creator i [] = Unit {0}
NoChild parent creator i (t ∷ l) = ((parent t ≡ none) → creator t ≢ i) × NoChild parent creator i l

implicit-NoChild :
    (parent : ℕ → Option ℕ) (creator : ℕ → ℕ) (i : ℕ) (l : List ℕ)
    → implicit_children parent creator i l ≡ 0
    → NoChild parent creator i l
implicit-NoChild parent creator i [] e = tt
implicit-NoChild parent creator i (t ∷ l) e = (
  λ is same. ground (arith, e, is, same),
  implicit-NoChild parent creator i l (ground (arith, e)),
)

from_some : Store → Option Store → Store
from_some s none = s
from_some s (some x) = x

pub some-injective : (s t : Store) → some s ≡ some t → s ≡ t
unfolding from_some
some-injective s t e = ap (from_some s) e

register-Alive :
    (o c : Option ℕ) (t : ℕ) (s s' : Store) → register o c t s ≡ some s' → ParentAlive o s
unfolding register
register-Alive none c t s s' e = tt
register-Alive (some p) c t s s' e = elim (Bool-cases (s.alive p)) [
  | inl here ↦ here
  | inr gone ↦ absurd (ground (arith, e, gone))
]

pub prepare_task-Alive :
    (t : ℕ) (s s' : Store)
    → prepare_task t s ≡ some s'
    → (s.alive t ≡ true) × ParentAlive (s.parent t) s
unfolding prepare_task
prepare_task-Alive t s s' e = elim (Bool-cases (s.alive t)) [
  | inl here ↦ (here, register-Alive (s.parent t) (s.group t) t s s' (rw here at e))
  | inr gone ↦ absurd (ground (arith, e, gone))
]

settle-Alive : (o c : Option ℕ) (t : ℕ) (s s' : Store) → settle o c t s ≡ some s' → ParentAlive o s
unfolding settle
settle-Alive none c t s s' e = tt
settle-Alive (some p) c t s s' e = elim (Bool-cases (s.alive p)) [
  | inl here ↦ here
  | inr gone ↦ absurd (ground (arith, e, gone))
]

pub complete_task-Alive :
    (t : ℕ) (s s' : Store)
    → complete_task t s ≡ some s'
    → (s.alive t ≡ true) × ParentAlive (s.parent t) s
unfolding complete_task
complete_task-Alive t s s' e = elim (Bool-cases (s.alive t)) [
  | inl here ↦ (here, settle-Alive (s.parent t) (s.group t) t s s' (rw here at e))
  | inr gone ↦ absurd (ground (arith, e, gone))
]

pub replaced :
    (s : Team) {a b : Store} {pending : List ℕ}
    → some a ≡ some b
    → Inv (record s { store = a; pending = pending })
    → Inv (record s { store = b; pending = pending })
replaced s {a} {b} {pending} e inv =
    subst (λ x. Inv (record s { store = x; pending = pending })) (some-injective a b e) inv

outer-Known : (o : Option ℕ) (s : Team) → Inv s → Known s.taskgroups (outer_of o s)
unfolding outer_of
outer-Known none s inv = tt
outer-Known (some g) s inv = inv.outers_known g

Step-Inv : {s t : Team} → Step s t → Inv s → Inv t
unfolding free_task taskgroup_end
Step-Inv {s = s} (allocates thread) inv = allocates-Inv thread s inv
Step-Inv {s = s} (prepares thread t s' lt same e) inv =
    let (alive, a) = prepare_task-Alive t s.store s' e in
    let (x, ex, counts, k) = prepare-Kept t s.store s.pending alive a inv.counts in
    replaced s (sym ex ∙ e) (Kept-Inv s x (t ∷ s.pending) inv k counts (lt, inv.listed))
Step-Inv {s = s} (invokes thread t lt) inv = task-Inv thread (some t) _ s.store.alive s lt inv
Step-Inv {s = s} (completes t l r s' is e) inv =
    let (alive, a) = complete_task-Alive t s.store s' e in
    let (x, ex, counts, k) =
      complete-Kept t s.store l r alive a (subst (Counts s.store) is inv.counts) in
    replaced s (sym ex ∙ e) (
      Kept-Inv s x (l ++ r) inv k counts
        (AllBelow-append s.tasks t l r (subst (AllBelow s.tasks) is inv.listed)))
Step-Inv {s = s} (frees t) inv =
    Kept-Inv s (free_task t s.store) s.pending inv
      (record { same_parent = refl; same_group = refl; same_task = refl; same_current = refl })
      (record {
        team = inv.counts.team;
        children = inv.counts.children;
        implicit = inv.counts.implicit;
        groups = inv.counts.groups;
      })
      inv.listed
Step-Inv {s = s} (resumes thread previous known) inv =
    task-Inv thread previous s.store.flags s.store.alive s known inv
Step-Inv (ends_wait thread over) inv = inv
Step-Inv {s = s} (begins_group thread) inv = begins_group-Inv thread s inv
Step-Inv {s = s} (ends_group thread over) inv =
    outer-Inv thread (outer_of (s.store.current_group thread) s) s
      (outer-Known (s.store.current_group thread) s inv) inv

new_team-Inv : Inv new_team
new_team-Inv = record {
  counts = record { team = refl; children = λ q. refl; implicit = λ i. refl; groups = λ g. refl };
  tasks_known = λ i. tt;
  parents_known = λ t. tt;
  currents_known = λ i. tt;
  groups_known = λ t. tt;
  outers_known = λ g. tt;
  listed = tt;
}

pub Reach-Inv : {s : Team} → Reach s → Inv s
Reach-Inv start = new_team-Inv
Reach-Inv (then_step r st) = Step-Inv st (Reach-Inv r)

-- No pending task is a child of the task, or of the implicit task of the thread.
abbrev pub ChildrenDone : (current : Option ℕ) → (thread : ℕ) → Team → Type 0
ChildrenDone (some p) thread s = NoneHas s.store.parent (some p) s.pending
ChildrenDone none thread s = NoChild s.store.parent s.store.creator thread s.pending

pub waits-Done :
    (current : Option ℕ) (thread : ℕ) (s : Team)
    → Inv s
    → waits current thread s.store ≡ false
    → ChildrenDone current thread s
unfolding waits
waits-Done (some p) thread s inv over =
    members-NoneHas s.store.parent p s.pending (ground (arith, inv.counts.children p, over))
waits-Done none thread s inv over =
    implicit-NoChild s.store.parent s.store.creator thread s.pending
      (ground (arith, inv.counts.implicit thread, over))

abbrev pub GroupDone : (current : Option ℕ) → Team → Type 0
GroupDone (some g) s = NoneHas s.store.group (some g) s.pending
GroupDone none s = Unit {0}

pub group_waits-Done :
    (current : Option ℕ) (s : Team)
    → Inv s
    → group_waits current s.store ≡ false
    → GroupDone current s
unfolding group_waits
group_waits-Done (some g) s inv over =
    members-NoneHas s.store.group g s.pending (ground (arith, inv.counts.groups g, over))
group_waits-Done none s inv over = tt
