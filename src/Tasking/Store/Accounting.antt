-- ===== src/Tasking/Store/Accounting.antt =====
-- The counters of src/tasking.cc against the list of the tasks that are prepared and not completed.
use lomp.Prelude.{
  ℕ, ◌+◌, ◌≡◌, refl, true, List, [], ◌∷◌, ◌++◌, Option, none, some, arith, ◌==◌, if◌then◌else◌,
  length, update, length-append,
}
use lomp.Tasking.Store.{Store, prepare_task, complete_task, register, settle, completed}

abbrev pub names : Option ℕ → ℕ → ℕ
names none q = 0
names (some p) q = if p == q then 1 else 0

abbrev pub names_thread : Option ℕ → ℕ → ℕ → ℕ
names_thread none creator i = if creator == i then 1 else 0
names_thread (some p) creator i = 0

-- How many of the listed tasks have `q` as their parent, or as their group.
abbrev pub members : (ℕ → Option ℕ) → ℕ → List ℕ → ℕ
members of q [] = 0
members of q (t ∷ l) = names (of t) q + members of q l

-- How many of the listed tasks are children of the implicit task of thread `i`.
abbrev pub implicit_children : (ℕ → Option ℕ) → (ℕ → ℕ) → ℕ → List ℕ → ℕ
implicit_children parent creator i [] = 0
implicit_children parent creator i (t ∷ l) =
    names_thread (parent t) (creator t) i + implicit_children parent creator i l

-- `pending` lists the tasks that are prepared and not completed.
pub record Counts (s : Store) (pending : List ℕ) : Type 0 where
  pub team : s.active ≡ length pending
  pub children : (q : ℕ) → s.child_tasks q ≡ members s.parent q pending
  pub implicit : (i : ℕ) → s.thread_children i ≡ implicit_children s.parent s.creator i pending
  pub groups : (g : ℕ) → s.group_active g ≡ members s.group g pending

-- The parent's descriptor is allocated.
abbrev pub ParentAlive : Option ℕ → Store → Type 0
ParentAlive none s = Unit {0}
ParentAlive (some p) s = s.alive p ≡ true

-- Nothing but counters and flags has changed.
pub record Kept (s s' : Store) : Type 0 where
  pub same_parent : s'.parent ≡ s.parent
  pub same_group : s'.group ≡ s.group
  pub same_task : s'.current_task ≡ s.current_task
  pub same_current : s'.current_group ≡ s.current_group

register-Counts :
    (o c : Option ℕ) (t : ℕ) (s : Store) (pending : List ℕ)
    → s.parent t ≡ o
    → s.group t ≡ c
    → ParentAlive o s
    → Counts s pending
    → (s' : Store) × (register o c t s ≡ some s') × Counts s' (t ∷ pending) × Kept s s'
unfolding register
register-Counts none none t s pending e f a v = (
  record s {
    active = s.active + 1;
    thread_children = update s.thread_children (s.creator t) (s.thread_children (s.creator t) + 1);
  },
  ground arith,
  record {
    team = ground (arith, v.team);
    children = λ q. ground (arith, v.children q);
    implicit = λ i. ground (arith, v.implicit i, v.implicit (s.creator t));
    groups = λ g. ground (arith, v.groups g);
  },
  record { same_parent = refl; same_group = refl; same_task = refl; same_current = refl },
)
register-Counts none (some g0) t s pending e f a v = (
  record s {
    active = s.active + 1;
    thread_children = update s.thread_children (s.creator t) (s.thread_children (s.creator t) + 1);
    group_active = update s.group_active g0 (s.group_active g0 + 1);
  },
  ground arith,
  record {
    team = ground (arith, v.team);
    children = λ q. ground (arith, v.children q);
    implicit = λ i. ground (arith, v.implicit i, v.implicit (s.creator t));
    groups = λ g. ground (arith, v.groups g, v.groups g0);
  },
  record { same_parent = refl; same_group = refl; same_task = refl; same_current = refl },
)
register-Counts (some p) none t s pending e f a v = (
  record s { active = s.active + 1; child_tasks = update s.child_tasks p (s.child_tasks p + 1) },
  ground arith,
  record {
    team = ground (arith, v.team);
    children = λ q. ground (arith, v.children q, v.children p);
    implicit = λ i. ground (arith, v.implicit i);
    groups = λ g. ground (arith, v.groups g);
  },
  record { same_parent = refl; same_group = refl; same_task = refl; same_current = refl },
)
register-Counts (some p) (some g0) t s pending e f a v = (
  record s {
    active = s.active + 1;
    child_tasks = update s.child_tasks p (s.child_tasks p + 1);
    group_active = update s.group_active g0 (s.group_active g0 + 1);
  },
  ground arith,
  record {
    team = ground (arith, v.team);
    children = λ q. ground (arith, v.children q, v.children p);
    implicit = λ i. ground (arith, v.implicit i);
    groups = λ g. ground (arith, v.groups g, v.groups g0);
  },
  record { same_parent = refl; same_group = refl; same_task = refl; same_current = refl },
)

members-append :
    (of : ℕ → Option ℕ) (q : ℕ) (l r : List ℕ)
    → members of q (l ++ r) ≡ members of q l + members of q r
members-append of q [] r = omega arith
members-append of q (t ∷ l) r = omega (arith, members-append of q l r)

implicit-append :
    (parent : ℕ → Option ℕ) (creator : ℕ → ℕ) (i : ℕ) (l r : List ℕ)
    → implicit_children parent creator i (l ++ r)
      ≡ implicit_children parent creator i l + implicit_children parent creator i r
implicit-append parent creator i [] r = omega arith
implicit-append parent creator i (t ∷ l) r = omega (arith, implicit-append parent creator i l r)

-- Where the task stands among the pending ones does not matter.
pull_front : (s : Store) (l r : List ℕ) (t : ℕ) → Counts s (l ++ t ∷ r) → Counts s (t ∷ (l ++ r))
pull_front s l r t v = record {
  team = omega (arith, v.team, length-append l (t ∷ r), length-append l r);
  children = λ q.
      omega
        (arith, v.children q, members-append s.parent q l (t ∷ r), members-append s.parent q l r);
  implicit = λ i. omega (
    arith,
    v.implicit i,
    implicit-append s.parent s.creator i l (t ∷ r),
    implicit-append s.parent s.creator i l r,
  );
  groups = λ g.
      omega (arith, v.groups g, members-append s.group g l (t ∷ r), members-append s.group g l r);
}

settle-Counts :
    (o c : Option ℕ) (t : ℕ) (s : Store) (pending : List ℕ)
    → s.parent t ≡ o
    → s.group t ≡ c
    → ParentAlive o s
    → Counts s (t ∷ pending)
    → (s' : Store) × (settle o c t s ≡ some s') × Counts s' pending × Kept s s'
unfolding settle
settle-Counts none none t s pending e f a v = (
  record s {
    flags = update s.flags t completed;
    active = length pending;
    thread_children =
        update s.thread_children (s.creator t)
          (implicit_children s.parent s.creator (s.creator t) pending);
  },
  ground (arith, v.team, v.implicit (s.creator t)),
  record {
    team = ground (arith, v.team);
    children = λ q. ground (arith, v.children q);
    implicit = λ i. ground (arith, v.implicit i, v.implicit (s.creator t));
    groups = λ g. ground (arith, v.groups g);
  },
  record { same_parent = refl; same_group = refl; same_task = refl; same_current = refl },
)
settle-Counts none (some g0) t s pending e f a v = (
  record s {
    flags = update s.flags t completed;
    active = length pending;
    thread_children =
        update s.thread_children (s.creator t)
          (implicit_children s.parent s.creator (s.creator t) pending);
    group_active = update s.group_active g0 (members s.group g0 pending);
  },
  ground (arith, v.team, v.implicit (s.creator t), v.groups g0),
  record {
    team = ground (arith, v.team);
    children = λ q. ground (arith, v.children q);
    implicit = λ i. ground (arith, v.implicit i, v.implicit (s.creator t));
    groups = λ g. ground (arith, v.groups g, v.groups g0);
  },
  record { same_parent = refl; same_group = refl; same_task = refl; same_current = refl },
)
settle-Counts (some p) none t s pending e f a v = (
  record s {
    flags = update s.flags t completed;
    active = length pending;
    child_tasks = update s.child_tasks p (members s.parent p pending);
  },
  ground (arith, v.team, v.children p),
  record {
    team = ground (arith, v.team);
    children = λ q. ground (arith, v.children q, v.children p);
    implicit = λ i. ground (arith, v.implicit i);
    groups = λ g. ground (arith, v.groups g);
  },
  record { same_parent = refl; same_group = refl; same_task = refl; same_current = refl },
)
settle-Counts (some p) (some g0) t s pending e f a v = (
  record s {
    flags = update s.flags t completed;
    active = length pending;
    child_tasks = update s.child_tasks p (members s.parent p pending);
    group_active = update s.group_active g0 (members s.group g0 pending);
  },
  ground (arith, v.team, v.children p, v.groups g0),
  record {
    team = ground (arith, v.team);
    children = λ q. ground (arith, v.children q, v.children p);
    implicit = λ i. ground (arith, v.implicit i);
    groups = λ g. ground (arith, v.groups g, v.groups g0);
  },
  record { same_parent = refl; same_group = refl; same_task = refl; same_current = refl },
)

pub prepare-Kept :
    (t : ℕ) (s : Store) (pending : List ℕ)
    → s.alive t ≡ true
    → ParentAlive (s.parent t) s
    → Counts s pending
    → (s' : Store) × (prepare_task t s ≡ some s') × Counts s' (t ∷ pending) × Kept s s'
unfolding prepare_task
prepare-Kept t s pending alive a v =
    let (s', e, v', k) = register-Counts (s.parent t) (s.group t) t s pending refl refl a v in
    (s', rw alive e, v', k)

pub complete-Kept :
    (t : ℕ) (s : Store) (l r : List ℕ)
    → s.alive t ≡ true
    → ParentAlive (s.parent t) s
    → Counts s (l ++ t ∷ r)
    → (s' : Store) × (complete_task t s ≡ some s') × Counts s' (l ++ r) × Kept s s'
unfolding complete_task
complete-Kept t s l r alive a v =
    let (s', e, v', k) =
      settle-Counts (s.parent t) (s.group t) t s (l ++ r) refl refl a (pull_front s l r t v) in
    (s', rw alive e, v', k)

-- Preparing an allocated task whose parent is allocated succeeds: the task is from then on counted
-- by its parent, or by its thread if it has none, by its group if it has one, and by the team.
pub prepare-Counts :
    (t : ℕ) (s : Store) (pending : List ℕ)
    → s.alive t ≡ true
    → ParentAlive (s.parent t) s
    → Counts s pending
    → (s' : Store) × (prepare_task t s ≡ some s') × Counts s' (t ∷ pending)
prepare-Counts t s pending alive a v =
    let (s', e, v', k) = prepare-Kept t s pending alive a v in (s', e, v')

-- Completing a pending task that is allocated, with an allocated parent, succeeds, no counter falls
-- below zero, and exactly this task is no longer counted.
pub complete-Counts :
    (t : ℕ) (s : Store) (l r : List ℕ)
    → s.alive t ≡ true
    → ParentAlive (s.parent t) s
    → Counts s (l ++ t ∷ r)
    → (s' : Store) × (complete_task t s ≡ some s') × Counts s' (l ++ r)
complete-Counts t s l r alive a v =
    let (s', e, v', k) = complete-Kept t s l r alive a v in (s', e, v')
