-- ===== src/Tasking/Waiting/Names.antt =====
-- src/tasking.cc: the counters of the tasks, and the names of descriptors and taskgroups that have
-- been given out, from step to step.
use lomp.Prelude.{
  ℕ, ◌+◌, ◌≡◌, refl, sym, ap₂, ◌∙◌, subst, arith, Bool, Option, none, some, List, [], ◌∷◌, ◌++◌,
  update, update-elim, AllBelow, Known,
}
use lomp.Tasking.Store.{Store, Flags, initialize_task}
use lomp.Tasking.Store.Accounting.{Counts, Kept, members, names, names_thread, implicit_children}
use lomp.Tasking.Waiting.{Team, taskgroup_begin}

pub AllBelow-append : (m t : ℕ) (l r : List ℕ) → AllBelow m (l ++ t ∷ r) → AllBelow m (l ++ r)
AllBelow-append m t [] r h = h.1
AllBelow-append m t (x ∷ l) r h = (h.0, AllBelow-append m t l r h.1)

AllBelow-raise : (m : ℕ) (l : List ℕ) → AllBelow m l → AllBelow (m + 1) l
AllBelow-raise m [] h = tt
AllBelow-raise m (t ∷ l) h = (omega arith, AllBelow-raise m l h.1)

Known-raise : (m : ℕ) (o : Option ℕ) → Known m o → Known (m + 1) o
Known-raise m none h = tt
Known-raise m (some x) h = omega arith

-- A new task is none of those listed, and no listed one names it.
members-fresh :
    (f : ℕ → Option ℕ) (m : ℕ) (o : Option ℕ) (q : ℕ) (l : List ℕ)
    → AllBelow m l
    → members (update f m o) q l ≡ members f q l
members-fresh f m o q [] h = refl
members-fresh f m o q (t ∷ l) h =
    let other : update f m o t ≡ f t = ground (arith, h.0) in
    ap₂ (λ a b. names a q + b) other (members-fresh f m o q l h.1)

names-unknown : (o : Option ℕ) (m : ℕ) → Known m o → names o m ≡ 0
names-unknown none m h = refl
names-unknown (some x) m h = ground arith

members-unknown :
    (f : ℕ → Option ℕ) (m : ℕ) (l : List ℕ) → ((t : ℕ) → Known m (f t)) → members f m l ≡ 0
members-unknown f m [] h = refl
members-unknown f m (t ∷ l) h = omega (arith, names-unknown (f t) m (h t), members-unknown f m l h)

implicit-fresh :
    (f : ℕ → Option ℕ) (creator : ℕ → ℕ) (m : ℕ) (o : Option ℕ) (c i : ℕ) (l : List ℕ)
    → AllBelow m l
    → implicit_children (update f m o) (update creator m c) i l ≡ implicit_children f creator i l
implicit-fresh f creator m o c i [] h = refl
implicit-fresh f creator m o c i (t ∷ l) h =
    let other : update f m o t ≡ f t = ground (arith, h.0) in
    let same : update creator m c t ≡ creator t = ground (arith, h.0) in
    ap₂ (λ a b. a + b) (ap₂ (λ a b. names_thread a b i) other same)
      (implicit-fresh f creator m o c i l h.1)

-- Every name that is in use has been given out.
pub record Inv (s : Team) : Type 0 where
  pub counts : Counts s.store s.pending
  pub tasks_known : (i : ℕ) → Known s.tasks (s.store.current_task i)
  pub parents_known : (t : ℕ) → Known s.tasks (s.store.parent t)
  pub currents_known : (i : ℕ) → Known s.taskgroups (s.store.current_group i)
  pub groups_known : (t : ℕ) → Known s.taskgroups (s.store.group t)
  pub outers_known : (g : ℕ) → Known s.taskgroups (s.outer g)
  pub listed : AllBelow s.tasks s.pending

pub allocates-Inv :
    (thread : ℕ) (s : Team)
    → Inv s
    → Inv (record s { store = initialize_task thread s.tasks s.store; tasks = s.tasks + 1 })
unfolding initialize_task
allocates-Inv thread s inv = record {
  counts = record {
    team = inv.counts.team;
    children = λ q. ground (
      arith,
      inv.counts.children q,
      members-fresh s.store.parent s.tasks (s.store.current_task thread) q s.pending inv.listed,
      members-unknown s.store.parent s.tasks s.pending inv.parents_known,
    );
    implicit = λ i.
        inv.counts.implicit i
        ∙ sym
            (implicit-fresh s.store.parent s.store.creator s.tasks _ thread i s.pending inv.listed);
    groups = λ g.
        inv.counts.groups g ∙ sym (members-fresh s.store.group s.tasks _ g s.pending inv.listed);
  };
  tasks_known = λ i. Known-raise _ _ (inv.tasks_known i);
  parents_known = λ t.
      update-elim (λ m o. Known (s.tasks + 1) o) s.store.parent s.tasks _ t
        (Known-raise _ _ (inv.tasks_known thread)) (λ ne. Known-raise _ _ (inv.parents_known t));
  currents_known = inv.currents_known;
  groups_known = λ t.
      update-elim (λ m o. Known s.taskgroups o) s.store.group s.tasks _ t
        (inv.currents_known thread) (λ ne. inv.groups_known t);
  outers_known = inv.outers_known;
  listed = AllBelow-raise _ _ inv.listed;
}

-- A store in which nothing but counters and flags has changed.
pub Kept-Inv :
    (s : Team) (s' : Store) (pending : List ℕ)
    → Inv s
    → Kept s.store s'
    → Counts s' pending
    → AllBelow s.tasks pending
    → Inv (record s { store = s'; pending = pending })
Kept-Inv s s' pending inv k counts listed = record {
  counts = counts;
  tasks_known = λ i. subst (λ f. Known s.tasks (f i)) (sym k.same_task) (inv.tasks_known i);
  parents_known = λ t. subst (λ f. Known s.tasks (f t)) (sym k.same_parent) (inv.parents_known t);
  currents_known =
      λ i. subst (λ f. Known s.taskgroups (f i)) (sym k.same_current) (inv.currents_known i);
  groups_known = λ t. subst (λ f. Known s.taskgroups (f t)) (sym k.same_group) (inv.groups_known t);
  outers_known = inv.outers_known;
  listed = listed;
}

pub begins_group-Inv : (thread : ℕ) (s : Team) → Inv s → Inv (taskgroup_begin thread s)
unfolding taskgroup_begin
begins_group-Inv thread s inv = record {
  counts = record {
    team = inv.counts.team;
    children = inv.counts.children;
    implicit = inv.counts.implicit;
    groups = λ g. ground (
      arith,
      inv.counts.groups g,
      members-unknown s.store.group s.taskgroups s.pending inv.groups_known,
    );
  };
  tasks_known = inv.tasks_known;
  parents_known = inv.parents_known;
  currents_known = λ i.
      update-elim (λ m o. Known (s.taskgroups + 1) o) s.store.current_group thread _ i (omega arith)
        (λ ne. Known-raise _ _ (inv.currents_known i));
  groups_known = λ t. Known-raise _ _ (inv.groups_known t);
  outers_known = λ g.
      update-elim (λ m o. Known (s.taskgroups + 1) o) s.outer s.taskgroups _ g
        (Known-raise _ _ (inv.currents_known thread)) (λ ne. Known-raise _ _ (inv.outers_known g));
  listed = inv.listed;
}

-- The thread's taskgroup is put back to an outer one.
pub outer-Inv :
    (thread : ℕ) (o : Option ℕ) (s : Team)
    → Known s.taskgroups o
    → Inv s
    → Inv (record s {
      store = record s.store { current_group = update s.store.current_group thread o };
    })
outer-Inv thread o s known inv = record {
  counts = record {
    team = inv.counts.team;
    children = inv.counts.children;
    implicit = inv.counts.implicit;
    groups = inv.counts.groups;
  };
  tasks_known = inv.tasks_known;
  parents_known = inv.parents_known;
  currents_known = λ i.
      update-elim (λ m o. Known s.taskgroups o) s.store.current_group thread o i known
        (λ ne. inv.currents_known i);
  groups_known = inv.groups_known;
  outers_known = inv.outers_known;
  listed = inv.listed;
}

pub task-Inv :
    (thread : ℕ) (o : Option ℕ) (flags : ℕ → Flags) (alive : ℕ → Bool) (s : Team)
    → Known s.tasks o
    → Inv s
    → Inv (record s {
      store = record s.store {
        current_task = update s.store.current_task thread o;
        flags = flags;
        alive = alive;
      };
    })
task-Inv thread o flags alive s known inv = record {
  counts = record {
    team = inv.counts.team;
    children = inv.counts.children;
    implicit = inv.counts.implicit;
    groups = inv.counts.groups;
  };
  tasks_known = λ i.
      update-elim (λ m o. Known s.tasks o) s.store.current_task thread o i known
        (λ ne. inv.tasks_known i);
  parents_known = inv.parents_known;
  currents_known = inv.currents_known;
  groups_known = inv.groups_known;
  outers_known = inv.outers_known;
  listed = inv.listed;
}
