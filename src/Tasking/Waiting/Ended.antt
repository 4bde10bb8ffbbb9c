-- ===== src/Tasking/Waiting/Ended.antt =====
-- src/tasking.cc: what `TaskWait` and `TaskgroupEnd` have waited for where they have returned.
use lomp.Prelude.{
  ℕ, ◌≡◌, refl, sym, ◌∙◌, subst, arith, Bool, true, false, Option, none, some, List, [], ◌∷◌, ◌++◌,
  update, AllBelow,
}
use lomp.Tasking.Store.{Store, initialize_task, free_task}
use lomp.Tasking.Store.Accounting.{Counts, Kept, prepare-Kept, complete-Kept}
use lomp.Tasking.Waiting.{
  Team, group_waits, outer_of, task_wait_on, taskgroup_begin, taskgroup_end, Step, allocates,
  prepares, invokes, completes, frees, resumes, ends_wait, begins_group, ends_group, Reach, start,
  then_step,
}
use lomp.Tasking.Waiting.Names.{Inv}
use lomp.Tasking.Waiting.Done.{
  NoneHas, ChildrenDone, some-injective, prepare_task-Alive, complete_task-Alive, Reach-Inv,
  waits-Done, group_waits-Done,
}
use lomp.Tasking.Waiting.History.{History, inner_ended, close, log, history}
use lomp.Tasking.Waiting.Groups.{
  Groups, Linked, begin-Groups, end-Groups, end_none-Groups, Known-lt,
}

-- The tasks of the list were created in no taskgroup or in one that is not closed.
abbrev AllOpen : (group : ℕ → Option ℕ) → (closed : ℕ → Bool) → List ℕ → Type 0
AllOpen group closed [] = Unit {0}
AllOpen group closed (t ∷ l) =
    ((g : ℕ) → group t ≡ some g → closed g ≡ false) × AllOpen group closed l

-- In each of the states listed with a thread, no pending task is a child of the task that was the
-- thread's current one.
abbrev pub AllDone : List (ℕ × Team) → Type 0
AllDone [] = Unit {0}
AllDone ((thread, s) ∷ l) = ChildrenDone (s.store.current_task thread) thread s × AllDone l

record Ended (s : Team) (h : History) : Type 0 where
  groups : Groups s.taskgroups s.store.current_group s.outer h.closed h.opened
  pending_open : AllOpen s.store.group h.closed s.pending
  waited_done : AllDone h.waited

AllOpen-append :
    (group : ℕ → Option ℕ) (closed : ℕ → Bool) (t : ℕ) (l r : List ℕ)
    → AllOpen group closed (l ++ t ∷ r)
    → AllOpen group closed (l ++ r)
AllOpen-append group closed t [] r h = h.1
AllOpen-append group closed t (x ∷ l) r h = (h.0, AllOpen-append group closed t l r h.1)

AllOpen-fresh :
    (group : ℕ → Option ℕ) (closed : ℕ → Bool) (m : ℕ) (o : Option ℕ) (l : List ℕ)
    → AllBelow m l
    → AllOpen group closed l
    → AllOpen (update group m o) closed l
AllOpen-fresh group closed m o [] low h = tt
AllOpen-fresh group closed m o (t ∷ l) low h =
    (λ g e. ground (arith, e, low.0, h.0 g), AllOpen-fresh group closed m o l low.1 h.1)

AllOpen-close :
    (group : ℕ → Option ℕ) (closed : ℕ → Bool) (g : ℕ) (l : List ℕ)
    → NoneHas group (some g) l
    → AllOpen group closed l
    → AllOpen group (update closed g true) l
AllOpen-close group closed g [] free h = tt
AllOpen-close group closed g (t ∷ l) free h =
    (λ k e. ground (arith, e, free.0, h.0 k), AllOpen-close group closed g l free.1 h.1)

AllOpen-NoneHas :
    (group : ℕ → Option ℕ) (closed : ℕ → Bool) (g : ℕ) (l : List ℕ)
    → closed g ≡ true
    → AllOpen group closed l
    → NoneHas group (some g) l
AllOpen-NoneHas group closed g [] shut h = tt
AllOpen-NoneHas group closed g (t ∷ l) shut h =
    (λ e. absurd (ground (arith, h.0 g e, shut)), AllOpen-NoneHas group closed g l shut h.1)

-- Where the counters change and nothing else does.
Kept-Ended :
    (s : Team) (s' : Store) (pending : List ℕ) (h : History)
    → Kept s.store s'
    → AllOpen s.store.group h.closed pending
    → Ended s h
    → Ended (record s { store = s'; pending = pending }) h
Kept-Ended s s' pending h k all inv = record {
  groups =
      subst (λ c. Groups s.taskgroups c s.outer h.closed h.opened) (sym k.same_current) inv.groups;
  pending_open = subst (λ f. AllOpen f h.closed pending) (sym k.same_group) all;
  waited_done = inv.waited_done;
}

Kept-same : {s x s' : Store} → some x ≡ some s' → Kept s x → Kept s s'
Kept-same {s} {x} {s'} e k = subst (Kept s) (some-injective x s' e) k

ends-Ended :
    (o : Option ℕ) (thread : ℕ) (s : Team) (h : History)
    → s.store.current_group thread ≡ o
    → group_waits o s.store ≡ false
    → Inv s
    → Ended s h
    → Ended
        (record s {
          store = record s.store {
            current_group = update s.store.current_group thread (outer_of o s);
          };
        })
        (record h {
          closed = close o h.closed;
          opened = update h.opened thread (inner_ended (h.opened thread));
        })
unfolding outer_of
ends-Ended none thread s h at over known inv = record {
  groups = end_none-Groups inv.groups thread at;
  pending_open = inv.pending_open;
  waited_done = inv.waited_done;
}
ends-Ended (some g) thread s h at over known inv = record {
  groups = end-Groups inv.groups thread g at (Known-lt g (known.currents_known thread) at);
  pending_open =
      AllOpen-close s.store.group h.closed g s.pending (group_waits-Done (some g) s known over)
        inv.pending_open;
  waited_done = inv.waited_done;
}

Step-Ended : {s t : Team} (h : History) (st : Step s t) → Inv s → Ended s h → Ended t (log st h)
unfolding log initialize_task free_task taskgroup_begin taskgroup_end task_wait_on
Step-Ended {s} h (allocates thread) known inv = record {
  groups = inv.groups;
  pending_open =
      AllOpen-fresh s.store.group h.closed s.tasks _ s.pending known.listed inv.pending_open;
  waited_done = inv.waited_done;
}
Step-Ended {s} h (prepares thread t s' lt same e) known inv =
    let (alive, a) = prepare_task-Alive t s.store s' e in
    let (x, ex, counts, k) = prepare-Kept t s.store s.pending alive a known.counts in
    Kept-Ended s s' (t ∷ s.pending) h (Kept-same (sym ex ∙ e) k)
      (λ g at. inv.groups.live thread g (sym same ∙ at), inv.pending_open) inv
Step-Ended h (invokes thread t lt) known inv = record {
  groups = inv.groups;
  pending_open = inv.pending_open;
  waited_done = inv.waited_done;
}
Step-Ended {s} h (completes t l r s' is e) known inv =
    let (alive, a) = complete_task-Alive t s.store s' e in
    let (x, ex, counts, k) =
      complete-Kept t s.store l r alive a (subst (Counts s.store) is known.counts) in
    Kept-Ended s s' (l ++ r) h (Kept-same (sym ex ∙ e) k)
      (AllOpen-append s.store.group h.closed t l r
        (subst (AllOpen s.store.group h.closed) is inv.pending_open))
      inv
Step-Ended h (frees t) known inv = record {
  groups = inv.groups;
  pending_open = inv.pending_open;
  waited_done = inv.waited_done;
}
Step-Ended h (resumes thread previous k) known inv = record {
  groups = inv.groups;
  pending_open = inv.pending_open;
  waited_done = inv.waited_done;
}
Step-Ended {s} h (ends_wait thread over) known inv = record {
  groups = inv.groups;
  pending_open = inv.pending_open;
  waited_done = (waits-Done (s.store.current_task thread) thread s known over, inv.waited_done);
}
Step-Ended {s} h (begins_group thread) known inv = record {
  groups = begin-Groups inv.groups thread known.currents_known known.outers_known;
  pending_open = inv.pending_open;
  waited_done = inv.waited_done;
}
Step-Ended {s} h (ends_group thread over) known inv =
    ends-Ended (s.store.current_group thread) thread s h refl over known inv

Reach-Ended : {s : Team} (r : Reach s) → Ended s (history r)
unfolding history
Reach-Ended start = record {
  groups = record {
    live = λ i g e. refl;
    single = λ i j g e e'. absurd (ground (arith, e));
    outer_live = λ g k c e. refl;
    inner = λ i g k e c. absurd (ground (arith, e));
    nested = λ g k x c c' e e'. absurd (ground (arith, e));
    fresh = λ g le. refl;
    linked = λ i. refl;
    below = λ i. tt;
  };
  pending_open = tt;
  waited_done = tt;
}
Reach-Ended (then_step r st) = Step-Ended (history r) st (Reach-Inv r) (Reach-Ended r)

-- In every run of threads that create, execute, complete and free tasks, wait and open and close
-- taskgroups without a fault, each task being passed on to `PrepareTask` in the taskgroup in which it
-- was allocated: whenever `TaskWait` returned to a thread, no pending task had the thread's
-- current task as its parent (without a current task: no pending task without a parent had been created
-- by the thread).
pub task_wait-Done : {s : Team} (r : Reach s) → AllDone (history r).waited
task_wait-Done r = (Reach-Ended r).waited_done

-- In every run of threads that create, execute, complete and free tasks, wait and open and close
-- taskgroups without a fault, each task being passed on to `PrepareTask` in the taskgroup in which it
-- was allocated: no pending task was created in a taskgroup whose `TaskgroupEnd` has returned; and
-- a thread's current taskgroup is the innermost of those that it has begun and not ended, from which
-- `outer` leads through the others, so that the end of an inner taskgroup gives the outer one back.
pub taskgroup_end-Done :
    {s : Team} (r : Reach s)
    → ((g : ℕ) → (history r).closed g ≡ true → NoneHas s.store.group (some g) s.pending)
      × ((i : ℕ) → Linked s.outer (s.store.current_group i) ((history r).opened i))
taskgroup_end-Done {s} r =
    let inv = Reach-Ended r in
    (
      λ g shut. AllOpen-NoneHas s.store.group (history r).closed g s.pending shut inv.pending_open,
      inv.groups.linked,
    )
