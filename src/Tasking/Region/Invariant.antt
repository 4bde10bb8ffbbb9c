-- ===== src/Tasking/Region/Invariant.antt =====
-- The counter of active tasks against the implicit and the explicit tasks, src/tasking.cc and
-- src/threads.cc.
use lomp.Prelude.{
  ℕ, zero, suc, ◌+◌, ◌≤◌, ◌<◌, ◌≡◌, ◌⊎◌, inl, inr, refl, sym, ap, ◌∙◌, subst, arith, Bool, true,
  false, List, [], ◌∷◌, ◌++◌, if◌then◌else◌, length, update, update-elim, dec_lt, ℕ_discrete,
}
use lomp.Prelude.Counting.{sum_below, sum_below-change, sum_below-const}
use lomp.Barriers.Spec
use lomp.Barriers.Spec.{Threads, arrive, leave, Reach-Kept}
use lomp.Tasking.Region.{
  Pc, idle, working, draining, finished, in_barrier, Team, after_barrier, goal, Executes, in_task,
  in_internal, in_last,
}

-- 1 for a thread whose implicit task is counted.
abbrev pub begun : Pc → ℕ
begun idle = 0
begun working = 1
begun draining = 1
begun finished = 0
begun (in_barrier internal) = if internal then 1 else 0

abbrev pub PcHolds : (internal : Bool) (arrived passed : ℕ) → Pc → Type 0
PcHolds internal arrived passed idle = arrived ≡ passed
PcHolds internal arrived passed working = arrived ≡ passed
PcHolds internal arrived passed draining = (arrived ≡ passed) × (internal ≡ true)
PcHolds internal arrived passed finished = (arrived ≡ passed) × (internal ≡ false)
PcHolds internal arrived passed (in_barrier was) = (arrived ≡ passed + 1) × (internal ≡ was)

-- What holds of all the listed numbers.
abbrev pub All : (ℕ → Type 0) → List ℕ → Type 0
All P [] = Unit {0}
All P (e ∷ l) = P e × All P l

pub record Inv (n : ℕ) (internal : ℕ → Bool) (s : Team) : Type 0 where
  pub refines : Spec.Reach n s.view
  pub threads :
      (i : ℕ) → PcHolds (internal (s.view.passed i)) (s.view.arrived i) (s.view.passed i) (s.pc i)
  pub counted : s.active_tasks ≡ sum_below n (λ i. begun (s.pc i)) + length s.pending
  -- Where all threads are in the same barrier, no explicit task is pending.
  pub drained :
      (b : ℕ)
      → ((i : ℕ) → i < n → (s.view.passed i ≡ b) × (s.view.arrived i ≡ b + 1))
      → s.pending ≡ []
  pub created : (i : ℕ) → i < n → All (λ e. s.view.passed i ≤ e) s.pending

pub Executes-outside :
    (internal : Bool) (arrived passed : ℕ) (c : Pc)
    → Executes c
    → PcHolds internal arrived passed c
    → arrived ≡ passed
Executes-outside internal arrived passed working in_task h = h
Executes-outside internal arrived passed draining in_internal h = h.0
Executes-outside internal arrived passed finished in_last h = h.0
Executes-outside internal arrived passed idle e h = elim e [ ]
Executes-outside internal arrived passed (in_barrier was) e h = elim e [ ]

in_barrier-begun :
    (internal : Bool) (arrived passed : ℕ) (c : Pc)
    → arrived ≡ passed + 1
    → PcHolds internal arrived passed c
    → begun c ≡ (if internal then 1 else 0)
in_barrier-begun internal arrived passed idle come h = absurd (omega arith)
in_barrier-begun internal arrived passed working come h = absurd (omega arith)
in_barrier-begun internal arrived passed draining come h = absurd (omega arith)
in_barrier-begun internal arrived passed finished come h = absurd (omega arith)
in_barrier-begun internal arrived passed (in_barrier was) come h =
    ap (λ b. if b then 1 else 0) (sym h.1)

after_barrier-Holds :
    (was internal : Bool) (arrived passed : ℕ)
    → arrived ≡ passed
    → PcHolds internal arrived passed (after_barrier was)
after_barrier-Holds true internal arrived passed e = e
after_barrier-Holds false internal arrived passed e = e

after_barrier-begun : (was : Bool) → begun (after_barrier was) ≡ begun (in_barrier was)
after_barrier-begun true = refl
after_barrier-begun false = refl

length-zero : (l : List ℕ) → length l ≡ 0 → l ≡ []
length-zero [] e = refl
length-zero (x ∷ l) e = absurd (omega arith)

pub All-append : (P : ℕ → Type 0) (l r : List ℕ) (e : ℕ) → All P (l ++ e ∷ r) → All P (l ++ r)
All-append P [] r e h = h.1
All-append P (x ∷ l) r e h = (h.0, All-append P l r e h.1)

All-raise : (P Q : ℕ → Type 0) (l : List ℕ) → ((e : ℕ) → P e → Q e) → All P l → All Q l
All-raise P Q [] f h = tt
All-raise P Q (x ∷ l) f h = (f x h.0, All-raise P Q l f h.1)

none_above : (n b : ℕ) (f : ℕ → ℕ) → ((k : ℕ) → k < n → f k ≤ b) ⊎ ((k : ℕ) × (k < n) × (b < f k))
none_above zero b f = inl (λ k lt. absurd (omega arith))
none_above (suc n) b f = elim (dec_lt b (f n)) [
  | yes above ↦ inr (n, omega arith, above)
  | no below ↦ elim (none_above n b f) [
    | inl all ↦ inl (λ k lt. elim (ℕ_discrete k n) [
      | yes e ↦ ground (arith, ap f e, below)
      | no ne ↦ all k (omega arith)
    ])
    | inr (k, lt, above) ↦ inr (k, omega arith, above)
  ]
]

module _ {n : ℕ} {internal : ℕ → Bool} {s : Team} (inv : Inv n internal s) (i : ℕ)
    (lt : i < n) where
  pub at_place :
      (c : Pc)
      → s.pc i ≡ c
      → PcHolds (internal (s.view.passed i)) (s.view.arrived i) (s.view.passed i) c
  at_place c at =
      subst (PcHolds (internal (s.view.passed i)) (s.view.arrived i) (s.view.passed i)) at
        (inv.threads i)

  pub begun-change :
      (c : Pc)
      → sum_below n (λ j. begun (update s.pc i c j)) + begun (s.pc i)
        ≡ sum_below n (λ j. begun (s.pc j)) + begun c
  begun-change c =
      sum_below-change n (λ j. begun (s.pc j)) (λ j. begun (update s.pc i c j)) i lt
        (λ j ne. ap begun (ground (arith, ne)))
      ∙ ap (λ x. sum_below n (λ j. begun (s.pc j)) + begun x) (ground arith)

  move-threads :
      (c : Pc)
      → PcHolds (internal (s.view.passed i)) (s.view.arrived i) (s.view.passed i) c
      → (j : ℕ)
      → PcHolds
          (internal (s.view.passed j))
          (s.view.arrived j)
          (s.view.passed j)
          (update s.pc i c j)
  move-threads c own j =
      update-elim
        (λ m x. PcHolds (internal (s.view.passed m)) (s.view.arrived m) (s.view.passed m) x) s.pc i
        c j own (λ ne. inv.threads j)

  -- A thread moves on within the region.
  pub moves-Inv :
      (c : Pc) (active : ℕ)
      → PcHolds (internal (s.view.passed i)) (s.view.arrived i) (s.view.passed i) c
      → active + begun (s.pc i) ≡ s.active_tasks + begun c
      → Inv n internal (record s { active_tasks = active; pc = update s.pc i c })
  moves-Inv c active own change = record {
    refines = inv.refines;
    threads = move-threads c own;
    counted = omega (arith, inv.counted, begun-change c);
    drained = inv.drained;
    created = inv.created;
  }

  -- The explicit tasks change while thread `i` is not in a barrier.
  pub tasks-Inv :
      (active : ℕ) (pending : List ℕ)
      → Executes (s.pc i)
      → active + length s.pending ≡ s.active_tasks + length pending
      → ((j : ℕ) → j < n → All (λ e. s.view.passed j ≤ e) pending)
      → Inv n internal (record s { active_tasks = active; pending = pending })
  tasks-Inv active pending executes change created =
      let out = Executes-outside _ _ _ (s.pc i) executes (inv.threads i) in
      record {
        refines = inv.refines;
        threads = inv.threads;
        counted = omega (arith, inv.counted);
        drained = λ b all. absurd (omega (arith, all i lt));
        created = created;
      }

  pub checks_in-Inv :
      (was : Bool)
      → s.view.arrived i ≡ s.view.passed i
      → internal (s.view.passed i) ≡ was
      → begun (s.pc i) ≡ (if was then 1 else 0)
      → s.active_tasks ≡ goal n was
      → Inv n internal (record s { pc = update s.pc i (in_barrier was); view = arrive i s.view })
  checks_in-Inv was out kind own reached = record {
    refines = Spec.arrives i inv.refines lt out;
    threads = threads;
    counted = omega (arith, inv.counted, begun-change (in_barrier was));
    drained = drained;
    created = inv.created;
  }
    where
      threads :
          (j : ℕ)
          → PcHolds
              (internal (s.view.passed j))
              ((arrive i s.view).arrived j)
              (s.view.passed j)
              (update s.pc i (in_barrier was) j)
      threads j =
          update-elim
            (λ m x.
              PcHolds (internal (s.view.passed m)) ((arrive i s.view).arrived m) (s.view.passed m)
                x)
            s.pc i (in_barrier was) j (ground arith, kind)
            (λ ne.
              subst (λ a. PcHolds (internal (s.view.passed j)) a (s.view.passed j) (s.pc j))
                (ground (arith, ne)) (inv.threads j))

      drained :
          (b : ℕ)
          → ((j : ℕ) → j < n → (s.view.passed j ≡ b) × ((arrive i s.view).arrived j ≡ b + 1))
          → s.pending ≡ []
      drained b all =
          let each : (j : ℕ)
              → j < n
              → begun (update s.pc i (in_barrier was) j) ≡ (if was then 1 else 0) =
            λ j lj.
              in_barrier-begun _ _ _ (update s.pc i (in_barrier was) j)
                ((all j lj).1 ∙ ap (λ p. p + 1) (sym (all j lj).0)) (threads j)
              ∙ ap (λ p. if internal p then 1 else 0) ((all j lj).0 ∙ sym (all i lt).0)
              ∙ ap (λ b. if b then 1 else 0) kind in
          let total =
            sum_below-const n (if was then 1 else 0) (λ j. begun (update s.pc i (in_barrier was) j))
              each (ground arith) in
          length-zero s.pending (ground (arith, inv.counted, begun-change (in_barrier was), total))

  -- Where all threads have come to the barrier of thread `i`, the tasks of before have completed.
  left :
      ((j : ℕ) → j < n → s.view.passed i < s.view.arrived j)
      → All (λ e. s.view.passed i + 1 ≤ e) s.pending
  left all =
      let (turn, close) = Reach-Kept inv.refines in
      elim (none_above n (s.view.passed i) s.view.passed) [
        | inl low ↦
            subst (All (λ e. s.view.passed i + 1 ≤ e))
              (sym
                (inv.drained (s.view.passed i) (λ k lk. omega (arith, all k lk, low k lk, turn k))))
              tt
        | inr (k, lk, above) ↦
            All-raise (λ e. s.view.passed k ≤ e) _ s.pending (λ e le. omega arith)
              (inv.created k lk)
      ]

  pub leaves-Inv :
      (was : Bool)
      → s.pc i ≡ in_barrier was
      → ((j : ℕ) → j < n → s.view.passed i < s.view.arrived j)
      → Inv n internal (record s { pc = update s.pc i (after_barrier was); view = leave i s.view })
  leaves-Inv was at all =
      let (come, kind) = at_place (in_barrier was) at in
      record {
        refines = Spec.leaves i inv.refines lt come all;
        threads = λ j.
            update-elim
              (λ m x.
                PcHolds (internal ((leave i s.view).passed m)) (s.view.arrived m)
                  ((leave i s.view).passed m) x)
              s.pc i (after_barrier was) j (after_barrier-Holds was _ _ _ (ground (arith, come)))
              (λ ne.
                subst (λ p. PcHolds (internal p) (s.view.arrived j) p (s.pc j)) (ground (arith, ne))
                  (inv.threads j));
        counted = omega (
          arith,
          inv.counted,
          begun-change (after_barrier was),
          after_barrier-begun was,
          ap begun at,
        );
        drained = λ b same. absurd (ground (arith, same i lt, come));
        created = λ j lj.
            update-elim (λ m p. All (λ e. p ≤ e) s.pending) s.view.passed i (s.view.passed i + 1) j
              (left all) (λ ne. inv.created j lj);
      }
