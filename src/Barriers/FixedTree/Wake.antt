-- ===== src/Barriers/FixedTree/Wake.antt =====
-- `class centralizedBarrier` over `class fixedTreeCheckIn`, src/barrier_impl.cc: the invariant, as the
-- root wakes the threads and they go on.
use lomp.Prelude.{
  ℕ, ◌+◌, ◌≤◌, ◌<◌, ◌≡◌, refl, ap, subst, arith, true, update, update-elim, Option, none,
  ℕ_discrete,
}
use lomp.Barriers.Spec
use lomp.Barriers.Spec.{leave, Reach-Kept}
use lomp.Barriers.Central.Interface.{Broadcast}
use lomp.Barriers.Central.Workers.{handed-take}
use lomp.Barriers.FixedTree.Counters.{Counter}
use lomp.Barriers.FixedTree.Checks.{Checks-root_report}
use lomp.Barriers.FixedTree.{outside, reporting, waking, waiting, woken, FixedTreeBarrier}
use lomp.Barriers.FixedTree.Invariant.{
  stored, PcHolds, Inv, released, at_place, bounds, passed_told, root_told, released_told,
  waking_told,
}
use lomp.Barriers.FixedTree.Gather.{stored-update, move-threads, tell-threads, free-update}

module _ {n b : ℕ} {C : Counter} {B : Broadcast n} (pos_b : 0 < b) (fits : b ≤ C.most)
    {args : ℕ → Option ℕ} {s : FixedTreeBarrier b C B} where
  pub root_reports-Inv :
      {k : ℕ} (parity : ℕ)
      → 0 < n
      → s.pc 0 ≡ reporting parity
      → Inv b C B args s k
      → Inv b C B args
          (record s { pc = update s.pc 0 (waking 0); told = update s.told 0 (s.told 0 + 1) })
          k
  root_reports-Inv {k} parity pos at inv =
      let (come, told, same, all) : PcHolds n b C B.stores 0 _ _ s.told (reporting parity) =
        at_place pos_b inv 0 (reporting parity) pos at in
      record {
        at_root = stored-update s.pc 0 k _ refl (ap stored at) inv.at_root;
        refines = inv.refines;
        threads =
            tell-threads pos_b fits inv 0 pos (waking 0) (refl, come, ground arith, omega arith);
        checks =
            Checks-root_report pos_b fits _ _ _ s.told (λ c lc. omega (arith, all c lc)) inv.checks;
        ahead = inv.ahead;
        free = λ j lj at_j.
            inv.free j lj (free-update pos_b fits inv 0 pos _ (ground arith) j lj at_j);
        spread = inv.spread;
        handed = inv.handed;
      }

  everyone_come :
      (k : ℕ)
      → 0 < n
      → s.pc 0 ≡ waking k
      → Inv b C B args s k
      → (j : ℕ) → j < n
      → (s.view.passed 0 < s.view.arrived j) × (s.view.passed 0 ≤ s.view.passed j)
  everyone_come k pos at inv j lj =
      let (z, come, told, le) : PcHolds n b C B.stores 0 _ _ s.told (waking k) =
        at_place pos_b inv 0 (waking k) pos at in
      omega (arith, root_told pos_b inv j lj, bounds pos_b inv j lj)

  pub stores-Inv :
      (k : ℕ)
      → 0 < n
      → s.pc 0 ≡ waking k
      → k < B.stores
      → Inv b C B args s k
      → Inv b C B args
          (record s {
            broadcast = B.store k (args (s.view.passed 0)) s.broadcast;
            pc = update s.pc 0 (waking (k + 1));
          })
          (k + 1)
  stores-Inv k pos at lk inv =
      let (z, come, told, le) : PcHolds n b C B.stores 0 _ _ s.told (waking k) =
        at_place pos_b inv 0 (waking k) pos at in
      record {
        at_root = ground arith;
        refines = inv.refines;
        threads =
            move-threads pos_b fits inv 0 pos (waking (k + 1)) (refl, come, told, omega arith);
        checks = inv.checks;
        ahead = λ j lj nj. ground (arith, inv.ahead j lj nj);
        free = λ j lj at_j. ground (
          arith,
          inv.free j lj
              (free-update pos_b fits inv 0 pos (waking (k + 1)) (ground arith) j lj at_j),
        );
        spread =
            B.store-Represents s.broadcast args _ k s.view.passed lk
              (λ j lj nj. ((everyone_come k pos at inv j lj).1, inv.ahead j lj nj)) refl inv.spread;
        handed = inv.handed;
      }

  -- The places of the threads, where thread `i` leaves its barrier.
  leave-threads :
      {k : ℕ} (i : ℕ)
      → i < n
      → Inv b C B args s k
      → (s.view.arrived i ≡ s.view.passed i + 1) × (s.told i ≡ s.view.arrived i)
      → (j : ℕ) → j < n
      → PcHolds n b C B.stores j
          (s.view.arrived j)
          ((leave i s.view).passed j)
          s.told
          (update s.pc i outside j)
  leave-threads i lt inv (come, told) j lj =
      update-elim
        (λ m x. PcHolds n b C B.stores m (s.view.arrived m) ((leave i s.view).passed m) s.told x)
        s.pc i outside j (ground arith, ground arith)
        (λ ne.
          subst (λ p. PcHolds n b C B.stores j (s.view.arrived j) p s.told (s.pc j))
            (ground (arith, ne)) (inv.threads j lj))

  pub root_leaves-Inv :
      0 < n
      → s.pc 0 ≡ waking B.stores
      → Inv b C B args s B.stores
      → Inv b C B args
          (record s {
            broadcast = B.finish s.broadcast;
            pc = update s.pc 0 outside;
            taken = update s.taken 0 none;
            view = leave 0 s.view;
          })
          0
  unfolding ℕ_discrete
  root_leaves-Inv pos at inv =
      let (z, come, told, le) : PcHolds n b C B.stores 0 _ _ s.told (waking B.stores) =
        at_place pos_b inv 0 (waking B.stores) pos at in
      record {
        at_root = refl;
        refines =
            Spec.leaves 0 inv.refines pos come (λ j lj. (everyone_come B.stores pos at inv j lj).0);
        threads = leave-threads 0 pos inv (come, told);
        checks = inv.checks;
        ahead = λ j lj nj. ground (arith, inv.ahead j lj nj);
        free = λ j lj at_j. ground (arith, inv.free j lj);
        spread = B.finish-Represents s.broadcast args _ s.view.passed refl inv.spread;
        handed = λ j a lj nj. ground (arith, inv.handed j a lj nj);
      }

  pub wakes-Inv :
      {k : ℕ} (i : ℕ)
      → i < n
      → s.pc i ≡ waiting
      → B.awake i s.broadcast ≡ true
      → Inv b C B args s k
      → Inv b C B args (record s { pc = update s.pc i woken }) k
  wakes-Inv {k} i lt at awake inv =
      let (ne, come, told) : PcHolds n b C B.stores i _ _ s.told waiting =
        at_place pos_b inv i waiting lt at in
      let ready =
        (B.awake_iff i s.broadcast args _ _ s.view.passed lt ne (inv.ahead i lt ne)
            (omega (
              arith,
              bounds pos_b inv i lt,
              passed_told pos_b inv i 0,
              released_told pos_b inv i,
              root_told pos_b inv i lt,
            ))
            inv.spread).0
          awake in
      record {
        at_root = stored-update s.pc i k _ refl (ap stored at) inv.at_root;
        refines = inv.refines;
        threads = move-threads pos_b fits inv i lt woken (ne, come, told);
        checks = inv.checks;
        ahead = inv.ahead;
        free = λ j lj.
            update-elim (λ m x. x ≡ woken → s.view.passed m < released b C B (s.view.passed 0) m k)
              s.pc i woken j (λ e. ready) (λ nj. inv.free j lj);
        spread = inv.spread;
        handed = inv.handed;
      }

  pub takes-Inv :
      {k : ℕ} (i : ℕ)
      → i < n
      → s.pc i ≡ woken
      → Inv b C B args s k
      → Inv b C B args
          (record s {
            broadcast = B.take i s.broadcast;
            pc = update s.pc i outside;
            taken = update s.taken i (B.body i s.broadcast);
            view = leave i s.view;
          })
          k
  takes-Inv {k} i lt at inv =
      let (ne, come, told) : PcHolds n b C B.stores i _ _ s.told woken =
        at_place pos_b inv i woken lt at in
      let ready = inv.free i lt at in
      let pos : 0 < n = omega arith in
      let next : s.view.passed i + 1 ≡ released b C B (s.view.passed 0) i k =
        omega (arith, released_told pos_b inv i pos, root_told pos_b inv i lt) in
      record {
        at_root = stored-update s.pc i k _ refl (ap stored at) inv.at_root;
        refines = Spec.leaves i inv.refines lt come (λ j lj. omega (
          arith,
          released_told pos_b inv i pos,
          root_told pos_b inv j lj,
          bounds pos_b inv j lj,
        ));
        threads = leave-threads i lt inv (come, told);
        checks = inv.checks;
        ahead = λ j lj nj. ground (arith, inv.ahead j lj nj);
        free = λ j lj at_j. ground (arith, inv.free j lj);
        spread =
            subst (λ w. B.Represents (B.take i s.broadcast) args w k (leave i s.view).passed)
              {x = s.view.passed 0} (ground arith)
              (B.take-Represents i s.broadcast args _ _ s.view.passed lt ne next inv.spread);
        handed =
            handed-take args s.taken s.view.passed i (B.body i s.broadcast)
              (λ a is.
                B.body-args i a s.broadcast args _ _ s.view.passed lt ne
                  (λ some_stored.
                    omega (arith, waking_told pos_b inv pos some_stored, root_told pos_b inv i lt))
                  next inv.spread is)
              inv.handed;
      }
