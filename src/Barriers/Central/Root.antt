-- ===== src/Barriers/Central/Root.antt =====
-- `class centralizedBarrier` of src/barrier_impl.cc: the invariant, as the root moves on.
use lomp.Prelude.{
  ℕ, ◌+◌, ◌<◌, ◌≡◌, ◌≢◌, refl, arith, true, false, Option, none, ltb, update, update-elim,
  ℕ_discrete, dec_lt, ltb→lt,
}
use lomp.Barriers.Spec
use lomp.Barriers.Spec.{Threads, arrive, leave, Reach-Kept, Reach-beyond}
use lomp.Barriers.Central.Interface.{CheckIn, Broadcast}
use lomp.Barriers.Central.{Pc, outside, gathering, waking, CentralizedBarrier}
use lomp.Barriers.Central.Invariant.{
  PcHolds, Inv, counted-same, PcHolds-raise, PcHolds-root_leave, PcHolds-arrive, root_holds,
  checked,
}

update-root : (f : ℕ → Pc) (c : Pc) → update f 0 c 0 ≡ c
update-root f c = ground arith

module _ {n : ℕ} (C : CheckIn n) (B : Broadcast n) where
  -- The ways the root moves on.
  module _ {args : ℕ → Option ℕ} {s : CentralizedBarrier C B} where
    -- The places of the other threads hold wherever the root goes on to.
    root_moves :
        {root : Pc} (c : Pc) (v : Threads)
        → Inv C B args s root
        → PcHolds C B 0 v c c
        → ((j : ℕ) → 0 ≢ j → PcHolds C B j s.view root (s.pc j) → PcHolds C B j v c (s.pc j))
        → (j : ℕ) → PcHolds C B j v c (update s.pc 0 c j)
    root_moves c v inv own other j =
        update-elim (λ k p. PcHolds C B k v c p) s.pc 0 c j own (λ ne. other j ne (inv.threads j))

    pub root_checks_in-Inv :
        0 < n
        → Inv C B args s outside
        → Inv C B args
            (record s {
              checked_in = C.check_in 0 s.checked_in;
              pc = update s.pc 0 (gathering 0);
              view = arrive 0 s.view;
            })
            (gathering 0)
    root_checks_in-Inv pos inv =
        let out : s.view.arrived 0 ≡ s.view.passed 0 = root_holds C B inv in
        record {
          at_root = update-root s.pc _;
          refines = Spec.arrives 0 inv.refines pos out;
          threads =
              root_moves (gathering 0) (arrive 0 s.view) inv
                (refl, ground arith, omega arith, λ j lj lt. absurd (omega arith))
                (λ j nj h.
                  PcHolds-raise C B j (arrive 0 s.view) outside (gathering 0) (s.pc j) (omega arith)
                    (PcHolds-arrive C B 0 j s.view outside (s.pc j) nj h));
          ahead = inv.ahead;
          counted =
              counted-same C B _ _ _ (λ j. checked _ 0 s.view j (omega arith))
                (C.check_in-Represents 0 s.checked_in _ pos (ground arith) inv.counted);
          spread = inv.spread;
          handed = inv.handed;
        }

    pub polls-Inv :
        (k : ℕ)
        → k < C.polls
        → C.full k s.checked_in ≡ true
        → Inv C B args s (gathering k)
        → Inv C B args (record s { pc = update s.pc 0 (gathering (k + 1)) }) (gathering (k + 1))
    polls-Inv k lk full inv =
        let (z, at, le, seen) : PcHolds C B 0 s.view (gathering k) (gathering k) =
          root_holds C B inv in
        record {
          at_root = update-root s.pc _;
          refines = inv.refines;
          threads =
              root_moves (gathering (k + 1)) s.view inv
                (
                  refl,
                  at,
                  omega arith,
                  λ j lj lt. elim (ℕ_discrete (C.part j) k) [
                    | yes is ↦
                        ltb→lt _ _ ((C.full_iff k s.checked_in _ lk inv.counted).0 full j lj is)
                    | no ne ↦ seen j lj (omega arith)
                  ],
                )
                (λ j nj h.
                  PcHolds-raise C B j s.view (gathering k) (gathering (k + 1)) (s.pc j)
                    (omega arith) h);
          ahead = inv.ahead;
          counted = inv.counted;
          spread = inv.spread;
          handed = inv.handed;
        }

    none_counted :
        Inv C B args s (gathering C.polls)
        → (j : ℕ) → false ≡ ltb (s.view.passed 0 + 1) (s.view.arrived j)
    none_counted inv j = elim (dec_lt j n) [
      | no beyond ↦ ground (arith, Reach-beyond inv.refines j (omega arith))
      | yes lj ↦ elim (ℕ_discrete j 0) [
        | yes own ↦ ground (arith, (Reach-Kept inv.refines).0 0, own)
        | no ne ↦ ground (arith, (Reach-Kept inv.refines).0 j, inv.ahead j lj ne)
      ]
    ]

    pub resets-Inv :
        Inv C B args s (gathering C.polls)
        → Inv C B args
            (record s { checked_in = C.reset s.checked_in; pc = update s.pc 0 (waking 0) })
            (waking 0)
    resets-Inv inv =
        let (z, at, le, seen) : PcHolds C B 0 s.view (gathering C.polls) (gathering C.polls) =
          root_holds C B inv in
        record {
          at_root = update-root s.pc _;
          refines = inv.refines;
          threads =
              root_moves (waking 0) s.view inv
                (refl, at, omega arith, λ j lj. seen j lj (C.part-lt j lj))
                (λ j nj h.
                  PcHolds-raise C B j s.view (gathering C.polls) (waking 0) (s.pc j) (ground arith)
                    h);
          ahead = λ j lj nj. ground (arith, inv.ahead j lj nj);
          counted =
              counted-same C B _ _ _ (λ j. none_counted inv j)
                (C.reset-Represents s.checked_in _ inv.counted);
          spread = inv.spread;
          handed = inv.handed;
        }

    pub stores-Inv :
        (k : ℕ)
        → k < B.stores
        → Inv C B args s (waking k)
        → Inv C B args
            (record s {
              broadcast = B.store k (args (s.view.passed 0)) s.broadcast;
              pc = update s.pc 0 (waking (k + 1));
            })
            (waking (k + 1))
    stores-Inv k lk inv =
        let (z, at, le, all) : PcHolds C B 0 s.view (waking k) (waking k) = root_holds C B inv in
        record {
          at_root = update-root s.pc _;
          refines = inv.refines;
          threads =
              root_moves (waking (k + 1)) s.view inv (refl, at, omega arith, all)
                (λ j nj h.
                  PcHolds-raise C B j s.view (waking k) (waking (k + 1)) (s.pc j) (ground arith) h);
          ahead = λ j lj nj. ground (arith, inv.ahead j lj nj);
          counted = inv.counted;
          spread =
              B.store-Represents s.broadcast args _ k s.view.passed lk
                (λ j lj nj.
                  (ground (arith, all j lj, (Reach-Kept inv.refines).0 j), inv.ahead j lj nj))
                refl inv.spread;
          handed = inv.handed;
        }

    pub root_leaves-Inv :
        0 < n
        → Inv C B args s (waking B.stores)
        → Inv C B args
            (record s {
              broadcast = B.finish s.broadcast;
              pc = update s.pc 0 outside;
              taken = update s.taken 0 none;
              view = leave 0 s.view;
            })
            outside
    unfolding ℕ_discrete
    root_leaves-Inv pos inv =
        let (z, at, le, all) : PcHolds C B 0 s.view (waking B.stores) (waking B.stores) =
          root_holds C B inv in
        record {
          at_root = update-root s.pc _;
          refines = Spec.leaves 0 inv.refines pos at all;
          threads =
              root_moves outside (leave 0 s.view) inv at
                (λ j nj h. PcHolds-root_leave C B j s.view (s.pc j) nj h);
          ahead = λ j lj nj. ground (arith, inv.ahead j lj nj);
          counted = inv.counted;
          spread = B.finish-Represents s.broadcast args _ s.view.passed refl inv.spread;
          handed = λ j a lj nj. ground (arith, inv.handed j a lj nj);
        }
