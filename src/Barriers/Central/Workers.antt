-- ===== src/Barriers/Central/Workers.antt =====
-- `class centralizedBarrier` of src/barrier_impl.cc: the invariant, as threads other than the root
-- move on.
use lomp.Prelude.{
  ℕ, ◌+◌, ◌-◌, ◌<◌, ◌≡◌, ◌≢◌, refl, ap, ◌∙◌, arith, true, false, Option, some, ltb, update,
  update-elim, ℕ_discrete, ite,
}
use lomp.Barriers.Spec
use lomp.Barriers.Spec.{Threads, arrive, leave, Reach-Kept, Reach-beyond}
use lomp.Barriers.Central.Interface.{CheckIn, Broadcast}
use lomp.Barriers.Central.{Pc, outside, waiting, woken, CentralizedBarrier}
use lomp.Barriers.Central.Invariant.{
  era, released, PcHolds, Inv, counted-same, spread-same, released-era, PcHolds-arrive,
  PcHolds-leave, checked, thread_holds, era_reached, passed_era, passed_reached,
}

update-0 : (f : ℕ → Pc) (i : ℕ) (c r : Pc) → i ≢ 0 → f 0 ≡ r → update f i c 0 ≡ r
update-0 f i c r ne e = ground (arith, e)

-- What the threads have taken, after one more has.
pub handed-take :
    {n : ℕ} (args : ℕ → Option ℕ) (taken : ℕ → Option ℕ) (t : ℕ → ℕ) (i : ℕ) (b : Option ℕ)
    → ((a : ℕ) → args (t i) ≡ some a → b ≡ some a)
    → ((j a : ℕ) → j < n → j ≢ 0 → 0 < t j → args (t j - 1) ≡ some a → taken j ≡ some a)
    → (j a : ℕ) → j < n
    → j ≢ 0
    → 0 < update t i (t i + 1) j
    → args (update t i (t i + 1) j - 1) ≡ some a
    → update taken i b j ≡ some a
handed-take args taken t i b new old j a lj nj some_left is =
    elim (ℕ_discrete i j)
        as (λ d.
          (0 < ite d (t i + 1) (t j))
          → (args (ite d (t i + 1) (t j) - 1) ≡ some a)
          → ite d b (taken j) ≡ some a) [
            | yes e ↦ λ p q. new a (ap args (omega arith) ∙ q)
            | no ne ↦ old j a lj nj
          ]
      some_left is

module _ {n : ℕ} (C : CheckIn n) (B : Broadcast n) where
  -- A thread other than the root moves on.
  threads_move :
      {args : ℕ → Option ℕ} {s : CentralizedBarrier C B} {root : Pc} (i : ℕ) (c : Pc) (v : Threads)
      → Inv C B args s root
      → PcHolds C B i v root c
      → ((j : ℕ) → i ≢ j → PcHolds C B j s.view root (s.pc j) → PcHolds C B j v root (s.pc j))
      → (j : ℕ) → PcHolds C B j v root (update s.pc i c j)
  threads_move {s = s} {root} i c v inv own other j =
      update-elim (λ k p. PcHolds C B k v root p) s.pc i c j own (λ ne. other j ne (inv.threads j))

  -- The ways a thread other than the root moves on.
  module _ {args : ℕ → Option ℕ} {s : CentralizedBarrier C B} {root : Pc}
      (inv : Inv C B args s root) (i : ℕ) (lt : i < n) where
    pub checks_in-Inv :
        i ≢ 0
        → s.pc i ≡ outside
        → Inv C B args
            (record s {
              checked_in = C.check_in i s.checked_in;
              pc = update s.pc i waiting;
              view = arrive i s.view;
            })
            root
    checks_in-Inv ne at =
        let out : s.view.arrived i ≡ s.view.passed i = thread_holds C B inv i outside at in
        let reached = era_reached C B inv (omega arith) i lt in
        let passed = passed_era C B inv i lt ne in
        let no : ltb (era (s.view.passed 0) root) (s.view.arrived i) ≡ false = ground arith in
        record {
          at_root = update-0 s.pc i waiting root ne inv.at_root;
          refines = Spec.arrives i inv.refines lt out;
          threads =
              threads_move i waiting (arrive i s.view) inv (ne, ground arith)
                (λ j nj h. PcHolds-arrive C B i j s.view root (s.pc j) nj h);
          ahead = inv.ahead;
          counted =
              counted-same C B _ _ _ (λ j. checked _ i s.view j reached)
                (C.check_in-Represents i s.checked_in _ lt no inv.counted);
          spread = inv.spread;
          handed = inv.handed;
        }

    pub wakes-Inv :
        s.pc i ≡ waiting
        → B.awake i s.broadcast ≡ true
        → Inv C B args (record s { pc = update s.pc i woken }) root
    wakes-Inv at awake =
        let (ne, here) : PcHolds C B i s.view root waiting = thread_holds C B inv i waiting at in
        let reached = era_reached C B inv (omega arith) i lt in
        let near = released-era C B (s.view.passed 0) i root in
        let free =
          (B.awake_iff i s.broadcast args _ _ s.view.passed lt ne (inv.ahead i lt ne) (omega arith)
              inv.spread).0
            awake in
        record {
          at_root = update-0 s.pc i woken root ne inv.at_root;
          refines = inv.refines;
          threads = threads_move i woken s.view inv (ne, here, free) (λ j nj h. h);
          ahead = inv.ahead;
          counted = inv.counted;
          spread = inv.spread;
          handed = inv.handed;
        }

    pub takes-Inv :
        s.pc i ≡ woken
        → Inv C B args
            (record s {
              broadcast = B.take i s.broadcast;
              pc = update s.pc i outside;
              taken = update s.taken i (B.body i s.broadcast);
              view = leave i s.view;
            })
            root
    takes-Inv at =
        let (ne, here, free) : PcHolds C B i s.view root woken = thread_holds C B inv i woken at in
        let reached = era_reached C B inv (omega arith) in
        let near = released-era C B (s.view.passed 0) i root in
        let next : s.view.passed i + 1 ≡ released C B (s.view.passed 0) i root =
          omega (arith, reached i lt) in
        record {
          at_root = update-0 s.pc i outside root ne inv.at_root;
          refines = Spec.leaves i inv.refines lt here (λ j lj. omega (arith, reached j lj));
          threads =
              threads_move i outside (leave i s.view) inv (ground arith)
                (λ j nj h. PcHolds-leave C B i j s.view root (s.pc j) nj ne h);
          ahead = λ j lj nj. ground (arith, inv.ahead j lj nj);
          counted =
              counted-same C B _ _ _
                (λ j. ap (λ e. ltb e (s.view.arrived j)) (ap (λ p. era p root) (ground arith)))
                inv.counted;
          spread =
              spread-same C B _ args _ _ _ _ _ (ground arith) (λ j. refl)
                (B.take-Represents i s.broadcast args _ _ s.view.passed lt ne next inv.spread);
          handed =
              handed-take args s.taken s.view.passed i (B.body i s.broadcast)
                (λ a is.
                  B.body-args i a s.broadcast args _ _ s.view.passed lt ne
                    (passed_reached C B inv i lt here) next inv.spread is)
                inv.handed;
        }
