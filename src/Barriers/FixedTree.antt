-- ===== src/Barriers/FixedTree.antt =====
-- src/barrier_impl.cc: `class centralizedBarrier` over `class fixedTreeCheckIn`, where each thread waits
-- for its children in a tree and then tells its parent. A step is one access of one thread, in any
-- order; the reset of a counter, which may be several stores, is one step.
pub mod Shape
pub mod Counters
pub mod Rows
pub mod Checks
pub mod Invariant
pub mod Gather
pub mod Wake
pub mod Refines
use lomp.Prelude.{ℕ, ◌+◌, ◌%◌, ◌^◌, ◌<◌, ◌≡◌, ◌≢◌, Bool, true, Option, none, update}
use lomp.Barriers.Spec.{Threads, nobody, arrive, leave}
use lomp.Barriers.Tree.{parent, num_children}
use lomp.Barriers.Central.Interface.{Broadcast}
use lomp.Barriers.FixedTree.Shape.{position}
use lomp.Barriers.FixedTree.Counters.{Counter}

-- `parity` is the local variable of `checkIn`.
pub data Pc : Type 0 where
  outside : Pc
  gathering : (parity polls : ℕ) → Pc  -- waits for its children, with that many polls behind it
  reporting : (parity : ℕ) → Pc  -- before it checks in with its parent
  waking : (stores : ℕ) → Pc  -- the root in `Broadcast.wakeUp`, with that many stores behind it
  waiting : Pc  -- another thread in `Broadcast.wait`
  woken : Pc  -- before it takes the broadcast

unfoldable pub set_counter {ℓ} : {A : Type ℓ} → (parity thread : ℕ) → A → (ℕ → ℕ → A) → ℕ → ℕ → A
set_counter parity thread value counters =
    update counters parity (update (counters parity) thread value)

module _ {n : ℕ} (branching_factor : ℕ) (C : Counter) (B : Broadcast n) where
  abbrev pub children : (me : ℕ) → ℕ
  children me = num_children branching_factor n me

  -- `counters` by parity and thread. `taken` is what the last call of `checkOut` has returned to each
  -- thread. `told` records in how many barriers a thread has checked in with its parent (the root: has
  -- found all its children), `view` the barriers that the threads have come to and left.
  pub record FixedTreeBarrier : Type 0 where
    pub counters : ℕ → ℕ → C.State
    pub sequence : ℕ → ℕ
    pub broadcast : B.State
    pub pc : ℕ → Pc
    pub taken : ℕ → Option ℕ
    pub told : ℕ → ℕ
    pub view : Threads

  -- A counter of a thread without children is not used.
  abbrev pub new_barrier : FixedTreeBarrier
  new_barrier = record {
    counters = λ parity me. C.init (children me);
    sequence = λ _. 0;
    broadcast = B.fresh;
    pc = λ _. outside;
    taken = λ _. none;
    told = λ _. 0;
    view = nobody;
  }

  -- `args b` is what the root hands out at its barrier number `b`, `none` a null pointer.
  pub data Step (args : ℕ → Option ℕ) (s : FixedTreeBarrier) : FixedTreeBarrier → Type 0 where
    enters_leaf :
        (i : ℕ)
        → i < n
        → s.pc i ≡ outside
        → children i ≡ 0
        → Step args s (record s {
          sequence = update s.sequence i ((s.sequence i + 1) % 2 ^ 32);
          pc = update s.pc i (reporting (s.sequence i % 2));
          view = arrive i s.view;
        })
    enters :
        (i : ℕ)
        → i < n
        → s.pc i ≡ outside
        → 0 < children i
        → Step args s (record s {
          counters =
              set_counter
                ((s.sequence i + 1) % 2)
                i
                (C.reset (s.counters ((s.sequence i + 1) % 2) i))
                s.counters;
          sequence = update s.sequence i ((s.sequence i + 1) % 2 ^ 32);
          pc = update s.pc i (gathering (s.sequence i % 2) 0);
          view = arrive i s.view;
        })
    polls :
        (i parity k : ℕ)
        → i < n
        → s.pc i ≡ gathering parity k
        → k < C.polls (children i)
        → C.full k (s.counters parity i) ≡ true
        → Step args s (record s { pc = update s.pc i (gathering parity (k + 1)) })
    gathered :
        (i parity : ℕ)
        → i < n
        → s.pc i ≡ gathering parity (C.polls (children i))
        → Step args s (record s { pc = update s.pc i (reporting parity) })
    reports :
        (i parity : ℕ)
        → i < n
        → i ≢ 0
        → s.pc i ≡ reporting parity
        → Step args s (record s {
          counters =
              set_counter parity
                (parent branching_factor i)
                (C.check_in
                  (position branching_factor i)
                  (s.counters parity (parent branching_factor i)))
                s.counters;
          pc = update s.pc i waiting;
          told = update s.told i (s.told i + 1);
        })
    -- Here `CheckedIn.wait` and `CheckedIn.reset` do nothing.
    root_reports :
        (parity : ℕ)
        → 0 < n
        → s.pc 0 ≡ reporting parity
        → Step args s
            (record s { pc = update s.pc 0 (waking 0); told = update s.told 0 (s.told 0 + 1) })
    stores :
        (k : ℕ)
        → 0 < n
        → s.pc 0 ≡ waking k
        → k < B.stores
        → Step args s (record s {
          broadcast = B.store k (args (s.view.passed 0)) s.broadcast;
          pc = update s.pc 0 (waking (k + 1));
        })
    root_leaves :
        0 < n
        → s.pc 0 ≡ waking B.stores
        → Step args s (record s {
          broadcast = B.finish s.broadcast;
          pc = update s.pc 0 outside;
          taken = update s.taken 0 none;
          view = leave 0 s.view;
        })
    wakes :
        (i : ℕ)
        → i < n
        → s.pc i ≡ waiting
        → B.awake i s.broadcast ≡ true
        → Step args s (record s { pc = update s.pc i woken })
    takes :
        (i : ℕ)
        → i < n
        → s.pc i ≡ woken
        → Step args s (record s {
          broadcast = B.take i s.broadcast;
          pc = update s.pc i outside;
          taken = update s.taken i (B.body i s.broadcast);
          view = leave i s.view;
        })

  pub data Reach (args : ℕ → Option ℕ) : FixedTreeBarrier → Type 0 where
    start : Reach args new_barrier
    then_step : {s t : FixedTreeBarrier} → Reach args s → Step args s t → Reach args t
