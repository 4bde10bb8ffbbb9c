-- ===== src/Barriers/Central.antt =====
-- src/barrier_impl.cc: `class centralizedBarrier`, a template over a way to check in and a way to
-- broadcast, with thread 0 as its root. A step is one access of one thread, in any order. The steps are
-- those of `fullBarrier`, from a new barrier on; the first operation of the runtime on it, the wake-up
-- of a fork (src/threads.cc), comes before them and is not among them.
pub mod Atomic
pub mod Flags
pub mod Interface
pub mod Kinds
pub mod Lines
pub mod Naive
pub mod Invariant
pub mod Refines
pub mod Root
pub mod Workers
use lomp.Prelude.{ℕ, ◌+◌, ◌<◌, ◌≡◌, ◌≢◌, Bool, true, Option, none, update}
use lomp.Barriers.Spec.{Threads, nobody, arrive, leave}
use lomp.Barriers.Central.Interface.{CheckIn, Broadcast}

pub data Pc : Type 0 where
  outside : Pc
  gathering : (polls : ℕ) → Pc  -- the root in `CheckedIn.wait`, with that many polls behind it
  waking : (stores : ℕ) → Pc  -- the root in `Broadcast.wakeUp`, with that many stores behind it
  waiting : Pc  -- another thread in `Broadcast.wait`
  woken : Pc  -- before it takes the broadcast

module _ {n : ℕ} (C : CheckIn n) (B : Broadcast n) where
  -- `taken` is what the last call of `checkOut` has returned to each thread. `view` records the
  -- barriers that the threads have come to and left.
  pub record CentralizedBarrier : Type 0 where
    pub checked_in : C.State
    pub broadcast : B.State
    pub pc : ℕ → Pc
    pub taken : ℕ → Option ℕ
    pub view : Threads

  abbrev pub new_barrier : CentralizedBarrier
  new_barrier = record {
    checked_in = C.fresh;
    broadcast = B.fresh;
    pc = λ _. outside;
    taken = λ _. none;
    view = nobody;
  }

  -- `args b` is what the root hands out at its barrier number `b`, `none` a null pointer.
  pub data Step (args : ℕ → Option ℕ) (s : CentralizedBarrier) : CentralizedBarrier → Type 0 where
    checks_in :
        (i : ℕ)
        → i < n
        → i ≢ 0
        → s.pc i ≡ outside
        → Step args s (record s {
          checked_in = C.check_in i s.checked_in;
          pc = update s.pc i waiting;
          view = arrive i s.view;
        })
    root_checks_in :
        0 < n
        → s.pc 0 ≡ outside
        → Step args s (record s {
          checked_in = C.check_in 0 s.checked_in;
          pc = update s.pc 0 (gathering 0);
          view = arrive 0 s.view;
        })
    polls :
        (k : ℕ)
        → s.pc 0 ≡ gathering k
        → k < C.polls
        → C.full k s.checked_in ≡ true
        → Step args s (record s { pc = update s.pc 0 (gathering (k + 1)) })
    resets :
        s.pc 0 ≡ gathering C.polls
        → Step args s
            (record s { checked_in = C.reset s.checked_in; pc = update s.pc 0 (waking 0) })
    stores :
        (k : ℕ)
        → s.pc 0 ≡ waking k
        → k < B.stores
        → Step args s (record s {
          broadcast = B.store k (args (s.view.passed 0)) s.broadcast;
          pc = update s.pc 0 (waking (k + 1));
        })
    root_leaves :
        0 < n
        → s.pc 0 ≡ waking B.stores
        → Step args s (record s {
          broadcast = B.finish s.broadcast;
          pc = update s.pc 0 outside;
          taken = update s.taken 0 none;
          view = leave 0 s.view;
        })
    wakes :
        (i : ℕ)
        → i < n
        → s.pc i ≡ waiting
        → B.awake i s.broadcast ≡ true
        → Step args s (record s { pc = update s.pc i woken })
    takes :
        (i : ℕ)
        → i < n
        → s.pc i ≡ woken
        → Step args s (record s {
          broadcast = B.take i s.broadcast;
          pc = update s.pc i outside;
          taken = update s.taken i (B.body i s.broadcast);
          view = leave i s.view;
        })

  pub data Reach (args : ℕ → Option ℕ) : CentralizedBarrier → Type 0 where
    start : Reach args new_barrier
    then_step : {s t : CentralizedBarrier} → Reach args s → Step args s t → Reach args t
