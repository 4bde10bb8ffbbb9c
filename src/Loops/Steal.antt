-- ===== src/Loops/Steal.antt =====
-- src/loops.h and src/loops.cc: `class contiguousWork`, the half-open range of chunks of one thread
-- in a `nonmonotonic:dynamic` loop. Its owner takes chunks from the front (`incrementBase`), other
-- threads take halves from the back (`trySteal`), a shared access at a time and in any order.
-- An owner that has run dry and has stolen elsewhere refills its range (`assign`), in
-- `dispatchNonmonotonic`; the relation has these steps where `refill` is true.
pub mod Invariant
pub mod Once
pub mod Torn
use lomp.Prelude.{
  ℕ, suc, ◌+◌, ◌-◌, ◌/◌, ◌≤◌, ◌<◌, ◌≡◌, ◌≢◌, Bool, true, false, List, [], ◌∷◌, update,
}

-- The owner, in `incrementBase` and then in the stealing part of `dispatchNonmonotonic`.
pub data OwnerPc : Type 0 where
  idle : OwnerPc
  got_base : (old_base : ℕ) → OwnerPc
  got_end : (old_base old_end : ℕ) → OwnerPc  -- before the test that iterations are left
  stored : (old_base : ℕ) → OwnerPc  -- before the second load of the end
  empty : OwnerPc  -- `incrementBase` has returned false
  hunting : OwnerPc  -- after `setStealing`
  base_assigned : (e : ℕ) → OwnerPc  -- between the two stores of `assign`
  assigned : OwnerPc  -- before `clearStealing`
  left : OwnerPc  -- `dispatchNonmonotonic` has returned false

-- Another thread, from its look at `isStealing` on, and in `trySteal`.
pub data ThiefPc : Type 0 where
  away : ThiefPc
  entered : ThiefPc  -- `isStealing` was false
  saw_base : (old_base : ℕ) → ThiefPc
  holds_pair : (old_base old_end : ℕ) → ThiefPc  -- head of the `for (;;)`

-- `handed` lists the ranges that were taken, by the owner or by a thief.
pub record Work : Type 0 where
  pub base : ℕ
  pub end : ℕ
  pub stealing : Bool
  pub owner : OwnerPc
  pub thief : ℕ → ThiefPc
  pub handed : List (ℕ × ℕ)

abbrev pub assigned_work : ℕ → ℕ → Work
assigned_work b e = record {
  base = b;
  end = e;
  stealing = false;
  owner = idle;
  thief = λ _. away;
  handed = [];
}

-- The end that a thief leaves behind: half of what is available is taken, rounded up. A thief gets
-- here where `old_base < old_end` only, so that neither difference wraps, nor does the sum for fewer
-- chunks than the largest value of the word, which no thread of a team of two or more has.
unfoldable pub new_end : ℕ → ℕ → ℕ
new_end old_base old_end = old_end - (old_end - old_base + 1) / 2

pub data Step (refill : Bool) (w : Work) : Work → Type 0 where
  load_base : w.owner ≡ idle → Step refill w (record w { owner = got_base w.base })
  load_end : (b : ℕ) → w.owner ≡ got_base b → Step refill w (record w { owner = got_end b w.end })
  no_iterations :
      (b e : ℕ) → w.owner ≡ got_end b e → e ≤ b → Step refill w (record w { owner = empty })
  store_base :
      (b e : ℕ)
      → w.owner ≡ got_end b e
      → b < e
      → Step refill w (record w { base = b + 1; owner = stored b })
  was_stolen : (b : ℕ) → w.owner ≡ stored b → w.end ≡ b → Step refill w (record w { owner = empty })
  got_it :
      (b : ℕ)
      → w.owner ≡ stored b
      → w.end ≢ b
      → Step refill w (record w { owner = idle; handed = (b, b + 1) ∷ w.handed })
  -- `isFinished` was true before there was anything to look for.
  saw_finished : w.owner ≡ empty → Step refill w (record w { owner = left })
  set_stealing : w.owner ≡ empty → Step refill w (record w { stealing = true; owner = hunting })
  -- `clearStealing` where all work has started, or where another thread has found out.
  stop_stealing : w.owner ≡ hunting → Step refill w (record w { stealing = false; owner = left })
  assign_base :
      (stolen_b stolen_e : ℕ)
      → refill ≡ true
      → w.owner ≡ hunting
      → stolen_b < stolen_e
      → Step refill w (record w { base = stolen_b + 1; owner = base_assigned stolen_e })
  assign_end :
      (e : ℕ) → w.owner ≡ base_assigned e → Step refill w (record w { end = e; owner = assigned })
  clear_stealing : w.owner ≡ assigned → Step refill w (record w { stealing = false; owner = idle })
  look :
      (i : ℕ)
      → w.thief i ≡ away
      → w.stealing ≡ false
      → Step refill w (record w { thief = update w.thief i entered })
  copy_base :
      (i : ℕ)
      → w.thief i ≡ entered
      → Step refill w (record w { thief = update w.thief i (saw_base w.base) })
  copy_end :
      (i b : ℕ)
      → w.thief i ≡ saw_base b
      → Step refill w (record w { thief = update w.thief i (holds_pair b w.end) })
  give_up :
      (i b e : ℕ)
      → w.thief i ≡ holds_pair b e
      → e ≤ b
      → Step refill w (record w { thief = update w.thief i away })
  exchange :
      (i b e : ℕ)
      → w.thief i ≡ holds_pair b e
      → b < e
      → w.base ≡ b
      → w.end ≡ e
      → Step refill w (record w {
        end = new_end b e;
        thief = update w.thief i away;
        handed = (new_end b e, e) ∷ w.handed;
      })
  -- The weak compare-exchange may fail also where nothing changed.
  try_again :
      (i b e : ℕ)
      → w.thief i ≡ holds_pair b e
      → b < e
      → Step refill w (record w { thief = update w.thief i (holds_pair w.base w.end) })

pub data Reach (refill : Bool) (w : Work) : Work → Type 0 where
  here : Reach refill w w
  then_step : {u v : Work} → Reach refill w u → Step refill u v → Reach refill w v
