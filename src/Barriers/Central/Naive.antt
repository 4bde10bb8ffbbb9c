-- ===== src/Barriers/Central/Naive.antt =====
-- src/barrier_impl.cc: `class NaiveBroadcast`, as a way to broadcast.
use lomp.Prelude.{
  ℕ, ◌+◌, ◌-◌, ◌%◌, ◌^◌, ◌≤◌, ◌<◌, ◌≡◌, ◌↔◌, ◌∙◌, ap, refl, arith, Bool, true, Option, none, ltb,
  ◌==◌, sym, subst, ℕ_discrete, if◌then◌else◌, update,
}
use lomp.Barriers.Central.Interface.{Broadcast}

-- `outlined_body` is `none` where it is a null pointer.
pub record NaiveBroadcast : Type 0 where
  pub flag : ℕ
  pub outlined_body : Option ℕ
  pub next_values : ℕ → ℕ

-- `~x` of a 32-bit word.
abbrev pub complement : ℕ → ℕ
complement x = 2 ^ 32 - 1 - x

abbrev pub new_broadcast : NaiveBroadcast
new_broadcast = record { flag = complement 0; outlined_body = none; next_values = λ i. 0 }

-- The two stores of `wakeUp` by the root, number 0 and number 1.
abbrev pub store : ℕ → Option ℕ → NaiveBroadcast → NaiveBroadcast
store k body s =
    if k == 0 then record s { outlined_body = body } else record s { flag = s.next_values 0 }

abbrev pub flip : (me : ℕ) → NaiveBroadcast → NaiveBroadcast
flip me s = record s { next_values = update s.next_values me (complement (s.next_values me)) }

abbrev pub awake : (me : ℕ) → NaiveBroadcast → Bool
awake me s = s.flag == s.next_values me

-- What the flag is after a number of wake-ups, and what a thread looks for that has taken some.
abbrev pub flag_after : ℕ → ℕ
flag_after w = if w % 2 == 0 then complement 0 else 0

abbrev pub next_after : ℕ → ℕ
next_after t = if t % 2 == 0 then 0 else complement 0

pub record Represents (s : NaiveBroadcast) (args : ℕ → Option ℕ) (w k : ℕ) (t : ℕ → ℕ)
    : Type 0 where
  pub flag_is : s.flag ≡ flag_after (w + (if ltb 1 k then 1 else 0))
  pub next_is : (i : ℕ) → s.next_values i ≡ next_after (t i)
  pub stored_body : 0 < k → s.outlined_body ≡ args w
  pub old_body : k ≡ 0 → 0 < w → s.outlined_body ≡ args (w - 1)

pub store-Represents :
    (s : NaiveBroadcast) (args : ℕ → Option ℕ) (w k : ℕ) (t : ℕ → ℕ)
    → k < 2
    → t 0 ≡ w
    → Represents s args w k t
    → Represents (store k (args w) s) args w (k + 1) t
store-Represents s args w k t lt root h = elim (ℕ_discrete k 0) [
  | yes is ↦
      subst (λ l. Represents (store l (args w) s) args w (l + 1) t) (sym is)
        (record {
          flag_is = ground (arith, h.flag_is);
          next_is = h.next_is;
          stored_body = λ _. refl;
          old_body = λ e. absurd (omega arith);
        })
  | no ne ↦
      subst (λ l. Represents (store l (args w) s) args w (l + 1) t) {x = 1} (omega arith)
        (record {
          flag_is = ground (arith, h.next_is 0);
          next_is = h.next_is;
          stored_body = λ _. h.stored_body (omega arith);
          old_body = λ e. absurd (omega arith);
        })
]

pub finish-Represents :
    (s : NaiveBroadcast) (args : ℕ → Option ℕ) (w : ℕ) (t : ℕ → ℕ)
    → t 0 ≡ w
    → Represents s args w 2 t
    → Represents (flip 0 s) args (w + 1) 0 (update t 0 (t 0 + 1))
finish-Represents s args w t root h = record {
  flag_is = ground (arith, h.flag_is);
  next_is = λ i. ground (arith, h.next_is i);
  stored_body = λ e. absurd (omega arith);
  old_body = λ e more. h.stored_body (omega arith) ∙ ap args (omega arith);
}

pub awake_iff :
    (i : ℕ) (s : NaiveBroadcast) (args : ℕ → Option ℕ) (w k : ℕ) (t : ℕ → ℕ)
    → t i ≤ w + (if ltb 1 k then 1 else 0)
    → w + (if ltb 1 k then 1 else 0) ≤ t i + 1
    → Represents s args w k t
    → (awake i s ≡ true) ↔ (t i < w + (if ltb 1 k then 1 else 0))
awake_iff i s args w k t lo hi h = ground (arith, h.flag_is, h.next_is i)

pub take-Represents :
    (i : ℕ) (s : NaiveBroadcast) (args : ℕ → Option ℕ) (w k : ℕ) (t : ℕ → ℕ)
    → Represents s args w k t
    → Represents (flip i s) args w k (update t i (t i + 1))
take-Represents i s args w k t h = record {
  flag_is = h.flag_is;
  next_is = λ j. ground (arith, h.next_is j, h.next_is i);
  stored_body = h.stored_body;
  old_body = h.old_body;
}

pub body-args :
    (i : ℕ) (s : NaiveBroadcast) (args : ℕ → Option ℕ) (w k : ℕ) (t : ℕ → ℕ)
    → (0 < k → w ≤ t i)
    → t i + 1 ≡ w + (if ltb 1 k then 1 else 0)
    → Represents s args w k t
    → s.outlined_body ≡ args (t i)
body-args i s args w k t late at h = elim (ℕ_discrete k 0) [
  | yes is ↦ h.old_body is (ground arith) ∙ ap args (ground arith)
  | no ne ↦ h.stored_body (omega arith) ∙ ap args (ground (arith, late))
]

abbrev pub Naive : (n : ℕ) → Broadcast n
Naive n = record {
  State = NaiveBroadcast;
  fresh = new_broadcast;
  stores = 2;
  store = store;
  finish = flip 0;
  awake = awake;
  take = flip;
  body = λ i s. s.outlined_body;
  slot = λ j. 1;
  slot-lt = λ j lt. omega arith;
  Represents = Represents;
  fresh-Represents = λ args. record {
    flag_is = refl;
    next_is = λ i. refl;
    stored_body = λ e. absurd (omega arith);
    old_body = λ e more. absurd (omega arith);
  };
  store-Represents = λ s args w k t lk near root h. store-Represents s args w k t lk root h;
  finish-Represents = finish-Represents;
  awake_iff = λ i s args w k t lt ne lo hi h. awake_iff i s args w k t lo hi h;
  take-Represents = λ i s args w k t lt ne at h. take-Represents i s args w k t h;
  body-args = λ i a s args w k t lt ne late at h is. body-args i s args w k t late at h ∙ is;
}
