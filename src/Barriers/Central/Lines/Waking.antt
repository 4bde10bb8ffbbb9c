-- ===== src/Barriers/Central/Lines/Waking.antt =====
-- `class LBWBroadcast` of src/barrier_impl.cc wakes the threads.
use lomp.Prelude.{
  ℕ, ◌+◌, ◌-◌, ◌*◌, ◌/◌, ◌%◌, ◌≤◌, ◌<◌, ◌≡◌, ◌≢◌, ◌↔◌, ◌∙◌, ap, refl, sym, subst, arith, true,
  Option, none, some, ltb, ◌==◌, if◌then◌else◌, update, ℕ_discrete,
}
use native.Mathlib.Nat.{le-div_iff_mul-le, div-add-mod'}
use lomp.Barriers.Central.Interface.{Broadcast}
use lomp.Barriers.Central.Naive.{complement}
use lomp.Barriers.Central.Lines.{
  LbwBroadcast, new_broadcast, next_value, flip, store_body, store, awake, take, slot, lines,
}

pub slot-lt : (lbw n j : ℕ) → 0 < lbw → j < n → slot lbw j < 2 * lines lbw n
slot-lt lbw n j pos lt =
    let next : j / lbw + 1 ≤ lines lbw n =
      (le-div_iff_mul-le pos).1 (omega (arith, div-add-mod' j lbw)) in
    omega arith

line_one : (lbw j : ℕ) → lbw ≡ 1 → j / lbw ≡ j
line_one lbw j one = ap (λ b. j / b) one ∙ omega arith

-- The wake-ups of a line after `k` stores of the next one.
abbrev pub told : (w k line : ℕ) → ℕ
told w k line = w + (if ltb (2 * line + 1) k then 1 else 0)

pub record Represents (lbw n : ℕ) (s : LbwBroadcast) (args : ℕ → Option ℕ) (w k : ℕ) (t : ℕ → ℕ)
    : Type 0 where
  pub flags_one :
      lbw ≡ 1
      → (j : ℕ) → j < n
      → j ≢ 0
      → s.flags j ≡ (if ltb (t j) (told w k j) then complement 0 else 0)
  pub flags_more :
      lbw ≢ 1
      → (l : ℕ) → l < lines lbw n
      → s.flags l ≡ (if told w k l % 2 == 0 then 0 else complement 0)
  pub next_is : lbw ≢ 1 → (i : ℕ) → s.next_values i ≡ (if t i % 2 == 0 then complement 0 else 0)
  pub bodies :
      (l a : ℕ)
      → l < lines lbw n
      → (2 * l < k → args w ≡ some a → s.outlined_body l ≡ some a)
        × (k ≤ 2 * l → 0 < w → args (w - 1) ≡ some a → s.outlined_body l ≡ some a)

store_body-Represents :
    (lbw n : ℕ) (s : LbwBroadcast) (args : ℕ → Option ℕ) (w k : ℕ) (t : ℕ → ℕ) (o : Option ℕ)
    → args w ≡ o
    → k % 2 ≡ 0
    → Represents lbw n s args w k t
    → Represents lbw n (store_body (k / 2) o s) args w (k + 1) t
store_body-Represents lbw n s args w k t none e even h = record {
  flags_one = λ one j lj nj. ground (arith, h.flags_one one j lj nj);
  flags_more = λ more l ll. ground (arith, h.flags_more more l ll);
  next_is = h.next_is;
  bodies = λ l a ll. (
    λ lt is. elim (ℕ_discrete (2 * l) k) [
      | yes now ↦ ground (arith, e, is)
      | no ne ↦ (h.bodies l a ll).0 (omega arith) is
    ],
    λ le pos is. (h.bodies l a ll).1 (omega arith) pos is,
  );
}
store_body-Represents lbw n s args w k t (some b) e even h = record {
  flags_one = λ one j lj nj. ground (arith, h.flags_one one j lj nj);
  flags_more = λ more l ll. ground (arith, h.flags_more more l ll);
  next_is = h.next_is;
  bodies = λ l a ll. (
    λ lt is. elim (ℕ_discrete (k / 2) l) [
      | yes now ↦ ground (arith, e, is)
      | no ne ↦ ground (arith, (h.bodies l a ll).0 (omega arith) is)
    ],
    λ le pos is. ground (arith, (h.bodies l a ll).1 (omega arith) pos is),
  );
}

store_flag-Represents :
    (lbw n : ℕ) (s : LbwBroadcast) (args : ℕ → Option ℕ) (w k : ℕ) (t : ℕ → ℕ)
    → k % 2 ≡ 1
    → ((j : ℕ) → j < n → j ≢ 0 → t j ≤ w + (if ltb (slot lbw j) k then 1 else 0))
    → t 0 ≡ w
    → Represents lbw n s args w k t
    → Represents lbw n
        (record s { flags = update s.flags (k / 2) (next_value lbw 0 s) })
        args
        w
        (k + 1)
        t
store_flag-Represents lbw n s args w k t odd near root h = record {
  flags_one =
      λ one j lj nj. ground (arith, h.flags_one one j lj nj, near j lj nj, line_one lbw j one);
  flags_more = λ more l ll. ground (arith, h.flags_more more l ll, h.next_is more 0, root);
  next_is = h.next_is;
  bodies = λ l a ll. (
    λ lt is. (h.bodies l a ll).0 (omega arith) is,
    λ le pos is. (h.bodies l a ll).1 (omega arith) pos is,
  );
}

pub finish-Represents :
    (lbw n : ℕ) (s : LbwBroadcast) (args : ℕ → Option ℕ) (w : ℕ) (t : ℕ → ℕ)
    → t 0 ≡ w
    → Represents lbw n s args w (2 * lines lbw n) t
    → Represents lbw n (flip lbw 0 s) args (w + 1) 0 (update t 0 (t 0 + 1))
finish-Represents lbw n s args w t root h = record {
  flags_one = λ one j lj nj.
      ground (arith, h.flags_one one j lj nj, slot-lt lbw n j (omega arith) lj, line_one lbw j one);
  flags_more = λ more l ll. ground (arith, h.flags_more more l ll);
  next_is = λ more i. ground (arith, h.next_is more i, h.next_is more 0);
  bodies = λ l a ll. (
    λ lt is. absurd (omega arith),
    λ le pos is. (h.bodies l a ll).0 (omega arith) (ap args (omega arith) ∙ is),
  );
}

pub awake_iff :
    (lbw n i : ℕ) (s : LbwBroadcast) (args : ℕ → Option ℕ) (w k : ℕ) (t : ℕ → ℕ)
    → 0 < lbw
    → i < n
    → i ≢ 0
    → t i ≤ told w k (i / lbw)
    → told w k (i / lbw) ≤ t i + 1
    → Represents lbw n s args w k t
    → (awake lbw i s ≡ true) ↔ (t i < told w k (i / lbw))
awake_iff lbw n i s args w k t pos lt ne lo hi h = elim (ℕ_discrete lbw 1) [
  | yes one ↦
      ground (arith, h.flags_one one i lt ne, ap s.flags (line_one lbw i one), line_one lbw i one)
  | no more ↦
      ground (
        arith,
        h.flags_more more (i / lbw) (omega (arith, slot-lt lbw n i pos lt)),
        h.next_is more i,
      )
]

pub take-Represents :
    (lbw n i : ℕ) (s : LbwBroadcast) (args : ℕ → Option ℕ) (w k : ℕ) (t : ℕ → ℕ)
    → i < n
    → i ≢ 0
    → t i + 1 ≡ told w k (i / lbw)
    → Represents lbw n s args w k t
    → Represents lbw n (take lbw i s) args w k (update t i (t i + 1))
take-Represents lbw n i s args w k t lt ne at h = record {
  flags_one = λ one j lj nj. ground (arith, h.flags_one one j lj nj, line_one lbw i one);
  flags_more = λ more l ll. ground (arith, h.flags_more more l ll);
  next_is = λ more j. ground (arith, h.next_is more j, h.next_is more i);
  bodies = h.bodies;
}

pub body-args :
    (lbw n i a : ℕ) (s : LbwBroadcast) (args : ℕ → Option ℕ) (w k : ℕ) (t : ℕ → ℕ)
    → 0 < lbw
    → i < n
    → (0 < k → w ≤ t i)
    → t i + 1 ≡ told w k (i / lbw)
    → Represents lbw n s args w k t
    → args (t i) ≡ some a
    → s.outlined_body (i / lbw) ≡ some a
body-args lbw n i a s args w k t pos lt late at h is = elim (ℕ_discrete (t i) w) [
  | yes now ↦
      (h.bodies (i / lbw) a (omega (arith, slot-lt lbw n i pos lt))).0 (ground arith)
        (ap args (sym now) ∙ is)
  | no before ↦
      (h.bodies (i / lbw) a (omega (arith, slot-lt lbw n i pos lt))).1 (ground (arith, late))
        (ground (arith, late)) (ap args (ground (arith, late)) ∙ is)
]

pub store-Represents :
    (lbw n : ℕ) (s : LbwBroadcast) (args : ℕ → Option ℕ) (w k : ℕ) (t : ℕ → ℕ)
    → ((j : ℕ) → j < n → j ≢ 0 → (w ≤ t j) × (t j ≤ told w k (j / lbw)))
    → t 0 ≡ w
    → Represents lbw n s args w k t
    → Represents lbw n (store lbw k (args w) s) args w (k + 1) t
store-Represents lbw n s args w k t near root h =
    let P : ℕ → Type 0 = λ r.
      Represents lbw n
        (if r == 0
          then store_body (k / 2) (args w) s
          else record s { flags = update s.flags (k / 2) (next_value lbw 0 s) })
        args w (k + 1) t in
    elim (ℕ_discrete (k % 2) 0) [
      | yes even ↦
          subst P (sym even) (store_body-Represents lbw n s args w k t (args w) refl even h)
      | no odd ↦ subst P {x = 1} {y = k % 2} (ground arith) (
          store_flag-Represents lbw n s args w k t (omega arith) (λ j lj nj. (near j lj nj).1) root
            h)
    ]

pub new_broadcast-Represents :
    (lbw n : ℕ) (garbage args : ℕ → Option ℕ)
    → Represents lbw n (new_broadcast garbage) args 0 0 (λ _. 0)
new_broadcast-Represents lbw n garbage args = record {
  flags_one = λ one j lj nj. ground arith;
  flags_more = λ more l ll. ground arith;
  next_is = λ more i. refl;
  bodies = λ l a ll. (λ lt is. absurd (omega arith), λ le pos is. absurd (omega arith));
}

abbrev pub Lbw : (lbw n : ℕ) → (ℕ → Option ℕ) → 0 < lbw → Broadcast n
Lbw lbw n garbage pos = record {
  State = LbwBroadcast;
  fresh = new_broadcast garbage;
  stores = 2 * lines lbw n;
  store = store lbw;
  finish = flip lbw 0;
  awake = awake lbw;
  take = take lbw;
  body = λ i s. s.outlined_body (i / lbw);
  slot = slot lbw;
  slot-lt = λ j lt. slot-lt lbw n j pos lt;
  Represents = Represents lbw n;
  fresh-Represents = new_broadcast-Represents lbw n garbage;
  store-Represents = λ s args w k t lk near root h. store-Represents lbw n s args w k t near root h;
  finish-Represents = finish-Represents lbw n;
  awake_iff = λ i s args w k t lt ne lo hi h. awake_iff lbw n i s args w k t pos lt ne lo hi h;
  take-Represents = λ i s args w k t lt ne at h. take-Represents lbw n i s args w k t lt ne at h;
  body-args =
      λ i a s args w k t lt ne late at h is. body-args lbw n i a s args w k t pos lt late at h is;
}
