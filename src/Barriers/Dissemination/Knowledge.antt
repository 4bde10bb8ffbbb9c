-- ===== src/Barriers/Dissemination/Knowledge.antt =====
-- What the threads of `class DisseminationBarrier`, src/barrier_impl.cc, know of each other.
use lomp.Prelude.{
  ℕ, suc, ◌+◌, ◌-◌, ◌%◌, ◌^◌, ◌≤◌, ◌<◌, ◌≡◌, refl, sym, ap, ◌∙◌, arith, ◌==◌, if◌then◌else◌, ltb,
  leb, dec_lt,
}
use lomp.Prelude.Words.{wrap_below, wrap_once}
use native.Mathlib.Nat.{mod-add-mod, mod-lt, two-pow-succ, pow-le-pow_right}
use lomp.Barriers.Spec
use lomp.Barriers.Spec.{Threads, view-near, Reach-Kept}
use lomp.Barriers.Levels.{level}
use lomp.Barriers.Dissemination.{
  Pc, outside, in_round, polling, DisseminationBarrier, neighbour, parity, sense,
}

-- The threads up to `2 ^ r` places before thread `i` have come to its barrier.
abbrev pub Known : (n r i : ℕ) → Threads → Type 0
Known n r i v = (j d : ℕ) → j < n → d < 2 ^ r → (j + d) % n ≡ i → v.passed i < v.arrived j

-- In how many barriers a thread has set the flag of its round `r`.
abbrev pub sent : (r arrived : ℕ) → Pc → ℕ
sent r arrived outside = arrived
sent r arrived (in_round k) = if ltb r k then arrived else arrived - 1
sent r arrived (polling k) = if leb r k then arrived else arrived - 1

abbrev pub PcHolds : (n rounds i : ℕ) → Threads → Pc → Type 0
PcHolds n rounds i v outside = v.arrived i ≡ v.passed i
PcHolds n rounds i v (in_round r) = (v.arrived i ≡ v.passed i + 1) × (r ≤ rounds) × Known n r i v
PcHolds n rounds i v (polling r) = (v.arrived i ≡ v.passed i + 1) × (r < rounds) × Known n r i v

pub record Inv (n rounds : ℕ) (s : DisseminationBarrier) : Type 0 where
  pub refines : Spec.Reach n s.view
  pub threads : (i : ℕ) → PcHolds n rounds i s.view (s.pc i)
  pub numbers : (i : ℕ) → s.entry_count i ≡ s.view.passed i % 2 ^ 32
  pub flags :
      (q me r : ℕ)
      → q < 2
      → me < n
      → r < rounds
      → s.thread_flags q (neighbour n me r) r
        ≡ (level q (sent r (s.view.arrived me) (s.pc me)) == 1)

-- A thread that has set its flag of round `r` in a barrier knows `2 ^ r` threads there.
sent-Known :
    (n rounds r b me j e : ℕ) (v : Threads) (c : Pc)
    → PcHolds n rounds me v c
    → (v.passed me ≤ v.arrived j)
    → b < sent r (v.arrived me) c
    → j < n
    → e < 2 ^ r
    → (j + e) % n ≡ me
    → b < v.arrived j
sent-Known n rounds r b me j e v outside h close lt lj small is = omega arith
sent-Known n rounds r b me j e v (in_round k) (at, le, known) close lt lj small is =
    elim (dec_lt r k) [
      | yes before ↦
          let more : 2 ^ r ≤ 2 ^ k = pow-le-pow_right (omega arith) (omega arith) in
          let arrived = known j e lj (omega arith) is in ground arith
      | no after ↦ ground arith
    ]
sent-Known n rounds r b me j e v (polling k) (at, le, known) close lt lj small is =
    elim (dec_lt k r) [
      | yes after ↦ ground arith
      | no before ↦
          let more : 2 ^ r ≤ 2 ^ k = pow-le-pow_right (omega arith) (omega arith) in
          let arrived = known j e lj (omega arith) is in ground arith
    ]

-- A flag that has the sense of a barrier was set in that barrier, or in the next one.
told : (b k : ℕ) → b ≤ k + 1 → k ≤ b + 2 → (level (b % 2) k == 1) ≡ sense b → b < k
told b k lo hi e = ground arith

sent_bounds :
    (r arrived : ℕ) (c : Pc) → (sent r arrived c ≤ arrived) × (arrived ≤ sent r arrived c + 1)
sent_bounds r arrived outside = ground arith
sent_bounds r arrived (in_round k) = ground arith
sent_bounds r arrived (polling k) = ground arith

sense-wrap : (b : ℕ) → sense (b % 2 ^ 32) ≡ sense b
sense-wrap b = ground arith

doubles : (r : ℕ) → 2 ^ (r + 1) ≡ 2 ^ r + 2 ^ r
doubles r = ap (λ k. 2 ^ k) {y = suc r} (omega arith) ∙ two-pow-succ r

module _ {n rounds : ℕ} {s : DisseminationBarrier} (inv : Inv n rounds s) (pos : 0 < n) where
  -- A thread that is told in round `r` knows twice as many threads.
  pub is_told-Known :
      (i r : ℕ)
      → i < n
      → r < rounds
      → Known n r i s.view
      → s.thread_flags (parity (s.entry_count i)) i r ≡ sense (s.entry_count i)
      → Known n (r + 1) i s.view
  unfolding neighbour
  is_told-Known i r li lr known is j d lj small at = elim (dec_lt d (2 ^ r)) [
    | yes near ↦ known j d lj near at
    | no far ↦
        let me : ℕ = (j + (d - 2 ^ r)) % n in
        let lm : me < n = mod-lt (j + (d - 2 ^ r)) pos in
        let (lo, hi) = view-near inv.refines i me li lm in
        let (some_sent, all_sent) = sent_bounds r (s.view.arrived me) (s.pc me) in
        sent-Known n rounds r (s.view.passed i) me j (d - 2 ^ r) s.view (s.pc me) (inv.threads me)
          ((Reach-Kept inv.refines).1 me j lm lj)
          (told (s.view.passed i) _ (omega arith) (omega arith)
            (flag me lm (before_me (omega (arith, doubles r)))))
          lj (omega (arith, doubles r)) refl
  ]
    where
      before_me : 2 ^ r ≤ d → neighbour n ((j + (d - 2 ^ r)) % n) r ≡ i
      before_me le = mod-add-mod (j + (d - 2 ^ r)) n (2 ^ r) ∙ ap (λ x. x % n) (omega arith) ∙ at

      flag :
          (me : ℕ)
          → me < n
          → neighbour n me r ≡ i
          → (level (s.view.passed i % 2) (sent r (s.view.arrived me) (s.pc me)) == 1)
            ≡ sense (s.view.passed i)
      flag me lm e =
          sym (inv.flags (s.view.passed i % 2) me r (omega arith) lm lr)
          ∙ ap (λ t. s.thread_flags (s.view.passed i % 2) t r) e
          ∙ ap (λ q. s.thread_flags q i r) (omega (arith, inv.numbers i))
          ∙ is
          ∙ ap sense (inv.numbers i)
          ∙ sense-wrap (s.view.passed i)

  -- After the last round a thread knows all threads.
  pub Known-all :
      (i : ℕ)
      → i < n
      → n ≤ 2 ^ rounds
      → Known n rounds i s.view
      → (j : ℕ) → j < n
      → s.view.passed i < s.view.arrived j
  Known-all i li enough known j lj = elim (dec_lt i j) [
    | yes before ↦ known j (i + n - j) lj (omega arith) (wrap_once n i _ li (omega arith))
    | no after ↦ known j (i - j) lj (omega arith) (wrap_below n i _ li (omega arith))
  ]
