-- ===== src/Barriers/Dissemination/Places.antt =====
-- Where the threads of `class DisseminationBarrier`, src/barrier_impl.cc, stand, and the flags after
-- one of them has set one.
use lomp.Prelude.{
  ℕ, ◌+◌, ◌-◌, ◌%◌, ◌^◌, ◌≤◌, ◌<◌, ◌≡◌, ◌≢◌, refl, sym, ap, ◌∙◌, subst, arith, Bool, ◌==◌, update,
  ◌⊎◌, inl, inr, ℕ_discrete, dec_lt,
}
use lomp.Prelude.Words.{wrap_below, wrap_once}
use native.Mathlib.Nat.{mod-lt, add-mod-mod}
use lomp.Barriers.Spec.{Threads, arrive, leave}
use lomp.Barriers.Levels.{level}
use lomp.Barriers.Dissemination.{
  Pc, outside, in_round, polling, DisseminationBarrier, neighbour, parity, sense, set_flag,
}
use lomp.Barriers.Dissemination.Knowledge.{Known, sent, PcHolds, Inv}

-- A sum with a remainder wraps at most once.
wrap_cases : (n i x : ℕ) → i < n → x < n → ((i + x) % n ≡ i + x) ⊎ (((i + x) % n) + n ≡ i + x)
wrap_cases n i x li lx = elim (dec_lt (i + x) n) [
  | yes fits ↦ inl (wrap_below n (i + x) (i + x) fits refl)
  | no more ↦ inr (omega (arith, wrap_once n (i + x - n) (i + x) (omega arith) (omega arith)))
]

-- Two threads set the flags of two threads in a round.
neighbour_injective :
    (n r i j : ℕ) → 0 < n → i < n → j < n → neighbour n i r ≡ neighbour n j r → i ≡ j
unfolding neighbour
neighbour_injective n r i j pos li lj e = ground (
  arith,
  mod-lt (2 ^ r) pos,
  add-mod-mod i (2 ^ r) n,
  add-mod-mod j (2 ^ r) n,
  wrap_cases n i ((2 ^ r) % n) li (mod-lt (2 ^ r) pos),
  wrap_cases n j ((2 ^ r) % n) lj (mod-lt (2 ^ r) pos),
)

Known-arrive : (n r i k : ℕ) (v : Threads) → Known n r i v → Known n r i (arrive k v)
Known-arrive n r i k v known j d lj small at = ground (arith, known j d lj small at)

pub Known-self :
    (n i : ℕ) (v : Threads) → i < n → v.arrived i ≡ v.passed i → Known n 0 i (arrive i v)
Known-self n i v li e j d lj small at = ground (arith, wrap_below n j (j + d) lj (omega arith))

Known-leave : (n r i k : ℕ) (v : Threads) → i ≢ k → Known n r i v → Known n r i (leave k v)
Known-leave n r i k v ne known j d lj small at = ground (arith, known j d lj small at)

pub PcHolds-arrive :
    (n rounds j i : ℕ) (v : Threads) (c : Pc)
    → i ≢ j
    → PcHolds n rounds j v c
    → PcHolds n rounds j (arrive i v) c
PcHolds-arrive n rounds j i v outside ne h = ground arith
PcHolds-arrive n rounds j i v (in_round r) ne (at, le, known) =
    (ground arith, le, Known-arrive n r j i v known)
PcHolds-arrive n rounds j i v (polling r) ne (at, le, known) =
    (ground arith, le, Known-arrive n r j i v known)

pub PcHolds-leave :
    (n rounds j i : ℕ) (v : Threads) (c : Pc)
    → i ≢ j
    → PcHolds n rounds j v c
    → PcHolds n rounds j (leave i v) c
PcHolds-leave n rounds j i v outside ne h = ground arith
PcHolds-leave n rounds j i v (in_round r) ne (at, le, known) =
    (ground arith, le, Known-leave n r j i v (λ e. ne (sym e)) known)
PcHolds-leave n rounds j i v (polling r) ne (at, le, known) =
    (ground arith, le, Known-leave n r j i v (λ e. ne (sym e)) known)

pub in_round-Known :
    (n rounds i r : ℕ) (v : Threads) (c : Pc)
    → c ≡ in_round r
    → PcHolds n rounds i v c
    → (v.arrived i ≡ v.passed i + 1) × (r ≤ rounds) × Known n r i v
in_round-Known n rounds i r v c e h = subst (PcHolds n rounds i v) e h

pub polling-Known :
    (n rounds i r : ℕ) (v : Threads) (c : Pc)
    → c ≡ polling r
    → PcHolds n rounds i v c
    → (v.arrived i ≡ v.passed i + 1) × (r < rounds) × Known n r i v
polling-Known n rounds i r v c e h = subst (PcHolds n rounds i v) e h

set_flag-other :
    (p t r q u k : ℕ) (b : Bool) (flags : ℕ → ℕ → ℕ → Bool)
    → (p ≢ q) ⊎ (t ≢ u) ⊎ (r ≢ k)
    → set_flag p t r b flags q u k ≡ flags q u k
set_flag-other p t r q u k b flags other = ground arith

set_flag-at : (p t r : ℕ) (b : Bool) (flags : ℕ → ℕ → ℕ → Bool) → set_flag p t r b flags p t r ≡ b
set_flag-at p t r b flags = ground arith

level-sense : (b c : ℕ) → c ≡ b % 2 ^ 32 → sense c ≡ (level (parity c) (b + 1) == 1)
level-sense b c e = ground arith

level-other : (b c q : ℕ) → q < 2 → c ≡ b % 2 ^ 32 → parity c ≢ q → level q b ≡ level q (b + 1)
level-other b c q lt e ne = ground arith

-- The flags after thread `i` has set the one of its round `r`.
module _ (n rounds i r : ℕ) (s : DisseminationBarrier) where
  unfoldable pub Told : (q me k : ℕ) → Type 0
  Told q me k =
      set_flag (parity (s.entry_count i)) (neighbour n i r) r (sense (s.entry_count i))
        s.thread_flags q (neighbour n me k) k
      ≡ (level q (sent k (s.view.arrived me) (update s.pc i (polling r) me)) == 1)

  own_sent :
      s.pc i ≡ in_round r
      → PcHolds n rounds i s.view (s.pc i)
      → (sent r (s.view.arrived i) (s.pc i) ≡ s.view.passed i)
        × (sent r (s.view.arrived i) (update s.pc i (polling r) i) ≡ s.view.passed i + 1)
  own_sent at h = ground (arith, in_round-Known n rounds i r s.view (s.pc i) at h)

  Told-own :
      Inv n rounds s → i < n → r < rounds → s.pc i ≡ in_round r → (q : ℕ) → q < 2 → Told q i r
  unfolding Told
  Told-own inv li lr at q lq = elim (ℕ_discrete (parity (s.entry_count i)) q) [
    | no ne ↦
        set_flag-other _ _ r q _ r _ s.thread_flags (inl ne)
        ∙ inv.flags q i r lq li lr
        ∙ ap (λ x. level q x == 1) (own_sent at (inv.threads i)).0
        ∙ ap (λ x. x == 1) (level-other (s.view.passed i) _ q lq (inv.numbers i) ne)
        ∙ ap (λ x. level q x == 1) (sym (own_sent at (inv.threads i)).1)
    | yes is ↦
        subst (λ p. Told p i r) is
          (set_flag-at _ _ r _ s.thread_flags
            ∙ level-sense (s.view.passed i) _ (inv.numbers i)
            ∙ ap (λ x. level (parity (s.entry_count i)) x == 1)
                (sym (own_sent at (inv.threads i)).1))
  ]

  pub Told-all :
      0 < n
      → Inv n rounds s
      → i < n
      → s.pc i ≡ in_round r
      → (q me k : ℕ) → q < 2
      → me < n
      → k < rounds
      → Told q me k
  unfolding Told
  Told-all pos inv li at q me k lq lm lk = elim (ℕ_discrete k r) [
    | no ne ↦
        set_flag-other _ _ r q _ k _ s.thread_flags (inr (inr (λ e. ne (sym e))))
        ∙ inv.flags q me k lq lm lk
        ∙ ap (λ x. level q x == 1) (ground arith)
    | yes round ↦ elim (ℕ_discrete i me) [
      | no ne ↦
          set_flag-other _ _ r q _ k _ s.thread_flags (inr (inl (λ e. ne (other_thread round e))))
          ∙ inv.flags q me k lq lm lk
          ∙ ap (λ x. level q x == 1) (ground arith)
      | yes thread ↦
          subst (λ t. Told q t k) thread
            (subst (Told q i) (sym round) (Told-own inv li (omega arith) at q lq))
    ]
  ]
    where
      other_thread : k ≡ r → neighbour n i r ≡ neighbour n me k → i ≡ me
      other_thread round e = neighbour_injective n r i me pos li lm (e ∙ ap (neighbour n me) round)
