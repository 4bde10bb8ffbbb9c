-- ===== src/Barriers/FixedTree/Rows.antt =====
-- The counters of `class fixedTreeCheckIn`, src/barrier_impl.cc, and how the threads stand to them.
use lomp.Prelude.{
  ℕ, ◌+◌, ◌%◌, ◌^◌, ◌≤◌, ◌<◌, ◌≡◌, ◌≢◌, refl, ap, subst, arith, Bool, ltb, leb, ◌&&◌, update, ◌==◌,
  ℕ_discrete, if◌then◌else◌,
}
use lomp.Barriers.Tree.{parent, num_children}
use lomp.Barriers.FixedTree.Shape.{child}
use lomp.Barriers.FixedTree.Counters.{Counter}
use lomp.Barriers.FixedTree.{set_counter}

-- The children that have checked in, in as many barriers as `bound`.
abbrev pub reported : (b me bound : ℕ) (told : ℕ → ℕ) → ℕ → Bool
reported b me bound told c = ltb 0 bound && leb bound (told (child b me c))

module _ (n b : ℕ) (C : Counter) where
  -- The two counters of a thread that has come to `arrived` barriers: the one for its next barrier, and
  -- the one for its last.
  abbrev pub Row : (me : ℕ) (counters : ℕ → C.State) (arrived : ℕ) (told : ℕ → ℕ) → Type 0
  Row me counters arrived told =
      C.Represents (num_children b n me) (counters (arrived % 2)) (reported b me (arrived + 1) told)
      × C.Represents (num_children b n me) (counters ((arrived + 1) % 2))
          (reported b me arrived told)

  pub record Checks (counters : ℕ → ℕ → C.State) (sequence arrived told : ℕ → ℕ) : Type 0 where
    pub numbers : (i : ℕ) → sequence i ≡ arrived i % 2 ^ 32
    pub up : (j : ℕ) → 0 < j → j < n → told (parent b j) ≤ told j
    pub rows :
        (me : ℕ) → me < n → 0 < num_children b n me → Row me (λ q. counters q me) (arrived me) told

  pub set_counter-own :
      (p j : ℕ) (x : C.State) (counters : ℕ → ℕ → C.State) (q : ℕ)
      → update (λ r. counters r j) p x q ≡ set_counter p j x counters q j
  unfolding set_counter
  set_counter-own p j x counters q = ground arith

  pub set_counter-other :
      (p i j : ℕ) (x : C.State) (counters : ℕ → ℕ → C.State) (q : ℕ)
      → i ≢ j
      → counters q j ≡ set_counter p i x counters q j
  unfolding set_counter
  set_counter-other p i j x counters q ne = ground arith

  pub Row-counters :
      (me a : ℕ) (f g : ℕ → C.State) (told : ℕ → ℕ)
      → ((q : ℕ) → f q ≡ g q)
      → Row me f a told
      → Row me g a told
  Row-counters me a f g told same = subst (λ X. X) (λ k. Row me (λ q. same q k) a told)

  pub Row-told :
      (me a : ℕ) (f : ℕ → C.State) (told told' : ℕ → ℕ)
      → ((c : ℕ) → c < num_children b n me → told (child b me c) ≡ told' (child b me c))
      → Row me f a told
      → Row me f a told'
  Row-told me a f told told' same (now, last) = (
    C.Represents-same _ _ _ _ (λ c lc. ap (λ t. ltb 0 (a + 1) && leb (a + 1) t) (same c lc)) now,
    C.Represents-same _ _ _ _ (λ c lc. ap (λ t. ltb 0 a && leb a t) (same c lc)) last,
  )

  -- What one of the two counters stands for, where the other and what it stands for are kept.
  at_counter :
      (count q r : ℕ) (f : ℕ → C.State) (x : C.State) (P : ℕ → Bool)
      → q ≡ r
      → C.Represents count x P
      → C.Represents count (update f q x r) P
  at_counter count q r f x P e h = subst (λ y. C.Represents count y P) (ground (arith, e)) h

  off_counter :
      (count q r : ℕ) (f : ℕ → C.State) (x : C.State) (P : ℕ → Bool)
      → q ≢ r
      → C.Represents count (f r) P
      → C.Represents count (update f q x r) P
  off_counter count q r f x P ne h = subst (λ y. C.Represents count y P) (ground (arith, ne)) h

  pub Row-enter :
      (me a : ℕ) (f : ℕ → C.State) (told : ℕ → ℕ)
      → 0 < num_children b n me
      → num_children b n me ≤ C.most
      → ((c : ℕ) → c < num_children b n me → told (child b me c) ≤ a + 1)
      → Row me f a told
      → Row me (update f ((a + 1) % 2) (C.reset (f ((a + 1) % 2)))) (a + 1) told
  Row-enter me a f told pos le low (now, last) = (
    at_counter _ _ _ f _ _ refl (
        C.Represents-same _ _ _ _ (λ c lt. ground (arith, low c lt))
          (C.reset-Represents _ _ _ pos le last)),
    off_counter _ _ _ f _ _ (omega arith) (
        subst (λ q. C.Represents (num_children b n me) (f q) (reported b me (a + 1) told))
          {x = a % 2} (omega arith) now),
  )

  pub Row-report :
      (me a pos t : ℕ) (f : ℕ → C.State) (told : ℕ → ℕ)
      → pos < num_children b n me
      → num_children b n me ≤ C.most
      → told (child b me pos) ≡ t
      → t ≤ a
      → a ≤ t + 1
      → Row me f a told
      → Row me
          (update f (t % 2) (C.check_in pos (f (t % 2))))
          a
          (update told (child b me pos) (t + 1))
  Row-report me a pos t f told lt le is lo hi (now, last) =
      let next : (c : ℕ) (bound : ℕ)
          → (0 < bound)
          → (reported b me bound (update told (child b me pos) (t + 1)) c)
            ≡ (if c == pos then leb bound (t + 1) else reported b me bound told c) =
        λ c bound some_bound. ground arith in
      elim (ℕ_discrete a t) [
        | yes at ↦ (
          at_counter _ _ _ f _ _ (omega (arith, at)) (
              C.Represents-same _ _ _ _ (λ c lc. ground (arith, next c (a + 1)))
                (C.check_in-Represents _ pos (f (t % 2)) _ le lt (ground arith) (
                  subst (λ q. C.Represents (num_children b n me) (f q) (reported b me (a + 1) told))
                    {x = a % 2} (omega arith) now))),
          off_counter _ _ _ f _ _ (omega arith)
              (C.Represents-same _ _ _ _ (λ c lc. ground arith) last),
        )
        | no ne ↦ (
          off_counter _ _ _ f _ _ (omega arith)
              (C.Represents-same _ _ _ _ (λ c lc. ground arith) now),
          at_counter _ _ _ f _ _ (omega arith) (
              C.Represents-same _ _ _ _ (λ c lc. ground (arith, next c a))
                (C.check_in-Represents _ pos (f (t % 2)) _ le lt (ground arith) (
                  subst (λ q. C.Represents (num_children b n me) (f q) (reported b me a told))
                    {x = (a + 1) % 2} (omega arith) last))),
        )
      ]
