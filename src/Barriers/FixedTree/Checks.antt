-- ===== src/Barriers/FixedTree/Checks.antt =====
-- The counters of `class fixedTreeCheckIn`, src/barrier_impl.cc, as a thread comes to its barrier and
-- as it tells its parent.
use lomp.Prelude.{
  ℕ, ◌+◌, ◌%◌, ◌^◌, ◌≤◌, ◌<◌, ◌≡◌, ◌≢◌, sym, ap, ◌∙◌, subst, arith, update, update-elim, ℕ_discrete,
}
use lomp.Barriers.Tree.{parent, num_children}
use lomp.Barriers.FixedTree.Shape.{
  position, child, child-parent, parent_lt, position-lt, num_children_le, child-lt, parent-child,
}
use lomp.Barriers.FixedTree.Counters.{Counter}
use lomp.Barriers.FixedTree.{set_counter}
use lomp.Barriers.FixedTree.Rows.{
  Row, Checks, set_counter-own, set_counter-other, Row-counters, Row-told, Row-enter, Row-report,
}

-- What a thread that tells its parent leaves of what its children have told.
up-tell :
    {n b : ℕ} (pos_b : 0 < b) (i : ℕ) (told : ℕ → ℕ)
    → ((c : ℕ) → c < num_children b n i → told i < told (child b i c))
    → ((j : ℕ) → 0 < j → j < n → told (parent b j) ≤ told j)
    → (j : ℕ) → 0 < j
    → j < n
    → update told i (told i + 1) (parent b j) ≤ update told i (told i + 1) j
up-tell {n} {b} pos_b i told below up j some_j lj = elim (ℕ_discrete i (parent b j)) [
  | yes e ↦
      let from = parent_lt b j pos_b some_j in
      let whole : child b i (position b j) ≡ j =
        ap (λ p. child b p (position b j)) e ∙ child-parent b j pos_b some_j in
      let here : position b j < num_children b n i =
        subst (λ p. position b j < num_children b n p) (sym e)
          (position-lt b n j pos_b some_j lj) in
      ground (arith, e, below (position b j) here, ap told whole, up j some_j lj)
  | no ne ↦ ground (arith, ne, up j some_j lj)
]

module _ {n b : ℕ} {C : Counter} (pos_b : 0 < b) (fits : b ≤ C.most) where
  -- A thread comes to its barrier: with children it resets its counter, without it does not.
  pub Checks-enter :
      (i number : ℕ) (counters : ℕ → ℕ → C.State) (sequence arrived told : ℕ → ℕ)
      → i < n
      → 0 < num_children b n i
      → ((j : ℕ) → j < n → told j ≤ arrived i + 1)
      → number ≡ sequence i
      → Checks n b C counters sequence arrived told
      → Checks n b C
          (set_counter ((number + 1) % 2) i (C.reset (counters ((number + 1) % 2) i)) counters)
          (update sequence i ((sequence i + 1) % 2 ^ 32))
          (update arrived i (arrived i + 1))
          told
  Checks-enter i number counters sequence arrived told lt some_child low is h = record {
    numbers = λ j. ground (arith, h.numbers j);
    up = h.up;
    rows = λ me lm some.
        update-elim
          (λ m a.
            Row n b C m
              (λ q.
                set_counter ((number + 1) % 2) i (C.reset (counters ((number + 1) % 2) i)) counters
                  q m)
              a told)
          arrived i (arrived i + 1) me
          (Row-counters n b C i _ _ _ told (set_counter-own n b C ((number + 1) % 2) i _ counters) (
            subst
              (λ p.
                Row n b C i (update (λ q. counters q i) p (C.reset (counters p i))) (arrived i + 1)
                  told)
              {x = (arrived i + 1) % 2} (omega (arith, h.numbers i))
              (Row-enter n b C i (arrived i) (λ q. counters q i) told some_child
                (omega (arith, num_children_le b n i))
                (λ c lc. low (child b i c) (child-lt b n i c lc)) (h.rows i lt some_child))))
          (λ ne.
            Row-counters n b C me _ _ _ told
              (λ q.
                set_counter-other n b C ((number + 1) % 2) i me
                  (C.reset (counters ((number + 1) % 2) i)) counters q ne)
              (h.rows me lm some));
  }

  pub Checks-enter_leaf :
      (i : ℕ) (counters : ℕ → ℕ → C.State) (sequence arrived told : ℕ → ℕ)
      → num_children b n i ≡ 0
      → Checks n b C counters sequence arrived told
      → Checks n b C counters
          (update sequence i ((sequence i + 1) % 2 ^ 32))
          (update arrived i (arrived i + 1))
          told
  Checks-enter_leaf i counters sequence arrived told leaf h = record {
    numbers = λ j. ground (arith, h.numbers j);
    up = h.up;
    rows = λ me lm some.
        subst (λ a. Row n b C me (λ q. counters q me) a told) (ground (arith, leaf, some))
          (h.rows me lm some);
  }

  pub Checks-root_report :
      (counters : ℕ → ℕ → C.State) (sequence arrived told : ℕ → ℕ)
      → ((c : ℕ) → c < num_children b n 0 → told 0 < told (child b 0 c))
      → Checks n b C counters sequence arrived told
      → Checks n b C counters sequence arrived (update told 0 (told 0 + 1))
  Checks-root_report counters sequence arrived told below h = record {
    numbers = h.numbers;
    up = up-tell pos_b 0 told below h.up;
    rows = λ me lm some.
        Row-told n b C me (arrived me) (λ q. counters q me) told (update told 0 (told 0 + 1))
          (λ c lc. ground arith) (h.rows me lm some);
  }

  pub Checks-report :
      (i : ℕ) (counters : ℕ → ℕ → C.State) (sequence arrived told : ℕ → ℕ)
      → 0 < i
      → i < n
      → told (parent b i) ≡ told i
      → told i ≤ arrived (parent b i)
      → arrived (parent b i) ≤ told i + 1
      → ((c : ℕ) → c < num_children b n i → told i < told (child b i c))
      → Checks n b C counters sequence arrived told
      → Checks n b C
          (set_counter
            (told i % 2)
            (parent b i)
            (C.check_in (position b i) (counters (told i % 2) (parent b i)))
            counters)
          sequence
          arrived
          (update told i (told i + 1))
  Checks-report i counters sequence arrived told some_i lt level lo hi below h = record {
    numbers = h.numbers;
    up = up-tell pos_b i told below h.up;
    rows = λ me lm some. elim (ℕ_discrete (parent b i) me) [
      | yes e ↦
          subst
            (λ m.
              Row n b C m
                (λ q.
                  set_counter (told i % 2) (parent b i)
                    (C.check_in (position b i) (counters (told i % 2) (parent b i))) counters q m)
                (arrived m) (update told i (told i + 1)))
            e
            (Row-counters n b C (parent b i) _ _ _ (update told i (told i + 1))
              (set_counter-own n b C (told i % 2) (parent b i)
                (C.check_in (position b i) (counters (told i % 2) (parent b i))) counters)
              (subst
                (λ m.
                  Row n b C (parent b i)
                    (update (λ q. counters q (parent b i)) (told i % 2)
                      (C.check_in (position b i) (counters (told i % 2) (parent b i))))
                    (arrived (parent b i)) (update told m (told i + 1)))
                whole
                (Row-report n b C (parent b i) (arrived (parent b i)) (position b i) (told i)
                  (λ q. counters q (parent b i)) told here
                  (omega (arith, num_children_le b n (parent b i))) (ap told whole) lo hi
                  (h.rows (parent b i) (subst (λ m. m < n) (sym e) lm)
                    (subst (λ m. 0 < num_children b n m) (sym e) some)))))
      | no ne ↦
          Row-counters n b C me _ _ _ (update told i (told i + 1))
            (λ q.
              set_counter-other n b C (told i % 2) (parent b i) me
                (C.check_in (position b i) (counters (told i % 2) (parent b i))) counters q ne)
            (Row-told n b C me (arrived me) (λ q. counters q me) told (update told i (told i + 1))
              (λ c lc. ground (arith, apart me ne c lc)) (h.rows me lm some))
    ];
  }
    where
      whole : child b (parent b i) (position b i) ≡ i
      whole = child-parent b i pos_b some_i

      here : position b i < num_children b n (parent b i)
      here = position-lt b n i pos_b some_i lt

      apart : (me : ℕ) → parent b i ≢ me → (c : ℕ) → c < num_children b n me → child b me c ≢ i
      apart me ne c lc e = ne (
          ap (parent b) (sym e) ∙ parent-child b me c pos_b (omega (arith, num_children_le b n me)))
