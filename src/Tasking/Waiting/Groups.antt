-- ===== src/Tasking/Waiting/Groups.antt =====
-- The taskgroups of the threads of src/tasking.cc: those that are open hang together by `outer`, each
-- below one thread or one other taskgroup.
use lomp.Prelude.{
  ℕ, ◌+◌, ◌≤◌, ◌<◌, ◌≡◌, ◌≢◌, refl, sym, subst, arith, Bool, true, false, Option, none, some, List,
  [], ◌∷◌, update, update-elim, AllBelow, Known,
}
use lomp.Tasking.Waiting.History.{inner_ended}

-- The current taskgroup of a thread is the innermost of those it has begun, and `outer` leads through
-- the others in order.
abbrev pub Linked : (outer : ℕ → Option ℕ) → (current : Option ℕ) → List ℕ → Type 0
Linked outer current [] = current ≡ none
Linked outer current (g ∷ l) = (current ≡ some g) × Linked outer (outer g) l

pub record Groups (n : ℕ) (current outer : ℕ → Option ℕ) (closed : ℕ → Bool) (opened : ℕ → List ℕ)
    : Type 0 where
  pub live : (i g : ℕ) → current i ≡ some g → closed g ≡ false
  pub single : (i j g : ℕ) → current i ≡ some g → current j ≡ some g → i ≡ j
  pub outer_live : (g k : ℕ) → closed g ≡ false → outer g ≡ some k → closed k ≡ false
  pub inner : (i g k : ℕ) → current i ≡ some g → closed k ≡ false → outer k ≢ some g
  pub nested :
      (g k x : ℕ)
      → closed g ≡ false
      → closed k ≡ false
      → outer g ≡ some x
      → outer k ≡ some x
      → g ≡ k
  pub fresh : (g : ℕ) → n ≤ g → closed g ≡ false
  pub linked : (i : ℕ) → Linked outer (current i) (opened i)
  pub below : (i : ℕ) → AllBelow n (opened i)

pub Known-lt : {n : ℕ} {o : Option ℕ} (g : ℕ) → Known n o → o ≡ some g → g < n
Known-lt {n} g k e = subst (Known n) e k

Linked-update :
    (n : ℕ) (x : Option ℕ) (outer : ℕ → Option ℕ) (current : Option ℕ) (l : List ℕ)
    → AllBelow n l
    → Linked outer current l
    → Linked (update outer n x) current l
Linked-update n x outer current [] low h = h
Linked-update n x outer current (g ∷ l) low h = (
  h.0,
  subst (λ o. Linked (update outer n x) o l) (ground (arith, low.0))
      (Linked-update n x outer (outer g) l low.1 h.1),
)

AllBelow-suc : (n : ℕ) (l : List ℕ) → AllBelow n l → AllBelow (n + 1) l
AllBelow-suc n [] h = tt
AllBelow-suc n (g ∷ l) h = (omega arith, AllBelow-suc n l h.1)

module _ {n : ℕ} {current outer : ℕ → Option ℕ} {closed : ℕ → Bool} {opened : ℕ → List ℕ}
    (gs : Groups n current outer closed opened) where
  pub begin-Groups :
      (i : ℕ)
      → ((j : ℕ) → Known n (current j))
      → ((g : ℕ) → Known n (outer g))
      → Groups
          (n + 1)
          (update current i (some n))
          (update outer n (current i))
          closed
          (update opened i (n ∷ opened i))
  begin-Groups i knows knows_outer = record {
    live = λ j g e. ground (arith, e, gs.live j g, gs.fresh g);
    single = λ j k g e e'.
        ground (arith, e, e', gs.single j k g, Known-lt g (knows j), Known-lt g (knows k));
    outer_live = λ g k c e. ground (arith, c, e, gs.outer_live g k c, gs.live i k);
    inner = λ j g k e c e'. ground (
      arith,
      e,
      e',
      gs.inner j g k,
      c,
      gs.single i j g,
      Known-lt g (knows i),
      Known-lt g (knows_outer k),
    );
    nested = λ g k x c c' e e'.
        ground (arith, e, e', gs.nested g k x c c', gs.inner i x k, gs.inner i x g, c, c');
    fresh = λ g le. gs.fresh g (omega arith);
    linked = λ j.
        update-elim (λ m l. Linked (update outer n (current i)) (update current i (some n) m) l)
          opened i _ j
          (
            ground arith,
            subst (λ o. Linked (update outer n (current i)) o (opened i)) (ground arith)
                (Linked-update n (current i) outer (current i) (opened i) (gs.below i)
                  (gs.linked i)),
          )
          (λ ne.
            subst (λ o. Linked (update outer n (current i)) o (opened j)) (ground (arith, ne))
              (Linked-update n (current i) outer (current j) (opened j) (gs.below j)
                (gs.linked j)));
    below = λ j.
        update-elim (λ m l. AllBelow (n + 1) l) opened i _ j
          (omega arith, AllBelow-suc n (opened i) (gs.below i))
          (λ ne. AllBelow-suc n (opened j) (gs.below j));
  }

  not_outer : (j x g : ℕ) → closed g ≡ false → current j ≡ some x → outer g ≢ some x
  not_outer j x g alive p = gs.inner j x g p alive

  inner-Linked :
      (o : Option ℕ) (g : ℕ) (l : List ℕ)
      → o ≡ some g
      → Linked outer o l
      → Linked outer (outer g) (inner_ended l)
  inner-Linked o g [] e h = absurd (ground (arith, e, h))
  inner-Linked o g (k ∷ l) e h =
      let same : k ≡ g = ground (arith, e, h.0) in subst (λ x. Linked outer (outer x) l) same h.1

  none-Linked : (o : Option ℕ) (l : List ℕ) → o ≡ none → Linked outer o l → l ≡ []
  none-Linked o [] e h = refl
  none-Linked o (k ∷ l) e h = absurd (ground (arith, e, h.0))

  inner-AllBelow : (l : List ℕ) → AllBelow n l → AllBelow n (inner_ended l)
  inner-AllBelow [] h = h
  inner-AllBelow (g ∷ l) h = h.1

  pub end-Groups :
      (i g : ℕ)
      → current i ≡ some g
      → g < n
      → Groups n
          (update current i (outer g))
          outer
          (update closed g true)
          (update opened i (inner_ended (opened i)))
  end-Groups i g at lt =
      let alive : closed g ≡ false = gs.live i g at in
      record {
        live = λ j k e. ground (
          arith,
          e,
          gs.live j k,
          gs.outer_live g k alive,
          gs.inner i g g at alive,
          gs.single i j g at,
        );
        single = λ j k x e e'.
            ground (arith, e, e', gs.single j k x, not_outer j x g alive, not_outer k x g alive);
        outer_live = λ k x c e. ground (arith, c, e, gs.outer_live k x, gs.inner i g k at);
        inner = λ j x k e c e'. ground (arith, e, e', c, gs.inner j x k, gs.nested g k x alive);
        nested = λ k x y c c' e e'. ground (arith, c, c', gs.nested k x y, e, e');
        fresh = λ k le. ground (arith, gs.fresh k le);
        linked = λ j.
            update-elim (λ m l. Linked outer (update current i (outer g) m) l) opened i _ j
              (subst (λ o. Linked outer o (inner_ended (opened i))) (ground arith)
                (inner-Linked (current i) g (opened i) at (gs.linked i)))
              (λ ne. subst (λ o. Linked outer o (opened j)) (ground (arith, ne)) (gs.linked j));
        below = λ j.
            update-elim (λ m l. AllBelow n l) opened i _ j (inner-AllBelow (opened i) (gs.below i))
              (λ ne. gs.below j);
      }

  pub end_none-Groups :
      (i : ℕ)
      → current i ≡ none
      → Groups n (update current i none) outer closed (update opened i (inner_ended (opened i)))
  end_none-Groups i at = record {
    live = λ j k e. ground (arith, e, gs.live j k);
    single = λ j k x e e'. ground (arith, e, e', gs.single j k x);
    outer_live = gs.outer_live;
    inner = λ j x k e c. ground (arith, e, gs.inner j x k, c);
    nested = gs.nested;
    fresh = gs.fresh;
    linked = λ j.
        update-elim (λ m l. Linked outer (update current i none m) l) opened i _ j
          (subst (λ l. Linked outer (update current i none i) (inner_ended l))
            (sym (none-Linked (current i) (opened i) at (gs.linked i))) (ground arith))
          (λ ne. subst (λ o. Linked outer o (opened j)) (ground (arith, ne)) (gs.linked j));
    below = λ j.
        update-elim (λ m l. AllBelow n l) opened i _ j (inner-AllBelow (opened i) (gs.below i))
          (λ ne. gs.below j);
  }
