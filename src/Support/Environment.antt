-- ===== src/Support/Environment.antt =====
-- src/environment.cc. A text is the list of its bytes. `getenv` and `stoi` are parameters: `none` of
-- `getenv` is an envirable that is not set, `none` of `stoi` an exception. A function's result is
-- the value that it stores and what it returns.
use lomp.Prelude.{
  ℕ, zero, suc, ◌+◌, ◌≡◌, ◌≢◌, refl, ap, ap₂, ◌∙◌, length, Bool, true, false, Option, none, some,
  List, [], ◌∷◌, ◌++◌, arith, ◌==◌, if◌then◌else◌, ◌>>=◌,
}
use native.Mathlib.Numerals.{unary_clauses}

abbrev pub Text : Type 0
Text = List ℕ

-- The code of the character ','.
abbrev pub comma : ℕ
comma = 44

abbrev pub take : ℕ → Text → Text
take zero s = []
take (suc n) [] = []
take (suc n) (c ∷ s) = c ∷ take n s

abbrev pub drop : ℕ → Text → Text
drop zero s = s
drop (suc n) [] = []
drop (suc n) (c ∷ s) = drop n s

-- `std::string::find`; `none` is `npos`.
abbrev pub find : ℕ → Text → Option ℕ
find c [] = none
find c (x ∷ s) =
    let rest = find c s in
    if x == c then some 0 else elim rest [ none ↦ none | some pos ↦ some (pos + 1) ]

-- What a function stores and returns: a value and true, or the default and false.
unfoldable pub or_default {ℓ} : {A : Type ℓ} → A → Option A → A × Bool
or_default def none = (def, false)
or_default def (some value) = (value, true)

-- The value that a call has stored, where it returned true.
abbrev pub stored_value {ℓ} : {A : Type ℓ} → A × Bool → Option A
stored_value (value, true) = some value
stored_value (value, false) = none

unfoldable pub get_string : (getenv : Text → Option Text) → (name def : Text) → Text × Bool
get_string getenv name def = or_default def (getenv name)

unfoldable pub get_int {ℓ} :
    {Z : Type ℓ} → (getenv : Text → Option Text) → (stoi : Text → Option Z) → Text → Z → Z × Bool
get_int getenv stoi name def =
    or_default def (do str ← stored_value (get_string getenv name []); stoi str)

unfoldable pub split_at : Text → Option ℕ → Text × Text
split_at str none = (str, drop 0 str)
split_at str (some pos) = (take pos str, drop (pos + 1) str)

-- The texts before and after the first comma. Without one `find` gives `npos`, the first text is
-- everything, and `npos + 1` is 0, so the second one is everything, too.
abbrev pub split : Text → Text × Text
split str = split_at str (find comma str)

unfoldable pub get_string_with_string_argument :
    (getenv : Text → Option Text) → Text → Text × Text → (Text × Text) × Bool
get_string_with_string_argument getenv name def =
    or_default def (do str ← stored_value (get_string getenv name []); some (split str))

unfoldable pub get_string_with_int_argument {ℓ} :
    {Z : Type ℓ}
    → (getenv : Text → Option Text) → (stoi : Text → Option Z) → Text
    → Text × Z
    → (Text × Z) × Bool
get_string_with_int_argument getenv stoi name def = or_default def (do
  tmp ← stored_value (get_string_with_string_argument getenv name ([], []))
  num ← stoi tmp.1
  some (tmp.0, num))

-- No byte of the text is `c`.
abbrev pub Without : ℕ → Text → Type 0
Without c [] = Unit
Without c (x ∷ s) = (x ≢ c) × Without c s

find-Without : (c : ℕ) (s : Text) → Without c s → find c s ≡ none
find-Without c [] w = refl
find-Without c (x ∷ s) w = ground (arith, find-Without c s)

split-Without : (s : Text) → Without comma s → split s ≡ (s, s)
unfolding split_at
split-Without s w = ap (split_at s) (find-Without comma s w)

find-append : (k a : Text) → Without comma k → find comma (k ++ comma ∷ a) ≡ some (length k)
find-append [] a w = refl
find-append (x ∷ k) a w = ground (arith, find-append k a)

take-append : (k a : Text) → take (length k) (k ++ a) ≡ k
take-append [] a = refl
take-append (x ∷ k) a = ap (λ l. x ∷ l) (take-append k a)

drop-append : (k a : Text) (c : ℕ) → drop (length k + 1) (k ++ c ∷ a) ≡ a
drop-append [] a c = refl
drop-append (x ∷ k) a c = simp unary_clauses (simp unary_clauses at (drop-append k a c))

split-append : (k a : Text) → Without comma k → split (k ++ comma ∷ a) ≡ (k, a)
unfolding split_at
split-append k a w =
    ap (split_at (k ++ comma ∷ a)) (find-append k a w)
    ∙ ap₂ (λ x y. (x, y)) (take-append k (comma ∷ a)) (drop-append k a comma)

module _ {ℓ} {Z : Type ℓ} (getenv : Text → Option Text) (stoi : Text → Option Z) where
  -- An envirable that is set to a text without a comma, a comma and the text of a number is read as
  -- the first text and the number.
  pub get_string_with_int_argument-append :
      (name k a : Text) (n : Z) (def : Text × Z)
      → Without comma k
      → stoi a ≡ some n
      → getenv name ≡ some (k ++ comma ∷ a)
      → get_string_with_int_argument getenv stoi name def ≡ ((k, n), true)
  unfolding get_string_with_int_argument get_string_with_string_argument get_string or_default
  get_string_with_int_argument-append name k a n def w num e = rw (e, split-append k a w, num) refl

  -- An envirable that is set to a text without a comma, which is no number, is read as if it were
  -- not set: the text is dropped and the caller keeps the default.
  pub get_string_with_int_argument-Without :
      (name k : Text) (def : Text × Z)
      → Without comma k
      → stoi k ≡ none
      → getenv name ≡ some k
      → get_string_with_int_argument getenv stoi name def ≡ (def, false)
  unfolding get_string_with_int_argument get_string_with_string_argument get_string or_default
  get_string_with_int_argument-Without name k def w no_num e =
      rw (e, split-Without k w, no_num) refl
