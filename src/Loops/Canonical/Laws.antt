-- ===== src/Loops/Canonical/Laws.antt =====
-- The chunks of the loops of src/loops.h, where nothing overflows the loop's type.
use lomp.Prelude.{
  ℕ, ◌+◌, ◌-◌, ◌*◌, ◌/◌, ◌%◌, ◌≤◌, ◌<◌, ◌≡◌, refl, ap, dec_lt, ◌↔◌, inl, inr, true, arith,
  Bool-cases,
}
use lomp.Prelude.Words.{
  wrap_below, wrap_once, div_bounds, mul_mono, mul_reflects, le-div_iff, div-le_iff,
}
use lomp.Loops.Canonical.{CanonicalLoop, init, is_last_chunk, get_chunk_lower, get_chunk_upper}

-- A loop over `0 .. e` in chunks of `chunk`, with room for the rounding up of the count.
pub record Fits (m e chunk : ℕ) : Type 0 where
  pub positive : 0 < chunk
  pub room : e + 1 + chunk < m

module _ {m e chunk : ℕ} (f : Fits m e chunk) where
  open f use {positive, room}

  abbrev pub loop : CanonicalLoop
  loop = init m e chunk

  pub init-fields : (loop.end ≡ e) × (loop.scale ≡ chunk) × (loop.count ≡ (e + chunk) / chunk)
  unfolding init
  init-fields = (refl, wrap_below m chunk chunk (omega arith) refl, ap (λ t. t / chunk) inner)
    where
      inner : ((e + 1) % m + chunk + m - 1) % m ≡ e + chunk
      inner =
          wrap_once m (e + chunk) _ (omega arith)
            (omega (arith, wrap_below m (e + 1) (e + 1) (omega arith) refl))

  -- The count is the number of iterations over the chunk size, rounded up.
  pub count_bounds : (e < loop.count * chunk) × (loop.count * chunk ≤ e + chunk)
  count_bounds = rw (init-fields.2) (omega (arith, div_bounds (e + chunk) chunk positive))

  below_end : (i : ℕ) → i < loop.count → i * chunk ≤ e
  below_end i h = omega (arith, count_bounds, mul_mono (i + 1) loop.count chunk (omega arith))

  pub get_chunk_lower-eq : (i : ℕ) → i < loop.count → get_chunk_lower m loop i ≡ i * chunk
  unfolding get_chunk_lower
  get_chunk_lower-eq i h =
      rw (init-fields.1) (wrap_below m (i * chunk) _ (omega (arith, below_end i h)) (omega arith))

  pub count-lt : loop.count < m
  count-lt = omega (arith, count_bounds, one_each)
    where
      one_each : loop.count ≤ loop.count * chunk
      one_each = grind arith

  pub count-pos : 0 < loop.count
  count-pos = grind (arith, count_bounds)

  pub is_last_chunk_iff : (i : ℕ) → (is_last_chunk m loop i ≡ true) ↔ (i + 1 ≡ loop.count)
  unfolding is_last_chunk
  is_last_chunk_iff i = ground (
    arith,
    wrap_once m (loop.count - 1) (loop.count + m - 1) (omega (arith, count-lt))
        (omega (arith, count-pos)),
    count-pos,
  )

  -- The last chunk ends with the loop, every other is full.
  pub get_chunk_upper-eq :
      (i : ℕ)
      → i < loop.count
      → (i + 1 ≡ loop.count → get_chunk_upper m loop i ≡ e)
        × (i + 1 < loop.count → get_chunk_upper m loop i ≡ i * chunk + chunk - 1)
  unfolding get_chunk_upper
  get_chunk_upper-eq i h = elim (Bool-cases (is_last_chunk m loop i)) [
    | inl last ↦ (
      λ _. rw (last) (init-fields.0),
      λ more. absurd (omega (arith, (is_last_chunk_iff i).0 last)),
    )
    | inr inner ↦ (
      λ last. absurd (cc ((is_last_chunk_iff i).1 last)),
      λ more. rw (inner) (
          wrap_once m (i * chunk + chunk - 1) _ (omega (arith, below_end (i + 1) more))
            (omega (arith, get_chunk_lower-eq i h, init-fields.1))),
    )
  ]

  -- Every iteration of the loop has a chunk.
  pub chunk_of-lt : (x : ℕ) → x ≤ e → x / chunk < loop.count
  chunk_of-lt x h =
      mul_reflects _ _ chunk (omega (arith, div_bounds x chunk positive, count_bounds))

  upper_iff :
      (b x : ℕ) → b < loop.count → x ≤ e → (x ≤ get_chunk_upper m loop b) ↔ (x < (b + 1) * chunk)
  upper_iff b x bc xe = elim (dec_lt (b + 1) loop.count) [
    | yes more ↦ let u = (get_chunk_upper-eq b bc).1 more in (λ p. omega arith, λ p. omega arith)
    | no last ↦
        let eq : b + 1 ≡ loop.count = omega arith in
        let u = (get_chunk_upper-eq b bc).0 eq in
        (λ p. rw eq (omega (arith, count_bounds)), λ p. omega arith)
  ]

  upper_within : (b : ℕ) → b < loop.count → get_chunk_upper m loop b ≤ e
  upper_within b bc = elim (dec_lt (b + 1) loop.count) [
    | yes more ↦ omega (arith, (get_chunk_upper-eq b bc).1 more, below_end (b + 1) more)
    | no last ↦ omega (arith, (get_chunk_upper-eq b bc).0 (omega arith))
  ]

  -- In a loop that fits its type, with chunks `a` and `b` of the loop, `a` not after `b`:
  -- between the lower bound of chunk `a` and the upper bound of chunk `b` lie exactly the
  -- iterations of the loop whose chunk is one of `a .. b`, and no value past the loop's end.
  pub chunk_range :
      (a b x : ℕ)
      → a ≤ b
      → b < loop.count
      → ((get_chunk_lower m loop a ≤ x) × (x ≤ get_chunk_upper m loop b))
        ↔ ((x ≤ e) × (a ≤ x / chunk) × (x / chunk ≤ b))
  chunk_range a b x ab bc = (
    λ (lo, hi).
        let xe : x ≤ e = omega (arith, upper_within b bc) in
        (
          xe,
          (le-div_iff a x chunk positive).0 (omega (arith, lower)),
          (div-le_iff b x chunk positive).0 ((upper_iff b x bc xe).0 hi),
        ),
    λ (xe, lo, hi). (
      omega (arith, lower, (le-div_iff a x chunk positive).1 lo),
      (upper_iff b x bc xe).1 ((div-le_iff b x chunk positive).1 hi),
    ),
  )
    where
      lower : get_chunk_lower m loop a ≡ a * chunk
      lower = get_chunk_lower-eq a (omega arith)
