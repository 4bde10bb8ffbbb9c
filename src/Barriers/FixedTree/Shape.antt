-- ===== src/Barriers/FixedTree/Shape.antt =====
-- src/barrier_impl.cc: where the threads of `class fixedTreeCheckIn` stand in the tree.
use lomp.Prelude.{ℕ, ◌+◌, ◌-◌, ◌*◌, ◌/◌, ◌%◌, ◌≤◌, ◌<◌, ◌≡◌, ◌∙◌, ap, arith}
use lomp.Prelude.Words.{div_unique}
use lomp.Barriers.Tree.{parent, num_children}
use native.Mathlib.Nat.{div-add-mod, mod-lt, mul_comm, mul-add}

-- For a thread other than the root.
unfoldable pub position : (branching_factor me : ℕ) → ℕ
position branching_factor me = (me - 1) % branching_factor

-- The thread that is the child number `c` of thread `me`.
abbrev pub child : (branching_factor me c : ℕ) → ℕ
child branching_factor me c = branching_factor * me + 1 + c

parent-div : (b j : ℕ) → 0 < b → 0 < j → parent b j ≡ (j - 1) / b
unfolding parent
parent-div b j pos some_j =
    let whole = div-add-mod (j - 1) b in
    let rest = mod-lt (j - 1) pos in
    let next : (j + b - 1) / b ≡ (j - 1) / b + 1 =
      div_unique (j + b - 1) b ((j - 1) / b + 1) pos (grind arith) (grind arith) in
    omega (arith, next)

pub child-parent : (b j : ℕ) → 0 < b → 0 < j → child b (parent b j) (position b j) ≡ j
unfolding position
child-parent b j pos some_j =
    omega (arith, div-add-mod (j - 1) b, ap (λ q. b * q) (parent-div b j pos some_j))

pub parent_lt : (b j : ℕ) → 0 < b → 0 < j → parent b j < j
parent_lt b j pos some_j = let whole = child-parent b j pos some_j in grind arith

next_row : (b m : ℕ) → b * (m + 1) ≡ b * m + b
next_row b m = mul-add b m 1 ∙ omega arith

pub position-lt : (b n j : ℕ) → 0 < b → 0 < j → j < n → position b j < num_children b n (parent b j)
unfolding num_children position
position-lt b n j pos some_j lt =
    let whole = child-parent b j pos some_j in
    let rest = mod-lt (j - 1) pos in
    ground (arith, whole, rest, next_row b (parent b j), mul_comm b (parent b j))

pub num_children_le : (b n me : ℕ) → num_children b n me ≤ b
unfolding num_children
num_children_le b n me = ground (arith, next_row b me, mul_comm b me)

pub child-lt : (b n me c : ℕ) → c < num_children b n me → child b me c < n
unfolding num_children
child-lt b n me c lt = ground (arith, lt, next_row b me, mul_comm b me)

pub parent-child : (b me c : ℕ) → 0 < b → c < b → parent b (child b me c) ≡ me
parent-child b me c pos lt =
    parent-div b (child b me c) pos (omega arith)
    ∙ div_unique (child b me c - 1) b me pos (omega (arith, mul_comm me b))
        (omega (arith, mul_comm me b))
