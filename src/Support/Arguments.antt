-- ===== src/Support/Arguments.antt =====
-- src/threads.cc: how `InvocationInfo::runLLVM` passes the arguments of an outlined function on, the
-- first of them in registers and the others on the stack.
use lomp.Prelude.{
  ℕ, zero, suc, ◌+◌, ◌-◌, ◌≤◌, ◌<◌, ◌≡◌, refl, ap, ◌∙◌, arith, List, [], ◌∷◌, ◌++◌, Option, none,
  some, ltb, if◌then◌else◌, length, get_elem?, length-append, ◌>>=◌, dec_lt,
}

-- Calls of `va_arg`, and what is left; there is nothing beyond the last argument.
unfoldable pub take_args : ℕ → List ℕ → Option (List ℕ × List ℕ)
take_args zero args = some ([], args)
take_args (suc k) [] = none
take_args (suc k) (x ∷ args) = do r ← take_args k args; some (x ∷ r.0, r.1)

-- For `MAX_REGISTER_ARGS` and `ArgCount`.
unfoldable pub num_reg_args : (max_register_args arg_count : ℕ) → ℕ
num_reg_args max_register_args arg_count =
    if ltb arg_count (max_register_args - 2) then arg_count else max_register_args - 2

-- `RegisterArgs`, as far as it is set, and `StackArgs`.
unfoldable pub run_llvm :
    (max_register_args gtid ltid arg_count : ℕ) → List ℕ → Option (List ℕ × List ℕ)
run_llvm max_register_args gtid ltid arg_count args = do
  r ← take_args (num_reg_args max_register_args arg_count) args
  t ← take_args (arg_count - num_reg_args max_register_args arg_count) r.1
  some (gtid ∷ ltid ∷ r.0, t.0)

-- What the outlined function finds as its parameter number `p`, by the calling convention.
abbrev pub parameter : (max_register_args : ℕ) → List ℕ × List ℕ → (p : ℕ) → Option ℕ
parameter max_register_args call p =
    if ltb p max_register_args then get_elem? call.0 p else get_elem? call.1 (p - max_register_args)

take_args-split :
    (k : ℕ) (args : List ℕ)
    → k ≤ length args
    → (xs rest : List ℕ) × (take_args k args ≡ some (xs, rest))
      × (xs ++ rest ≡ args)
      × (length xs ≡ k)
unfolding take_args
take_args-split zero args le = ([], args, refl, refl, refl)
take_args-split (suc k) [] le = absurd (omega arith)
take_args-split (suc k) (x ∷ args) le =
    let (xs, rest, e, whole, count) = take_args-split k args (omega arith) in
    (x ∷ xs, rest, rw e refl, ap (λ l. x ∷ l) whole, omega (arith, count))

get_elem-append :
    (xs ys : List ℕ) (p : ℕ)
    → get_elem? (xs ++ ys) p
      ≡ (if ltb p (length xs) then get_elem? xs p else get_elem? ys (p - length xs))
get_elem-append [] ys p = ground (arith, ap (get_elem? ys) {x = p} {y = p - 0} (omega arith))
get_elem-append (x ∷ xs) ys zero = ground arith
get_elem-append (x ∷ xs) ys (suc p) = ground (
  arith,
  get_elem-append xs ys p,
  ap (get_elem? ys) {x = p - length xs} {y = suc p - suc (length xs)} (omega arith),
)

get_elem_beyond : (l : List ℕ) (p : ℕ) → length l ≤ p → get_elem? l p ≡ none
get_elem_beyond [] p le = refl
get_elem_beyond (x ∷ l) zero le = absurd (omega arith)
get_elem_beyond (x ∷ l) (suc p) le = get_elem_beyond l p (omega arith)

take_args-all : (k : ℕ) (args : List ℕ) → length args ≡ k → take_args k args ≡ some (args, [])
unfolding take_args
take_args-all zero [] e = refl
take_args-all zero (x ∷ args) e = absurd (omega arith)
take_args-all (suc k) [] e = absurd (omega arith)
take_args-all (suc k) (x ∷ args) e = rw (take_args-all k args (omega arith)) refl

-- The registers with `regs` and the stack with `rest` show what the two lists show one after the other.
parameter-whole :
    (max_register_args num : ℕ) (regs rest : List ℕ) (p : ℕ)
    → length regs ≡ num + 2
    → num + 2 ≤ max_register_args
    → (num + 2 < max_register_args → length rest ≡ 0)
    → parameter max_register_args (regs, rest) p ≡ get_elem? (regs ++ rest) p
parameter-whole m num regs rest p count fits none_left = elim (dec_lt (num + 2) m) [
  | yes room ↦ ground (
    arith,
    get_elem-append regs rest p,
    get_elem_beyond regs p,
    get_elem_beyond rest (p - length regs) (omega (arith, none_left room)),
    get_elem_beyond rest (p - m) (omega (arith, none_left room)),
  )
  | no full ↦ ground (
    arith,
    get_elem-append regs rest p,
    ap (get_elem? rest) {x = p - length regs} {y = p - m} (omega arith),
  )
]

num_reg_args_fits :
    (m count : ℕ)
    → 2 ≤ m
    → (num_reg_args m count ≤ count)
      × (num_reg_args m count + 2 ≤ m)
      × (num_reg_args m count + 2 < m → num_reg_args m count ≡ count)
unfolding num_reg_args
num_reg_args_fits m count two = ground arith

-- With room for the first two arguments in registers, and as many arguments as `ArgCount` says,
-- `runLLVM` reads each argument once and none beyond the last, and the outlined function finds the two
-- thread numbers and then the arguments in their order, whether they are in registers or on the stack,
-- and nothing after them.
pub run_llvm-parameter :
    (max_register_args gtid ltid arg_count : ℕ) (args : List ℕ)
    → 2 ≤ max_register_args
    → length args ≡ arg_count
    → (call : List ℕ × List ℕ) × (run_llvm max_register_args gtid ltid arg_count args ≡ some call)
      × ((p : ℕ) → parameter max_register_args call p ≡ get_elem? (gtid ∷ ltid ∷ args) p)
unfolding run_llvm
run_llvm-parameter m gtid ltid arg_count args two count =
    let (le, fits, all_in) = num_reg_args_fits m arg_count two in
    let (xs, rest, e, whole, long) =
      take_args-split (num_reg_args m arg_count) args (omega arith) in
    let left : length rest ≡ arg_count - num_reg_args m arg_count =
      omega (arith, ap length whole, length-append xs rest, long) in
    (
      (gtid ∷ ltid ∷ xs, rest),
      rw e (rw (take_args-all (arg_count - num_reg_args m arg_count) rest left) refl),
      λ p.
          parameter-whole m (num_reg_args m arg_count) (gtid ∷ ltid ∷ xs) rest p
            (omega (arith, long)) fits (λ room. omega (arith, left, all_in room))
          ∙ ap (λ l. get_elem? (gtid ∷ ltid ∷ l) p) whole,
    )
