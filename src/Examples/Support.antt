-- ===== src/Examples/Support.antt =====
-- Examples of src/environment.cc, src/mlfsr32.h, src/threads.cc and src/barrier_impl.cc.
use lomp.Prelude.{
  ℕ, ◌≡◌, ◌-◌, ◌+◌, ◌<◌, refl, arith, List, [], ◌∷◌, Option, none, some, false, get_elem?,
}
use lomp.Support.Random.{state_after, initial_state, get_next, get_next_never_zero}
use lomp.Support.Arguments.{run_llvm, parameter, run_llvm-parameter}
use lomp.Support.Environment.{
  Text, get_string_with_int_argument, get_string_with_int_argument-Without,
}

-- A text of one digit is a number, any other text an exception.
abbrev one_digit : Text → Option ℕ
one_digit (d ∷ []) = some (d - 48)
one_digit _ = none

abbrev dynamic : Text
dynamic = 100 ∷ 121 ∷ 110 ∷ 97 ∷ 109 ∷ 105 ∷ 99 ∷ []

get_string_with_int_argument-Without_example :
    get_string_with_int_argument (λ _. some dynamic) one_digit [] ([], 0) ≡ (([], 0), false)
get_string_with_int_argument-Without_example =
    get_string_with_int_argument-Without (λ _. some dynamic) one_digit [] dynamic ([], 0)
      (ground arith) refl refl

-- A generator that is set up with 0, its argument at address `2 ^ 32`, after three calls.
get_next_never_zero_example :
    let s = state_after 3 (initial_state 0 4294967296) in
    (0 < s) × (s < 4294967296) × ((get_next s).1 + 1 ≡ (get_next s).0)
get_next_never_zero_example = get_next_never_zero 3 0 4294967296 (omega arith)

-- Six arguments where six registers take the first four of them.
run_llvm-parameter_example :
    (call : List ℕ × List ℕ) × (run_llvm 6 70 71 6 (1 ∷ 2 ∷ 3 ∷ 4 ∷ 5 ∷ 6 ∷ []) ≡ some call)
    × ((p : ℕ) → parameter 6 call p ≡ get_elem? (70 ∷ 71 ∷ 1 ∷ 2 ∷ 3 ∷ 4 ∷ 5 ∷ 6 ∷ []) p)
run_llvm-parameter_example =
    run_llvm-parameter 6 70 71 6 (1 ∷ 2 ∷ 3 ∷ 4 ∷ 5 ∷ 6 ∷ []) (omega arith) refl
