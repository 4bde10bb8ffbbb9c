-- ===== src/Tasking/Pools/Spec.antt =====
-- What a task pool promises: a list of tasks, the newest first, with calls and replies.
use lomp.Prelude.{ℕ, Bool, true, false, List, [], ◌∷◌, Option, none, some, if◌then◌else◌, length}

pub data Call : Type 0 where
  put : (task : ℕ) → Call
  get steal : Call

pub data Reply : Type 0 where
  stored : Bool → Reply
  given : Option ℕ → Reply

abbrev pub head? : List ℕ → Option ℕ
head? [] = none
head? (x ∷ l) = some x

abbrev pub tail : List ℕ → List ℕ
tail [] = []
tail (x ∷ l) = l

abbrev pub last? : List ℕ → Option ℕ
last? [] = none
last? (x ∷ []) = some x
last? (x ∷ y ∷ l) = last? (y ∷ l)

abbrev pub drop_last : List ℕ → List ℕ
drop_last [] = []
drop_last (x ∷ []) = []
drop_last (x ∷ y ∷ l) = x ∷ drop_last (y ∷ l)

-- `full` says of a number of tasks whether one more is refused; `steals_oldest` whether a thief gets
-- the oldest task, or the newest as the owner does.
unfoldable pub spec_step : (full : ℕ → Bool) (steals_oldest : Bool) → Call → List ℕ → List ℕ × Reply
spec_step full steals_oldest (put task) l =
    if full (length l) then (l, stored false) else (task ∷ l, stored true)
spec_step full steals_oldest get l = (tail l, given (head? l))
spec_step full true steal l = (drop_last l, given (last? l))
spec_step full false steal l = (tail l, given (head? l))

-- The replies to a sequence of calls.
unfoldable pub replies {ℓ} : {S : Type ℓ} → (Call → S → S × Reply) → S → List Call → List Reply
replies step s [] = []
replies step s (c ∷ l) = let (s', r) = step c s in r ∷ replies step s' l
