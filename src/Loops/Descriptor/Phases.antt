-- ===== src/Loops/Descriptor/Phases.antt =====
-- What a descriptor of src/loops.h goes through, and where the threads are in each phase.
use lomp.Prelude.{ℕ, ◌+◌, ◌%◌, ◌≤◌, ◌<◌, ◌≡◌, ◌≢◌, Option, none, some, ◌==◌, leb, if◌then◌else◌}
use lomp.Prelude.Counting.{sum_below}
use lomp.Loops.Descriptor.{
  Pc, outside, testing, tested, claiming, initializing, inside, leaving, Team,
}

-- A phase has the number of the loop that uses the descriptor, or will use it next.
pub data Phase : Type 0 where
  free : (loop : ℕ) → Phase
  claimed : (loop by : ℕ) → Phase
  active : (loop : ℕ) → Phase
  drained : (loop by : ℕ) → Phase

abbrev pub loop_of : Phase → ℕ
loop_of (free l) = l
loop_of (claimed l t) = l
loop_of (active l) = l
loop_of (drained l t) = l

abbrev pub sequence_of : Phase → Option ℕ
sequence_of (free l) = none
sequence_of (claimed l t) = some l
sequence_of (active l) = some l
sequence_of (drained l t) = some l

-- The threads that have not left loop `l`.
abbrev pub to_leave : (n l : ℕ) → (ℕ → ℕ) → ℕ
to_leave n l count = sum_below n (λ i. if leb (count i) l then 1 else 0)

abbrev pub Referred : (n : ℕ) → Phase → (ℕ → ℕ) → (ref : ℕ) → Type 0
Referred n (free l) count ref = ref ≡ 0
Referred n (claimed l t) count ref = ref ≡ 0
Referred n (active l) count ref = (ref ≡ to_leave n l count) × (ref ≢ 0)
Referred n (drained l t) count ref = ref ≡ 0

-- How far a thread is with the descriptor of its next loop.
abbrev pub grade : Pc → ℕ
grade outside = 0
grade (testing w) = 0
grade (tested w) = 1
grade claiming = 0
grade initializing = 2
grade inside = 3
grade (leaving d) = 0

-- Whether a thread is about to release descriptor `d`.
abbrev pub drains : (d : ℕ) → Pc → ℕ
drains d outside = 0
drains d (testing w) = 0
drains d (tested w) = 0
drains d claiming = 0
drains d initializing = 0
drains d inside = 0
drains d (leaving e) = if d == e then 1 else 0

-- Where thread `i` may be, with `count` loops behind it.
abbrev pub Placed : Phase → (i count grade drains : ℕ) → Type 0
Placed (free l) i c g x = (c ≤ l) × (l < c + 16) × (c ≡ l → g ≡ 0) × (x ≡ 0)
Placed (claimed l t) i c g x =
    (c ≤ l) × (l < c + 16) × (i ≡ t → (c ≡ l) × (g ≡ 2)) × (c ≡ l → i ≢ t → g ≤ 1) × (x ≡ 0)
Placed (active l) i c g x =
    (l < c + 16) × (c ≤ l + 16) × (c ≡ l → g ≢ 2) × (c ≡ l + 16 → g ≡ 0) × (x ≡ 0)
Placed (drained l t) i c g x =
    (l < c) × (c ≤ l + 16) × (c ≡ l + 16 → g ≡ 0) × (i ≡ t → x ≡ 1) × (i ≢ t → x ≡ 0)

pub record Holds (n d : ℕ) (s : Team) (p : Phase) : Type 0 where
  pub slot : loop_of p % 16 ≡ d
  pub sequence_is : s.sequence d ≡ sequence_of p
  pub referred : Referred n p s.loop_count (s.ref_count d)
  pub placed : (i : ℕ) → i < n → Placed p i (s.loop_count i) (grade (s.pc i)) (drains d (s.pc i))

abbrev pub Inv : (n : ℕ) → Team → Type 0
Inv n s = (d : ℕ) → d < 16 → (p : Phase) × Holds n d s p
