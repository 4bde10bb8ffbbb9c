-- ===== src/Barriers/Central/Flags.antt =====
-- src/barrier_impl.cc: `class flagCounter<64>`, as a way to check in.
use lomp.Prelude.{
  ℕ, zero, suc, ◌+◌, ◌-◌, ◌*◌, ◌/◌, ◌%◌, ◌≤◌, ◌<◌, ◌≡◌, ◌↔◌, refl, ap, ◌∙◌, arith, Bool, true,
  false, ltb, ◌==◌, ◌&&◌, if◌then◌else◌, update, ℕ_discrete,
}
use lomp.Barriers.Central.Interface.{CheckIn}

-- `data` by word and byte, both views of a `byteWord`; `last_needed` is the last word in use.
pub record FlagCounter : Type 0 where
  pub data_bytes : ℕ → ℕ → ℕ
  pub last_mask : ℕ → ℕ
  pub last_needed : ℕ

-- The bytes of the last word that no thread has.
abbrev pub mask : (count : ℕ) → ℕ → ℕ
mask count i = if ltb ((count - 1) % 8) i && ltb i 8 then 255 else 0

-- The switch has a case for up to seven words before the last.
abbrev pub reset : FlagCounter → FlagCounter
reset c = record c {
  data_bytes = λ word byte.
      if word == c.last_needed
      then c.last_mask byte
      else if ltb word c.last_needed && ltb c.last_needed 8
      then 0
      else c.data_bytes word byte;
}

-- For a `count` above 0. Memory holds what it holds, `garbage`, before.
abbrev pub init : (count : ℕ) → (garbage : ℕ → ℕ → ℕ) → FlagCounter
init count garbage =
    reset
      (record { data_bytes = garbage; last_mask = mask count; last_needed = (count + 7) / 8 - 1 })

abbrev pub check_in : (me : ℕ) → FlagCounter → FlagCounter
check_in me c = record c {
  data_bytes = update c.data_bytes (me / 8) (update (c.data_bytes (me / 8)) (me % 8) 255);
}

unfoldable pub all_below : ℕ → (ℕ → Bool) → Bool
all_below zero f = true
all_below (suc n) f = f n && all_below n f

-- One poll of `wait`: `allFlags` of a word is `~uint64_t(0)` where all its bytes are 255.
abbrev pub word_full : (word : ℕ) → FlagCounter → Bool
word_full word c = all_below 8 (λ byte. c.data_bytes word byte == 255)

all_below-to : (n : ℕ) (f : ℕ → Bool) → all_below n f ≡ true → (j : ℕ) → j < n → f j ≡ true
unfolding all_below
all_below-to zero f e j lt = absurd (omega arith)
all_below-to (suc n) f e j lt = elim (ℕ_discrete j n) [
  | yes is ↦ ap f is ∙ ground (arith, e)
  | no ne ↦ all_below-to n f (ground (arith, e)) j (omega arith)
]

all_below-from : (n : ℕ) (f : ℕ → Bool) → ((j : ℕ) → j < n → f j ≡ true) → all_below n f ≡ true
unfolding all_below
all_below-from zero f all = refl
all_below-from (suc n) f all =
    ground (arith, all n (omega arith), all_below-from n f (λ j lt. all j (omega arith)))

-- The byte number `8 * word + byte` is that of the thread with this number.
abbrev pub present : (n : ℕ) → (ℕ → Bool) → ℕ → Bool
present n p j = if ltb j n then p j else true

pub record Represents (n : ℕ) (c : FlagCounter) (p : ℕ → Bool) : Type 0 where
  pub mask_is : (byte : ℕ) → byte < 8 → c.last_mask byte ≡ mask n byte
  pub last_is : c.last_needed ≡ (n + 7) / 8 - 1
  pub bytes :
      (word byte : ℕ)
      → word < (n + 7) / 8
      → byte < 8
      → c.data_bytes word byte ≡ (if present n p (8 * word + byte) then 255 else 0)

pub reset-Represents :
    (n : ℕ) (c : FlagCounter) (p : ℕ → Bool)
    → 0 < n
    → n ≤ 64
    → Represents n c p
    → Represents n (reset c) (λ _. false)
reset-Represents n c p pos fits h = record {
  mask_is = h.mask_is;
  last_is = h.last_is;
  bytes = λ word byte lw lb. ground (arith, h.mask_is byte lb, h.last_is);
}

pub init-Represents :
    (n : ℕ) (garbage : ℕ → ℕ → ℕ) → 0 < n → n ≤ 64 → Represents n (init n garbage) (λ _. false)
init-Represents n garbage pos fits = record {
  mask_is = λ byte lt. refl;
  last_is = refl;
  bytes = λ word byte lw lb. ground arith;
}

pub check_in-Represents :
    (n i : ℕ) (c : FlagCounter) (p : ℕ → Bool)
    → i < n
    → Represents n c p
    → Represents n (check_in i c) (update p i true)
check_in-Represents n i c p lt h = record {
  mask_is = h.mask_is;
  last_is = h.last_is;
  bytes = λ word byte lw lb. ground (arith, h.bytes word byte lw lb);
}

pub word_full_iff :
    (n word : ℕ) (c : FlagCounter) (p : ℕ → Bool)
    → word < (n + 7) / 8
    → Represents n c p
    → (word_full word c ≡ true) ↔ ((j : ℕ) → j < n → j / 8 ≡ word → p j ≡ true)
word_full_iff n word c p lw h = (
  λ is j lt at. ground (
    arith,
    all_below-to 8 (λ byte. c.data_bytes word byte == 255) is (j % 8) (omega arith),
    h.bytes word (j % 8) lw (omega arith),
    split j at,
  ),
  λ all.
      all_below-from 8 _
        (λ byte lb. ground (arith, h.bytes word byte lw lb, all (8 * word + byte))),
)
  where
    split : (j : ℕ) → j / 8 ≡ word → p j ≡ p (8 * word + j % 8)
    split j at = ap p (omega arith)

-- For a team of 1 to 64 threads.
abbrev pub FlagCheckIn : (n : ℕ) → (ℕ → ℕ → ℕ) → 0 < n → n ≤ 64 → CheckIn n
FlagCheckIn n garbage pos fits = record {
  State = FlagCounter;
  fresh = init n garbage;
  check_in = check_in;
  polls = (n + 7) / 8;
  full = word_full;
  reset = reset;
  part = λ j. j / 8;
  part-lt = λ j lt. omega arith;
  Represents = Represents n;
  fresh-Represents = init-Represents n garbage pos fits;
  check_in-Represents = λ i c p lt out h. check_in-Represents n i c p lt h;
  reset-Represents = λ c p h. reset-Represents n c p pos fits h;
  full_iff = λ k c p lk h. word_full_iff n k c p lk h;
}
