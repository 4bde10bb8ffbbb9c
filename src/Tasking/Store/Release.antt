-- ===== src/Tasking/Store/Release.antt =====
-- The release of descriptors in `FreeTaskAndAncestors` of src/tasking.cc.
use lomp.Prelude.{
  ℕ, zero, suc, ◌<◌, ◌≡◌, ◌≢◌, refl, ap, Bool, true, false, List, [], ◌∷◌, Option, none, some,
  arith, ◌+◌, ◌≤◌, ◌⊎◌, inl, inr, Bool-cases, AllBelow, Known, ◌==◌, ◌&&◌, if◌then◌else◌, length,
  ℕ_discrete,
}
use lomp.Tasking.Store.{
  freed, fault, Store, is_completed, free_task, free_from, free_task_and_ancestors,
}

-- A task that the loop frees: completed, with no child that is still registered.
abbrev pub releasable : Store → ℕ → Bool
releasable s t = s.child_tasks t == 0 && is_completed (s.flags t)

abbrev NotIn : ℕ → List ℕ → Type 0
NotIn x [] = Unit {0}
NotIn x (y ∷ l) = (x ≢ y) × NotIn x l

-- The chain of releasable ancestors from a task up, to the root or to an allocated ancestor that is
-- still needed.
pub data Chain (s : Store) : Option ℕ → List ℕ → Type 0 where
  root : Chain s none []
  needed : (t : ℕ) → s.alive t ≡ true → releasable s t ≡ false → Chain s (some t) []
  up :
      (t : ℕ) {l : List ℕ}
      → s.alive t ≡ true
      → releasable s t ≡ true
      → NotIn t l
      → Chain s (s.parent t) l
      → Chain s (some t) (t ∷ l)

-- The chain of releasable ancestors ends in a descriptor that is no longer allocated.
pub data Dangling (s : Store) : Option ℕ → Type 0 where
  released : (t : ℕ) → s.alive t ≡ false → Dangling s (some t)
  above :
      (t : ℕ)
      → s.alive t ≡ true
      → releasable s t ≡ true
      → Dangling s (s.parent t)
      → Dangling s (some t)

pub free_all : List ℕ → Store → Store
free_all [] s = s
free_all (t ∷ l) s = free_all l (free_task t s)

still_alive : (s : Store) (x t : ℕ) → x ≢ t → s.alive t ≡ true → (free_task x s).alive t ≡ true
unfolding free_task
still_alive s x t n a = ground arith

other_of : (s : Store) {x t : ℕ} → releasable s t ≡ false → releasable s x ≡ true → x ≢ t
other_of s {x} {t} r rx e = cc (ap (releasable s) e)

-- Freeing another task leaves a chain as it is.
Chain-free :
    {s : Store} {o : Option ℕ} {l : List ℕ} (x : ℕ)
    → releasable s x ≡ true
    → NotIn x l
    → Chain s o l
    → Chain (free_task x s) o l
unfolding free_task
Chain-free x rx n root = root
Chain-free {s} x rx n (needed t a r) = needed t (still_alive s x t (other_of s r rx) a) r
Chain-free {s} x rx n (up t a r nt c) = up t (still_alive s x t n.0 a) r nt (Chain-free x rx n.1 c)

-- The loop frees exactly the chain of releasable ancestors and stops, given one round of fuel for
-- each of them and one more.
free_from-Chain :
    (fuel : ℕ) {s : Store} {o : Option ℕ} {l : List ℕ}
    → Chain s o l
    → length l < fuel
    → free_from fuel o s ≡ freed (free_all l s)
unfolding free_from free_all
free_from-Chain zero c h = elim h [ ]
free_from-Chain (suc fuel) root h = refl
free_from-Chain (suc fuel) (needed t a r) h = ground arith
free_from-Chain (suc fuel) {s} (up t {l} a r nt c) h =
    let ih = free_from-Chain fuel {s = free_task t s} (Chain-free t r nt c) (omega arith) in
    ground (arith, ih)

abbrev pub listed : ℕ → List ℕ → Bool
listed x [] = false
listed x (y ∷ l) = if y == x then true else listed x l

-- Nothing but the allocation of the listed tasks changes.
free_all-alive :
    (l : List ℕ) (s : Store)
    → ((x : ℕ) → (free_all l s).alive x ≡ (if listed x l then false else s.alive x))
      × (free_all l s ≡ record s { alive = (free_all l s).alive })
unfolding free_all free_task
free_all-alive [] s = (λ x. refl, refl)
free_all-alive (t ∷ l) s =
    let (a, rest) = free_all-alive l (free_task t s) in (λ x. ground (arith, a x), rest)

-- `FreeTaskAndAncestors` on a task whose chain of completed ancestors with no registered children
-- is intact up to the root or to an ancestor that is still needed: it ends, frees exactly the tasks
-- of the chain, and changes nothing else.
pub free_task_and_ancestors-Chain :
    (fuel t : ℕ) (s : Store) (l : List ℕ)
    → Chain s (some t) l
    → length l < fuel
    → (s' : Store) × (free_task_and_ancestors fuel t s ≡ freed s')
      × ((x : ℕ) → s'.alive x ≡ (if listed x l then false else s.alive x))
      × (s' ≡ record s { alive = s'.alive })
unfolding free_task_and_ancestors
free_task_and_ancestors-Chain fuel t s l c h =
    let (a, rest) = free_all-alive l s in (free_all l s, free_from-Chain fuel c h, a, rest)

Dangling-free : {s : Store} {o : Option ℕ} (x : ℕ) → Dangling s o → Dangling (free_task x s) o
unfolding free_task
Dangling-free x (released t a) = released t (ground arith)
Dangling-free x (above t a r d) = elim (ℕ_discrete x t) [
  | yes e ↦ released t (ground arith)
  | no n ↦ above t (ground arith) r (Dangling-free x d)
]

-- Descriptors have the numbers of their allocation, so that a task's parent has a lower one.
abbrev pub ParentsOlder : Store → Type 0
ParentsOlder s = (t : ℕ) → Known t (s.parent t)

AllBelow-NotIn : (t : ℕ) (l : List ℕ) → AllBelow t l → NotIn t l
AllBelow-NotIn t [] h = tt
AllBelow-NotIn t (x ∷ l) h = (omega (arith, h.0), AllBelow-NotIn t l h.1)

AllBelow-mono : (m n : ℕ) (l : List ℕ) → m ≤ n → AllBelow m l → AllBelow n l
AllBelow-mono m n [] le h = tt
AllBelow-mono m n (x ∷ l) le h = (omega (arith, h.0), AllBelow-mono m n l le h.1)

-- Upwards from a task the releasable ancestors form a chain or end in a freed descriptor.
climb :
    (fuel bound : ℕ) (s : Store) (o : Option ℕ)
    → ParentsOlder s
    → bound ≤ fuel
    → Known bound o
    → ((l : List ℕ) × Chain s o l × (length l ≤ bound) × AllBelow bound l) ⊎ Dangling s o
climb fuel bound s none older le known = inl ([], root, omega arith, tt)
climb zero bound s (some t) older le known = absurd (omega arith)
climb (suc fuel) bound s (some t) older le known = elim (Bool-cases (s.alive t)) [
  | inr gone ↦ inr (released t gone)
  | inl here ↦ elim (Bool-cases (releasable s t)) [
    | inr held ↦ inl ([], needed t here held, omega arith, tt)
    | inl done ↦ elim (climb fuel t s (s.parent t) older (omega arith) (older t)) [
      | inr d ↦ inr (above t here done d)
      | inl (l, c, short, low) ↦ inl (
        t ∷ l,
        up t here done (AllBelow-NotIn t l low) c,
        omega arith,
        (known, AllBelow-mono t bound l (omega arith) low),
      )
    ]
  ]
]

free_from-Dangling :
    (fuel bound : ℕ) {s : Store} {o : Option ℕ}
    → ParentsOlder s
    → Known bound o
    → bound < fuel
    → Dangling s o
    → free_from fuel o s ≡ fault
unfolding free_from free_task
free_from-Dangling zero bound older known enough d = absurd (omega arith)
free_from-Dangling (suc fuel) bound older known enough (released t a) = ground arith
free_from-Dangling (suc fuel) bound {s} older known enough (above t a r d) =
    let ih =
      free_from-Dangling fuel t {s = free_task t s} older (older t) (omega arith)
        (Dangling-free t d) in
    ground (arith, ih)

-- Where descriptors have the numbers of their allocation: `FreeTaskAndAncestors` on task `t` ends, after
-- at most `t + 2` rounds. Either the releasable ancestors form a chain up to the root or to an allocated
-- ancestor that is still needed, and it frees exactly these; or they end in a descriptor that was
-- freed before, and it faults, as it reads that descriptor.
pub free_task_and_ancestors-Ends :
    (t : ℕ) (s : Store)
    → ParentsOlder s
    → ((l : List ℕ) × Chain s (some t) l
        × (free_task_and_ancestors (t + 2) t s ≡ freed (free_all l s)))
      ⊎ (Dangling s (some t) × (free_task_and_ancestors (t + 2) t s ≡ fault))
unfolding free_task_and_ancestors
free_task_and_ancestors-Ends t s older =
    elim (climb (t + 1) (t + 1) s (some t) older (omega arith) (omega arith)) [
      | inl (l, c, short, low) ↦ inl (l, c, free_from-Chain (t + 2) c (omega arith))
      | inr d ↦ inr (d, free_from-Dangling (t + 2) (t + 1) older (omega arith) (omega arith) d)
    ]
