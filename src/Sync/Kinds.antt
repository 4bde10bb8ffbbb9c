-- ===== src/Sync/Kinds.antt =====
-- src/locks.cc: the kinds of locks that `LOMP_LOCK_KIND` can ask for, and `InitializeLocks`. A kind
-- stands for its function `create`. The speculative lock is in the table only where
-- `LOMP_LOCK_RTM` is defined, which the build never does.
use Prim.Native.String.{String}
use text.Mathlib.Text.{◌==◌ as str_eq}
use lomp.Prelude.{◌≡◌, refl, Bool, true, false, List, [], ◌∷◌, Option, none, some, if◌then◌else◌}

pub data LockKind : Type 0 where
  ttas_bo mcs cxx pthread : LockKind

abbrev pub lock_tags : List (String × LockKind)
lock_tags = ("TTAS", ttas_bo) ∷ ("MCS", mcs) ∷ ("cxx", cxx) ∷ ("pthread", pthread) ∷ []

-- The loop over the table.
abbrev pub find_tag : String → List (String × LockKind) → Option LockKind
find_tag name [] = none
find_tag name ((tag, kind) ∷ tags) =
    let rest = find_tag name tags in if str_eq tag name then some kind else rest

pub record LockFactory : Type 0 where
  pub initialized : Bool
  pub factory : LockKind

abbrev pub default_factory : LockFactory
default_factory = record { initialized = false; factory = cxx }

chosen : LockKind → Option LockKind → LockKind
chosen old none = old
chosen old (some kind) = kind

-- The argument is the envirable's text, `none` where it is not set. A text that names no lock gives
-- a warning.
unfoldable pub initialize_locks : Option String → LockFactory → LockFactory
unfolding chosen
initialize_locks lock_kind s = if s.initialized then s else record {
  initialized = true;
  factory = elim lock_kind [
    | none ↦ s.factory
    | some name ↦ chosen s.factory (find_tag name lock_tags)
  ];
}

-- The name of a kind in the documentation.
abbrev pub tag_of : LockKind → String
tag_of ttas_bo = "TTAS"
tag_of mcs = "MCS"
tag_of cxx = "cxx"
tag_of pthread = "pthread"

-- A first call of `InitializeLocks` with the name of a kind of lock chooses this kind, and a later
-- call changes nothing whatever the envirable is then.
pub initialize_locks-tag :
    (kind : LockKind) (later : Option String)
    → initialize_locks later (initialize_locks (some (tag_of kind)) default_factory)
      ≡ record { initialized = true; factory = kind }
unfolding initialize_locks
initialize_locks-tag ttas_bo later = refl
initialize_locks-tag mcs later = refl
initialize_locks-tag cxx later = refl
initialize_locks-tag pthread later = refl
