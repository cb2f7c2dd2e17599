-- ===== src/TorMain/Lockfile.antt =====
-- app/startup/main.c: the lock on the data directory.
pub mod Held
use tor_onion.Common.{
  ℕ, Bool, true, false, not, ◌&&◌, ◌+◌, suc, Option, none, some, List, [], ◌∷◌, is_some,
  if◌then◌else◌,
}
use tor_onion.Common.Int.{ℤ, pos, negsuc}

-- What tor_lockfile_lock answers: a lock, or NULL with already_locked.
pub data LockAnswer : Type 0 where
  locked : ℕ → LockAnswer
  refused : Bool → LockAnswer

-- `lockfile`, and what was done: locks that were asked for, seconds slept, locks given back.
pub record Lockfile : Type 0 where
  pub lockfile : Option ℕ
  pub asked : ℕ
  pub slept : ℕ
  pub unlocked : List ℕ

pub lock_once : LockAnswer → Lockfile → Lockfile
lock_once (locked lf) s = record s { lockfile = some lf; asked = suc s.asked }
lock_once (refused b) s = record s { asked = suc s.asked }

abbrev pub is_locked : LockAnswer → Bool
is_locked (locked lf) = true
is_locked (refused b) = false

abbrev pub says_already : LockAnswer → Bool
says_already (locked lf) = false
says_already (refused b) = b

-- The call in which err_if_locked is 0.
pub try_locking_again : LockAnswer → Lockfile → ℤ × Lockfile
unfolding lock_once
try_locking_again a s =
    if is_some s.lockfile
    then (pos 0, s)
    else (if is_locked a then pos 0 else negsuc 0, lock_once a s)

-- `first` and `second` answer the two calls of tor_lockfile_lock that there can be.
pub try_locking : Bool → LockAnswer → LockAnswer → Lockfile → ℤ × Lockfile
unfolding lock_once try_locking_again
try_locking err_if_locked first second s =
    if is_some s.lockfile
    then (pos 0, s)
    else let s1 = lock_once first s in
      if is_locked first
      then (pos 0, s1)
      else if err_if_locked && says_already first
      then try_locking_again second (record s1 { slept = s1.slept + 5 })
      else (negsuc 0, s1)

pub have_lockfile : Lockfile → Bool
have_lockfile s = is_some s.lockfile

pub release_lockfile : Lockfile → Lockfile
release_lockfile s = elim s.lockfile [
  | none ↦ s
  | some lf ↦ record s { lockfile = none; unlocked = lf ∷ s.unlocked }
]
