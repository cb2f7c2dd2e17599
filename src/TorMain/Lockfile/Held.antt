-- ===== src/TorMain/Lockfile/Held.antt =====
-- Taking and giving back the lock of app/startup/main.c.
use tor_onion.Common.{ℕ, ◌+◌, ◌≡◌, Bool, false, Option, none, some, ◌∷◌, arith, if◌then◌else◌, ◌&&◌}
use tor_onion.Common.Int.{pos, negsuc}
use tor_onion.TorMain.Lockfile.{
  LockAnswer, locked, refused, Lockfile, lock_once, says_already, try_locking_again, try_locking,
  have_lockfile, release_lockfile,
}

-- The lock that an answer gives.
abbrev pub given : LockAnswer → Option ℕ
given (locked lf) = some lf
given (refused b) = none

-- For a process that does not hold the lock: try_locking returns 0 exactly if the process holds it
-- afterwards. It asks once; it sleeps 5 seconds and asks a second time, but no third, exactly if the
-- caller wants to wait and the first answer was that another process holds the lock. What it then
-- holds is what the last answer gave.
pub try_locking_lem :
    (err_if_locked : Bool) (first second : LockAnswer) (s : Lockfile)
    → s.lockfile ≡ none
    → let again = err_if_locked && says_already first in
      let (r, s') = try_locking err_if_locked first second s in
      (r ≡ (if have_lockfile s' then pos 0 else negsuc 0))
      × (s'.lockfile ≡ given (if again then second else first))
      × (s'.asked ≡ s.asked + (if again then 2 else 1))
      × (s'.slept ≡ s.slept + (if again then 5 else 0))
      × (s'.unlocked ≡ s.unlocked)
unfolding try_locking try_locking_again lock_once have_lockfile
try_locking_lem e (locked lf) second s h = ground arith
try_locking_lem e (refused b) (locked lf) s h = ground arith
try_locking_lem e (refused b) (refused b') s h = ground arith

-- A lock that was taken is given back once, and then no lock is held; a second release does nothing.
pub release-try_locking :
    (err_if_locked : Bool) (first second : LockAnswer) (s : Lockfile) (lf : ℕ)
    → s.lockfile ≡ none
    → (try_locking err_if_locked first second s).1.lockfile ≡ some lf
    → let s' = release_lockfile (try_locking err_if_locked first second s).1 in
      (have_lockfile s' ≡ false) × (s'.unlocked ≡ lf ∷ s.unlocked) × (release_lockfile s' ≡ s')
unfolding release_lockfile have_lockfile
release-try_locking e first second s lf h k = ground (arith, try_locking_lem e first second s)
