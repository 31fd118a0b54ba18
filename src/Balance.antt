-- ===== src/Balance.antt =====
-- What the handlers take of the kernel and give back: references to paths and dentries, and locks.
pub mod Log
pub mod Interpose
pub mod Lower
pub mod Parent
pub mod Handlers
pub mod Files
pub mod Others
use trace_file_system.Prelude.{ℕ, ◌+◌, ◌≡◌, ◌==ℤ◌, true, not, ◌||◌, [], ◌∷◌}
use trace_file_system.Exec.{Trace, World}
use trace_file_system.Kernel.{
  Ptr, null, Trfs, Call, path_get, path_put, dget, dget_parent, dput, inode_lock, inode_unlock,
  spin_lock, spin_unlock, mutex_lock, mutex_unlock, lock_rename, unlock_rename,
}

pub data Resource : Type 0 where
  paths dentries inode_locks spin_locks mutexes rename_locks : Resource

-- How many of a resource a call takes, and gives back.
abbrev takes : Resource → Call → ℕ
takes paths (path_get p) = 1
takes dentries (dget p) = 1
takes dentries (dget_parent p) = 1
takes inode_locks (inode_lock p) = 1
takes spin_locks (spin_lock p) = 1
takes mutexes (mutex_lock p) = 1
takes rename_locks (lock_rename p q) = 1
takes _ _ = 0

abbrev gives : Resource → Call → ℕ
gives paths (path_put p) = 1
gives dentries (dput p) = 1
gives inode_locks (inode_unlock p) = 1
gives spin_locks (spin_unlock p) = 1
gives mutexes (mutex_unlock p) = 1
gives rename_locks (unlock_rename p q) = 1
gives _ _ = 0

unfoldable pub taken : Resource → Trace Call → ℕ
taken k [] = 0
taken k ((c, r) ∷ t) = takes k c + taken k t

unfoldable pub given : Resource → Trace Call → ℕ
given k [] = 0
given k ((c, r) ∷ t) = gives k c + given k t

-- From `w` to `w'` as many of a resource were given back as were taken.
abbrev pub Returned : Resource → World Call Trfs → World Call Trfs → Type 0
Returned k w w' = taken k w'.trace + given k w.trace ≡ taken k w.trace + given k w'.trace

-- That of every resource.
abbrev pub Balanced : World Call Trfs → World Call Trfs → Type 0
Balanced w w' =
    Returned paths w w'
    × Returned dentries w w'
    × Returned inode_locks w w'
    × Returned spin_locks w w'
    × Returned mutexes w w'
    × Returned rename_locks w w'

-- From `w` to `w'` the private data of dentries and files are as they were, and if the inode `i` had
-- a lower one it still has.
abbrev pub Kept : Ptr → World Call Trfs → World Call Trfs → Type 0
Kept i w w' =
    (w'.vars.d_fsdata ≡ w.vars.d_fsdata)
    × (w'.vars.private_data ≡ w.vars.private_data)
    × (((w.vars.lower_inode i ==ℤ null) || not (w'.vars.lower_inode i ==ℤ null)) ≡ true)

abbrev pub Tidy : Ptr → World Call Trfs → World Call Trfs → Type 0
Tidy i w w' = Balanced w w' × Kept i w w'
