-- ===== src/Inode/Rename/Run.antt =====
-- What the handler of `rename` does with the log, whatever the lower file system answers.
use trace_file_system.Prelude.{
  ℕ, ℤ, pos, ◌≡◌, ◌≢◌, refl, ◌+◌, ◌%◌, ◌^◌, Option, some, none, IsInt, arith, List, bit_and,
}
use trace_file_system.Exec.{Env, World, Trace}
use trace_file_system.Record.{tr_rename}
use trace_file_system.Kernel.{
  Ptr, KPath, Trfs, Call, d_inode, vfs_rename, spin_lock, spin_unlock, path_get, path_put,
  dget_parent, dput, lock_rename, unlock_rename,
}
use trace_file_system.Kernel.Path.{trfs_get_lower_path, trfs_put_lower_path}
use trace_file_system.Dump.{dentry, log_operation}
use trace_file_system.Dump.Fill.{rename}
use trace_file_system.Dump.Log.{LogIs, log_file}
use trace_file_system.Dump.Switch.{IsHealthy}
use trace_file_system.Lookup.Interpose.{SameLog}
use trace_file_system.Inode.Traced.{Traced, InSuperAt, called, handler_lem, Handled-Traced, Handled}
use trace_file_system.Inode.Rename.{lower_rename, trfs_rename}

-- The lower file system's `rename` returns an `int`.
abbrev pub RenamesInt : Env Call → Type 0
RenamesInt env = (a b c d : Ptr) (t : Trace Call) → IsInt (env.reply (vfs_rename a b c d) t)

module _ (env : Env Call) (old_d new_d : Ptr) (old_path new_path : KPath) where
  abbrev pub pathed : World Call Trfs → World Call Trfs
  pathed w = called env (spin_unlock new_d) (
      called env (path_get new_path) (
        called env (spin_lock new_d) (
          called env (spin_unlock old_d)
            (called env (path_get old_path) (called env (spin_lock old_d) w)))))

  -- the lower directories, the trap and the state in which they are locked
  abbrev pub lower_old_dir : World Call Trfs → Ptr
  lower_old_dir w = env.reply (dget_parent old_path.dentry) (pathed w).trace

  abbrev old_held : World Call Trfs → World Call Trfs
  old_held w = called env (dget_parent old_path.dentry) (pathed w)

  abbrev pub lower_new_dir : World Call Trfs → Ptr
  lower_new_dir w = env.reply (dget_parent new_path.dentry) (old_held w).trace

  abbrev new_held : World Call Trfs → World Call Trfs
  new_held w = called env (dget_parent new_path.dentry) (old_held w)

  abbrev pub trap : World Call Trfs → Ptr
  trap w = env.reply (lock_rename (lower_old_dir w) (lower_new_dir w)) (new_held w).trace

  abbrev pub locked : World Call Trfs → World Call Trfs
  locked w = called env (lock_rename (lower_old_dir w) (lower_new_dir w)) (new_held w)

  abbrev unlocked : World Call Trfs → World Call Trfs → World Call Trfs
  unlocked w v = called env (path_put new_path) (
      called env (path_put old_path) (
        called env (dput (lower_new_dir w)) (
          called env (dput (lower_old_dir w))
            (called env (unlock_rename (lower_old_dir w) (lower_new_dir w)) v))))

  locked-SameLog : (f : Ptr) (w : World Call Trfs) → SameLog f w (locked w)
  unfolding log_file
  locked-SameLog f w = (refl, refl, refl)

  unlocked-SameLog : (f : Ptr) (w v : World Call Trfs) → SameLog f v (unlocked w v)
  unfolding log_file
  unlocked-SameLog f w v = (refl, refl, refl)

  module _ (old_dir new_dir : Ptr) (w : World Call Trfs) where
    abbrev body : Option (ℤ × World Call Trfs)
    body =
        lower_rename old_dir new_dir (lower_old_dir w) (lower_new_dir w) (trap w) old_path new_path
          env (locked w)

    lower_rename_returns :
        (w' : World Call Trfs) (a b c : Ptr)
        → lower_rename old_dir new_dir a b c old_path new_path env w' ≢ none
    unfolding lower_rename
    lower_rename_returns w' a b c = ground arith

    lower_rename-SameLog :
        RenamesInt env
        → (f : Ptr) (w0 : World Call Trfs) (a b c : Ptr) {err : ℤ} {w' : World Call Trfs}
        → lower_rename old_dir new_dir a b c old_path new_path env w0 ≡ some (err, w')
        → SameLog f w0 w' × IsInt err
    unfolding lower_rename log_file
    lower_rename-SameLog ints f w0 a b c h = ground (
      arith,
      ints (env.reply (d_inode a) w0.trace) old_path.dentry (env.reply (d_inode b) w0.trace)
          new_path.dentry w0.trace,
    )

    rename_runs :
        (sb : Ptr) (err : ℤ) (w1 w2 : World Call Trfs)
        → InSuperAt env sb old_d w1
        → w.vars.d_fsdata old_d ≡ some old_path
        → w.vars.d_fsdata new_d ≡ some new_path
        → body ≡ some (err, w1)
        → log_operation sb tr_rename old_d (pos 0) (pos 0) err (dentry new_d) (pos 0) env w1
          ≡ some (tt, w2)
        → trfs_rename old_dir old_d new_dir new_d env w ≡ some (err, unlocked w w2)
    unfolding trfs_rename trfs_get_lower_path trfs_put_lower_path
    rename_runs sb err w1 w2 super old new h k = ground (arith, super.inode, super.super)

-- Behind the work of the lower file system the old dentry has an inode of the mount.
abbrev pub Stays : Env Call → Ptr → Ptr → Ptr → Ptr → Ptr → KPath → KPath → World Call Trfs → Type 0
Stays env sb old_dir old_d new_dir new_d old_path new_path w =
    (err : ℤ) (w1 : World Call Trfs)
    → body env old_d new_d old_path new_path old_dir new_dir w ≡ some (err, w1)
    → InSuperAt env sb old_d w1

-- `trfs_rename` comes to an end in the code that logs it.
pub trfs_rename-Handled :
    (env : Env Call) (sb f : Ptr)
    → RenamesInt env
    → (old_dir old_d new_dir new_d : Ptr) (old_path new_path : KPath) (w : World Call Trfs)
    → Stays env sb old_dir old_d new_dir new_d old_path new_path w
    → w.vars.d_fsdata old_d ≡ some old_path
    → w.vars.d_fsdata new_d ≡ some new_path
    → Handled env
        (trfs_rename old_dir old_d new_dir new_d env w)
        sb
        f
        rename
        old_d
        (pos 0)
        (pos 0)
        (dentry new_d)
        w
trfs_rename-Handled env sb f ints old_dir old_d new_dir new_d old_path new_path w super old new =
    let ready = locked env old_d new_d old_path new_path w in
    handler_lem env sb f rename old_d (pos 0) (pos 0) (dentry new_d)
      (trfs_rename old_dir old_d new_dir new_d env w) w
      (unlocked env old_d new_d old_path new_path w)
      (body env old_d new_d old_path new_path old_dir new_dir w) ready
      (locked-SameLog env old_d new_d old_path new_path f w)
      (lower_rename_returns env old_d new_d old_path new_path old_dir new_dir w ready _ _ _)
      (λ err w1.
        lower_rename-SameLog env old_d new_d old_path new_path old_dir new_dir w ints f ready _ _ _)
      (unlocked-SameLog env old_d new_d old_path new_path f w)
      (λ err w1 w2 h k.
        rename_runs env old_d new_d old_path new_path old_dir new_dir w sb err w1 w2
          (super err w1 h) old new h k)

-- With the mask's bit for it set and a healthy kernel, `rename` comes to an end if the old
-- dentry has an inode of the mount behind the work of the lower file system, whatever
-- `lock_rename` and the lower file system answer, and one record stands behind what was in the log:
-- it describes the operation, with the result that the handler returns and the old path.
pub trfs_rename-Traced :
    (env : Env Call) (sb f : Ptr) (umask : ℕ) (file : List ℕ)
    → IsHealthy env sb
    → RenamesInt env
    → (old_dir old_d new_dir new_d : Ptr) (old_path new_path : KPath) (w : World Call Trfs)
    → Stays env sb old_dir old_d new_dir new_d old_path new_path w
    → LogIs sb f umask file w
    → bit_and tr_rename umask ≡ tr_rename
    → w.vars.d_fsdata old_d ≡ some old_path
    → w.vars.d_fsdata new_d ≡ some new_path
    → Traced env
        (trfs_rename old_dir old_d new_dir new_d env w)
        sb
        f
        umask
        file
        rename
        old_d
        (pos 0)
        (pos 0)
        (dentry new_d)
        ((w.vars.trecord_id + 1) % 2 ^ 32)
trfs_rename-Traced env sb f umask file healthy ints old_dir old_d new_dir new_d old_path new_path w
      super at on old new =
    Handled-Traced env sb f rename old_d (pos 0) (pos 0) (dentry new_d)
      (trfs_rename old_dir old_d new_dir new_d env w) w umask file healthy tt at on
      (trfs_rename-Handled env sb f ints old_dir old_d new_dir new_d old_path new_path w super old
        new)
