-- ===== src/Inode/Nodes/Rmdir.antt =====
-- What the handler of `rmdir` does with the log, whatever the lower file system answers.
use trace_file_system.Prelude.{
  ℕ, ℤ, pos, ◌≡◌, ◌≢◌, ◌+◌, ◌%◌, ◌^◌, ◌==ℤ◌, false, some, none, IsInt, arith, List, bit_and,
}
use trace_file_system.Exec.{Env, World, Trace}
use trace_file_system.Record.{tr_unlink}
use trace_file_system.Kernel.{Ptr, KPath, Trfs, Call, null, d_inode, dget_parent, vfs_rmdir}
use trace_file_system.Kernel.Path.{
  trfs_get_lower_path, trfs_put_lower_path, lock_parent, unlock_dir,
}
use trace_file_system.Dump.{no_aux, log_operation}
use trace_file_system.Dump.Fill.{unlink}
use trace_file_system.Dump.Log.{LogIs, log_file}
use trace_file_system.Dump.Switch.{IsHealthy}
use trace_file_system.Lookup.Interpose.{SameLog}
use trace_file_system.Inode.Traced.{
  Traced, IsMounted, handler_lem, Handled-Traced, Handled, lower_parent, locked, unlocked,
  locked-SameLog, unlocked-SameLog,
}
use trace_file_system.Inode.Nodes.{copy_removed, lower_rmdir, trfs_rmdir}

-- The lower file system's `rmdir` returns an `int`.
abbrev pub RemovesInt : Env Call → Type 0
RemovesInt env = (a b : Ptr) (t : Trace Call) → IsInt (env.reply (vfs_rmdir a b) t)

-- A dentry that is the parent of another one has an inode.
abbrev pub ParentsHaveInodes : Env Call → Type 0
ParentsHaveInodes env =
    (d : Ptr) (t t' : Trace Call)
    → (env.reply (d_inode (env.reply (dget_parent d) t)) t' ==ℤ null) ≡ false

module _ (env : Env Call) (d : Ptr) (path : KPath) (dir : Ptr) where
  lower_rmdir_returns :
      (w : World Call Trfs) (lower_dir : Ptr)
      → ((t : Trace Call) → (env.reply (d_inode lower_dir) t ==ℤ null) ≡ false)
      → lower_rmdir dir d path lower_dir env w ≢ none
  unfolding lower_rmdir copy_removed
  lower_rmdir_returns w lower_dir inode = grind (arith, inode)

  lower_rmdir-SameLog :
      RemovesInt env
      → (f : Ptr) (w : World Call Trfs) (lower_dir : Ptr) {err : ℤ} {w' : World Call Trfs}
      → lower_rmdir dir d path lower_dir env w ≡ some (err, w')
      → SameLog f w w' × IsInt err
  unfolding lower_rmdir copy_removed log_file
  lower_rmdir-SameLog ints f w lower_dir h =
      ground (arith, ints (env.reply (d_inode lower_dir) w.trace) path.dentry w.trace)

  rmdir_runs :
      (sb : Ptr) (w w1 w2 : World Call Trfs) (err : ℤ)
      → IsMounted env sb dir
      → w.vars.d_fsdata d ≡ some path
      → lower_rmdir dir d path (lower_parent env d path w) env (locked env d path w)
        ≡ some (err, w1)
      → log_operation sb tr_unlink d (pos 0) (pos 0) err no_aux (pos 0) env w1 ≡ some (tt, w2)
      → trfs_rmdir dir d env w ≡ some (err, unlocked env d path (lower_parent env d path w) w2)
  unfolding trfs_rmdir trfs_get_lower_path lock_parent unlock_dir trfs_put_lower_path
  rmdir_runs sb w w1 w2 err mounted at h k =
      ground (arith, mounted.dir_inode, mounted.dir_super w1.trace)

-- `trfs_rmdir` comes to an end in the code that logs it.
pub trfs_rmdir-Handled :
    (env : Env Call) (sb f : Ptr)
    → (dir : Ptr) → IsMounted env sb dir
    → RemovesInt env
    → ParentsHaveInodes env
    → (d : Ptr) (path : KPath) (w : World Call Trfs) → w.vars.d_fsdata d ≡ some path
    → Handled env (trfs_rmdir dir d env w) sb f unlink d (pos 0) (pos 0) no_aux w
trfs_rmdir-Handled env sb f dir mounted ints parents d path w dpath =
    let parent = lower_parent env d path w in
    let ready = locked env d path w in
    handler_lem env sb f unlink d (pos 0) (pos 0) no_aux (trfs_rmdir dir d env w) w
      (unlocked env d path parent) (lower_rmdir dir d path parent env ready) ready
      (locked-SameLog env d path f w)
      (lower_rmdir_returns env d path dir ready parent (parents path.dentry _))
      (λ err w1. lower_rmdir-SameLog env d path dir ints f ready parent)
      (unlocked-SameLog env d path f parent)
      (λ err w1 w2. rmdir_runs env d path dir sb w w1 w2 err mounted dpath)

-- With the mask's bit for `unlink` set and a healthy kernel, `rmdir` comes to an end on a mounted
-- file system, whatever the lower file system answers, and one record stands behind what was in the
-- log: it describes an unlink, with the result that the handler returns and the path of the dentry.
pub trfs_rmdir-Traced :
    (env : Env Call) (sb f : Ptr) (umask : ℕ) (file : List ℕ)
    → IsHealthy env sb
    → (dir : Ptr) → IsMounted env sb dir
    → RemovesInt env
    → ParentsHaveInodes env
    → (d : Ptr) (path : KPath) (w : World Call Trfs) → LogIs sb f umask file w
    → bit_and tr_unlink umask ≡ tr_unlink
    → w.vars.d_fsdata d ≡ some path
    → Traced env
        (trfs_rmdir dir d env w)
        sb
        f
        umask
        file
        unlink
        d
        (pos 0)
        (pos 0)
        no_aux
        ((w.vars.trecord_id + 1) % 2 ^ 32)
trfs_rmdir-Traced env sb f umask file healthy dir mounted ints parents d path w at on dpath =
    Handled-Traced env sb f unlink d (pos 0) (pos 0) no_aux (trfs_rmdir dir d env w) w umask file
      healthy tt at on (trfs_rmdir-Handled env sb f dir mounted ints parents d path w dpath)
