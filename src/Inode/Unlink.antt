-- ===== src/Inode/Unlink.antt =====
-- What the handler of `unlink` does with the log, whatever the lower file system answers.
use trace_file_system.Prelude.{
  ℕ, ℤ, pos, ◌≡◌, ◌≢◌, refl, ◌+◌, ◌%◌, ◌^◌, Option, some, none, IsInt, arith, List, bit_and,
}
use trace_file_system.Exec.{Env, World, Trace}
use trace_file_system.Record.{tr_unlink}
use trace_file_system.Kernel.{
  fsstack_copy_attr_times, fsstack_copy_inode_size, Ptr, KPath, Trfs, Call, d_inode, vfs_unlink,
  spin_lock, spin_unlock, path_get, path_put, dget, dput, dget_parent, inode_lock, inode_unlock,
}
use trace_file_system.Kernel.Path.{
  trfs_get_lower_path, trfs_put_lower_path, lock_parent, unlock_dir,
}
use trace_file_system.Dump.{no_aux, log_operation}
use trace_file_system.Dump.Fill.{unlink}
use trace_file_system.Dump.Log.{LogIs, log_file}
use trace_file_system.Dump.Switch.{IsHealthy}
use trace_file_system.Lookup.Interpose.{SameLog}
use trace_file_system.Inode.Traced.{
  Traced, IsMounted, HasLowerAt, called, handler_lem, Handled-Traced, Handled,
}
use trace_file_system.Inode.{copy_unlinked, lower_unlink, trfs_unlink, unlink_result}

-- The lower file system's `unlink` returns an `int`.
abbrev pub UnlinksInt : Env Call → Type 0
UnlinksInt env = (a b : Ptr) (t : Trace Call) → IsInt (env.reply (vfs_unlink a b) t)

unlink_result-IsInt : (err flags : ℤ) → IsInt err → IsInt (unlink_result err flags)
unlink_result-IsInt err flags h = ground arith

module _ (env : Env Call) (d : Ptr) (path : KPath) where
  -- when the lower path and the lower dentry are held, and then when the parent is locked
  abbrev held : World Call Trfs → World Call Trfs
  held w =
      called env (dget path.dentry)
        (called env (spin_unlock d) (called env (path_get path) (called env (spin_lock d) w)))

  abbrev pub parent : World Call Trfs → Ptr
  parent w = env.reply (dget_parent path.dentry) (held w).trace

  abbrev pub locked : World Call Trfs → World Call Trfs
  locked w =
      let v = called env (dget_parent path.dentry) (held w) in
      called env (inode_lock (env.reply (d_inode (parent w)) v.trace)) v

  abbrev unlocked : World Call Trfs → World Call Trfs → World Call Trfs
  unlocked w v = called env (path_put path) (
      called env (dput path.dentry) (
        called env (dput (parent w))
          (called env (inode_unlock (env.reply (d_inode (parent w)) v.trace)) v)))

  locked-SameLog : (f : Ptr) (w : World Call Trfs) → SameLog f w (locked w)
  unfolding log_file
  locked-SameLog f w = (refl, refl, refl)

  unlocked-SameLog : (f : Ptr) (w v : World Call Trfs) → SameLog f v (unlocked w v)
  unfolding log_file
  unlocked-SameLog f w v = (refl, refl, refl)

  -- behind a removal by the lower file system and the copy of the directory's attributes
  abbrev pub removed : Ptr → Ptr → World Call Trfs → World Call Trfs
  removed dir lower_dir w0 = called env (fsstack_copy_inode_size dir lower_dir) (
      called env (fsstack_copy_attr_times dir lower_dir)
        (called env (vfs_unlink lower_dir path.dentry) w0))

  module _ (dir : Ptr) (w : World Call Trfs) where
    abbrev body : Option (ℤ × World Call Trfs)
    body = lower_unlink dir d (w.vars.lower_inode dir) path env (locked w)

    lower_unlink_returns :
        (w0 : World Call Trfs) (lower_dir : Ptr)
        → HasLowerAt env (removed dir lower_dir w0) d
        → lower_unlink dir d lower_dir path env w0 ≢ none
    unfolding lower_unlink copy_unlinked
    lower_unlink_returns w0 lower_dir low = ground (arith, low.inode, low.lower)

    lower_unlink-SameLog :
        UnlinksInt env
        → (f : Ptr) (w0 : World Call Trfs) (lower_dir : Ptr) {err : ℤ} {w' : World Call Trfs}
        → lower_unlink dir d lower_dir path env w0 ≡ some (err, w')
        → SameLog f w0 w' × IsInt err
    unfolding lower_unlink copy_unlinked log_file
    lower_unlink-SameLog ints f w0 lower_dir h = ground (arith, ints lower_dir path.dentry w0.trace)

    unlink_runs :
        (sb : Ptr) (err : ℤ) (w1 w2 : World Call Trfs)
        → IsMounted env sb dir
        → w.vars.d_fsdata d ≡ some path
        → body ≡ some (err, w1)
        → log_operation sb tr_unlink d (pos 0) (pos 0) err no_aux (pos 0) env w1 ≡ some (tt, w2)
        → trfs_unlink dir d env w ≡ some (err, unlocked w w2)
    unfolding trfs_unlink trfs_get_lower_path trfs_put_lower_path lock_parent unlock_dir
    unlink_runs sb err w1 w2 mounted at h k =
        ground (arith, mounted.dir_inode, mounted.dir_super w1.trace)

-- Behind the removal by the lower file system the dentry still has its inode of trfs, with a lower
-- one.
abbrev pub StaysOn : Env Call → Ptr → Ptr → KPath → World Call Trfs → Type 0
StaysOn env dir d path w =
    HasLowerAt env (removed env d path dir (w.vars.lower_inode dir) (locked env d path w)) d

-- `trfs_unlink` comes to an end in the code that logs it.
pub trfs_unlink-Handled :
    (env : Env Call) (sb f : Ptr)
    → (dir : Ptr) → IsMounted env sb dir
    → UnlinksInt env
    → (d : Ptr) (path : KPath) (w : World Call Trfs) → StaysOn env dir d path w
    → w.vars.d_fsdata d ≡ some path
    → Handled env (trfs_unlink dir d env w) sb f unlink d (pos 0) (pos 0) no_aux w
trfs_unlink-Handled env sb f dir mounted ints d path w lower dpath =
    let ready = locked env d path w in
    handler_lem env sb f unlink d (pos 0) (pos 0) no_aux (trfs_unlink dir d env w) w
      (unlocked env d path w) (body env d path dir w) ready (locked-SameLog env d path f w)
      (lower_unlink_returns env d path dir w ready _ lower)
      (λ err w1. lower_unlink-SameLog env d path dir w ints f ready _)
      (unlocked-SameLog env d path f w)
      (λ err w1 w2 h k. unlink_runs env d path dir w sb err w1 w2 mounted dpath h k)

-- With the mask's bit for it set and a healthy kernel, `unlink` comes to an end on a mounted file
-- system if the dentry keeps its inode while the lower name is removed, whatever the lower file
-- system answers, and one record stands behind what was in the log: it describes the operation,
-- with the result that the handler returns and the path of the dentry.
pub trfs_unlink-Traced :
    (env : Env Call) (sb f : Ptr) (umask : ℕ) (file : List ℕ)
    → IsHealthy env sb
    → (dir : Ptr) → IsMounted env sb dir
    → UnlinksInt env
    → (d : Ptr) (path : KPath) (w : World Call Trfs) → StaysOn env dir d path w
    → LogIs sb f umask file w
    → bit_and tr_unlink umask ≡ tr_unlink
    → w.vars.d_fsdata d ≡ some path
    → Traced env
        (trfs_unlink dir d env w)
        sb
        f
        umask
        file
        unlink
        d
        (pos 0)
        (pos 0)
        no_aux
        ((w.vars.trecord_id + 1) % 2 ^ 32)
trfs_unlink-Traced env sb f umask file healthy dir mounted ints d path w lower at on dpath =
    Handled-Traced env sb f unlink d (pos 0) (pos 0) no_aux (trfs_unlink dir d env w) w umask file
      healthy tt at on (trfs_unlink-Handled env sb f dir mounted ints d path w lower dpath)
