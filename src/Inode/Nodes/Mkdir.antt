-- ===== src/Inode/Nodes/Mkdir.antt =====
-- What the handler of `mkdir` does with the log, whatever the lower file system answers.
use trace_file_system.Prelude.{
  ℕ, ℤ, pos, ◌≡◌, ◌≢◌, ◌==ℤ◌, ◌+◌, ◌%◌, ◌^◌, false, some, none, IsInt, arith, List, bit_and,
  Option-cases, inl, inr,
}
use trace_file_system.Exec.{Env, World}
use trace_file_system.Record.{tr_dcreat}
use trace_file_system.Kernel.{Ptr, null, KPath, SbInfo, Trfs, Call, d_inode, vfs_mkdir}
use trace_file_system.Kernel.Path.{
  trfs_get_lower_path, trfs_put_lower_path, lock_parent, unlock_dir,
}
use trace_file_system.Dump.{no_aux, log_operation}
use trace_file_system.Dump.Fill.{dcreat}
use trace_file_system.Dump.Log.{LogIs, log_file}
use trace_file_system.Dump.Switch.{IsHealthy}
use trace_file_system.Lookup.{trfs_interpose}
use trace_file_system.Lookup.Interpose.{
  SameLog, trfs_interpose_returns, trfs_interpose-SameLog, trfs_interpose-lower,
}
use trace_file_system.Inode.Traced.{
  Traced, IsMounted, MakesAt, called, handler_lem, Handled-Traced, Handled, lower_parent, locked,
  unlocked, locked-SameLog, unlocked-SameLog,
}
use trace_file_system.Inode.Nodes.{lower_mkdir, trfs_mkdir}

-- The lower file system's `mkdir` makes an inode, or fails.
abbrev pub Makes : Env Call → Type 0
Makes env = (p d : Ptr) (mode : ℤ) → MakesAt env (vfs_mkdir p d mode) d

module _ (env : Env Call) (sb dir : Ptr) (mounted : IsMounted env sb dir) (d : Ptr) (mode : ℤ)
    (path : KPath) (parent : Ptr) (w : World Call Trfs) where
  -- after the call of the lower file system
  abbrev made : World Call Trfs
  made = called env (vfs_mkdir (env.reply (d_inode parent) w.trace) path.dentry mode) w

  lower_mkdir_returns :
      Makes env
      → (info : SbInfo) → w.vars.s_fs_info sb ≡ some info
      → (w.vars.lower_inode dir ==ℤ null) ≡ false
      → lower_mkdir dir d mode path parent env w ≢ none
  unfolding lower_mkdir
  lower_mkdir_returns makes info at low =
      let sb_of = mounted.dir_super made.trace in
      let inode = (makes (env.reply (d_inode parent) w.trace) path.dentry mode).inode w.trace in
      elim (Option-cases (trfs_interpose d sb path env made)) [
        | inl e ↦
            ground (arith, mounted.dir_inode, inode, trfs_interpose_returns env made d sb path info)
        | inr ((err, w1), e) ↦ ground (
          arith,
          mounted.dir_inode,
          inode,
          λ (n : (env.reply (d_inode path.dentry) made.trace ==ℤ null) ≡ false).
              trfs_interpose-lower env dir made d sb path n low e,
        )
      ]

  lower_mkdir-SameLog :
      Makes env
      → (f : Ptr) {err : ℤ} {w' : World Call Trfs}
      → lower_mkdir dir d mode path parent env w ≡ some (err, w')
      → SameLog f w w' × IsInt err
  unfolding lower_mkdir log_file
  lower_mkdir-SameLog makes f h =
      let sb_of = mounted.dir_super made.trace in
      let int = (makes (env.reply (d_inode parent) w.trace) path.dentry mode).int w.trace in
      elim (Option-cases (trfs_interpose d sb path env made)) [
        | inl e ↦ ground (arith, mounted.dir_inode)
        | inr ((err, w1), e) ↦
            ground (arith, mounted.dir_inode, trfs_interpose-SameLog env f made d sb path e)
      ]

mkdir_runs :
    (env : Env Call) (d : Ptr) (path : KPath) (sb dir : Ptr) (w w1 w2 : World Call Trfs)
    (mode err : ℤ)
    → IsMounted env sb dir
    → w.vars.d_fsdata d ≡ some path
    → lower_mkdir dir d mode path (lower_parent env d path w) env (locked env d path w)
      ≡ some (err, w1)
    → log_operation sb tr_dcreat d (pos 0) mode err no_aux (pos 0) env w1 ≡ some (tt, w2)
    → trfs_mkdir dir d mode env w ≡ some (err, unlocked env d path (lower_parent env d path w) w2)
unfolding trfs_mkdir trfs_get_lower_path lock_parent unlock_dir trfs_put_lower_path
mkdir_runs env d path sb dir w w1 w2 mode err mounted at h k =
    ground (arith, mounted.dir_inode, mounted.dir_super w1.trace)

-- `trfs_mkdir` comes to an end in the code that logs it.
pub trfs_mkdir-Handled :
    (env : Env Call) (sb f : Ptr)
    → (dir : Ptr) → IsMounted env sb dir
    → Makes env
    → (d : Ptr) (path : KPath) (mode : ℤ) (w : World Call Trfs) → (info : SbInfo)
    → w.vars.s_fs_info sb ≡ some info
    → (w.vars.lower_inode dir ==ℤ null) ≡ false
    → w.vars.d_fsdata d ≡ some path
    → Handled env (trfs_mkdir dir d mode env w) sb f dcreat d (pos 0) mode no_aux w
trfs_mkdir-Handled env sb f dir mounted makes d path mode w info at low dpath =
    let parent = lower_parent env d path w in
    let ready = locked env d path w in
    handler_lem env sb f dcreat d (pos 0) mode no_aux (trfs_mkdir dir d mode env w) w
      (unlocked env d path parent) (lower_mkdir dir d mode path parent env ready) ready
      (locked-SameLog env d path f w)
      (lower_mkdir_returns env sb dir mounted d mode path parent ready makes info at low)
      (λ err w1. lower_mkdir-SameLog env sb dir mounted d mode path parent ready makes f)
      (unlocked-SameLog env d path f parent)
      (λ err w1 w2. mkdir_runs env d path sb dir w w1 w2 mode err mounted dpath)

-- With the mask's bit for it set and a healthy kernel, `mkdir` in a directory that has a lower inode
-- comes to an end on a mounted file system, whatever the lower file system answers, and one record
-- stands behind what was in the log: it describes the operation, with the result that the handler
-- returns, the mode and the path of the dentry.
pub trfs_mkdir-Traced :
    (env : Env Call) (sb f : Ptr) (umask : ℕ) (file : List ℕ)
    → IsHealthy env sb
    → (dir : Ptr) → IsMounted env sb dir
    → Makes env
    → (d : Ptr) (path : KPath) (mode : ℤ) (w : World Call Trfs)
    → (w.vars.lower_inode dir ==ℤ null) ≡ false
    → LogIs sb f umask file w
    → bit_and tr_dcreat umask ≡ tr_dcreat
    → w.vars.d_fsdata d ≡ some path
    → Traced env
        (trfs_mkdir dir d mode env w)
        sb
        f
        umask
        file
        dcreat
        d
        (pos 0)
        mode
        no_aux
        ((w.vars.trecord_id + 1) % 2 ^ 32)
trfs_mkdir-Traced env sb f umask file healthy dir mounted makes d path mode w low at on dpath =
    Handled-Traced env sb f dcreat d (pos 0) mode no_aux (trfs_mkdir dir d mode env w) w umask file
      healthy tt at on
      (trfs_mkdir-Handled env sb f dir mounted makes d path mode w at.info at.mounted low dpath)
