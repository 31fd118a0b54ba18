-- ===== src/Inode/Create.antt =====
-- What the handler of `create` does with the log, whatever the lower file system answers.
use trace_file_system.Prelude.{
  ℕ, ℤ, pos, ◌≡◌, ◌≢◌, ◌+◌, ◌%◌, ◌^◌, Bool, some, none, IsInt, arith, Option-cases, inl, inr, List,
  ◌∷◌, bit_and,
}
use trace_file_system.Exec.{Env, World}
use trace_file_system.Record.{tr_fcreat}
use trace_file_system.Kernel.{Ptr, KPath, SbInfo, Trfs, Call, d_inode, vfs_create}
use trace_file_system.Kernel.Path.{
  trfs_get_lower_path, trfs_put_lower_path, lock_parent, unlock_dir,
}
use trace_file_system.Dump.{no_aux, log_operation}
use trace_file_system.Dump.Fill.{fcreat}
use trace_file_system.Dump.Log.{LogIs, log_file}
use trace_file_system.Dump.Switch.{IsHealthy}
use trace_file_system.Lookup.{trfs_interpose}
use trace_file_system.Lookup.Interpose.{SameLog, trfs_interpose_returns, trfs_interpose-SameLog}
use trace_file_system.Inode.Traced.{
  IsMounted, MakesAt, Traced, handler_lem, Handled-Traced, Handled, lower_parent, locked, unlocked,
  locked-SameLog, unlocked-SameLog,
}
use trace_file_system.Inode.{lower_create, trfs_create}

-- The lower file system's `create` makes an inode, or fails.
abbrev pub Creates : Env Call → Type 0
Creates env = (p d : Ptr) (mode : ℤ) (x : Bool) → MakesAt env (vfs_create p d mode x) d

module _ (env : Env Call) (sb dir : Ptr) (mounted : IsMounted env sb dir) (creates : Creates env)
    (w : World Call Trfs) (d : Ptr) (mode : ℤ) (excl : Bool) (path : KPath) (parent : Ptr) where
  -- after the call of the lower file system
  abbrev created : World Call Trfs
  created =
      let c = vfs_create (env.reply (d_inode parent) w.trace) path.dentry mode excl in
      record w { trace = (c, env.reply c w.trace) ∷ w.trace }

  lower_create_returns :
      (info : SbInfo)
      → w.vars.s_fs_info sb ≡ some info
      → lower_create dir d mode excl path parent env w ≢ none
  unfolding lower_create
  lower_create_returns info at =
      let sb_of = mounted.dir_super created.trace in
      let made = creates (env.reply (d_inode parent) w.trace) path.dentry mode excl in
      elim (Option-cases (trfs_interpose d sb path env created)) [
        | inl e ↦ ground (
          arith,
          mounted.dir_inode,
          made.inode w.trace,
          trfs_interpose_returns env created d sb path info,
        )
        | inr ((err, w1), e) ↦ ground (arith, mounted.dir_inode)
      ]

  lower_create-SameLog :
      (f : Ptr) {err : ℤ} {w' : World Call Trfs}
      → lower_create dir d mode excl path parent env w ≡ some (err, w')
      → SameLog f w w' × IsInt err
  unfolding lower_create log_file
  lower_create-SameLog f h =
      let sb_of = mounted.dir_super created.trace in
      let int = (creates (env.reply (d_inode parent) w.trace) path.dentry mode excl).int w.trace in
      elim (Option-cases (trfs_interpose d sb path env created)) [
        | inl e ↦ ground (arith, mounted.dir_inode)
        | inr ((err, w1), e) ↦
            ground (arith, mounted.dir_inode, trfs_interpose-SameLog env f created d sb path e)
      ]

module _ (env : Env Call) (d : Ptr) (path : KPath) where
  create_runs :
      (sb dir : Ptr) (w w1 w2 : World Call Trfs) (mode err : ℤ) (excl : Bool)
      → IsMounted env sb dir
      → w.vars.d_fsdata d ≡ some path
      → lower_create dir d mode excl path (lower_parent env d path w) env (locked env d path w)
        ≡ some (err, w1)
      → log_operation sb tr_fcreat d (pos 0) mode err no_aux (pos 0) env w1 ≡ some (tt, w2)
      → trfs_create dir d mode excl env w
        ≡ some (err, unlocked env d path (lower_parent env d path w) w2)
  unfolding trfs_create trfs_get_lower_path lock_parent unlock_dir trfs_put_lower_path
  create_runs sb dir w w1 w2 mode err excl mounted at h k =
      ground (arith, mounted.dir_inode, mounted.dir_super w1.trace)

-- `trfs_create` comes to an end in the code that logs it.
pub trfs_create-Handled :
    (env : Env Call) (sb f : Ptr)
    → (dir : Ptr) → IsMounted env sb dir
    → Creates env
    → (d : Ptr) (path : KPath) (mode : ℤ) (excl : Bool) (w : World Call Trfs) → (info : SbInfo)
    → w.vars.s_fs_info sb ≡ some info
    → w.vars.d_fsdata d ≡ some path
    → Handled env (trfs_create dir d mode excl env w) sb f fcreat d (pos 0) mode no_aux w
trfs_create-Handled env sb f dir mounted creates d path mode excl w info at dpath =
    let parent = lower_parent env d path w in
    let ready = locked env d path w in
    handler_lem env sb f fcreat d (pos 0) mode no_aux (trfs_create dir d mode excl env w) w
      (unlocked env d path parent) (lower_create dir d mode excl path parent env ready) ready
      (locked-SameLog env d path f w)
      (lower_create_returns env sb dir mounted creates ready d mode excl path parent info at)
      (λ err w1. lower_create-SameLog env sb dir mounted creates ready d mode excl path parent f)
      (unlocked-SameLog env d path f parent)
      (λ err w1 w2. create_runs env d path sb dir w w1 w2 mode err excl mounted dpath)

-- With the mask's bit for it set and a healthy kernel, `create` comes to an end on a mounted file
-- system, whatever the lower file system answers, and one record stands behind what was in the log:
-- it describes the operation, with the result that the handler returns and the path of the dentry.
pub trfs_create-Traced :
    (env : Env Call) (sb f : Ptr) (umask : ℕ) (file : List ℕ)
    → IsHealthy env sb
    → (dir : Ptr) → IsMounted env sb dir
    → Creates env
    → (d : Ptr) (path : KPath) (mode : ℤ) (excl : Bool) (w : World Call Trfs)
    → LogIs sb f umask file w
    → bit_and tr_fcreat umask ≡ tr_fcreat
    → w.vars.d_fsdata d ≡ some path
    → Traced env
        (trfs_create dir d mode excl env w)
        sb
        f
        umask
        file
        fcreat
        d
        (pos 0)
        mode
        no_aux
        ((w.vars.trecord_id + 1) % 2 ^ 32)
trfs_create-Traced env sb f umask file healthy dir mounted creates d path mode excl w at on dpath =
    Handled-Traced env sb f fcreat d (pos 0) mode no_aux (trfs_create dir d mode excl env w) w umask
      file healthy tt at on
      (trfs_create-Handled env sb f dir mounted creates d path mode excl w at.info at.mounted dpath)
