-- ===== src/Inode/Nodes/Symlink.antt =====
-- What the handler of `symlink` does with the log, and that it does not survive a failure of the
-- lower file system.
use trace_file_system.Prelude.{
  ℕ, ℤ, pos, ◌≡◌, ◌≢◌, ◌==ℤ◌, false, some, none, IsInt, arith, List, Option-cases, inl, inr, length,
  ◌≤◌, ◌+◌, ◌%◌, ◌^◌, bit_and,
}
use trace_file_system.Exec.{Env, World, Trace}
use trace_file_system.Record.{Chars, tr_symlink}
use trace_file_system.Kernel.{Ptr, null, KPath, SbInfo, Trfs, Call, d_inode, vfs_symlink}
use trace_file_system.Kernel.Path.{
  trfs_get_lower_path, trfs_put_lower_path, lock_parent, unlock_dir,
}
use trace_file_system.Dump.{memory, log_operation}
use trace_file_system.Dump.Fill.{symlink}
use trace_file_system.Dump.Log.{LogIs, log_file}
use trace_file_system.Dump.Switch.{IsHealthy}
use trace_file_system.Lookup.{trfs_interpose}
use trace_file_system.Lookup.Interpose.{SameLog, trfs_interpose_returns, trfs_interpose-SameLog}
use trace_file_system.Inode.Traced.{
  InSuperAt, Traced, IsMounted, MakesAt, called, handler_lem, Handled-Traced, Handled, lower_parent,
  locked, unlocked, locked-SameLog, unlocked-SameLog,
}
use trace_file_system.Inode.Nodes.{lower_symlink, trfs_symlink}

-- The lower file system's `symlink` makes an inode, or fails.
abbrev pub Symlinks : Env Call → Type 0
Symlinks env = (p d : Ptr) (s : List ℕ) → MakesAt env (vfs_symlink p d s) d

module _ (env : Env Call) (sb dir : Ptr) (mounted : IsMounted env sb dir) (d : Ptr)
    (symname : Chars) (path : KPath) (parent : Ptr) (w : World Call Trfs) where
  -- after the call of the lower file system
  abbrev linked : World Call Trfs
  linked = called env (vfs_symlink (env.reply (d_inode parent) w.trace) path.dentry symname.chars) w

  lower_symlink_returns :
      Symlinks env
      → (info : SbInfo) → w.vars.s_fs_info sb ≡ some info
      → lower_symlink dir d symname path parent env w ≢ none
  unfolding lower_symlink
  lower_symlink_returns symlinks info at =
      let sb_of = mounted.dir_super linked.trace in
      let inode =
        (symlinks (env.reply (d_inode parent) w.trace) path.dentry symname.chars).inode w.trace in
      elim (Option-cases (trfs_interpose d sb path env linked)) [
        | inl e ↦
            ground
              (arith, mounted.dir_inode, inode, trfs_interpose_returns env linked d sb path info)
        | inr ((err, w1), e) ↦ ground (arith, mounted.dir_inode)
      ]

  lower_symlink-SameLog :
      Symlinks env
      → (f : Ptr) {err : ℤ} {w' : World Call Trfs}
      → lower_symlink dir d symname path parent env w ≡ some (err, w')
      → SameLog f w w' × IsInt err
  unfolding lower_symlink log_file
  lower_symlink-SameLog symlinks f h =
      let sb_of = mounted.dir_super linked.trace in
      let int =
        (symlinks (env.reply (d_inode parent) w.trace) path.dentry symname.chars).int w.trace in
      elim (Option-cases (trfs_interpose d sb path env linked)) [
        | inl e ↦ ground (arith, mounted.dir_inode)
        | inr ((err, w1), e) ↦
            ground (arith, mounted.dir_inode, trfs_interpose-SameLog env f linked d sb path e)
      ]

-- Behind the work of the lower file system, as the handler asks for it in `w`, `d` has an inode of
-- the mount.
abbrev pub Appears : Env Call → Ptr → Ptr → Ptr → Chars → KPath → World Call Trfs → Type 0
Appears env sb dir d symname path w =
    (err : ℤ) (w1 : World Call Trfs)
    → lower_symlink dir d symname path (lower_parent env d path w) env (locked env d path w)
      ≡ some (err, w1)
    → InSuperAt env sb d w1

module _ (env : Env Call) (d : Ptr) (path : KPath) where
  symlink_runs :
      (sb dir : Ptr) (w w1 w2 : World Call Trfs) (symname : Chars) (err : ℤ)
      → InSuperAt env sb d w1
      → w.vars.d_fsdata d ≡ some path
      → lower_symlink dir d symname path (lower_parent env d path w) env (locked env d path w)
        ≡ some (err, w1)
      → log_operation sb tr_symlink d
          (pos 0)
          (pos 0)
          err
          (memory symname)
          (pos (length symname.chars))
          env
          w1
        ≡ some (tt, w2)
      → trfs_symlink dir d symname env w
        ≡ some (err, unlocked env d path (lower_parent env d path w) w2)
  unfolding trfs_symlink trfs_get_lower_path lock_parent unlock_dir trfs_put_lower_path
  symlink_runs sb dir w w1 w2 symname err super at h k = ground (arith, super.inode, super.super)

-- `trfs_symlink` comes to an end in the code that logs it.
pub trfs_symlink-Handled :
    (env : Env Call) (sb f dir : Ptr)
    → IsMounted env sb dir
    → Symlinks env
    → (d : Ptr) (symname : Chars) (path : KPath) (w : World Call Trfs) (info : SbInfo)
    → Appears env sb dir d symname path w
    → w.vars.s_fs_info sb ≡ some info
    → w.vars.d_fsdata d ≡ some path
    → Handled env
        (trfs_symlink dir d symname env w)
        sb
        f
        symlink
        d
        (pos 0)
        (pos 0)
        (memory symname)
        w
trfs_symlink-Handled env sb f dir mounted symlinks d symname path w info super at dpath =
    let parent = lower_parent env d path w in
    let ready = locked env d path w in
    handler_lem env sb f symlink d (pos 0) (pos 0) (memory symname)
      (trfs_symlink dir d symname env w) w (unlocked env d path parent)
      (lower_symlink dir d symname path parent env ready) ready (locked-SameLog env d path f w)
      (lower_symlink_returns env sb dir mounted d symname path parent ready symlinks info at)
      (λ err w1. lower_symlink-SameLog env sb dir mounted d symname path parent ready symlinks f)
      (unlocked-SameLog env d path f parent)
      (λ err w1 w2 h. symlink_runs env d path sb dir w w1 w2 symname err (super err w1 h) dpath h)

-- With the mask's bit for it set and a healthy kernel, `symlink` comes to an end on a mounted file
-- system for a target of 1 to 28640 characters, if the dentry has an inode of the mount behind the
-- work of the lower file system (as it has if the link was made and connected), and one record
-- stands behind what was in the log: it describes the operation, with the result that the handler
-- returns, the path of the dentry and the target.
pub trfs_symlink-Traced :
    (env : Env Call) (sb f : Ptr) (umask : ℕ) (file : List ℕ)
    → IsHealthy env sb
    → (dir : Ptr) → IsMounted env sb dir
    → Symlinks env
    → (d : Ptr) (symname : Chars) → 1 ≤ length symname.chars
    → length symname.chars ≤ 28640
    → (path : KPath) (w : World Call Trfs) → Appears env sb dir d symname path w
    → LogIs sb f umask file w
    → bit_and tr_symlink umask ≡ tr_symlink
    → w.vars.d_fsdata d ≡ some path
    → Traced env
        (trfs_symlink dir d symname env w)
        sb
        f
        umask
        file
        symlink
        d
        (pos 0)
        (pos 0)
        (memory symname)
        ((w.vars.trecord_id + 1) % 2 ^ 32)
trfs_symlink-Traced env sb f umask file healthy dir mounted symlinks d symname lo hi path w super at
      on dpath =
    Handled-Traced env sb f symlink d (pos 0) (pos 0) (memory symname)
      (trfs_symlink dir d symname env w) w umask file healthy (lo, hi) at on
      (trfs_symlink-Handled env sb f dir mounted symlinks d symname path w at.info super at.mounted
        dpath)

-- If the lower file system refuses to make the link, and the dentry has no inode then, the handler
-- reads a field of NULL.
pub trfs_symlink-oops :
    (env : Env Call) (dir d : Ptr) (symname : Chars) (w : World Call Trfs)
    → ((a b : Ptr) (t : Trace Call)
        → (env.reply (vfs_symlink a b symname.chars) t ==ℤ pos 0) ≡ false)
    → ((t : Trace Call) → env.reply (d_inode d) t ≡ null)
    → trfs_symlink dir d symname env w ≡ none
unfolding trfs_symlink trfs_get_lower_path lock_parent lower_symlink
trfs_symlink-oops env dir d symname w refuses negative = elim (Option-cases (w.vars.d_fsdata d)) [
  | inl e ↦ ground arith
  | inr (path, e) ↦
      let ready = locked env d path w in
      ground (
        arith,
        refuses (env.reply (d_inode (lower_parent env d path w)) ready.trace) path.dentry
            ready.trace,
        negative
            (called env
              (vfs_symlink (env.reply (d_inode (lower_parent env d path w)) ready.trace) path.dentry
                symname.chars)
              ready).trace,
      )
]
