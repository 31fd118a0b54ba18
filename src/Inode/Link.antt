-- ===== src/Inode/Link.antt =====
-- What the handler of `link` does with the log, whatever the lower file system answers.
use trace_file_system.Prelude.{
  ℕ, ℤ, pos, ◌≡◌, ◌≢◌, refl, ◌+◌, ◌%◌, ◌^◌, some, none, IsInt, arith, List, bit_and, Option-cases,
  inl, inr,
}
use trace_file_system.Exec.{Env, World, Trace}
use trace_file_system.Record.{tr_link}
use trace_file_system.Kernel.{
  fsstack_copy_attr_times, fsstack_copy_inode_size, Ptr, KPath, SbInfo, Trfs, Call, d_inode,
  i_size_read, vfs_link, spin_lock, spin_unlock, path_get, path_put, dput, dget_parent, inode_lock,
  inode_unlock,
}
use trace_file_system.Kernel.Path.{
  trfs_get_lower_path, trfs_put_lower_path, lock_parent, unlock_dir,
}
use trace_file_system.Dump.{dentry, log_operation}
use trace_file_system.Dump.Fill.{link}
use trace_file_system.Dump.Log.{LogIs, log_file}
use trace_file_system.Dump.Switch.{IsHealthy}
use trace_file_system.Lookup.{trfs_interpose}
use trace_file_system.Lookup.Interpose.{SameLog, trfs_interpose_returns, trfs_interpose-SameLog}
use trace_file_system.Inode.Traced.{
  Traced, IsMounted, InSuperAt, HasLowerAt, called, handler_lem, Handled-Traced, Handled,
}
use trace_file_system.Inode.{copy_link, lower_link, trfs_link}

-- The lower file system's `link` returns an `int`.
abbrev pub LinksInt : Env Call → Type 0
LinksInt env = (a b c : Ptr) (t : Trace Call) → IsInt (env.reply (vfs_link a b c) t)

-- after the call of the lower file system
abbrev pub linked_at : Env Call → KPath → KPath → Ptr → World Call Trfs → World Call Trfs
linked_at env old_path new_path parent w =
    called env (vfs_link old_path.dentry (env.reply (d_inode parent) w.trace) new_path.dentry) w

-- and after the copy of the attributes of the new inode
abbrev pub copied_at : Env Call → Ptr → KPath → World Call Trfs → World Call Trfs
copied_at env dir new_path v =
    let new = env.reply (d_inode new_path.dentry) v.trace in
    called env (fsstack_copy_inode_size dir new) (called env (fsstack_copy_attr_times dir new) v)

module _ (env : Env Call) (sb dir : Ptr) (mounted : IsMounted env sb dir) (old_d new_d : Ptr)
    (size : ℤ) (old_path new_path : KPath) (parent : Ptr) (w : World Call Trfs) where
  abbrev linked : World Call Trfs
  linked = linked_at env old_path new_path parent w

  copy_link_returns :
      (v : World Call Trfs)
      → HasLowerAt env (copied_at env dir new_path v) old_d
      → copy_link old_d dir new_d new_path.dentry size env v ≢ none
  unfolding copy_link
  copy_link_returns v low = ground (arith, low.inode, low.lower)

  lower_link_returns :
      (info : SbInfo)
      → w.vars.s_fs_info sb ≡ some info
      → ((err : ℤ) (w1 : World Call Trfs)
          → trfs_interpose new_d sb new_path env linked ≡ some (err, w1)
          → HasLowerAt env (copied_at env dir new_path w1) old_d)
      → lower_link old_d dir new_d size old_path new_path parent env w ≢ none
  unfolding lower_link
  lower_link_returns info at low =
      let sb_of = mounted.dir_super linked.trace in
      elim (Option-cases (trfs_interpose new_d sb new_path env linked)) [
        | inl e ↦
            ground
              (arith, mounted.dir_inode, trfs_interpose_returns env linked new_d sb new_path info)
        | inr ((err, w1), e) ↦
            ground (arith, mounted.dir_inode, copy_link_returns w1 (low err w1 e))
      ]

  lower_link-SameLog :
      LinksInt env
      → (f : Ptr) {err : ℤ} {w' : World Call Trfs}
      → lower_link old_d dir new_d size old_path new_path parent env w ≡ some (err, w')
      → SameLog f w w' × IsInt err
  unfolding lower_link copy_link log_file
  lower_link-SameLog ints f h =
      let sb_of = mounted.dir_super linked.trace in
      let int = ints old_path.dentry (env.reply (d_inode parent) w.trace) new_path.dentry w.trace in
      elim (Option-cases (trfs_interpose new_d sb new_path env linked)) [
        | inl e ↦ ground (arith, mounted.dir_inode)
        | inr ((err, w1), e) ↦
            ground
              (arith, mounted.dir_inode, trfs_interpose-SameLog env f linked new_d sb new_path e)
      ]

module _ (env : Env Call) (old_d new_d : Ptr) (old_path new_path : KPath) where
  abbrev pub sized : World Call Trfs → World Call Trfs
  sized w = called env (i_size_read (env.reply (d_inode old_d) w.trace)) w

  abbrev pub size_of : World Call Trfs → ℤ
  size_of w = env.reply (i_size_read (env.reply (d_inode old_d) w.trace)) w.trace

  abbrev pub pathed : World Call Trfs → World Call Trfs
  pathed w = called env (spin_unlock new_d) (
      called env (path_get new_path) (
        called env (spin_lock new_d) (
          called env (spin_unlock old_d)
            (called env (path_get old_path) (called env (spin_lock old_d) (sized w))))))

  abbrev pub parent_of : World Call Trfs → Ptr
  parent_of w = env.reply (dget_parent new_path.dentry) (pathed w).trace

  abbrev pub locked : World Call Trfs → World Call Trfs
  locked w =
      let v = called env (dget_parent new_path.dentry) (pathed w) in
      called env (inode_lock (env.reply (d_inode (parent_of w)) v.trace)) v

  abbrev unlocked : World Call Trfs → World Call Trfs → World Call Trfs
  unlocked w v = called env (path_put new_path) (
      called env (path_put old_path) (
        called env (dput (parent_of w))
          (called env (inode_unlock (env.reply (d_inode (parent_of w)) v.trace)) v)))

  locked-SameLog : (f : Ptr) (w : World Call Trfs) → SameLog f w (locked w)
  unfolding log_file
  locked-SameLog f w = (refl, refl, refl)

  unlocked-SameLog : (f : Ptr) (w v : World Call Trfs) → SameLog f v (unlocked w v)
  unfolding log_file
  unlocked-SameLog f w v = (refl, refl, refl)

  link_runs :
      (sb dir : Ptr) (w : World Call Trfs) (err : ℤ) (w1 w2 : World Call Trfs)
      → InSuperAt env sb old_d w1
      → w.vars.d_fsdata old_d ≡ some old_path
      → w.vars.d_fsdata new_d ≡ some new_path
      → lower_link old_d dir new_d (size_of w) old_path new_path (parent_of w) env (locked w)
        ≡ some (err, w1)
      → log_operation sb tr_link old_d (pos 0) (pos 0) err (dentry new_d) (pos 0) env w1
        ≡ some (tt, w2)
      → trfs_link old_d dir new_d env w ≡ some (err, unlocked w w2)
  unfolding trfs_link trfs_get_lower_path trfs_put_lower_path lock_parent unlock_dir
  link_runs sb dir w err w1 w2 super old new h k = ground (arith, super.inode, super.super)

-- While the link is made the old dentry has an inode of the mount: one with a lower inode behind
-- the interposition of the new dentry, and one behind the work of the lower file system.
pub record KeepsInode (env : Env Call) (sb dir old_d new_d : Ptr) (old_path new_path : KPath)
    (w : World Call Trfs) : Type 0 where
  pub low :
      (err : ℤ) (w1 : World Call Trfs)
      → trfs_interpose new_d sb new_path env (
          linked_at env old_path new_path
            (parent_of env old_d new_d old_path new_path w)
            (locked env old_d new_d old_path new_path w))
        ≡ some (err, w1)
      → HasLowerAt env (copied_at env dir new_path w1) old_d
  pub super :
      (err : ℤ) (w1 : World Call Trfs)
      → lower_link old_d dir new_d
          (size_of env old_d new_d old_path new_path w)
          old_path
          new_path
          (parent_of env old_d new_d old_path new_path w)
          env
          (locked env old_d new_d old_path new_path w)
        ≡ some (err, w1)
      → InSuperAt env sb old_d w1

-- `trfs_link` comes to an end in the code that logs it.
pub trfs_link-Handled :
    (env : Env Call) (sb f : Ptr)
    → (dir : Ptr) → IsMounted env sb dir
    → LinksInt env
    → (old_d new_d : Ptr) (old_path new_path : KPath) (w : World Call Trfs) (info : SbInfo)
    → w.vars.s_fs_info sb ≡ some info
    → KeepsInode env sb dir old_d new_d old_path new_path w
    → w.vars.d_fsdata old_d ≡ some old_path
    → w.vars.d_fsdata new_d ≡ some new_path
    → Handled env (trfs_link old_d dir new_d env w) sb f link old_d (pos 0) (pos 0) (dentry new_d) w
trfs_link-Handled env sb f dir mounted ints old_d new_d old_path new_path w info at stays old new =
    let ready = locked env old_d new_d old_path new_path w in
    let parent = parent_of env old_d new_d old_path new_path w in
    let size = size_of env old_d new_d old_path new_path w in
    handler_lem env sb f link old_d (pos 0) (pos 0) (dentry new_d) (trfs_link old_d dir new_d env w)
      w (unlocked env old_d new_d old_path new_path w)
      (lower_link old_d dir new_d size old_path new_path parent env ready) ready
      (locked-SameLog env old_d new_d old_path new_path f w)
      (lower_link_returns env sb dir mounted old_d new_d size old_path new_path parent ready info at
        stays.low)
      (λ err w1.
        lower_link-SameLog env sb dir mounted old_d new_d size old_path new_path parent ready ints
          f)
      (unlocked-SameLog env old_d new_d old_path new_path f w)
      (λ err w1 w2 h.
        link_runs env old_d new_d old_path new_path sb dir w err w1 w2 (stays.super err w1 h) old
          new h)

-- With the mask's bit for it set and a healthy kernel, `link` comes to an end on a mounted file
-- system if the old dentry keeps an inode of the mount with a lower one, whatever the lower file
-- system answers, and one record stands behind what was in the log: it describes the operation,
-- with the result that the handler returns and the old path.
pub trfs_link-Traced :
    (env : Env Call) (sb f : Ptr) (umask : ℕ) (file : List ℕ)
    → IsHealthy env sb
    → (dir : Ptr) → IsMounted env sb dir
    → LinksInt env
    → (old_d new_d : Ptr) (old_path new_path : KPath) (w : World Call Trfs)
    → KeepsInode env sb dir old_d new_d old_path new_path w
    → LogIs sb f umask file w
    → bit_and tr_link umask ≡ tr_link
    → w.vars.d_fsdata old_d ≡ some old_path
    → w.vars.d_fsdata new_d ≡ some new_path
    → Traced env
        (trfs_link old_d dir new_d env w)
        sb
        f
        umask
        file
        link
        old_d
        (pos 0)
        (pos 0)
        (dentry new_d)
        ((w.vars.trecord_id + 1) % 2 ^ 32)
trfs_link-Traced env sb f umask file healthy dir mounted ints old_d new_d old_path new_path w stays
      at on old new =
    Handled-Traced env sb f link old_d (pos 0) (pos 0) (dentry new_d)
      (trfs_link old_d dir new_d env w) w umask file healthy tt at on
      (trfs_link-Handled env sb f dir mounted ints old_d new_d old_path new_path w at.info
        at.mounted stays old new)
