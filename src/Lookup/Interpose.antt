-- ===== src/Lookup/Interpose.antt =====
-- `trfs_interpose` comes to an end, and leaves the log and the mount as they are.
use trace_file_system.Prelude.{
  ℤ, ◌≡◌, ◌≢◌, ◌==ℤ◌, false, some, none, IsInt, to_int-IsInt, arith, Option-cases, inl, inr,
}
use trace_file_system.Exec.{Env, World}
use trace_file_system.Kernel.{Ptr, null, KPath, SbInfo, Trfs, Call, d_inode}
use trace_file_system.Dump.Log.{log_file}
use trace_file_system.Lookup.{init_inode, trfs_iget, interpose_dentry, trfs_interpose}

-- From `w` to `w'` the log file `f`, the superblocks and the counter of records are as they were.
abbrev pub SameLog : Ptr → World Call Trfs → World Call Trfs → Type 0
SameLog f w w' =
    (log_file f w'.trace ≡ log_file f w.trace)
    × (w'.vars.s_fs_info ≡ w.vars.s_fs_info)
    × (w'.vars.trecord_id ≡ w.vars.trecord_id)

module _ (env : Env Call) (f : Ptr) where
  init_inode-SameLog :
      (w : World Call Trfs) (inode lower : Ptr) {p : Ptr} {w' : World Call Trfs}
      → init_inode inode lower env w ≡ some (p, w')
      → SameLog f w w'
  unfolding init_inode log_file
  init_inode-SameLog w inode lower h = ground arith

  pub trfs_iget-SameLog :
      (w : World Call Trfs) (sb lower : Ptr) {p : Ptr} {w' : World Call Trfs}
      → trfs_iget sb lower env w ≡ some (p, w')
      → SameLog f w w'
  unfolding trfs_iget log_file
  trfs_iget-SameLog w sb lower h = grind (arith, init_inode-SameLog)

  pub interpose_dentry-SameLog :
      (w : World Call Trfs) (d sb : Ptr) (path : KPath) {p : Ptr} {w' : World Call Trfs}
      → interpose_dentry d sb path env w ≡ some (p, w')
      → SameLog f w w'
  unfolding interpose_dentry log_file
  interpose_dentry-SameLog w d sb path h =
      let lower : Ptr = env.reply (d_inode path.dentry) w.trace in
      elim (Option-cases (trfs_iget sb lower env w)) [
        | inl e ↦ ground arith
        | inr ((i, w1), e) ↦ ground (arith, trfs_iget-SameLog w sb lower e)
      ]

module _ (env : Env Call) (w : World Call Trfs) where
  init_inode_returns :
      (inode lower : Ptr) → (lower ==ℤ null) ≡ false → init_inode inode lower env w ≢ none
  unfolding init_inode
  init_inode_returns inode lower n = ground arith

trfs_iget_returns :
    (env : Env Call) (w : World Call Trfs) (sb lower : Ptr)
    → (lower ==ℤ null) ≡ false
    → trfs_iget sb lower env w ≢ none
unfolding trfs_iget
trfs_iget_returns env w sb lower n = grind (arith, init_inode_returns)

interpose_dentry_returns :
    (env : Env Call) (w : World Call Trfs) (d sb : Ptr) (path : KPath) (info : SbInfo)
    → (env.reply (d_inode path.dentry) w.trace ==ℤ null) ≡ false
    → w.vars.s_fs_info sb ≡ some info
    → interpose_dentry d sb path env w ≢ none
unfolding interpose_dentry
interpose_dentry_returns env w d sb path info n at =
    let lower : Ptr = env.reply (d_inode path.dentry) w.trace in
    elim (Option-cases (trfs_iget sb lower env w)) [
      | inl e ↦ absurd (trfs_iget_returns env w sb lower n e)
      | inr ((i, w1), e) ↦ ground arith
    ]

-- `trfs_interpose` comes to an end if the lower dentry has an inode, its result is an `int`, and it
-- touches neither the log file nor the superblocks.
pub trfs_interpose_returns :
    (env : Env Call) (w : World Call Trfs) (d sb : Ptr) (path : KPath) (info : SbInfo)
    → (env.reply (d_inode path.dentry) w.trace ==ℤ null) ≡ false
    → w.vars.s_fs_info sb ≡ some info
    → trfs_interpose d sb path env w ≢ none
unfolding trfs_interpose
trfs_interpose_returns env w d sb path info n at =
    ground (arith, interpose_dentry_returns env w d sb path info n at)

pub trfs_interpose-SameLog :
    (env : Env Call) (f : Ptr) (w : World Call Trfs) (d sb : Ptr) (path : KPath) {err : ℤ}
    {w' : World Call Trfs}
    → trfs_interpose d sb path env w ≡ some (err, w')
    → SameLog f w w' × IsInt err
unfolding trfs_interpose
trfs_interpose-SameLog env f w d sb path h =
    elim (Option-cases (interpose_dentry d sb path env w)) [
      | inl e ↦ absurd (ground arith)
      | inr ((p, w1), e) ↦
          ground (arith, interpose_dentry-SameLog env f w d sb path e, to_int-IsInt p)
    ]

-- An inode of trfs that has a lower inode still has one behind `trfs_interpose`.
module _ (env : Env Call) (i : Ptr) where
  init_inode-lower :
      (w : World Call Trfs) (inode lower : Ptr) {p : Ptr} {w' : World Call Trfs}
      → (lower ==ℤ null) ≡ false
      → (w.vars.lower_inode i ==ℤ null) ≡ false
      → init_inode inode lower env w ≡ some (p, w')
      → (w'.vars.lower_inode i ==ℤ null) ≡ false
  unfolding init_inode
  init_inode-lower w inode lower n k h = ground arith

  trfs_iget-lower :
      (w : World Call Trfs) (sb lower : Ptr) {p : Ptr} {w' : World Call Trfs}
      → (lower ==ℤ null) ≡ false
      → (w.vars.lower_inode i ==ℤ null) ≡ false
      → trfs_iget sb lower env w ≡ some (p, w')
      → (w'.vars.lower_inode i ==ℤ null) ≡ false
  unfolding trfs_iget
  trfs_iget-lower w sb lower n k h = grind (arith, init_inode-lower)

  interpose_dentry-lower :
      (w : World Call Trfs) (d sb : Ptr) (path : KPath) {p : Ptr} {w' : World Call Trfs}
      → (env.reply (d_inode path.dentry) w.trace ==ℤ null) ≡ false
      → (w.vars.lower_inode i ==ℤ null) ≡ false
      → interpose_dentry d sb path env w ≡ some (p, w')
      → (w'.vars.lower_inode i ==ℤ null) ≡ false
  unfolding interpose_dentry
  interpose_dentry-lower w d sb path n k h =
      let lower : Ptr = env.reply (d_inode path.dentry) w.trace in
      elim (Option-cases (trfs_iget sb lower env w)) [
        | inl e ↦ ground arith
        | inr ((p, w1), e) ↦ ground (arith, trfs_iget-lower w sb lower n k e)
      ]

  pub trfs_interpose-lower :
      (w : World Call Trfs) (d sb : Ptr) (path : KPath) {err : ℤ} {w' : World Call Trfs}
      → (env.reply (d_inode path.dentry) w.trace ==ℤ null) ≡ false
      → (w.vars.lower_inode i ==ℤ null) ≡ false
      → trfs_interpose d sb path env w ≡ some (err, w')
      → (w'.vars.lower_inode i ==ℤ null) ≡ false
  unfolding trfs_interpose
  trfs_interpose-lower w d sb path n k h = elim (Option-cases (interpose_dentry d sb path env w)) [
    | inl e ↦ absurd (ground arith)
    | inr ((p, w1), e) ↦ ground (arith, interpose_dentry-lower w d sb path n k e)
  ]
