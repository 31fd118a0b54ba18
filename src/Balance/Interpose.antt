-- ===== src/Balance/Interpose.antt =====
-- `trfs_interpose` takes no lock and no reference to a path or dentry.
use trace_file_system.Prelude.{ℤ, ◌≡◌, some, arith, Option-cases, inl, inr}
use trace_file_system.Exec.{Env, World}
use trace_file_system.Kernel.{
  Ptr, KPath, Trfs, Call, d_inode, i_ino, iget5_locked, igrab, set_i_ino,
}
use trace_file_system.Lookup.{init_inode, trfs_iget, interpose_dentry, trfs_interpose}
use trace_file_system.Inode.Traced.{called}
use trace_file_system.Balance.{Tidy, taken, given}

module _ (env : Env Call) (i : Ptr) where
  init_inode-Tidy :
      (w : World Call Trfs) (inode lower : Ptr) {p : Ptr} {w' : World Call Trfs}
      → init_inode inode lower env w ≡ some (p, w')
      → Tidy i w w'
  unfolding init_inode taken given
  init_inode-Tidy w inode lower h = ground arith

  trfs_iget-Tidy :
      (w : World Call Trfs) (sb lower : Ptr) {p : Ptr} {w' : World Call Trfs}
      → trfs_iget sb lower env w ≡ some (p, w')
      → Tidy i w w'
  unfolding trfs_iget taken given
  trfs_iget-Tidy w sb lower h =
      let ino = env.reply (i_ino lower) w.trace in
      let w1 = called env (iget5_locked sb ino lower) w in
      let inode = env.reply (iget5_locked sb ino lower) w.trace in
      let w2 = called env (igrab lower) (called env (set_i_ino inode ino) w1) in
      elim (Option-cases (init_inode inode lower env w2)) [
        | inl e ↦ ground arith
        | inr ((i, w3), e) ↦ ground (arith, init_inode-Tidy w2 inode lower e)
      ]

  interpose_dentry-Tidy :
      (w : World Call Trfs) (d sb : Ptr) (path : KPath) {p : Ptr} {w' : World Call Trfs}
      → interpose_dentry d sb path env w ≡ some (p, w')
      → Tidy i w w'
  unfolding interpose_dentry taken given
  interpose_dentry-Tidy w d sb path h =
      let lower : Ptr = env.reply (d_inode path.dentry) w.trace in
      elim (Option-cases (trfs_iget sb lower env w)) [
        | inl e ↦ ground arith
        | inr ((i, w1), e) ↦ ground (arith, trfs_iget-Tidy w sb lower e)
      ]

  pub trfs_interpose-Tidy :
      (w : World Call Trfs) (d sb : Ptr) (path : KPath) {err : ℤ} {w' : World Call Trfs}
      → trfs_interpose d sb path env w ≡ some (err, w')
      → Tidy i w w'
  unfolding trfs_interpose
  trfs_interpose-Tidy w d sb path h = elim (Option-cases (interpose_dentry d sb path env w)) [
    | inl e ↦ ground arith
    | inr ((p, w1), e) ↦ ground (arith, interpose_dentry-Tidy w d sb path e)
  ]
