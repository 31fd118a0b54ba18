-- ===== src/Inode/Quiet.antt =====
-- The inode operations that are not traced leave the log and the mount as they are, on each branch.
use trace_file_system.Prelude.{ℕ, ℤ, ◌≡◌, some, List, arith, Option-cases, inl, inr}
use trace_file_system.Exec.{Env, World}
use trace_file_system.Kernel.{Ptr, Trfs, Call, d_inode, i_sb, vfs_mknod}
use trace_file_system.Kernel.Path.{
  trfs_get_lower_path, trfs_put_lower_path, lock_parent, unlock_dir,
}
use trace_file_system.Dump.Log.{log_file}
use trace_file_system.Lookup.{trfs_interpose}
use trace_file_system.Lookup.Interpose.{SameLog, trfs_interpose-SameLog}
use trace_file_system.Inode.Nodes.{trfs_mknod}
use trace_file_system.Inode.Attr.{
  IAttr, trfs_readlink, trfs_get_link, trfs_permission, trfs_setattr, trfs_getattr, lower_readlink,
  link_buffer, resize, lower_setattr, lower_getattr,
}
use trace_file_system.Inode.Xattr.{
  trfs_setxattr, trfs_getxattr, trfs_listxattr, trfs_removexattr, lower_removexattr,
}
use trace_file_system.Inode.Traced.{called, locked, lower_parent}

module _ (env : Env Call) (f : Ptr) (w : World Call Trfs) where
  pub trfs_mknod-SameLog :
      (dir d : Ptr) (mode dev : ℤ) {err : ℤ} {w' : World Call Trfs}
      → trfs_mknod dir d mode dev env w ≡ some (err, w')
      → SameLog f w w'
  unfolding trfs_mknod trfs_get_lower_path trfs_put_lower_path lock_parent unlock_dir log_file
  trfs_mknod-SameLog dir d mode dev {err} {w'} h = elim (Option-cases (w.vars.d_fsdata d)) [
    | inl e ↦ ground arith
    | inr (path, e) ↦
        let ready = locked env d path w in
        let parent = env.reply (d_inode (lower_parent env d path w)) ready.trace in
        let made = called env (vfs_mknod parent path.dentry mode dev) ready in
        let sb = env.reply (i_sb dir) made.trace in
        elim (Option-cases (trfs_interpose d sb path env made)) [
          | inl e1 ↦ ground arith
          | inr ((ret, w1), e1) ↦ ground (arith, trfs_interpose-SameLog env f made d sb path e1)
        ]
  ]

  pub trfs_readlink-SameLog :
      (d buf : Ptr) (size : ℤ) {err : ℤ} {w' : World Call Trfs}
      → trfs_readlink d buf size env w ≡ some (err, w')
      → SameLog f w w'
  unfolding trfs_readlink trfs_get_lower_path trfs_put_lower_path lower_readlink log_file
  trfs_readlink-SameLog d buf size h = ground arith

  pub trfs_get_link-SameLog :
      (d inode delayed : Ptr) {err : ℤ} {w' : World Call Trfs}
      → trfs_get_link d inode delayed env w ≡ some (err, w')
      → SameLog f w w'
  unfolding trfs_get_link link_buffer trfs_readlink lower_readlink trfs_get_lower_path
      trfs_put_lower_path log_file
  trfs_get_link-SameLog d inode delayed h = ground arith

  pub trfs_permission-SameLog :
      (inode : Ptr) (mask : ℤ) {err : ℤ} {w' : World Call Trfs}
      → trfs_permission inode mask env w ≡ some (err, w')
      → SameLog f w w'
  unfolding trfs_permission log_file
  trfs_permission-SameLog inode mask h = ground arith

  pub trfs_setattr-SameLog :
      (d : Ptr) (ia : IAttr) {err : ℤ} {w' : World Call Trfs}
      → trfs_setattr d ia env w ≡ some (err, w')
      → SameLog f w w'
  unfolding trfs_setattr trfs_get_lower_path trfs_put_lower_path lower_setattr resize log_file
  trfs_setattr-SameLog d ia h = ground arith

  pub trfs_getattr-SameLog :
      (d stat : Ptr) {err : ℤ} {w' : World Call Trfs}
      → trfs_getattr d stat env w ≡ some (err, w')
      → SameLog f w w'
  unfolding trfs_getattr trfs_get_lower_path trfs_put_lower_path lower_getattr log_file
  trfs_getattr-SameLog d stat h = ground arith

  pub trfs_setxattr-SameLog :
      (d : Ptr) (name : List ℕ) (value : Ptr) (size flags : ℤ) {err : ℤ} {w' : World Call Trfs}
      → trfs_setxattr d name value size flags env w ≡ some (err, w')
      → SameLog f w w'
  unfolding trfs_setxattr trfs_get_lower_path trfs_put_lower_path log_file
  trfs_setxattr-SameLog d name value size flags h = ground arith

  pub trfs_getxattr-SameLog :
      (d : Ptr) (name : List ℕ) (value : Ptr) (size : ℤ) {err : ℤ} {w' : World Call Trfs}
      → trfs_getxattr d name value size env w ≡ some (err, w')
      → SameLog f w w'
  unfolding trfs_getxattr trfs_get_lower_path trfs_put_lower_path log_file
  trfs_getxattr-SameLog d name value size h = ground arith

  pub trfs_listxattr-SameLog :
      (d buf : Ptr) (size : ℤ) {err : ℤ} {w' : World Call Trfs}
      → trfs_listxattr d buf size env w ≡ some (err, w')
      → SameLog f w w'
  unfolding trfs_listxattr trfs_get_lower_path trfs_put_lower_path log_file
  trfs_listxattr-SameLog d buf size h = ground arith

  pub trfs_removexattr-SameLog :
      (d : Ptr) (name : List ℕ) {err : ℤ} {w' : World Call Trfs}
      → trfs_removexattr d name env w ≡ some (err, w')
      → SameLog f w w'
  unfolding trfs_removexattr trfs_get_lower_path trfs_put_lower_path lower_removexattr log_file
  trfs_removexattr-SameLog d name h = ground arith
