-- ===== src/Balance/Others.antt =====
-- The requests that are not logged and keep nothing give back what they take, on each branch.
use trace_file_system.Prelude.{List, Option-cases, arith, inl, inr, some, ℕ, ℤ, ◌≡◌}
use trace_file_system.Exec.{Env, World}
use trace_file_system.Kernel.{Call, Ptr, null, Trfs, d_inode, i_sb, vfs_mknod}
use trace_file_system.Kernel.Path.{
  lock_parent, trfs_get_lower_path, trfs_put_lower_path, unlock_dir,
}
use trace_file_system.Lookup.{trfs_interpose}
use trace_file_system.Inode.Nodes.{trfs_mknod}
use trace_file_system.Inode.Attr.{
  IAttr, link_buffer, lower_getattr, lower_readlink, lower_setattr, resize, trfs_get_link,
  trfs_getattr, trfs_permission, trfs_readlink, trfs_setattr,
}
use trace_file_system.Inode.Xattr.{
  lower_removexattr, trfs_getxattr, trfs_listxattr, trfs_removexattr, trfs_setxattr,
}
use trace_file_system.Inode.Traced.{called, locked, lower_parent}
use trace_file_system.Dentry.{trfs_d_revalidate}
use trace_file_system.Prelude.{Bool, true, false}
use trace_file_system.Requests.{Other, serve_other}
use trace_file_system.Balance.{Balanced, taken, given}
use trace_file_system.Balance.Interpose.{trfs_interpose-Tidy}
use trace_file_system.Balance.Files.{
  trfs_read-Balanced, trfs_readdir-Balanced, trfs_unlocked_ioctl-Balanced,
  trfs_compat_ioctl-Balanced, trfs_flush-Balanced, trfs_fsync-Balanced, trfs_fasync-Balanced,
  trfs_file_llseek-Balanced, trfs_read_iter-Balanced, trfs_write_iter-Balanced, trfs_open-Balanced,
  trfs_file_release-Balanced, trfs_mmap-Balanced, trfs_fault-Balanced, trfs_page_mkwrite-Balanced,
}

module _ (env : Env Call) (w : World Call Trfs) where
  trfs_mknod-Balanced :
      (dir d : Ptr) (mode dev : ℤ) {err : ℤ} {w' : World Call Trfs}
      → trfs_mknod dir d mode dev env w ≡ some (err, w')
      → Balanced w w'
  unfolding trfs_mknod trfs_get_lower_path trfs_put_lower_path lock_parent unlock_dir taken given
  trfs_mknod-Balanced dir d mode dev {err} {w'} h = elim (Option-cases (w.vars.d_fsdata d)) [
    | inl e ↦ ground arith
    | inr (path, e) ↦
        let ready = locked env d path w in
        let parent = env.reply (d_inode (lower_parent env d path w)) ready.trace in
        let made = called env (vfs_mknod parent path.dentry mode dev) ready in
        let sb = env.reply (i_sb dir) made.trace in
        elim (Option-cases (trfs_interpose d sb path env made)) [
          | inl e1 ↦ ground arith
          | inr ((ret, w1), e1) ↦ ground (arith, trfs_interpose-Tidy env null made d sb path e1)
        ]
  ]

  trfs_readlink-Balanced :
      (d buf : Ptr) (size : ℤ) {err : ℤ} {w' : World Call Trfs}
      → trfs_readlink d buf size env w ≡ some (err, w')
      → Balanced w w'
  unfolding trfs_readlink trfs_get_lower_path trfs_put_lower_path lower_readlink taken given
  trfs_readlink-Balanced d buf size h = ground arith

  trfs_get_link-Balanced :
      (d inode delayed : Ptr) {err : ℤ} {w' : World Call Trfs}
      → trfs_get_link d inode delayed env w ≡ some (err, w')
      → Balanced w w'
  unfolding trfs_get_link link_buffer trfs_readlink lower_readlink trfs_get_lower_path
      trfs_put_lower_path taken given
  trfs_get_link-Balanced d inode delayed h = ground arith

  trfs_permission-Balanced :
      (inode : Ptr) (mask : ℤ) {err : ℤ} {w' : World Call Trfs}
      → trfs_permission inode mask env w ≡ some (err, w')
      → Balanced w w'
  unfolding trfs_permission taken given
  trfs_permission-Balanced inode mask h = ground arith

  trfs_setattr-Balanced :
      (d : Ptr) (ia : IAttr) {err : ℤ} {w' : World Call Trfs}
      → trfs_setattr d ia env w ≡ some (err, w')
      → Balanced w w'
  unfolding trfs_setattr trfs_get_lower_path trfs_put_lower_path lower_setattr resize taken given
  trfs_setattr-Balanced d ia h = ground arith

  trfs_getattr-Balanced :
      (d stat : Ptr) {err : ℤ} {w' : World Call Trfs}
      → trfs_getattr d stat env w ≡ some (err, w')
      → Balanced w w'
  unfolding trfs_getattr trfs_get_lower_path trfs_put_lower_path lower_getattr taken given
  trfs_getattr-Balanced d stat h = ground arith

  trfs_setxattr-Balanced :
      (d : Ptr) (name : List ℕ) (value : Ptr) (size flags : ℤ) {err : ℤ} {w' : World Call Trfs}
      → trfs_setxattr d name value size flags env w ≡ some (err, w')
      → Balanced w w'
  unfolding trfs_setxattr trfs_get_lower_path trfs_put_lower_path taken given
  trfs_setxattr-Balanced d name value size flags h = ground arith

  trfs_getxattr-Balanced :
      (d : Ptr) (name : List ℕ) (value : Ptr) (size : ℤ) {err : ℤ} {w' : World Call Trfs}
      → trfs_getxattr d name value size env w ≡ some (err, w')
      → Balanced w w'
  unfolding trfs_getxattr trfs_get_lower_path trfs_put_lower_path taken given
  trfs_getxattr-Balanced d name value size h = ground arith

  trfs_listxattr-Balanced :
      (d buf : Ptr) (size : ℤ) {err : ℤ} {w' : World Call Trfs}
      → trfs_listxattr d buf size env w ≡ some (err, w')
      → Balanced w w'
  unfolding trfs_listxattr trfs_get_lower_path trfs_put_lower_path taken given
  trfs_listxattr-Balanced d buf size h = ground arith

  trfs_removexattr-Balanced :
      (d : Ptr) (name : List ℕ) {err : ℤ} {w' : World Call Trfs}
      → trfs_removexattr d name env w ≡ some (err, w')
      → Balanced w w'
  unfolding trfs_removexattr trfs_get_lower_path trfs_put_lower_path lower_removexattr taken given
  trfs_removexattr-Balanced d name h = ground arith

  trfs_d_revalidate-Balanced :
      (d : Ptr) (flags : ℤ) {err : ℤ} {w' : World Call Trfs}
      → trfs_d_revalidate d flags env w ≡ some (err, w')
      → Balanced w w'
  unfolding trfs_d_revalidate trfs_get_lower_path trfs_put_lower_path taken given
  trfs_d_revalidate-Balanced d flags h = ground arith

-- A lookup and the release of a dentry change what the dentry keeps.
abbrev pub keeps_nothing : Other → Bool
keeps_nothing (Other.lookup dir d flags) = false
keeps_nothing (Other.d_release d) = false
keeps_nothing _ = true

-- A request that is not logged, other than a lookup or the release of a dentry, has given back as
-- many references to paths and dentries, and as many locks of each kind, as it took when it comes to
-- an end: on each branch, whatever the kernel answers.
pub serve_other-Balanced :
    (env : Env Call) (w : World Call Trfs) (o : Other) {err : ℤ} {w' : World Call Trfs}
    → keeps_nothing o ≡ true
    → serve_other o env w ≡ some (err, w')
    → Balanced w w'
unfolding serve_other
serve_other-Balanced env w (Other.lookup dir d flags) k h = absurd (ground arith)
serve_other-Balanced env w (Other.mknod dir d mode dev) k h =
    trfs_mknod-Balanced env w dir d mode dev h
serve_other-Balanced env w (Other.readlink d buf size) k h =
    trfs_readlink-Balanced env w d buf size h
serve_other-Balanced env w (Other.get_link d inode delayed) k h =
    trfs_get_link-Balanced env w d inode delayed h
serve_other-Balanced env w (Other.permission inode mask) k h =
    trfs_permission-Balanced env w inode mask h
serve_other-Balanced env w (Other.setattr d ia) k h = trfs_setattr-Balanced env w d ia h
serve_other-Balanced env w (Other.getattr d stat) k h = trfs_getattr-Balanced env w d stat h
serve_other-Balanced env w (Other.setxattr d name value size flags) k h =
    trfs_setxattr-Balanced env w d name value size flags h
serve_other-Balanced env w (Other.getxattr d name value size) k h =
    trfs_getxattr-Balanced env w d name value size h
serve_other-Balanced env w (Other.listxattr d buf size) k h =
    trfs_listxattr-Balanced env w d buf size h
serve_other-Balanced env w (Other.removexattr d name) k h = trfs_removexattr-Balanced env w d name h
serve_other-Balanced env w (Other.read o buf count ppos) k h =
    trfs_read-Balanced env w o buf count ppos h
serve_other-Balanced env w (Other.readdir o ctx) k h = trfs_readdir-Balanced env w o ctx h
serve_other-Balanced env w (Other.unlocked_ioctl o cmd arg) k h =
    trfs_unlocked_ioctl-Balanced env w o cmd arg h
serve_other-Balanced env w (Other.compat_ioctl o cmd arg) k h =
    trfs_compat_ioctl-Balanced env w o cmd arg h
serve_other-Balanced env w (Other.flush o id) k h = trfs_flush-Balanced env w o id h
serve_other-Balanced env w (Other.fsync o from to datasync) k h =
    trfs_fsync-Balanced env w o from to datasync h
serve_other-Balanced env w (Other.fasync fd o flag) k h = trfs_fasync-Balanced env w fd o flag h
serve_other-Balanced env w (Other.llseek o offset whence) k h =
    trfs_file_llseek-Balanced env w o offset whence h
serve_other-Balanced env w (Other.read_iter o iocb iter) k h =
    trfs_read_iter-Balanced env w o iocb iter h
serve_other-Balanced env w (Other.write_iter o iocb iter) k h =
    trfs_write_iter-Balanced env w o iocb iter h
serve_other-Balanced env w (Other.open_file inode o) k h = trfs_open-Balanced env w inode o h
serve_other-Balanced env w (Other.release inode o) k h = trfs_file_release-Balanced env w inode o h
serve_other-Balanced env w (Other.mmap o vma) k h = trfs_mmap-Balanced env w o vma h
serve_other-Balanced env w (Other.revalidate d flags) k h =
    trfs_d_revalidate-Balanced env w d flags h
serve_other-Balanced env w (Other.d_release d) k h = absurd (ground arith)
serve_other-Balanced env w (Other.fault vma vmf vm) k h = trfs_fault-Balanced env w vma vmf vm h
serve_other-Balanced env w (Other.page_mkwrite vma vmf vm) k h =
    trfs_page_mkwrite-Balanced env w vma vmf vm h
