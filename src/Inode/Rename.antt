-- ===== src/Inode/Rename.antt =====
-- trfs/inode.c: rename.
pub mod Run
use trace_file_system.Prelude.{ℤ, pos, ◌==ℤ◌, not, if◌then◌else◌}
use trace_file_system.Exec.{pure, call, call_, peek, ◌>>=◌, ◌>>◌, if_do}
use trace_file_system.Record.{tr_rename}
use trace_file_system.Kernel.{
  Ptr, KPath, einval, enotempty, vfs_rename, d_inode, i_sb, dget_parent, dput, lock_rename,
  unlock_rename, fsstack_copy_attr_all, fsstack_copy_inode_size,
}
use trace_file_system.Kernel.Path.{Kernel, field, trfs_get_lower_path, trfs_put_lower_path}
use trace_file_system.Dump.{dentry, log_operation}
use trace_file_system.Inode.{fails}

-- the attributes of a directory, all of them
abbrev copy_all : Ptr → Ptr → Kernel Unit
copy_all dir lower_dir = do
  lower ← peek (d_inode lower_dir)
  call_ (fsstack_copy_attr_all dir lower)
  call_ (fsstack_copy_inode_size dir lower)

-- `trap` is what `lock_rename` returned.
unfoldable pub lower_rename : Ptr → Ptr → Ptr → Ptr → Ptr → KPath → KPath → Kernel ℤ
lower_rename old_dir new_dir lower_old_dir lower_new_dir trap old_path new_path =
    if trap ==ℤ old_path.dentry
    then pure einval
    else if trap ==ℤ new_path.dentry
    then pure enotempty
    else do
      old ← peek (d_inode lower_old_dir)
      new ← peek (d_inode lower_new_dir)
      err ← call (vfs_rename old old_path.dentry new new_path.dentry)
      if fails err then pure err else do
        copy_all new_dir lower_new_dir
        if_do (not (new_dir ==ℤ old_dir)) (copy_all old_dir lower_old_dir)
        pure err

unfoldable pub trfs_rename : Ptr → Ptr → Ptr → Ptr → Kernel ℤ
trfs_rename old_dir old_d new_dir new_d = do
  old_path ← trfs_get_lower_path old_d
  new_path ← trfs_get_lower_path new_d
  lower_old_dir ← call (dget_parent old_path.dentry)
  lower_new_dir ← call (dget_parent new_path.dentry)
  trap ← call (lock_rename lower_old_dir lower_new_dir)
  err ← lower_rename old_dir new_dir lower_old_dir lower_new_dir trap old_path new_path
  old ← peek (d_inode old_d)
  sb ← field i_sb old
  log_operation sb tr_rename old_d (pos 0) (pos 0) err (dentry new_d) (pos 0)
  call_ (unlock_rename lower_old_dir lower_new_dir)
  call_ (dput lower_old_dir)
  call_ (dput lower_new_dir)
  trfs_put_lower_path old_d old_path
  trfs_put_lower_path new_d new_path
  pure err
