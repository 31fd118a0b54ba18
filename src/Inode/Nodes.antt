-- ===== src/Inode/Nodes.antt =====
-- trfs/inode.c: symbolic links, directories and devices.
pub mod Rmdir
pub mod Mkdir
pub mod Symlink
use trace_file_system.Prelude.{ℤ, pos, ◌==ℤ◌, not, if◌then◌else◌, length}
use trace_file_system.Exec.{pure, call, call_, peek, ◌>>=◌, ◌>>◌, if_do}
use trace_file_system.Record.{Chars, tr_unlink, tr_symlink, tr_dcreat}
use trace_file_system.Kernel.{
  Ptr, null, KPath, vfs_symlink, vfs_mkdir, vfs_rmdir, vfs_mknod, d_inode, i_sb, i_nlink, set_nlink,
  clear_nlink, d_drop, fsstack_copy_attr_times, fsstack_copy_inode_size,
}
use trace_file_system.Kernel.Path.{
  Kernel, field, trfs_lower_inode, trfs_get_lower_path, trfs_put_lower_path, lock_parent,
  unlock_dir,
}
use trace_file_system.Dump.{no_aux, memory, log_operation}
use trace_file_system.Inode.{fails, interpose_and_copy}

-- `symname` is the string and where it is.
unfoldable pub lower_symlink : Ptr → Ptr → Chars → KPath → Ptr → Kernel ℤ
lower_symlink dir d symname path lower_parent = do
  parent ← peek (d_inode lower_parent)
  err ← call (vfs_symlink parent path.dentry symname.chars)
  if fails err then pure err else interpose_and_copy dir d path lower_parent

-- The superblock is that of the dentry's inode, which there is only if the link was made.
unfoldable pub trfs_symlink : Ptr → Ptr → Chars → Kernel ℤ
trfs_symlink dir d symname = do
  path ← trfs_get_lower_path d
  lower_parent ← lock_parent path.dentry
  err ← lower_symlink dir d symname path lower_parent
  inode ← peek (d_inode d)
  sb ← field i_sb inode
  log_operation sb tr_symlink d (pos 0) (pos 0) err (memory symname) (pos (length symname.chars))
  unlock_dir lower_parent
  trfs_put_lower_path d path
  pure err

-- the number of links of the directory, as it is below
abbrev copy_nlink : Ptr → Kernel Unit
copy_nlink dir = do lower ← trfs_lower_inode dir; n ← field i_nlink lower; call_ (set_nlink dir n)

unfoldable pub lower_mkdir : Ptr → Ptr → ℤ → KPath → Ptr → Kernel ℤ
lower_mkdir dir d mode path lower_parent = do
  parent ← peek (d_inode lower_parent)
  err ← call (vfs_mkdir parent path.dentry mode)
  if fails err then pure err else do
    err ← interpose_and_copy dir d path lower_parent
    if fails err then pure err else (do copy_nlink dir; pure err)

unfoldable pub trfs_mkdir : Ptr → Ptr → ℤ → Kernel ℤ
trfs_mkdir dir d mode = do
  path ← trfs_get_lower_path d
  lower_parent ← lock_parent path.dentry
  err ← lower_mkdir dir d mode path lower_parent
  sb ← field i_sb dir
  log_operation sb tr_dcreat d (pos 0) mode err no_aux (pos 0)
  unlock_dir lower_parent
  trfs_put_lower_path d path
  pure err

-- the dentry is dropped and the attributes copied, once the directory is gone
unfoldable pub copy_removed : Ptr → Ptr → Ptr → Kernel Unit
copy_removed dir d lower_dir = do
  call_ (d_drop d)
  inode ← peek (d_inode d)
  if_do (not (inode ==ℤ null)) (call_ (clear_nlink inode))
  lower ← peek (d_inode lower_dir)
  call_ (fsstack_copy_attr_times dir lower)
  call_ (fsstack_copy_inode_size dir lower)
  n ← field i_nlink lower
  call_ (set_nlink dir n)

unfoldable pub lower_rmdir : Ptr → Ptr → KPath → Ptr → Kernel ℤ
unfolding copy_removed
lower_rmdir dir d path lower_dir = do
  parent ← peek (d_inode lower_dir)
  err ← call (vfs_rmdir parent path.dentry)
  if fails err then pure err else (do copy_removed dir d lower_dir; pure err)

-- A removed directory is recorded as TR_UNLINK.
unfoldable pub trfs_rmdir : Ptr → Ptr → Kernel ℤ
trfs_rmdir dir d = do
  path ← trfs_get_lower_path d
  lower_dir ← lock_parent path.dentry
  err ← lower_rmdir dir d path lower_dir
  sb ← field i_sb dir
  log_operation sb tr_unlink d (pos 0) (pos 0) err no_aux (pos 0)
  unlock_dir lower_dir
  trfs_put_lower_path d path
  pure err

-- Devices are not traced.
unfoldable pub trfs_mknod : Ptr → Ptr → ℤ → ℤ → Kernel ℤ
trfs_mknod dir d mode dev = do
  path ← trfs_get_lower_path d
  lower_parent ← lock_parent path.dentry
  parent ← peek (d_inode lower_parent)
  err ← call (vfs_mknod parent path.dentry mode dev)
  err ← (if fails err then pure err else interpose_and_copy dir d path lower_parent)
  unlock_dir lower_parent
  trfs_put_lower_path d path
  pure err
