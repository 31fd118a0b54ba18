-- ===== src/Inode.antt =====
-- trfs/inode.c: the operations on names that trfs traces. Each operation is two definitions: what
-- stands before its label `out`, whose result is `err` (`lower_...`), and the whole handler. An
-- object's superblock and a dentry's inode are read once where the code reads them again.
pub mod Attr
pub mod Xattr
pub mod Quiet
pub mod Nodes
pub mod Traced
pub mod Create
pub mod Unlink
pub mod Link
pub mod Rename
use trace_file_system.Prelude.{
  ℕ, ℤ, pos, pos_part, Bool, List, not, ◌==ℤ◌, ◌==◌, if◌then◌else◌, bit_and, length,
}
use trace_file_system.Exec.{pure, call, call_, peek, ◌>>=◌, ◌>>◌, if_do}
use trace_file_system.Record.{Chars, tr_fcreat, tr_link, tr_unlink, tr_symlink, tr_dcreat}
use trace_file_system.Kernel.{
  Ptr, null, KPath, ebusy, vfs_create, vfs_link, vfs_unlink, vfs_symlink, vfs_mkdir, vfs_rmdir,
  vfs_mknod, d_inode, d_flags, i_sb, i_nlink, i_size_read, i_size_write, set_nlink, clear_nlink,
  copy_ctime, d_drop, dget, dput, fsstack_copy_attr_times, fsstack_copy_inode_size,
}
use trace_file_system.Kernel.Path.{
  Kernel, field, trfs_lower_inode, trfs_get_lower_path, trfs_put_lower_path, lock_parent,
  unlock_dir,
}
use trace_file_system.Dump.{no_aux, memory, dentry, log_operation}
use trace_file_system.Lookup.{trfs_interpose}

-- `if (err)`
abbrev pub fails : ℤ → Bool
fails err = not (err ==ℤ pos 0)

-- the times from the lower directory of `dir`, and the size from that of the lower parent
abbrev pub copy_dir : Ptr → Ptr → Kernel Unit
copy_dir dir lower_parent = do
  lower_dir ← trfs_lower_inode dir
  call_ (fsstack_copy_attr_times dir lower_dir)
  parent ← peek (d_inode lower_parent)
  call_ (fsstack_copy_inode_size dir parent)

-- `trfs_interpose`, and the attributes of the directory if it succeeds
abbrev pub interpose_and_copy : Ptr → Ptr → KPath → Ptr → Kernel ℤ
interpose_and_copy dir d path lower_parent = do
  sb ← field i_sb dir
  err ← trfs_interpose d sb path
  if fails err then pure err else (do copy_dir dir lower_parent; pure err)

unfoldable pub lower_create : Ptr → Ptr → ℤ → Bool → KPath → Ptr → Kernel ℤ
lower_create dir d mode want_excl path lower_parent = do
  parent ← peek (d_inode lower_parent)
  err ← call (vfs_create parent path.dentry mode want_excl)
  if fails err then pure err else interpose_and_copy dir d path lower_parent

unfoldable pub trfs_create : Ptr → Ptr → ℤ → Bool → Kernel ℤ
trfs_create dir d mode want_excl = do
  path ← trfs_get_lower_path d
  lower_parent ← lock_parent path.dentry
  err ← lower_create dir d mode want_excl path lower_parent
  sb ← field i_sb dir
  log_operation sb tr_fcreat d (pos 0) mode err no_aux (pos 0)
  unlock_dir lower_parent
  trfs_put_lower_path d path
  pure err

-- the attributes once the link is there
unfoldable pub copy_link : Ptr → Ptr → Ptr → Ptr → ℤ → Kernel Unit
copy_link old_d dir new_d lower_new size = do
  new ← peek (d_inode lower_new)
  call_ (fsstack_copy_attr_times dir new)
  call_ (fsstack_copy_inode_size dir new)
  old ← peek (d_inode old_d)
  lower_old ← trfs_lower_inode old
  n ← field i_nlink lower_old
  call_ (set_nlink old n)
  upper_new ← peek (d_inode new_d)
  call_ (i_size_write upper_new size)

unfoldable pub lower_link : Ptr → Ptr → Ptr → ℤ → KPath → KPath → Ptr → Kernel ℤ
unfolding copy_link
lower_link old_d dir new_d size old_path new_path lower_dir = do
  parent ← peek (d_inode lower_dir)
  err ← call (vfs_link old_path.dentry parent new_path.dentry)
  new ← peek (d_inode new_path.dentry)
  if fails err then pure err else if new ==ℤ null then pure err else do
    sb ← field i_sb dir
    err ← trfs_interpose new_d sb new_path
    if fails err then pure err else do copy_link old_d dir new_d new_path.dentry size; pure err

unfoldable pub trfs_link : Ptr → Ptr → Ptr → Kernel ℤ
trfs_link old_d dir new_d = do
  old ← peek (d_inode old_d)
  size ← call (i_size_read old)
  old_path ← trfs_get_lower_path old_d
  new_path ← trfs_get_lower_path new_d
  lower_dir ← lock_parent new_path.dentry
  err ← lower_link old_d dir new_d size old_path new_path lower_dir
  old ← peek (d_inode old_d)
  sb ← field i_sb old
  log_operation sb tr_link old_d (pos 0) (pos 0) err (dentry new_d) (pos 0)
  unlock_dir lower_dir
  trfs_put_lower_path old_d old_path
  trfs_put_lower_path new_d new_path
  pure err

-- `err == -EBUSY && flags & DCACHE_NFSFS_RENAMED` counts as success
abbrev pub unlink_result : ℤ → ℤ → ℤ
unlink_result err flags =
    if err ==ℤ ebusy then (if bit_and (pos_part flags) 4096 == 0 then err else pos 0) else err

-- the attributes once the name is gone
unfoldable pub copy_unlinked : Ptr → Ptr → Ptr → Kernel Unit
copy_unlinked dir d lower_dir = do
  call_ (fsstack_copy_attr_times dir lower_dir)
  call_ (fsstack_copy_inode_size dir lower_dir)
  inode ← peek (d_inode d)
  lower ← trfs_lower_inode inode
  n ← field i_nlink lower
  call_ (set_nlink inode n)
  call_ (copy_ctime inode dir)
  call_ (d_drop d)

unfoldable pub lower_unlink : Ptr → Ptr → Ptr → KPath → Kernel ℤ
unfolding copy_unlinked
lower_unlink dir d lower_dir path = do
  unlinked ← call (vfs_unlink lower_dir path.dentry)
  flags ← peek (d_flags path.dentry)
  let err = unlink_result unlinked flags
  if fails err then pure err else (do copy_unlinked dir d lower_dir; pure err)

unfoldable pub trfs_unlink : Ptr → Ptr → Kernel ℤ
trfs_unlink dir d = do
  lower_dir ← trfs_lower_inode dir
  path ← trfs_get_lower_path d
  call_ (dget path.dentry)
  lower_parent ← lock_parent path.dentry
  err ← lower_unlink dir d lower_dir path
  sb ← field i_sb dir
  log_operation sb tr_unlink d (pos 0) (pos 0) err no_aux (pos 0)
  unlock_dir lower_parent
  call_ (dput path.dentry)
  trfs_put_lower_path d path
  pure err
