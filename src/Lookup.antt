-- ===== src/Lookup.antt =====
-- trfs/lookup.c: the inode of trfs for an inode of the lower file system, and its connection to a
-- dentry. The locks of the inode cache are inside `iget5_locked`.

pub mod Private
pub mod Interpose
pub mod Stacked
pub mod Outcome
pub mod Found
pub mod Find
pub mod Quiet
use trace_file_system.Prelude.{
  ℕ, ℤ, pos, to_int, pos_part, Bool, true, not, ◌==ℤ◌, ◌==◌, if◌then◌else◌, bit_and,
}
use trace_file_system.Exec.{pure, modify, call, call_, peek, ◌>>=◌, ◌>>◌, if_do}
use trace_file_system.Kernel.{
  Ptr, null, is_err, KPath, eacces, exdev, estale, update, iget5_locked, iput, i_ino, i_state,
  i_mode, i_sb, i_rdev, set_i_ino, igrab, bump_i_version, set_i_op, set_i_fop, set_a_ops,
  clear_times, init_special_inode, fsstack_copy_attr_all, fsstack_copy_inode_size, unlock_new_inode,
  d_inode, d_splice_alias,
}
use trace_file_system.Kernel.Path.{Kernel, trfs_sb, field, trfs_lower_inode}

-- The types of linux/stat.h, in `mode & S_IFMT`
abbrev file_type : ℤ → ℕ
file_type mode = bit_and (pos_part mode) 61440

abbrev is_dir : ℤ → Bool
is_dir mode = file_type mode == 16384

abbrev is_lnk : ℤ → Bool
is_lnk mode = file_type mode == 40960

-- a block or a character device, a pipe or a socket
abbrev is_special : ℤ → Bool
is_special mode =
    if file_type mode == 24576
    then true
    else if file_type mode == 8192
    then true
    else if file_type mode == 4096
    then true
    else file_type mode == 49152

-- `inode->i_state & I_NEW`
abbrev pub is_new : ℤ → Bool
is_new state = not (bit_and (pos_part state) 8 == 0)

-- The tables of operations by number: those of plain files, of directories and of symbolic links.
abbrev main_ops : ℕ
main_ops = 0

abbrev dir_ops : ℕ
dir_ops = 1

abbrev symlink_ops : ℕ
symlink_ops = 2

abbrev i_op_of : ℤ → ℕ
i_op_of mode = if is_dir mode then dir_ops else if is_lnk mode then symlink_ops else main_ops

abbrev i_fop_of : ℤ → ℕ
i_fop_of mode = if is_dir mode then dir_ops else main_ops

-- What the inode cache calls to tell whether an inode is the one for a lower inode, and to set up a
-- new one.
unfoldable pub trfs_inode_test : Ptr → Ptr → Kernel ℤ
trfs_inode_test inode candidate = do
  current ← trfs_lower_inode inode
  pure (if current ==ℤ candidate then pos 1 else pos 0)

abbrev pub trfs_inode_set : Ptr → Ptr → ℤ
trfs_inode_set inode lower_inode = pos 0

-- `trfs_iget` from the assignment of the lower inode on
unfoldable pub init_inode : Ptr → Ptr → Kernel Ptr
init_inode inode lower = do
  modify (λ s. record s { lower_inode = update s.lower_inode inode lower })
  call_ (bump_i_version inode)
  mode ← field i_mode lower
  call_ (set_i_op inode (i_op_of mode))
  call_ (set_i_fop inode (i_fop_of mode))
  call_ (set_a_ops inode)
  call_ (clear_times inode)
  dev ← field i_rdev lower
  if_do (is_special mode) (call_ (init_special_inode inode mode dev))
  call_ (fsstack_copy_attr_all inode lower)
  call_ (fsstack_copy_inode_size inode lower)
  call_ (unlock_new_inode inode)
  pure inode

unfoldable pub trfs_iget : Ptr → Ptr → Kernel Ptr
unfolding init_inode
trfs_iget sb lower = do
  ino ← field i_ino lower
  inode ← call (iget5_locked sb ino lower)
  if inode ==ℤ null then (do call_ (iput lower); pure eacces) else do
    state ← peek (i_state inode)
    if not (is_new state) then pure inode else do
      call_ (set_i_ino inode ino)
      grabbed ← call (igrab lower)
      if grabbed ==ℤ null then pure estale else init_inode inode lower

-- `__trfs_interpose`
unfoldable pub interpose_dentry : Ptr → Ptr → KPath → Kernel Ptr
unfolding trfs_iget
interpose_dentry dentry sb lower_path = do
  lower ← peek (d_inode lower_path.dentry)
  info ← trfs_sb sb
  lower_sb ← field i_sb lower
  if not (lower_sb ==ℤ info.lower_sb) then pure exdev else do
    inode ← trfs_iget sb lower
    if is_err inode then pure inode else call (d_splice_alias inode dentry)

-- `PTR_ERR` of the dentry, as an `int`: an error number is itself, NULL is 0.
unfoldable pub trfs_interpose : Ptr → Ptr → KPath → Kernel ℤ
unfolding interpose_dentry
trfs_interpose dentry sb lower_path = do
  ret_dentry ← interpose_dentry dentry sb lower_path
  pure (to_int ret_dentry)
