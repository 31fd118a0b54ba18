-- ===== src/File.antt =====
-- trfs/file.c: the write of a file of trfs.
pub mod Write
pub mod Empty
pub mod Overflow
pub mod Ops
pub mod Open
pub mod Lifecycle
pub mod Quiet
use trace_file_system.Prelude.{Option, none, some, ℤ, pos, is_neg, not, to_int}
use trace_file_system.Exec.{pure, call, call_, peek, ◌>>=◌, ◌>>◌, if_do}
use trace_file_system.Record.{Chars, tr_fwrite}
use trace_file_system.Kernel.{
  Ptr, null, vfs_write, d_inode, f_inode, i_sb, fsstack_copy_inode_size, fsstack_copy_attr_times,
}
use trace_file_system.Kernel.Path.{Kernel, field, trfs_lower_file}
use trace_file_system.Dump.{Aux, no_aux, memory, log_operation}

-- What the code reads of a `struct file`: its address, `f_path.dentry` and `f_flags`.
pub record OpenFile : Type 0 where
  pub file : Ptr
  pub f_dentry : Ptr
  pub f_flags : ℤ

-- the attributes of the upper inode, once the lower file is written
unfoldable pub copy_attrs : Ptr → Ptr → Kernel Unit
copy_attrs dentry lower_file = do
  inode ← peek (d_inode dentry)
  lower ← peek (f_inode lower_file)
  call_ (fsstack_copy_inode_size inode lower)
  call_ (fsstack_copy_attr_times inode lower)

-- the address of the user's memory, and what the handler hands to the code that logs
abbrev pub address : Option Chars → Ptr
address none = null
address (some c) = c.block

abbrev pub user_data : Option Chars → Aux
user_data none = no_aux
user_data (some c) = memory c

-- `buf` is the user's memory, or NULL, and `ppos` the position before the write, which `vfs_write` moves.
unfoldable pub trfs_write : OpenFile → Option Chars → ℤ → ℤ → Kernel ℤ
unfolding copy_attrs
trfs_write f buf count ppos = do
  lower_file ← trfs_lower_file f.file
  written ← call (vfs_write lower_file (address buf) count ppos)
  let err = to_int written
  if_do (not (is_neg err)) (copy_attrs f.f_dentry lower_file)
  inode ← peek (d_inode f.f_dentry)
  sb ← field i_sb inode
  log_operation sb tr_fwrite f.f_dentry f.f_flags (pos 0) err (user_data buf) count
  pure err
