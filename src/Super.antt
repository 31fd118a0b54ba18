-- ===== src/Super.antt =====
-- trfs/super.c: unmounting, the inodes' life, and what is passed on to the lower superblock.
pub mod Cache
pub mod Unmount
use trace_file_system.Prelude.{
  ℕ, ◌+◌, ◌-◌, ◌^◌, ℤ, pos, ◌==ℤ◌, ◌==◌, Bool, false, not, Option, none, some, List, [],
  if◌then◌else◌, bit_and, to_int,
}
use trace_file_system.Exec.{pure, gets, modify, call, call_, peek, ◌>>=◌, ◌>>◌, if_do}
use trace_file_system.Kernel.{
  Ptr, null, is_err, SbInfo, einval, update, s_active_dec, mutex_destroy, f_path_dentry, d_parent,
  d_inode, vfs_unlink, filp_close, kfree, free, sb_info, vfs_statfs, set_f_type,
  truncate_inode_pages, clear_inode, iput, alloc_inode_info, free_inode_info, set_i_version, s_op,
  has, invoke, umount_begin, ilookup,
}
use trace_file_system.Kernel.Path.{
  Kernel, trfs_sb, trfs_lower_super, trfs_set_lower_super, trfs_lower_inode, trfs_set_lower_inode,
  trfs_get_lower_path, trfs_put_lower_path,
}
use trace_file_system.Lookup.{trfs_iget}

-- `SAFE_REMOVE` and `SAFE_FILPCLOSE`
abbrev is_file : Ptr → Bool
is_file filp = if filp ==ℤ null then false else not (is_err filp)

unfoldable pub safe_remove : Ptr → Kernel Unit
safe_remove filp = if_do (is_file filp) (do
  dentry ← peek (f_path_dentry filp)
  parent ← peek (d_parent dentry)
  dir ← peek (d_inode parent)
  call_ (vfs_unlink dir dentry))

unfoldable pub safe_filpclose : Ptr → Kernel Unit
safe_filpclose filp = if_do (is_file filp) (call_ (filp_close filp))

-- what `trfs_put_super` does with private data that is there
unfoldable pub put_info : Ptr → Option SbInfo → Kernel Unit
unfolding safe_remove safe_filpclose
put_info sb none = pure tt
put_info sb (some spd) = do
  s ← trfs_lower_super sb
  trfs_set_lower_super sb null
  call_ (s_active_dec s)
  call_ (mutex_destroy sb)
  safe_remove spd.tr_lower_filep
  safe_filpclose spd.tr_lower_filep
  call_ (kfree spd.tr_page)
  call_ (free (sb_info sb))
  modify (λ s. record s { s_fs_info = update s.s_fs_info sb none })

unfoldable pub trfs_put_super : Ptr → Kernel Unit
unfolding put_info
trfs_put_super sb = do spd ← gets (λ s. s.s_fs_info sb); put_info sb spd

-- TRFS_SUPER_MAGIC is the kernel's.
pub trfs_statfs : ℕ → Ptr → Ptr → Kernel ℤ
trfs_statfs trfs_super_magic dentry buf = do
  lower_path ← trfs_get_lower_path dentry
  err ← call (vfs_statfs lower_path buf)
  trfs_put_lower_path dentry lower_path
  call_ (set_f_type buf trfs_super_magic)
  pure err

-- `~(MS_RDONLY | MS_MANDLOCK | MS_SILENT)` on 32 bits
abbrev other_flags : ℕ
other_flags = 2 ^ 32 - 1 - (1 + 64 + 32768)

unfoldable pub trfs_remount_fs : ℕ → ℤ
trfs_remount_fs flags = if bit_and flags other_flags == 0 then pos 0 else einval

pub trfs_evict_inode : Ptr → Kernel Unit
trfs_evict_inode inode = do
  call_ (truncate_inode_pages inode)
  call_ (clear_inode inode)
  lower_inode ← trfs_lower_inode inode
  trfs_set_lower_inode inode null
  call_ (iput lower_inode)

pub trfs_alloc_inode : Kernel Ptr
trfs_alloc_inode = do
  inode ← call alloc_inode_info
  if inode ==ℤ null
      then pure null
      else do trfs_set_lower_inode inode null; call_ (set_i_version inode); pure inode

pub trfs_destroy_inode : Ptr → Kernel Unit
trfs_destroy_inode inode = call_ (free_inode_info inode)

pub trfs_umount_begin : Ptr → Kernel Unit
trfs_umount_begin sb = do
  lower_sb ← trfs_lower_super sb
  if lower_sb ==ℤ null then pure tt else do
    ops ← peek (s_op lower_sb)
    if ops ==ℤ null then pure tt else do
      there ← peek (has umount_begin lower_sb)
      if_do (not (there ==ℤ pos 0)) (call_ (invoke umount_begin lower_sb []))

pub trfs_nfs_get_inode : Ptr → ℤ → Kernel Ptr
trfs_nfs_get_inode sb ino = do
  lower_sb ← trfs_lower_super sb
  lower_inode ← call (ilookup lower_sb ino)
  trfs_iget sb lower_inode

-- `generic_fh_to_dentry` and `generic_fh_to_parent` of the kernel, which decode a file handle and
-- call back for its inode
abbrev pub Decoder : Type 0
Decoder = Ptr → Ptr → ℤ → ℤ → (Ptr → ℤ → Kernel Ptr) → Kernel Ptr

abbrev pub trfs_fh_to_dentry : Decoder → Ptr → Ptr → ℤ → ℤ → Kernel Ptr
trfs_fh_to_dentry generic_fh_to_dentry sb fid fh_len fh_type =
    generic_fh_to_dentry sb fid fh_len fh_type trfs_nfs_get_inode

abbrev pub trfs_fh_to_parent : Decoder → Ptr → Ptr → ℤ → ℤ → Kernel Ptr
trfs_fh_to_parent generic_fh_to_parent sb fid fh_len fh_type =
    generic_fh_to_parent sb fid fh_len fh_type trfs_nfs_get_inode
