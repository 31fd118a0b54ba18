-- ===== src/Ioctl.antt =====
-- hw2/tr_ioctl.c: the handler of the trace device. The messages to the kernel's log are left out.
pub mod Bitmap
pub mod Device
pub mod Lifecycle
pub mod Leaks
use trace_file_system.Prelude.{
  ℕ, ◌+◌, ◌%◌, ◌^◌, ℤ, pos, pos_part, ◌==ℤ◌, Bool, not, Option, none, some, List, [], ◌∷◌, ◌==◌,
  same, if◌then◌else◌,
}
use trace_file_system.Exec.{pure, modify, call, call_, peek, peek_bytes, ◌>>=◌, ◌>>◌}
use trace_file_system.Kernel.{
  Ptr, is_err, eacces, einval, SbInfo, Trfs, update, copy_from_user, copy_to_user, user_bitmap,
  user_mntpath, getname_kernel, putname, filp_open, filp_close, f_inode, i_sb, s_type_name,
  mutex_lock, mutex_unlock,
}
use trace_file_system.Kernel.Path.{Kernel, trfs_sb}
use trace_file_system.Dump.{trfs_name}

-- hw2/tr_ioctl.h: `_IOR(0x5443544c, 1, tr_arg_t *)` and `_IOW(0x5443544c, 2, tr_arg_t *)` as
-- 32-bit words
abbrev pub tr_get_bmap : ℕ
tr_get_bmap = 0xc35c4c01

abbrev pub tr_set_bmap : ℕ
tr_set_bmap = 0x435c4c02

-- What both commands do once the mount's file is open: with the bitmap of the superblock.
get_bitmap : Ptr → Ptr → Ptr → Ptr → Kernel ℤ
get_bitmap arg mnt_path mnt_filp sb = do
  trfs_sb sb
  call_ (mutex_lock sb)
  info ← trfs_sb sb
  call_ (mutex_unlock sb)
  call_ (putname mnt_path)
  call_ (filp_close mnt_filp)
  failed ← call (copy_to_user arg info.umask)
  pure (if failed ==ℤ pos 0 then pos 0 else eacces)

set_bitmap : ℕ → Ptr → Ptr → Ptr → Kernel ℤ
set_bitmap bitmap mnt_path mnt_filp sb = do
  trfs_sb sb
  call_ (mutex_lock sb)
  info ← trfs_sb sb
  modify
      (λ s. record s { s_fs_info = update s.s_fs_info sb (some (record info { umask = bitmap })) })
  call_ (mutex_unlock sb)
  call_ (putname mnt_path)
  call_ (filp_close mnt_filp)
  pure (pos 0)

-- The superblock behind the path in the argument, which both commands find in the same way; the
-- argument is copied in at once, with its bitmap. The early returns are the code's: where the file
-- system is not trfs, neither the name nor the file is given back.
with_mount : Ptr → (ℕ → Ptr → Ptr → Ptr → Kernel ℤ) → Kernel ℤ
with_mount arg k = do
  failed ← call (copy_from_user arg)
  if not (failed ==ℤ pos 0) then pure eacces else do
    bitmap ← peek (user_bitmap arg)
    mntpath ← peek (user_mntpath arg)
    mnt_path ← call (getname_kernel mntpath)
    if is_err mnt_path then pure mnt_path else do
      mnt_filp ← call (filp_open mnt_path 0 0)
      if is_err mnt_filp then (do call_ (putname mnt_path); pure mnt_filp) else do
        mnt_inode ← peek (f_inode mnt_filp)
        sb ← peek (i_sb mnt_inode)
        name ← peek_bytes (s_type_name sb)
        if not (same name trfs_name) then pure einval else k (pos_part bitmap) mnt_path mnt_filp sb

unfoldable pub tr_ioctl : ℕ → Ptr → Kernel ℤ
unfolding get_bitmap set_bitmap with_mount
tr_ioctl cmd arg =
    if cmd == tr_get_bmap
    then with_mount arg (λ bitmap. get_bitmap arg)
    else if cmd == tr_set_bmap
    then with_mount arg set_bitmap
    else pure einval
