-- ===== src/Balance/Files.antt =====
-- The file operations that are not logged give back what they take, on each branch.
use trace_file_system.Prelude.{arith, some, ℤ, ◌≡◌}
use trace_file_system.Exec.{Env, World}
use trace_file_system.Kernel.{Call, Ptr, Trfs}
use trace_file_system.Kernel.Path.{trfs_get_lower_path, trfs_put_lower_path, trfs_set_lower_file}
use trace_file_system.File.{OpenFile, copy_attrs}
use trace_file_system.File.Ops.{
  call_method, copy_atime, has_ops, lower_iter, trfs_compat_ioctl, trfs_fasync, trfs_file_llseek,
  trfs_flush, trfs_fsync, trfs_read, trfs_read_iter, trfs_readdir, trfs_unlocked_ioctl,
  trfs_write_iter,
}
use trace_file_system.File.Open.{
  drop_lower, map_lower, open_lower, take_over, trfs_file_release, trfs_mmap, trfs_open,
}
use trace_file_system.Mmap.{trfs_fault, trfs_page_mkwrite}
use trace_file_system.Balance.{Balanced, taken, given}

module _ (env : Env Call) (w : World Call Trfs) where
  pub trfs_read-Balanced :
      (o : OpenFile) (buf : Ptr) (count ppos : ℤ) {err : ℤ} {w' : World Call Trfs}
      → trfs_read o buf count ppos env w ≡ some (err, w')
      → Balanced w w'
  unfolding trfs_read copy_atime taken given
  trfs_read-Balanced o buf count ppos h = ground arith

  pub trfs_readdir-Balanced :
      (o : OpenFile) (ctx : Ptr) {err : ℤ} {w' : World Call Trfs}
      → trfs_readdir o ctx env w ≡ some (err, w')
      → Balanced w w'
  unfolding trfs_readdir copy_atime taken given
  trfs_readdir-Balanced o ctx h = ground arith

  pub trfs_unlocked_ioctl-Balanced :
      (o : OpenFile) (cmd arg : ℤ) {err : ℤ} {w' : World Call Trfs}
      → trfs_unlocked_ioctl o cmd arg env w ≡ some (err, w')
      → Balanced w w'
  unfolding trfs_unlocked_ioctl has_ops call_method taken given
  trfs_unlocked_ioctl-Balanced o cmd arg h = ground arith

  pub trfs_compat_ioctl-Balanced :
      (o : OpenFile) (cmd arg : ℤ) {err : ℤ} {w' : World Call Trfs}
      → trfs_compat_ioctl o cmd arg env w ≡ some (err, w')
      → Balanced w w'
  unfolding trfs_compat_ioctl has_ops call_method taken given
  trfs_compat_ioctl-Balanced o cmd arg h = ground arith

  pub trfs_flush-Balanced :
      (o : OpenFile) (id : Ptr) {err : ℤ} {w' : World Call Trfs}
      → trfs_flush o id env w ≡ some (err, w')
      → Balanced w w'
  unfolding trfs_flush has_ops taken given
  trfs_flush-Balanced o id h = ground arith

  pub trfs_fsync-Balanced :
      (o : OpenFile) (from to datasync : ℤ) {err : ℤ} {w' : World Call Trfs}
      → trfs_fsync o from to datasync env w ≡ some (err, w')
      → Balanced w w'
  unfolding trfs_fsync trfs_get_lower_path trfs_put_lower_path taken given
  trfs_fsync-Balanced o from to datasync h = ground arith

  pub trfs_fasync-Balanced :
      (fd : ℤ) (o : OpenFile) (flag : ℤ) {err : ℤ} {w' : World Call Trfs}
      → trfs_fasync fd o flag env w ≡ some (err, w')
      → Balanced w w'
  unfolding trfs_fasync call_method taken given
  trfs_fasync-Balanced fd o flag h = ground arith

  pub trfs_file_llseek-Balanced :
      (o : OpenFile) (offset whence : ℤ) {err : ℤ} {w' : World Call Trfs}
      → trfs_file_llseek o offset whence env w ≡ some (err, w')
      → Balanced w w'
  unfolding trfs_file_llseek taken given
  trfs_file_llseek-Balanced o offset whence h = ground arith

  pub trfs_read_iter-Balanced :
      (o : OpenFile) (iocb iter : Ptr) {err : ℤ} {w' : World Call Trfs}
      → trfs_read_iter o iocb iter env w ≡ some (err, w')
      → Balanced w w'
  unfolding trfs_read_iter lower_iter copy_atime taken given
  trfs_read_iter-Balanced o iocb iter h = ground arith

  pub trfs_write_iter-Balanced :
      (o : OpenFile) (iocb iter : Ptr) {err : ℤ} {w' : World Call Trfs}
      → trfs_write_iter o iocb iter env w ≡ some (err, w')
      → Balanced w w'
  unfolding trfs_write_iter lower_iter copy_attrs taken given
  trfs_write_iter-Balanced o iocb iter h = ground arith

  pub trfs_open-Balanced :
      (inode : Ptr) (o : OpenFile) {err : ℤ} {w' : World Call Trfs}
      → trfs_open inode o env w ≡ some (err, w')
      → Balanced w w'
  unfolding trfs_open open_lower drop_lower trfs_set_lower_file trfs_get_lower_path taken given
  trfs_open-Balanced inode o h = ground arith

  pub trfs_file_release-Balanced :
      (inode : Ptr) (o : OpenFile) {err : ℤ} {w' : World Call Trfs}
      → trfs_file_release inode o env w ≡ some (err, w')
      → Balanced w w'
  unfolding trfs_file_release drop_lower trfs_set_lower_file taken given
  trfs_file_release-Balanced inode o h = ground arith

  pub trfs_mmap-Balanced :
      (o : OpenFile) (vma : Ptr) {err : ℤ} {w' : World Call Trfs}
      → trfs_mmap o vma env w ≡ some (err, w')
      → Balanced w w'
  unfolding trfs_mmap map_lower take_over taken given
  trfs_mmap-Balanced o vma h = ground arith

  pub trfs_fault-Balanced :
      (file vma vmf : Ptr) {err : ℤ} {w' : World Call Trfs}
      → trfs_fault file vma vmf env w ≡ some (err, w')
      → Balanced w w'
  unfolding trfs_fault taken given
  trfs_fault-Balanced file vma vmf h = ground arith

  pub trfs_page_mkwrite-Balanced :
      (file vma vmf : Ptr) {err : ℤ} {w' : World Call Trfs}
      → trfs_page_mkwrite file vma vmf env w ≡ some (err, w')
      → Balanced w w'
  unfolding trfs_page_mkwrite taken given
  trfs_page_mkwrite-Balanced file vma vmf h = ground arith
