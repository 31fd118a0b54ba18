-- ===== src/File/Quiet.antt =====
-- The file operations that are not traced, and the faults of trfs/mmap.c, leave the log and the mount as
-- they are, on each branch.
use trace_file_system.Prelude.{ℤ, ◌≡◌, some, arith}
use trace_file_system.Exec.{Env, World}
use trace_file_system.Kernel.{Ptr, Trfs, Call}
use trace_file_system.Kernel.Path.{trfs_get_lower_path, trfs_put_lower_path, trfs_set_lower_file}
use trace_file_system.Dump.Log.{log_file}
use trace_file_system.Lookup.Interpose.{SameLog}
use trace_file_system.File.{OpenFile, copy_attrs}
use trace_file_system.File.Ops.{
  trfs_read, trfs_readdir, trfs_unlocked_ioctl, trfs_compat_ioctl, trfs_flush, trfs_fsync,
  trfs_fasync, trfs_file_llseek, trfs_read_iter, trfs_write_iter, copy_atime, has_ops, call_method,
  lower_iter,
}
use trace_file_system.File.Open.{
  trfs_open, trfs_file_release, trfs_mmap, open_lower, drop_lower, map_lower, take_over,
}
use trace_file_system.Mmap.{trfs_fault, trfs_page_mkwrite}

module _ (env : Env Call) (f : Ptr) (w : World Call Trfs) where
  pub trfs_read-SameLog :
      (o : OpenFile) (buf : Ptr) (count ppos : ℤ) {err : ℤ} {w' : World Call Trfs}
      → trfs_read o buf count ppos env w ≡ some (err, w')
      → SameLog f w w'
  unfolding trfs_read copy_atime log_file
  trfs_read-SameLog o buf count ppos h = ground arith

  pub trfs_readdir-SameLog :
      (o : OpenFile) (ctx : Ptr) {err : ℤ} {w' : World Call Trfs}
      → trfs_readdir o ctx env w ≡ some (err, w')
      → SameLog f w w'
  unfolding trfs_readdir copy_atime log_file
  trfs_readdir-SameLog o ctx h = ground arith

  pub trfs_unlocked_ioctl-SameLog :
      (o : OpenFile) (cmd arg : ℤ) {err : ℤ} {w' : World Call Trfs}
      → trfs_unlocked_ioctl o cmd arg env w ≡ some (err, w')
      → SameLog f w w'
  unfolding trfs_unlocked_ioctl has_ops call_method log_file
  trfs_unlocked_ioctl-SameLog o cmd arg h = ground arith

  pub trfs_compat_ioctl-SameLog :
      (o : OpenFile) (cmd arg : ℤ) {err : ℤ} {w' : World Call Trfs}
      → trfs_compat_ioctl o cmd arg env w ≡ some (err, w')
      → SameLog f w w'
  unfolding trfs_compat_ioctl has_ops call_method log_file
  trfs_compat_ioctl-SameLog o cmd arg h = ground arith

  pub trfs_flush-SameLog :
      (o : OpenFile) (id : Ptr) {err : ℤ} {w' : World Call Trfs}
      → trfs_flush o id env w ≡ some (err, w')
      → SameLog f w w'
  unfolding trfs_flush has_ops log_file
  trfs_flush-SameLog o id h = ground arith

  pub trfs_fsync-SameLog :
      (o : OpenFile) (from to datasync : ℤ) {err : ℤ} {w' : World Call Trfs}
      → trfs_fsync o from to datasync env w ≡ some (err, w')
      → SameLog f w w'
  unfolding trfs_fsync trfs_get_lower_path trfs_put_lower_path log_file
  trfs_fsync-SameLog o from to datasync h = ground arith

  pub trfs_fasync-SameLog :
      (fd : ℤ) (o : OpenFile) (flag : ℤ) {err : ℤ} {w' : World Call Trfs}
      → trfs_fasync fd o flag env w ≡ some (err, w')
      → SameLog f w w'
  unfolding trfs_fasync call_method log_file
  trfs_fasync-SameLog fd o flag h = ground arith

  pub trfs_file_llseek-SameLog :
      (o : OpenFile) (offset whence : ℤ) {err : ℤ} {w' : World Call Trfs}
      → trfs_file_llseek o offset whence env w ≡ some (err, w')
      → SameLog f w w'
  unfolding trfs_file_llseek log_file
  trfs_file_llseek-SameLog o offset whence h = ground arith

  pub trfs_read_iter-SameLog :
      (o : OpenFile) (iocb iter : Ptr) {err : ℤ} {w' : World Call Trfs}
      → trfs_read_iter o iocb iter env w ≡ some (err, w')
      → SameLog f w w'
  unfolding trfs_read_iter lower_iter copy_atime log_file
  trfs_read_iter-SameLog o iocb iter h = ground arith

  pub trfs_write_iter-SameLog :
      (o : OpenFile) (iocb iter : Ptr) {err : ℤ} {w' : World Call Trfs}
      → trfs_write_iter o iocb iter env w ≡ some (err, w')
      → SameLog f w w'
  unfolding trfs_write_iter lower_iter copy_attrs log_file
  trfs_write_iter-SameLog o iocb iter h = ground arith

  pub trfs_open-SameLog :
      (inode : Ptr) (o : OpenFile) {err : ℤ} {w' : World Call Trfs}
      → trfs_open inode o env w ≡ some (err, w')
      → SameLog f w w'
  unfolding trfs_open open_lower drop_lower trfs_set_lower_file trfs_get_lower_path log_file
  trfs_open-SameLog inode o h = ground arith

  pub trfs_file_release-SameLog :
      (inode : Ptr) (o : OpenFile) {err : ℤ} {w' : World Call Trfs}
      → trfs_file_release inode o env w ≡ some (err, w')
      → SameLog f w w'
  unfolding trfs_file_release drop_lower trfs_set_lower_file log_file
  trfs_file_release-SameLog inode o h = ground arith

  pub trfs_mmap-SameLog :
      (o : OpenFile) (vma : Ptr) {err : ℤ} {w' : World Call Trfs}
      → trfs_mmap o vma env w ≡ some (err, w')
      → SameLog f w w'
  unfolding trfs_mmap map_lower take_over log_file
  trfs_mmap-SameLog o vma h = ground arith

  pub trfs_fault-SameLog :
      (file vma vmf : Ptr) {err : ℤ} {w' : World Call Trfs}
      → trfs_fault file vma vmf env w ≡ some (err, w')
      → SameLog f w w'
  unfolding trfs_fault log_file
  trfs_fault-SameLog file vma vmf h = ground arith

  pub trfs_page_mkwrite-SameLog :
      (file vma vmf : Ptr) {err : ℤ} {w' : World Call Trfs}
      → trfs_page_mkwrite file vma vmf env w ≡ some (err, w')
      → SameLog f w w'
  unfolding trfs_page_mkwrite log_file
  trfs_page_mkwrite-SameLog file vma vmf h = ground arith
