-- ===== src/Requests/Quiet.antt =====
-- The requests that are not logged leave the log and the mount as they are.
use trace_file_system.Prelude.{ℤ, ◌≡◌, some, arith, Option-cases, inl, inr}
use trace_file_system.Exec.{Env, World}
use trace_file_system.Kernel.{Ptr, Trfs, Call}
use trace_file_system.Lookup.Interpose.{SameLog}
use trace_file_system.Dentry.{trfs_d_release}
use trace_file_system.File.Quiet.{
  trfs_read-SameLog, trfs_readdir-SameLog, trfs_unlocked_ioctl-SameLog, trfs_compat_ioctl-SameLog,
  trfs_flush-SameLog, trfs_fsync-SameLog, trfs_fasync-SameLog, trfs_file_llseek-SameLog,
  trfs_read_iter-SameLog, trfs_write_iter-SameLog, trfs_open-SameLog, trfs_file_release-SameLog,
  trfs_mmap-SameLog, trfs_fault-SameLog, trfs_page_mkwrite-SameLog,
}
use trace_file_system.Inode.Quiet.{
  trfs_mknod-SameLog, trfs_readlink-SameLog, trfs_get_link-SameLog, trfs_permission-SameLog,
  trfs_setattr-SameLog, trfs_getattr-SameLog, trfs_setxattr-SameLog, trfs_getxattr-SameLog,
  trfs_listxattr-SameLog, trfs_removexattr-SameLog,
}
use trace_file_system.Lookup.Quiet.{
  trfs_d_revalidate-SameLog, trfs_lookup-SameLog, trfs_d_release-SameLog,
}
use trace_file_system.Requests.{Other, serve_other}

-- None of the handlers that are not traced writes to the log file, changes the data of a superblock
-- or numbers a record: this holds for each request, on each of its branches, whatever the kernel
-- answers.
pub serve_other-SameLog :
    (env : Env Call) (f : Ptr) (w : World Call Trfs) (o : Other) {err : ℤ} {w' : World Call Trfs}
    → serve_other o env w ≡ some (err, w')
    → SameLog f w w'
unfolding serve_other
serve_other-SameLog env f w (Other.lookup dir d flags) h = trfs_lookup-SameLog env f w dir d flags h
serve_other-SameLog env f w (Other.mknod dir d mode dev) h =
    trfs_mknod-SameLog env f w dir d mode dev h
serve_other-SameLog env f w (Other.readlink d buf size) h =
    trfs_readlink-SameLog env f w d buf size h
serve_other-SameLog env f w (Other.get_link d inode delayed) h =
    trfs_get_link-SameLog env f w d inode delayed h
serve_other-SameLog env f w (Other.permission inode mask) h =
    trfs_permission-SameLog env f w inode mask h
serve_other-SameLog env f w (Other.setattr d ia) h = trfs_setattr-SameLog env f w d ia h
serve_other-SameLog env f w (Other.getattr d stat) h = trfs_getattr-SameLog env f w d stat h
serve_other-SameLog env f w (Other.setxattr d name value size flags) h =
    trfs_setxattr-SameLog env f w d name value size flags h
serve_other-SameLog env f w (Other.getxattr d name value size) h =
    trfs_getxattr-SameLog env f w d name value size h
serve_other-SameLog env f w (Other.listxattr d buf size) h =
    trfs_listxattr-SameLog env f w d buf size h
serve_other-SameLog env f w (Other.removexattr d name) h = trfs_removexattr-SameLog env f w d name h
serve_other-SameLog env f w (Other.read o buf count ppos) h =
    trfs_read-SameLog env f w o buf count ppos h
serve_other-SameLog env f w (Other.readdir o ctx) h = trfs_readdir-SameLog env f w o ctx h
serve_other-SameLog env f w (Other.unlocked_ioctl o cmd arg) h =
    trfs_unlocked_ioctl-SameLog env f w o cmd arg h
serve_other-SameLog env f w (Other.compat_ioctl o cmd arg) h =
    trfs_compat_ioctl-SameLog env f w o cmd arg h
serve_other-SameLog env f w (Other.flush o id) h = trfs_flush-SameLog env f w o id h
serve_other-SameLog env f w (Other.fsync o from to datasync) h =
    trfs_fsync-SameLog env f w o from to datasync h
serve_other-SameLog env f w (Other.fasync fd o flag) h = trfs_fasync-SameLog env f w fd o flag h
serve_other-SameLog env f w (Other.llseek o offset whence) h =
    trfs_file_llseek-SameLog env f w o offset whence h
serve_other-SameLog env f w (Other.read_iter o iocb iter) h =
    trfs_read_iter-SameLog env f w o iocb iter h
serve_other-SameLog env f w (Other.write_iter o iocb iter) h =
    trfs_write_iter-SameLog env f w o iocb iter h
serve_other-SameLog env f w (Other.open_file inode o) h = trfs_open-SameLog env f w inode o h
serve_other-SameLog env f w (Other.release inode o) h = trfs_file_release-SameLog env f w inode o h
serve_other-SameLog env f w (Other.mmap o vma) h = trfs_mmap-SameLog env f w o vma h
serve_other-SameLog env f w (Other.revalidate d flags) h =
    trfs_d_revalidate-SameLog env f w d flags h
serve_other-SameLog env f w (Other.d_release d) h = elim (Option-cases (trfs_d_release d env w)) [
  | inl e ↦ ground arith
  | inr ((u, w1), e) ↦ ground (arith, trfs_d_release-SameLog env f w d e)
]
serve_other-SameLog env f w (Other.fault vma vmf vm) h = trfs_fault-SameLog env f w vma vmf vm h
serve_other-SameLog env f w (Other.page_mkwrite vma vmf vm) h =
    trfs_page_mkwrite-SameLog env f w vma vmf vm h
