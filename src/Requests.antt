-- ===== src/Requests.antt =====
-- The requests that the kernel makes of a mount, through the tables of operations of trfs/inode.c,
-- trfs/file.c, trfs/dentry.c and trfs/mmap.c, and the handler that serves each.
pub mod Quiet
pub mod Ready
pub mod Serve
pub mod History
pub mod Image
pub mod Session
pub mod Progress
pub mod Completed
pub mod Program
use trace_file_system.Prelude.{some, ℕ, ℤ, pos, Bool, List, length}
use trace_file_system.Exec.{pure, ◌>>=◌, ◌>>◌}
use trace_file_system.Record.{Chars}
use trace_file_system.Kernel.{Ptr}
use trace_file_system.Kernel.Path.{Kernel}
use trace_file_system.Dump.{Aux, no_aux, memory, dentry}
use trace_file_system.Dump.Fill.{Operation}
use trace_file_system.Lookup.Find.{trfs_lookup}
use trace_file_system.Inode.{trfs_create, trfs_link, trfs_unlink}
use trace_file_system.Inode.Nodes.{trfs_symlink, trfs_mkdir, trfs_rmdir, trfs_mknod}
use trace_file_system.Inode.Rename.{trfs_rename}
use trace_file_system.Inode.Attr.{
  IAttr, trfs_readlink, trfs_get_link, trfs_permission, trfs_setattr, trfs_getattr,
}
use trace_file_system.Inode.Xattr.{trfs_setxattr, trfs_getxattr, trfs_listxattr, trfs_removexattr}
use trace_file_system.File.{OpenFile, trfs_write}
use trace_file_system.File.Ops.{
  trfs_read, trfs_readdir, trfs_unlocked_ioctl, trfs_compat_ioctl, trfs_flush, trfs_fsync,
  trfs_fasync, trfs_file_llseek, trfs_read_iter, trfs_write_iter,
}
use trace_file_system.File.Open.{trfs_open, trfs_file_release, trfs_mmap}
use trace_file_system.Dentry.{trfs_d_revalidate, trfs_d_release}
use trace_file_system.Mmap.{trfs_fault, trfs_page_mkwrite}

-- The requests that are logged. A write is one from a buffer: NULL is not one.
pub data Request : Type 0 where
  create : Ptr → Ptr → ℤ → Bool → Request
  link_to : Ptr → Ptr → Ptr → Request
  remove : Ptr → Ptr → Request
  symlink_to : Ptr → Ptr → Chars → Request
  mkdir : Ptr → Ptr → ℤ → Request
  rmdir : Ptr → Ptr → Request
  rename_to : Ptr → Ptr → Ptr → Ptr → Request
  write : OpenFile → Chars → ℤ → Request

-- The handler, as the tables of operations name it.
unfoldable pub serve : Request → Kernel ℤ
serve (create dir d mode excl) = trfs_create dir d mode excl
serve (link_to old_d dir new_d) = trfs_link old_d dir new_d
serve (remove dir d) = trfs_unlink dir d
serve (symlink_to dir d symname) = trfs_symlink dir d symname
serve (mkdir dir d mode) = trfs_mkdir dir d mode
serve (rmdir dir d) = trfs_rmdir dir d
serve (rename_to old_dir old_d new_dir new_d) = trfs_rename old_dir old_d new_dir new_d
serve (write o buf ppos) = trfs_write o (some buf) (pos (length buf.chars)) ppos

-- What the handler says of the request to the log.
pub record Entry : Type 0 where
  pub op : Operation
  pub d : Ptr
  pub flags : ℤ
  pub perm_flags : ℤ
  pub aux : Aux

abbrev entry_of : Operation → Ptr → ℤ → Aux → Entry
entry_of op d mode aux = record { op = op; d = d; flags = pos 0; perm_flags = mode; aux = aux }

abbrev pub entry : Request → Entry
entry (create dir d mode excl) = entry_of Operation.fcreat d mode no_aux
entry (link_to old_d dir new_d) = entry_of Operation.link old_d (pos 0) (dentry new_d)
entry (remove dir d) = entry_of Operation.unlink d (pos 0) no_aux
entry (symlink_to dir d symname) = entry_of Operation.symlink d (pos 0) (memory symname)
entry (mkdir dir d mode) = entry_of Operation.dcreat d mode no_aux
entry (rmdir dir d) = entry_of Operation.unlink d (pos 0) no_aux
entry (rename_to old_dir old_d new_dir new_d) =
    entry_of Operation.rename old_d (pos 0) (dentry new_d)
entry (write o buf ppos) = record {
  op = Operation.fwrite;
  d = o.f_dentry;
  flags = o.f_flags;
  perm_flags = pos 0;
  aux = memory buf;
}

-- The requests that are not logged.
pub data Other : Type 0 where
  lookup : Ptr → Ptr → ℤ → Other
  mknod : Ptr → Ptr → ℤ → ℤ → Other
  readlink : Ptr → Ptr → ℤ → Other
  get_link : Ptr → Ptr → Ptr → Other
  permission : Ptr → ℤ → Other
  setattr : Ptr → IAttr → Other
  getattr : Ptr → Ptr → Other
  setxattr : Ptr → List ℕ → Ptr → ℤ → ℤ → Other
  getxattr : Ptr → List ℕ → Ptr → ℤ → Other
  listxattr : Ptr → Ptr → ℤ → Other
  removexattr : Ptr → List ℕ → Other
  read : OpenFile → Ptr → ℤ → ℤ → Other
  readdir : OpenFile → Ptr → Other
  unlocked_ioctl compat_ioctl : OpenFile → ℤ → ℤ → Other
  flush : OpenFile → Ptr → Other
  fsync : OpenFile → ℤ → ℤ → ℤ → Other
  fasync : ℤ → OpenFile → ℤ → Other
  llseek : OpenFile → ℤ → ℤ → Other
  read_iter write_iter : OpenFile → Ptr → Ptr → Other
  open_file release : Ptr → OpenFile → Other
  mmap : OpenFile → Ptr → Other
  revalidate : Ptr → ℤ → Other
  d_release : Ptr → Other
  fault page_mkwrite : Ptr → Ptr → Ptr → Other

unfoldable pub serve_other : Other → Kernel ℤ
serve_other (lookup dir d flags) = trfs_lookup dir d flags
serve_other (mknod dir d mode dev) = trfs_mknod dir d mode dev
serve_other (readlink d buf size) = trfs_readlink d buf size
serve_other (get_link d inode delayed) = trfs_get_link d inode delayed
serve_other (permission inode mask) = trfs_permission inode mask
serve_other (setattr d ia) = trfs_setattr d ia
serve_other (getattr d stat) = trfs_getattr d stat
serve_other (setxattr d name value size flags) = trfs_setxattr d name value size flags
serve_other (getxattr d name value size) = trfs_getxattr d name value size
serve_other (listxattr d buf size) = trfs_listxattr d buf size
serve_other (removexattr d name) = trfs_removexattr d name
serve_other (read o buf count ppos) = trfs_read o buf count ppos
serve_other (readdir o ctx) = trfs_readdir o ctx
serve_other (unlocked_ioctl o cmd arg) = trfs_unlocked_ioctl o cmd arg
serve_other (compat_ioctl o cmd arg) = trfs_compat_ioctl o cmd arg
serve_other (flush o id) = trfs_flush o id
serve_other (fsync o from to datasync) = trfs_fsync o from to datasync
serve_other (fasync fd o flag) = trfs_fasync fd o flag
serve_other (llseek o offset whence) = trfs_file_llseek o offset whence
serve_other (read_iter o iocb iter) = trfs_read_iter o iocb iter
serve_other (write_iter o iocb iter) = trfs_write_iter o iocb iter
serve_other (open_file inode o) = trfs_open inode o
serve_other (release inode o) = trfs_file_release inode o
serve_other (mmap o vma) = trfs_mmap o vma
serve_other (revalidate d flags) = trfs_d_revalidate d flags
serve_other (d_release d) = do trfs_d_release d; pure (pos 0)
serve_other (fault vma vmf vm) = trfs_fault vma vmf vm
serve_other (page_mkwrite vma vmf vm) = trfs_page_mkwrite vma vmf vm
