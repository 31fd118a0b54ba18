-- ===== src/File/Ops.antt =====
-- trfs/file.c: the operations that are not traced. Each goes to the lower file.
use trace_file_system.Prelude.{
  ℤ, pos, ◌==ℤ◌, is_neg, Bool, true, false, not, List, [], ◌∷◌, if◌then◌else◌, to_int,
}
use trace_file_system.Exec.{pure, call, call_, peek, ◌>>=◌, ◌>>◌, if_do}
use trace_file_system.Kernel.{
  Ptr, null, einval, enotty, eiocbqueued, Method, unlocked_ioctl, compat_ioctl, flush, fasync,
  read_iter, write_iter, vfs_read, iterate_dir, f_pos, set_f_pos, f_op, has, invoke, d_inode,
  f_inode, fsstack_copy_attr_atime, fsstack_copy_attr_all, filemap_write_and_wait,
  generic_file_fsync, vfs_fsync_range, generic_file_llseek, get_file, fput, set_ki_filp,
}
use trace_file_system.Kernel.Path.{
  Kernel, field, method, trfs_lower_file, trfs_get_lower_path, trfs_put_lower_path,
}
use trace_file_system.File.{OpenFile, copy_attrs}

-- the access time of the upper inode, from the lower file
unfoldable pub copy_atime : Ptr → Ptr → Kernel Unit
copy_atime dentry lower_file = do
  inode ← peek (d_inode dentry)
  lower ← peek (f_inode lower_file)
  call_ (fsstack_copy_attr_atime inode lower)

unfoldable pub trfs_read : OpenFile → Ptr → ℤ → ℤ → Kernel ℤ
unfolding copy_atime
trfs_read f buf count ppos = do
  lower_file ← trfs_lower_file f.file
  read ← call (vfs_read lower_file buf count ppos)
  let err = to_int read
  if_do (not (is_neg err)) (copy_atime f.f_dentry lower_file)
  pure err

unfoldable pub trfs_readdir : OpenFile → Ptr → Kernel ℤ
unfolding copy_atime
trfs_readdir f ctx = do
  lower_file ← trfs_lower_file f.file
  err ← call (iterate_dir lower_file ctx)
  at ← peek (f_pos lower_file)
  call_ (set_f_pos f.file at)
  if_do (not (is_neg err)) (copy_atime f.f_dentry lower_file)
  pure err

-- Whether the file is there and has a table of operations.
unfoldable pub has_ops : Ptr → Kernel Bool
has_ops file =
    if file ==ℤ null then pure false else do ops ← peek (f_op file); pure (not (ops ==ℤ null))

-- The method of the lower file, or the value where it has none.
unfoldable pub call_method : Method → Ptr → List ℤ → ℤ → Kernel ℤ
call_method m file args err = do
  there ← peek (has m file)
  if there ==ℤ pos 0 then pure err else call (invoke m file args)

unfoldable pub trfs_unlocked_ioctl : OpenFile → ℤ → ℤ → Kernel ℤ
unfolding has_ops call_method
trfs_unlocked_ioctl f cmd arg = do
  lower_file ← trfs_lower_file f.file
  ops ← has_ops lower_file
  if not ops then pure enotty else do
    err ← call_method unlocked_ioctl lower_file (cmd ∷ arg ∷ []) enotty
    if_do (err ==ℤ pos 0) (do
      inode ← peek (f_inode f.file)
      lower ← peek (f_inode lower_file)
      call_ (fsstack_copy_attr_all inode lower))
    pure err

unfoldable pub trfs_compat_ioctl : OpenFile → ℤ → ℤ → Kernel ℤ
unfolding has_ops call_method
trfs_compat_ioctl f cmd arg = do
  lower_file ← trfs_lower_file f.file
  ops ← has_ops lower_file
  if not ops then pure enotty else call_method compat_ioctl lower_file (cmd ∷ arg ∷ []) enotty

unfoldable pub trfs_flush : OpenFile → Ptr → Kernel ℤ
unfolding has_ops
trfs_flush f id = do
  lower_file ← trfs_lower_file f.file
  ops ← has_ops lower_file
  if not ops then pure (pos 0) else do
    there ← peek (has flush lower_file)
    if there ==ℤ pos 0
        then pure (pos 0)
        else do call_ (filemap_write_and_wait f.file); call (invoke flush lower_file (id ∷ []))

unfoldable pub trfs_fsync : OpenFile → ℤ → ℤ → ℤ → Kernel ℤ
trfs_fsync f start end datasync = do
  err ← call (generic_file_fsync f.file start end datasync)
  if not (err ==ℤ pos 0) then pure err else do
    lower_file ← trfs_lower_file f.file
    lower_path ← trfs_get_lower_path f.f_dentry
    err ← call (vfs_fsync_range lower_file start end datasync)
    trfs_put_lower_path f.f_dentry lower_path
    pure err

-- A lower file that is NULL is an oops: its table is read at once.
unfoldable pub trfs_fasync : ℤ → OpenFile → ℤ → Kernel ℤ
unfolding call_method
trfs_fasync fd f flag = do
  lower_file ← trfs_lower_file f.file
  ops ← field f_op lower_file
  if ops ==ℤ null then pure (pos 0) else call_method fasync lower_file (fd ∷ flag ∷ []) (pos 0)

-- The offsets are cut to an `int`.
unfoldable pub trfs_file_llseek : OpenFile → ℤ → ℤ → Kernel ℤ
trfs_file_llseek f offset whence = do
  sought ← call (generic_file_llseek f.file offset whence)
  let err = to_int sought
  if is_neg err then pure err else do
    lower_file ← trfs_lower_file f.file
    sought ← call (generic_file_llseek lower_file offset whence)
    pure (to_int sought)

-- `err >= 0 || err == -EIOCBQUEUED`
abbrev done : ℤ → Bool
done err = if is_neg err then err ==ℤ eiocbqueued else true

-- The call of the lower file's `read_iter` or `write_iter`, with the request turned to that file
-- and a reference to it held.
unfoldable pub lower_iter : Method → OpenFile → Ptr → Ptr → Ptr → Kernel ℤ
lower_iter m f lower_file iocb iter = do
  call_ (get_file lower_file)
  call_ (set_ki_filp iocb lower_file)
  moved ← call (invoke m lower_file (iocb ∷ iter ∷ []))
  call_ (set_ki_filp iocb f.file)
  call_ (fput lower_file)
  pure (to_int moved)

unfoldable pub trfs_read_iter : OpenFile → Ptr → Ptr → Kernel ℤ
unfolding lower_iter copy_atime
trfs_read_iter f iocb iter = do
  lower_file ← trfs_lower_file f.file
  there ← method f_op read_iter lower_file
  if there ==ℤ pos 0 then pure einval else do
    err ← lower_iter read_iter f lower_file iocb iter
    if_do (done err) (copy_atime f.f_dentry lower_file)
    pure err

unfoldable pub trfs_write_iter : OpenFile → Ptr → Ptr → Kernel ℤ
unfolding lower_iter copy_attrs
trfs_write_iter f iocb iter = do
  lower_file ← trfs_lower_file f.file
  there ← method f_op write_iter lower_file
  if there ==ℤ pos 0 then pure einval else do
    err ← lower_iter write_iter f lower_file iocb iter
    if_do (done err) (copy_attrs f.f_dentry lower_file)
    pure err
