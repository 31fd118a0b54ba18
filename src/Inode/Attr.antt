-- ===== src/Inode/Attr.antt =====
-- trfs/inode.c: links that are followed, permissions and attributes. None of them is traced.
pub mod Overflow
use trace_file_system.Prelude.{
  ℕ, ◌+◌, ◌-◌, ℤ, pos, ◌==ℤ◌, ◌==◌, is_neg, [], ◌∷◌, if◌then◌else◌, bit_and,
}
use trace_file_system.Exec.{pure, call, call_, peek, ◌>>=◌, ◌>>◌}
use trace_file_system.Kernel.{
  Ptr, null, KPath, einval, enomem, echild, i_op, has, invoke, readlink, d_inode,
  fsstack_copy_attr_atime, fsstack_copy_attr_all, kmalloc, kfree, set_fs_kernel, set_fs_back,
  set_nul, set_delayed_call, inode_permission, inode_change_ok, inode_newsize_ok, truncate_setsize,
  inode_lock, inode_unlock, notify_change, vfs_getattr, generic_fillattr, set_blocks,
}
use trace_file_system.Kernel.Path.{
  Kernel, field, trfs_lower_inode, trfs_lower_file, trfs_get_lower_path, trfs_put_lower_path,
}
use trace_file_system.Inode.{fails}

-- before the label `out` of `trfs_readlink`
unfoldable pub lower_readlink : Ptr → Ptr → Ptr → ℤ → Kernel ℤ
lower_readlink dentry lower_dentry buf bufsiz = do
  lower ← peek (d_inode lower_dentry)
  ops ← field i_op lower
  if ops ==ℤ null then pure einval else do
    there ← peek (has readlink lower)
    if there ==ℤ pos 0 then pure einval else do
      err ← call (invoke readlink lower (lower_dentry ∷ buf ∷ bufsiz ∷ []))
      if is_neg err then pure err else do
        inode ← peek (d_inode dentry)
        lower ← peek (d_inode lower_dentry)
        call_ (fsstack_copy_attr_atime inode lower)
        pure err

unfoldable pub trfs_readlink : Ptr → Ptr → ℤ → Kernel ℤ
unfolding lower_readlink
trfs_readlink dentry buf bufsiz = do
  lower_path ← trfs_get_lower_path dentry
  err ← lower_readlink dentry lower_path.dentry buf bufsiz
  trfs_put_lower_path dentry lower_path
  pure err

-- the buffer of a link, or the error
unfoldable pub link_buffer : Ptr → ℤ → Kernel Ptr
link_buffer buf err =
    if is_neg err then (do call_ (kfree buf); pure err) else (do call_ (set_nul buf err); pure buf)

unfoldable pub trfs_get_link : Ptr → Ptr → Ptr → Kernel Ptr
unfolding trfs_readlink link_buffer
trfs_get_link dentry inode done = if dentry ==ℤ null then pure echild else do
  buf ← call (kmalloc 4096)
  if buf ==ℤ null then pure enomem else do
    call_ set_fs_kernel
    err ← trfs_readlink dentry buf (pos 4096)
    call_ set_fs_back
    buf ← link_buffer buf err
    call_ (set_delayed_call done buf)
    pure buf

unfoldable pub trfs_permission : Ptr → ℤ → Kernel ℤ
trfs_permission inode mask = do
  lower_inode ← trfs_lower_inode inode
  call (inode_permission lower_inode mask)

-- What the code reads and sets of a `struct iattr`.
pub record IAttr : Type 0 where
  pub iattr : Ptr
  pub ia_valid : ℕ
  pub ia_size : ℤ
  pub ia_file : Ptr

-- ATTR_MODE, ATTR_SIZE, ATTR_KILL_SUID | ATTR_KILL_SGID and ATTR_FILE of linux/fs.h
abbrev attr_mode : ℕ
attr_mode = 1

abbrev attr_size : ℕ
attr_size = 8

abbrev attr_kill : ℕ
attr_kill = 2048 + 4096

abbrev attr_file : ℕ
attr_file = 8192

-- `valid & ~ATTR_MODE`, if the set-user-ID bits are to be cleared
lower_valid : ℕ → ℕ
lower_valid valid = if bit_and valid attr_kill == 0 then valid else valid - bit_and valid attr_mode

-- the size of the upper inode, before the lower one is touched
unfoldable pub resize : Ptr → IAttr → Kernel ℤ
resize inode ia = if bit_and ia.ia_valid attr_size == 0 then pure (pos 0) else do
  err ← call (inode_newsize_ok inode ia.ia_size)
  if fails err then pure err else do call_ (truncate_setsize inode ia.ia_size); pure (pos 0)

-- before the label `out` of `trfs_setattr`
unfoldable pub lower_setattr : Ptr → IAttr → Ptr → Kernel ℤ
unfolding lower_valid resize
lower_setattr inode ia lower_dentry = do
  lower_inode ← trfs_lower_inode inode
  file ←
      (if bit_and ia.ia_valid attr_file == 0 then pure ia.ia_file else trfs_lower_file ia.ia_file)
  err ← resize inode ia
  if fails err then pure err else do
    lower ← peek (d_inode lower_dentry)
    call_ (inode_lock lower)
    err ← call (notify_change lower_dentry (pos (lower_valid ia.ia_valid)) file)
    lower ← peek (d_inode lower_dentry)
    call_ (inode_unlock lower)
    if fails err then pure err else do call_ (fsstack_copy_attr_all inode lower_inode); pure err

unfoldable pub trfs_setattr : Ptr → IAttr → Kernel ℤ
unfolding lower_setattr
trfs_setattr dentry ia = do
  inode ← peek (d_inode dentry)
  err ← call (inode_change_ok inode ia.iattr)
  if fails err then pure err else do
    lower_path ← trfs_get_lower_path dentry
    err ← lower_setattr inode ia lower_path.dentry
    trfs_put_lower_path dentry lower_path
    pure err

-- before the label `out` of `trfs_getattr`
unfoldable pub lower_getattr : Ptr → Ptr → KPath → Kernel ℤ
lower_getattr dentry stat lower_path = do
  err ← call (vfs_getattr lower_path)
  if fails err then pure err else do
    inode ← peek (d_inode dentry)
    lower ← peek (d_inode lower_path.dentry)
    call_ (fsstack_copy_attr_all inode lower)
    call_ (generic_fillattr inode stat)
    call_ (set_blocks stat lower)
    pure err

unfoldable pub trfs_getattr : Ptr → Ptr → Kernel ℤ
unfolding lower_getattr
trfs_getattr dentry stat = do
  lower_path ← trfs_get_lower_path dentry
  err ← lower_getattr dentry stat lower_path
  trfs_put_lower_path dentry lower_path
  pure err
