-- ===== src/Inode/Xattr.antt =====
-- trfs/inode.c: the extended attributes, which are those of the lower dentry.
use trace_file_system.Prelude.{ℕ, ℤ, pos, ◌==ℤ◌, List, if◌then◌else◌, to_int}
use trace_file_system.Exec.{pure, call, call_, peek, ◌>>=◌, ◌>>◌}
use trace_file_system.Kernel.{
  Ptr, null, Call, Method, einval, eopnotsupp, i_op, has, setxattr, getxattr, listxattr,
  removexattr, d_inode, fsstack_copy_attr_atime, fsstack_copy_attr_all, vfs_setxattr, vfs_getxattr,
  vfs_listxattr, vfs_removexattr,
}
use trace_file_system.Kernel.Path.{Kernel, field, method, trfs_get_lower_path, trfs_put_lower_path}
use trace_file_system.Inode.{fails}

-- attributes that a successful call copies: all, or the access time
abbrev copy_with : (Ptr → Ptr → Call) → Ptr → Ptr → Kernel Unit
copy_with copy dentry lower_dentry = do
  inode ← peek (d_inode dentry)
  lower ← peek (d_inode lower_dentry)
  call_ (copy inode lower)

-- `err` of the call, which is an `int`, and the copy of the attributes if it is 0
abbrev call_and_copy : Call → (Ptr → Ptr → Call) → Ptr → Ptr → Kernel ℤ
call_and_copy c copy dentry lower_dentry = do
  returned ← call c
  let err = to_int returned
  if fails err then pure err else (do copy_with copy dentry lower_dentry; pure err)

-- before the label `out` of `trfs_setxattr`, `trfs_getxattr` and `trfs_listxattr`
abbrev through : Method → Call → (Ptr → Ptr → Call) → Ptr → Ptr → Kernel ℤ
through m c copy dentry lower_dentry = do
  lower ← peek (d_inode lower_dentry)
  there ← method i_op m lower
  if there ==ℤ pos 0 then pure eopnotsupp else call_and_copy c copy dentry lower_dentry

unfoldable pub trfs_setxattr : Ptr → List ℕ → Ptr → ℤ → ℤ → Kernel ℤ
trfs_setxattr dentry name value size flags = do
  lower_path ← trfs_get_lower_path dentry
  err ←
      through setxattr (vfs_setxattr lower_path.dentry name value size flags) fsstack_copy_attr_all
        dentry lower_path.dentry
  trfs_put_lower_path dentry lower_path
  pure err

unfoldable pub trfs_getxattr : Ptr → List ℕ → Ptr → ℤ → Kernel ℤ
trfs_getxattr dentry name buffer size = do
  lower_path ← trfs_get_lower_path dentry
  err ←
      through getxattr (vfs_getxattr lower_path.dentry name buffer size) fsstack_copy_attr_atime
        dentry lower_path.dentry
  trfs_put_lower_path dentry lower_path
  pure err

unfoldable pub trfs_listxattr : Ptr → Ptr → ℤ → Kernel ℤ
trfs_listxattr dentry buffer buffer_size = do
  lower_path ← trfs_get_lower_path dentry
  err ←
      through listxattr (vfs_listxattr lower_path.dentry buffer buffer_size) fsstack_copy_attr_atime
        dentry lower_path.dentry
  trfs_put_lower_path dentry lower_path
  pure err

-- before the label `out` of `trfs_removexattr`
unfoldable pub lower_removexattr : Ptr → List ℕ → Ptr → Kernel ℤ
lower_removexattr dentry name lower_dentry = do
  lower ← peek (d_inode lower_dentry)
  ops ← field i_op lower
  if ops ==ℤ null then pure einval else do
    there ← peek (has removexattr lower)
    if there ==ℤ pos 0
        then pure einval
        else call_and_copy (vfs_removexattr lower_dentry name) fsstack_copy_attr_all dentry
            lower_dentry

unfoldable pub trfs_removexattr : Ptr → List ℕ → Kernel ℤ
unfolding lower_removexattr
trfs_removexattr dentry name = do
  lower_path ← trfs_get_lower_path dentry
  err ← lower_removexattr dentry name lower_path.dentry
  trfs_put_lower_path dentry lower_path
  pure err
