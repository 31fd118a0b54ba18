-- ===== src/Lookup/Find.antt =====
-- trfs/lookup.c: the lookup of a name.
use trace_file_system.Prelude.{
  ℕ, ℤ, pos, pos_part, ◌==ℤ◌, ◌==◌, Bool, not, List, if◌then◌else◌, bit_and, to_int,
}
use trace_file_system.Exec.{pure, call, call_, peek, peek_bytes, ◌>>=◌, ◌>>◌, if_do}
use trace_file_system.Kernel.{
  Ptr, null, is_err, KPath, enoent, enomem, d_sb, d_name, is_root, set_d_op, vfs_path_lookup,
  found_dentry, found_mnt, d_lookup, d_alloc, d_add, mntget, dget_parent, dput, d_inode,
  fsstack_copy_attr_times, fsstack_copy_attr_atime,
}
use trace_file_system.Kernel.Path.{
  Kernel, trfs_lower_inode, trfs_get_lower_path, trfs_put_lower_path, trfs_set_lower_path,
  trfs_put_reset_lower_path,
}
use trace_file_system.Lookup.{interpose_dentry}
use trace_file_system.Lookup.Private.{new_dentry_private_data}

-- `flags & (LOOKUP_CREATE | LOOKUP_RENAME_TARGET)`
abbrev creates : ℤ → Bool
creates flags = not (bit_and (pos_part flags) 0xa00 == 0)

-- what `if (err) return ERR_PTR(err); return ret_dentry;` returns
abbrev pub err_or : ℤ → Ptr → Ptr
err_or err ret_dentry = if err ==ℤ pos 0 then ret_dentry else err

-- the lower name is there: the dentries are linked, and parted again if that fails
unfoldable pub positive : Ptr → KPath → Kernel Ptr
positive dentry lower_path = do
  trfs_set_lower_path dentry lower_path
  sb ← peek (d_sb dentry)
  ret_dentry ← interpose_dentry dentry sb lower_path
  if is_err ret_dentry
      then (do trfs_put_reset_lower_path dentry; pure (err_or (to_int ret_dentry) ret_dentry))
      else pure ret_dentry

-- from the label `setup_lower` on
unfoldable pub setup_lower : Ptr → ℤ → ℤ → Ptr → KPath → Kernel Ptr
setup_lower dentry flags err lower_dentry lower_parent_path = do
  mnt ← call (mntget lower_parent_path.mnt)
  trfs_set_lower_path dentry (record { dentry = lower_dentry; mnt = mnt })
  pure (err_or (if err ==ℤ enoent then pos 0 else if creates flags then pos 0 else err) null)

-- the lower name is not there: a negative lower dentry is found or made
unfoldable pub negative : Ptr → ℤ → ℤ → List ℕ → KPath → Kernel Ptr
unfolding setup_lower
negative dentry flags err name lower_parent_path = do
  found ← call (d_lookup lower_parent_path.dentry name)
  if not (found ==ℤ null) then setup_lower dentry flags err found lower_parent_path else do
    lower_dentry ← call (d_alloc lower_parent_path.dentry name)
    if lower_dentry ==ℤ null then pure enomem else do
      call_ (d_add lower_dentry)
      setup_lower dentry flags err lower_dentry lower_parent_path

-- `__trfs_lookup`
unfoldable pub lookup_name : Ptr → ℤ → KPath → Kernel Ptr
unfolding positive negative
lookup_name dentry flags lower_parent_path = do
  call_ (set_d_op dentry)
  root ← peek (is_root dentry)
  if not (root ==ℤ pos 0) then pure null else do
    name ← peek_bytes (d_name dentry)
    looked ← call (vfs_path_lookup lower_parent_path.dentry lower_parent_path.mnt name)
    let err = to_int looked
    if err ==ℤ pos 0
        then (do
          lower_dentry ← peek found_dentry
          mnt ← peek found_mnt
          positive dentry (record { dentry = lower_dentry; mnt = mnt }))
        else if not (err ==ℤ enoent)
        then pure err
        else negative dentry flags err name lower_parent_path

-- the times of the dentry that was found and of its parent
unfoldable pub copy_found : Ptr → Ptr → Kernel Unit
copy_found dentry parent = do
  inode ← peek (d_inode dentry)
  if_do (not (inode ==ℤ null))
      (do lower ← trfs_lower_inode inode; call_ (fsstack_copy_attr_times inode lower))
  dir ← peek (d_inode parent)
  lower_dir ← trfs_lower_inode dir
  call_ (fsstack_copy_attr_atime dir lower_dir)

-- from the allocation of the private data to the label `out`
unfoldable pub find : Ptr → ℤ → Ptr → KPath → Kernel Ptr
unfolding lookup_name copy_found
find dentry flags parent lower_parent_path = do
  err ← new_dentry_private_data dentry
  if not (err ==ℤ pos 0) then pure err else do
    ret ← lookup_name dentry flags lower_parent_path
    if is_err ret
        then pure ret
        else do copy_found (if ret ==ℤ null then dentry else ret) parent; pure ret

unfoldable pub trfs_lookup : Ptr → Ptr → ℤ → Kernel Ptr
unfolding find
trfs_lookup dir dentry flags = do
  parent ← call (dget_parent dentry)
  lower_parent_path ← trfs_get_lower_path parent
  ret ← find dentry flags parent lower_parent_path
  trfs_put_lower_path parent lower_parent_path
  call_ (dput parent)
  pure ret
