-- ===== src/File/Open.antt =====
-- trfs/file.c: open, release and mmap, which keep the private data of a file.
use trace_file_system.Prelude.{
  ℕ, ℤ, pos, pos_part, ◌==ℤ◌, ◌==◌, Bool, not, Option, none, some, [], ◌∷◌, if◌then◌else◌, bit_or,
  to_int,
}
use trace_file_system.Exec.{pure, modify, call, call_, peek, ◌>>=◌, ◌>>◌, if_do}
use trace_file_system.Kernel.{
  Ptr, null, is_err, FileInfo, einval, enoent, enomem, update, d_unhashed, alloc, free, file_info,
  dentry_open, path_put, fput, fsstack_copy_attr_all, vm_flags, vm_ops, has_writepage, mmap, invoke,
  set_vm_ops, file_accessed, set_mapping_a_ops,
}
use trace_file_system.Kernel.Path.{
  Kernel, field, trfs_f, trfs_lower_file, trfs_set_lower_file, trfs_lower_inode,
  trfs_get_lower_path,
}
use trace_file_system.File.{OpenFile}

abbrev set_private : Ptr → Option FileInfo → Kernel Unit
set_private file info = modify (λ s. record s { private_data = update s.private_data file info })

-- what `kzalloc` gives
abbrev pub zero_file : FileInfo
zero_file = record { lower_file = null; lower_vm_ops = null }

-- a lower file that may be there already is given up
unfoldable pub drop_lower : Ptr → Kernel Unit
drop_lower file = do
  lower_file ← trfs_lower_file file
  if_do (not (lower_file ==ℤ null)) (do trfs_set_lower_file file null; call_ (fput lower_file))

-- with the private data
unfoldable pub open_lower : Ptr → OpenFile → Kernel ℤ
unfolding drop_lower
open_lower inode f = do
  lower_path ← trfs_get_lower_path f.f_dentry
  lower_file ← call (dentry_open lower_path f.f_flags)
  call_ (path_put lower_path)
  let err = if is_err lower_file then to_int lower_file else pos 0
  if is_err lower_file then drop_lower f.file else trfs_set_lower_file f.file lower_file
  if not (err ==ℤ pos 0)
      then (do trfs_f f.file; call_ (free (file_info f.file)); pure err)
      else do lower ← trfs_lower_inode inode; call_ (fsstack_copy_attr_all inode lower); pure err

unfoldable pub trfs_open : Ptr → OpenFile → Kernel ℤ
unfolding open_lower
trfs_open inode f = do
  gone ← peek (d_unhashed f.f_dentry)
  if not (gone ==ℤ pos 0) then pure enoent else do
    info ← call (alloc (file_info f.file))
    set_private f.file (if info ==ℤ null then none else some zero_file)
    if info ==ℤ null then pure enomem else open_lower inode f

unfoldable pub trfs_file_release : Ptr → OpenFile → Kernel ℤ
unfolding drop_lower
trfs_file_release inode f = do drop_lower f.file; call_ (free (file_info f.file)); pure (pos 0)

-- `(vma->vm_flags | VM_SHARED | VM_WRITE) == vma->vm_flags`
abbrev will_write : ℕ → Bool
will_write flags = bit_or (bit_or flags 8) 2 == flags

-- the mapping is that of trfs from here on
unfoldable pub take_over : OpenFile → Ptr → Ptr → Kernel Unit
take_over f vma saved_vm_ops = do
  call_ (file_accessed f.file)
  call_ (set_vm_ops vma)
  call_ (set_mapping_a_ops f.file)
  info ← trfs_f f.file
  if_do (info.lower_vm_ops ==ℤ null)
      (set_private f.file (some (record info { lower_vm_ops = saved_vm_ops })))

-- with the check of `writepage` passed
unfoldable pub map_lower : OpenFile → Ptr → Ptr → Kernel ℤ
unfolding take_over
map_lower f vma lower_file = do
  info ← trfs_f f.file
  if info.lower_vm_ops ==ℤ null
      then (do
        err ← call (invoke mmap lower_file (vma ∷ []))
        if not (err ==ℤ pos 0)
            then pure err
            else do saved_vm_ops ← peek (vm_ops vma); take_over f vma saved_vm_ops; pure (pos 0))
      else (do take_over f vma null; pure (pos 0))

unfoldable pub trfs_mmap : OpenFile → Ptr → Kernel ℤ
unfolding map_lower
trfs_mmap f vma = do
  flags ← peek (vm_flags vma)
  lower_file ← trfs_lower_file f.file
  if will_write (pos_part flags)
      then (do
        there ← field has_writepage lower_file
        if there ==ℤ pos 0 then pure einval else map_lower f vma lower_file)
      else map_lower f vma lower_file
