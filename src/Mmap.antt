-- ===== src/Mmap.antt =====
-- trfs/mmap.c: faults in a mapping, which go to the lower file. The copy of the mapping that the
-- lower methods get is the mapping with the lower file in it.
use trace_file_system.Prelude.{ℤ, pos, ◌==ℤ◌, [], ◌∷◌, if◌then◌else◌}
use trace_file_system.Exec.{pure, call, peek, ◌>>=◌, ◌>>◌, bug_on}
use trace_file_system.Kernel.{Ptr, null, einval, has, invoke, fault, page_mkwrite}
use trace_file_system.Kernel.Path.{Kernel, trfs_f, trfs_lower_file}

-- `file` is that of the mapping `vma`.
unfoldable pub trfs_fault : Ptr → Ptr → Ptr → Kernel ℤ
trfs_fault file vma vmf = do
  info ← trfs_f file
  bug_on (info.lower_vm_ops ==ℤ null)
  lower_file ← trfs_lower_file file
  call (invoke fault info.lower_vm_ops (vma ∷ lower_file ∷ vmf ∷ []))

unfoldable pub trfs_page_mkwrite : Ptr → Ptr → Ptr → Kernel ℤ
trfs_page_mkwrite file vma vmf = do
  info ← trfs_f file
  bug_on (info.lower_vm_ops ==ℤ null)
  there ← peek (has page_mkwrite info.lower_vm_ops)
  if there ==ℤ pos 0 then pure (pos 0) else do
    lower_file ← trfs_lower_file file
    call (invoke page_mkwrite info.lower_vm_ops (vma ∷ lower_file ∷ vmf ∷ []))

pub trfs_direct_io : ℤ
trfs_direct_io = einval
