-- ===== src/Ioctl/Leaks.antt =====
-- What the handler takes of the kernel, and whether it gives it back.
use trace_file_system.Prelude.{ℕ, ◌+◌, ℤ, is_neg, ◌≡◌, some, [], ◌∷◌, arith, if◌then◌else◌}
use trace_file_system.Exec.{Trace, Env, World}
use trace_file_system.Kernel.{
  Ptr, Trfs, Call, getname_kernel, putname, filp_open, filp_close, s_type_name,
}
use trace_file_system.Dump.{trfs_name}
use trace_file_system.Ioctl.{tr_ioctl, with_mount, set_bitmap, get_bitmap}

-- How many names a trace has taken, and given back; and how many files.
abbrev pub names_taken : Trace Call → ℕ
names_taken [] = 0
names_taken ((getname_kernel p, r) ∷ t) = (if is_neg r then 0 else 1) + names_taken t
names_taken (_ ∷ t) = names_taken t

abbrev pub names_given : Trace Call → ℕ
names_given [] = 0
names_given ((putname p, r) ∷ t) = 1 + names_given t
names_given (_ ∷ t) = names_given t

abbrev pub files_taken : Trace Call → ℕ
files_taken [] = 0
files_taken ((filp_open p f m, r) ∷ t) = (if is_neg r then 0 else 1) + files_taken t
files_taken (_ ∷ t) = files_taken t

abbrev pub files_given : Trace Call → ℕ
files_given [] = 0
files_given ((filp_close p, r) ∷ t) = 1 + files_given t
files_given (_ ∷ t) = files_given t

-- If every path leads to a trfs mount, a handler that returns has given back as many names as it
-- took and as many files as it took, whatever else fails.
pub tr_ioctl_balanced :
    (env : Env Call) (w : World Call Trfs) (cmd : ℕ) (arg : Ptr) {ret : ℤ} {w' : World Call Trfs}
    → ((sb : Ptr) (t : Trace Call) → env.bytes (s_type_name sb) t ≡ trfs_name)
    → tr_ioctl cmd arg env w ≡ some (ret, w')
    → (names_taken w'.trace + names_given w.trace ≡ names_taken w.trace + names_given w'.trace)
      × (files_taken w'.trace + files_given w.trace ≡ files_taken w.trace + files_given w'.trace)
unfolding tr_ioctl with_mount set_bitmap get_bitmap
tr_ioctl_balanced env w cmd arg trfs h = (grind (arith, trfs), grind (arith, trfs))
