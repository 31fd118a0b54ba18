-- ===== src/Kernel/Path.antt =====
-- trfs/trfs.h: the lower path of a dentry, under its spin lock, and the lock of a parent.
use trace_file_system.Prelude.{ℤ, some, ◌==ℤ◌, if◌then◌else◌}
use trace_file_system.Exec.{
  Exec, crash, pure, gets, or_crash, modify, call, call_, peek, ◌>>=◌, ◌>>◌,
}
use trace_file_system.Kernel.{
  Ptr, null, KPath, FileInfo, update, Method, has, SbInfo, Trfs, Call, spin_lock, spin_unlock,
  path_get, path_put, dget_parent, inode_lock, inode_unlock, dput, d_inode,
}

abbrev pub Kernel : Type 0 → Type 0
Kernel A = Exec Call Trfs A

-- `TRFS_D(dent)->lower_path`; a NULL `d_fsdata` is an oops.
abbrev pub trfs_d : Ptr → Kernel KPath
trfs_d dent = gets (λ s. s.d_fsdata dent) >>= or_crash

-- `TRFS_SB(super)`, read to use a field: NULL is an oops
abbrev pub trfs_sb : Ptr → Kernel SbInfo
trfs_sb sb = gets (λ s. s.s_fs_info sb) >>= or_crash

-- a field of an object behind a pointer; NULL is an oops
abbrev pub field : (Ptr → Call) → Ptr → Kernel ℤ
field f p = if p ==ℤ null then crash else peek (f p)

-- whether a method is in an object's table (`table` reads the table); NULL for either is an oops
abbrev pub method : (Ptr → Call) → Method → Ptr → Kernel ℤ
method table m p = do ops ← field table p; if ops ==ℤ null then crash else peek (has m p)

-- `trfs_lower_inode`; it reads behind its pointer
abbrev pub trfs_lower_inode : Ptr → Kernel Ptr
trfs_lower_inode i = if i ==ℤ null then crash else gets (λ s. s.lower_inode i)

unfoldable pub trfs_get_lower_path : Ptr → Kernel KPath
trfs_get_lower_path dent = do
  lower_path ← trfs_d dent
  call_ (spin_lock dent)
  call_ (path_get lower_path)
  call_ (spin_unlock dent)
  pure lower_path

unfoldable pub trfs_put_lower_path : Ptr → KPath → Kernel Unit
trfs_put_lower_path dent lower_path = call_ (path_put lower_path)

unfoldable pub lock_parent : Ptr → Kernel Ptr
lock_parent dentry = do
  dir ← call (dget_parent dentry)
  inode ← peek (d_inode dir)
  call_ (inode_lock inode)
  pure dir

unfoldable pub unlock_dir : Ptr → Kernel Unit
unlock_dir dir = do inode ← peek (d_inode dir); call_ (inode_unlock inode); call_ (dput dir)

-- `TRFS_F(file)`, read to use a field; NULL is an oops
abbrev pub trfs_f : Ptr → Kernel FileInfo
trfs_f file = gets (λ s. s.private_data file) >>= or_crash

-- `trfs_lower_file`
abbrev pub trfs_lower_file : Ptr → Kernel Ptr
trfs_lower_file file = do info ← trfs_f file; pure info.lower_file

unfoldable pub trfs_set_lower_file : Ptr → Ptr → Kernel Unit
trfs_set_lower_file file val = do
  info ← trfs_f file
  modify (λ s. record s {
    private_data = update s.private_data file (some (record info { lower_file = val }));
  })

unfoldable pub trfs_set_lower_inode : Ptr → Ptr → Kernel Unit
trfs_set_lower_inode i val = modify (λ s. record s { lower_inode = update s.lower_inode i val })

-- `trfs_lower_super`
abbrev pub trfs_lower_super : Ptr → Kernel Ptr
trfs_lower_super sb = do info ← trfs_sb sb; pure info.lower_sb

unfoldable pub trfs_set_lower_super : Ptr → Ptr → Kernel Unit
trfs_set_lower_super sb val = do
  info ← trfs_sb sb
  modify
      (λ s. record s { s_fs_info = update s.s_fs_info sb (some (record info { lower_sb = val })) })

-- `TRFS_D(dent)->lower_path = path`
abbrev pub store_path : Ptr → KPath → Kernel Unit
store_path dent path = modify (λ s. record s { d_fsdata = update s.d_fsdata dent (some path) })

abbrev pub no_path : KPath
no_path = record { dentry = null; mnt = null }

unfoldable pub trfs_set_lower_path : Ptr → KPath → Kernel Unit
trfs_set_lower_path dent lower_path = do
  trfs_d dent
  call_ (spin_lock dent)
  store_path dent lower_path
  call_ (spin_unlock dent)

unfoldable pub trfs_reset_lower_path : Ptr → Kernel Unit
trfs_reset_lower_path dent = do
  trfs_d dent
  call_ (spin_lock dent)
  store_path dent no_path
  call_ (spin_unlock dent)

unfoldable pub trfs_put_reset_lower_path : Ptr → Kernel Unit
trfs_put_reset_lower_path dent = do
  lower_path ← trfs_d dent
  call_ (spin_lock dent)
  store_path dent no_path
  call_ (spin_unlock dent)
  call_ (path_put lower_path)
