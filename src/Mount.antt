-- ===== src/Mount.antt =====
-- trfs/main.c: mounting, and the module's start and end. The position of the log file is kept with
-- the superblock from the moment that the file is stored there.
pub mod Fresh
pub mod Oops
use trace_file_system.Prelude.{
  ℕ, ◌+◌, ◌-◌, ◌^◌, ℤ, pos, ◌==ℤ◌, not, Option, none, some, List, [], ◌∷◌, same, take, drop,
  if◌then◌else◌, to_int,
}
use trace_file_system.Exec.{pure, modify, call, call_, peek, ◌>>=◌, ◌>>◌, if_do}
use trace_file_system.Record.{sizeof_record}
use trace_file_system.Kernel.{
  Ptr, null, is_err, KPath, SbInfo, einval, enomem, update, getname_text, putname, filp_open,
  set_f_pos, kern_path, found_dentry, found_mnt, alloc, free, sb_info, kmalloc, kfree, path_put,
  d_sb, d_inode, s_active_inc, s_active_dec, set_sb_fields, d_make_root, set_s_root, set_d_op,
  d_rehash, dput, iput, mutex_init, register_filesystem, unregister_filesystem,
}
use trace_file_system.Kernel.Path.{Kernel, trfs_sb, trfs_set_lower_super, trfs_set_lower_path}
use trace_file_system.Lookup.{trfs_iget}
use trace_file_system.Lookup.Private.{
  new_dentry_private_data, trfs_init_dentry_cache, trfs_destroy_dentry_cache,
}
use trace_file_system.Super.Cache.{trfs_init_inode_cache, trfs_destroy_inode_cache}

-- "tfile=" and TFILE_LEN
abbrev tfile_text : List ℕ
tfile_text = b't' ∷ b'f' ∷ b'i' ∷ b'l' ∷ b'e' ∷ b'=' ∷ []

abbrev pub tfile_len : ℕ
tfile_len = 6

unfoldable pub name_index : List ℕ → ℤ
name_index option = if same (take tfile_len option) tfile_text then pos tfile_len else einval

-- `SAFE_PUTNAME`
abbrev safe_putname : Ptr → Kernel Unit
safe_putname name = if_do (not (name ==ℤ null)) (if_do (not (is_err name)) (call_ (putname name)))

-- O_CREAT | O_RDWR | O_EXCL and S_IRUSR
abbrev pub log_flags : ℕ
log_flags = 194

abbrev pub log_mode : ℕ
log_mode = 256

-- `create_trfile` from `getname_kernel` on
unfoldable pub open_trfile : List ℕ → Kernel Ptr
open_trfile pathname = do
  logfile ← call (getname_text pathname)
  if is_err logfile then (do safe_putname logfile; pure logfile) else do
    logfilp ← call (filp_open logfile log_flags log_mode)
    if_do (not (is_err logfilp)) (call_ (set_f_pos logfilp (pos 0)))
    safe_putname logfile
    pure logfilp

-- The option is a text, or NULL.
unfoldable pub create_trfile : Option (List ℕ) → Kernel Ptr
unfolding open_trfile
create_trfile none = pure einval
create_trfile (some option) =
    if name_index option ==ℤ pos tfile_len
    then open_trfile (drop tfile_len option)
    else pure (name_index option)

-- what `kzalloc` gives
abbrev pub zero_info : SbInfo
zero_info = record {
  lower_sb = null;
  tr_lower_filep = null;
  f_pos = pos 0;
  tr_page = null;
  umask = 0;
}

abbrev set_info : Ptr → Option SbInfo → Kernel Unit
set_info sb info = modify (λ s. record s { s_fs_info = update s.s_fs_info sb info })

-- the labels `out_fsi_free`, `out_fsp_free` and `out_sput`, each of which falls through to the next
unfoldable pub out_fsi_free : Ptr → KPath → Kernel Unit
out_fsi_free sb lower_path = do call_ (free (sb_info sb)); call_ (path_put lower_path)

unfoldable pub out_fsp_free : Ptr → KPath → Kernel Unit
unfolding out_fsi_free
out_fsp_free sb lower_path = do
  info ← trfs_sb sb
  call_ (kfree info.tr_page)
  out_fsi_free sb lower_path

unfoldable pub out_sput : Ptr → Ptr → KPath → Kernel Unit
unfolding out_fsp_free
out_sput sb lower_sb lower_path = do
  call_ (s_active_dec lower_sb)
  call_ (free (sb_info sb))
  set_info sb none
  out_fsp_free sb lower_path

-- `umask = -1` as an unsigned long
abbrev pub all_bits : ℕ
all_bits = 2 ^ 64 - 1

-- the end of `trfs_read_super` that has no error
unfoldable pub finish_super : Ptr → Ptr → Ptr → KPath → Kernel ℤ
finish_super sb root tr_lower_filep lower_path = do
  trfs_set_lower_path root lower_path
  call_ (d_rehash root)
  info ← trfs_sb sb
  set_info sb
      (some (record info { tr_lower_filep = tr_lower_filep; f_pos = pos 0; umask = all_bits }))
  call_ (mutex_init sb)
  pure (pos 0)

-- with the inode of the root
unfoldable pub make_root : Ptr → Ptr → Ptr → Ptr → KPath → Kernel ℤ
unfolding finish_super out_sput
make_root sb lower_sb inode tr_lower_filep lower_path = do
  root ← call (d_make_root inode)
  call_ (set_s_root sb root)
  if root ==ℤ null
      then (do call_ (iput inode); out_sput sb lower_sb lower_path; pure enomem)
      else do
        call_ (set_d_op root)
        modify (λ s. record s { d_fsdata = update s.d_fsdata root none })
        err ← new_dentry_private_data root
        if not (err ==ℤ pos 0)
            then (do
              call_ (dput root)
              call_ (iput inode)
              out_sput sb lower_sb lower_path
              pure err)
            else finish_super sb root tr_lower_filep lower_path

-- with the log file
unfoldable pub stack_super : Ptr → Ptr → KPath → Kernel ℤ
unfolding make_root out_sput
stack_super sb tr_lower_filep lower_path = do
  lower_sb ← peek (d_sb lower_path.dentry)
  call_ (s_active_inc lower_sb)
  trfs_set_lower_super sb lower_sb
  call_ (set_sb_fields sb lower_sb)
  lower_inode ← peek (d_inode lower_path.dentry)
  inode ← trfs_iget sb lower_inode
  if is_err inode
      then (do out_sput sb lower_sb lower_path; pure (to_int inode))
      else make_root sb lower_sb inode tr_lower_filep lower_path

-- with the private data of the superblock
unfoldable pub fill_super : Ptr → Option (List ℕ) → KPath → Kernel ℤ
unfolding stack_super out_fsi_free out_fsp_free
fill_super sb tr_option lower_path = do
  page ← call (kmalloc (sizeof_record + 4096))
  info ← trfs_sb sb
  set_info sb (some (record info { tr_page = page }))
  if page ==ℤ null then (do out_fsi_free sb lower_path; pure enomem) else do
    tr_lower_filep ← create_trfile tr_option
    if is_err tr_lower_filep
        then (do out_fsp_free sb lower_path; pure (to_int tr_lower_filep))
        else stack_super sb tr_lower_filep lower_path

-- with the lower path
unfoldable pub alloc_super : Ptr → Option (List ℕ) → KPath → Kernel ℤ
unfolding fill_super
alloc_super sb tr_option lower_path = do
  info ← call (alloc (sb_info sb))
  set_info sb (if info ==ℤ null then none else some zero_info)
  if info ==ℤ null
      then (do call_ (path_put lower_path); pure enomem)
      else fill_super sb tr_option lower_path

-- The name of the lower directory is a text, or NULL.
unfoldable pub trfs_read_super : Ptr → Option (List ℕ) → Option (List ℕ) → Kernel ℤ
unfolding alloc_super
trfs_read_super sb none tr_option = pure einval
trfs_read_super sb (some dev_name) tr_option = do
  looked ← call (kern_path dev_name)
  let err = to_int looked
  if not (err ==ℤ pos 0) then pure err else do
    dentry ← peek found_dentry
    mnt ← peek found_mnt
    alloc_super sb tr_option (record { dentry = dentry; mnt = mnt })

-- `mount_nodev` of the kernel is the argument: it is given `trfs_read_super`, and calls it on the
-- superblock that it makes. The counter starts at -1.
unfoldable pub trfs_mount :
    ((Ptr → Kernel ℤ) → Kernel Ptr) → Option (List ℕ) → Option (List ℕ) → Kernel Ptr
trfs_mount mount_nodev dev_name raw_data = do
  modify (λ s. record s { trecord_id = 2 ^ 32 - 1 })
  mount_nodev (λ sb. trfs_read_super sb dev_name raw_data)

-- the end of `init_trfs_fs`
init_done : ℤ → Kernel ℤ
init_done err = do
  if_do (not (err ==ℤ pos 0)) (do trfs_destroy_inode_cache; trfs_destroy_dentry_cache)
  pure err

pub init_trfs_fs : Kernel ℤ
unfolding init_done
init_trfs_fs = do
  err ← trfs_init_inode_cache
  if not (err ==ℤ pos 0) then init_done err else do
    err ← trfs_init_dentry_cache
    if not (err ==ℤ pos 0) then init_done err else do err ← call register_filesystem; init_done err

pub exit_trfs_fs : Kernel Unit
exit_trfs_fs = do trfs_destroy_inode_cache; trfs_destroy_dentry_cache; call_ unregister_filesystem
