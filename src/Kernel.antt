-- ===== src/Kernel.antt =====
-- The kernel as trfs sees it: the calls that trfs makes of it, and the data that trfs keeps in the
-- kernel's objects (trfs/trfs.h). Pointers are integers: 0 is NULL, and a negative number is an
-- error pointer, `ERR_PTR(-n)`, so that `PTR_ERR` is the number itself.
pub mod Path
use trace_file_system.Prelude.{
  ℕ, ℤ, pos, negsuc, Bool, Option, none, some, List, is_neg, ◌==ℤ◌, if◌then◌else◌,
}
use trace_file_system.Exec.{Exec}

abbrev pub Ptr : Type 0
Ptr = ℤ

abbrev pub null : Ptr
null = pos 0

-- `IS_ERR(p)`
abbrev pub is_err : Ptr → Bool
is_err p = is_neg p

-- errno numbers, negated: `-ENOENT` and so on
abbrev pub enoent : ℤ
enoent = negsuc 1

abbrev pub echild : ℤ
echild = negsuc 9

abbrev pub enomem : ℤ
enomem = negsuc 11

abbrev pub eacces : ℤ
eacces = negsuc 12

abbrev pub ebusy : ℤ
ebusy = negsuc 15

abbrev pub exdev : ℤ
exdev = negsuc 17

abbrev pub einval : ℤ
einval = negsuc 21

abbrev pub enotty : ℤ
enotty = negsuc 24

abbrev pub enotempty : ℤ
enotempty = negsuc 38

abbrev pub eopnotsupp : ℤ
eopnotsupp = negsuc 94

abbrev pub estale : ℤ
estale = negsuc 115

abbrev pub eiocbqueued : ℤ
eiocbqueued = negsuc 528

-- struct path
pub record KPath : Type 0 where
  pub dentry : Ptr
  pub mnt : Ptr

-- struct trfs_sb_info: `f_pos` is that of the log file, which only trfs moves.
pub record SbInfo : Type 0 where
  pub lower_sb : Ptr
  pub tr_lower_filep : Ptr
  pub f_pos : ℤ
  pub tr_page : Ptr
  pub umask : ℕ

-- struct trfs_file_info
pub record FileInfo : Type 0 where
  pub lower_file : Ptr
  pub lower_vm_ops : Ptr

-- What trfs keeps: the record counter `trecord_id` as its 32 bits, and the private data of
-- superblocks, dentries, inodes and files, by the object's address, and the caches of the module.
pub record Trfs : Type 0 where
  pub trecord_id : ℕ
  pub s_fs_info : Ptr → Option SbInfo
  pub d_fsdata : Ptr → Option KPath
  pub lower_inode : Ptr → Ptr
  pub private_data : Ptr → Option FileInfo
  pub inode_cachep : Ptr
  pub dentry_cachep : Ptr

abbrev pub update {ℓ} : {A : Type ℓ} → (Ptr → A) → Ptr → A → Ptr → A
update f p v q = if p ==ℤ q then v else f q

-- The optional methods that trfs looks for in an object's table before it calls them.
pub data Method : Type 0 where
  unlocked_ioctl compat_ioctl mmap flush fasync read_iter write_iter : Method
  readlink setxattr getxattr listxattr removexattr : Method
  d_revalidate umount_begin fault page_mkwrite : Method

-- The memory that trfs allocates, by the object that it hangs on, and the caches of the module.
pub data Block : Type 0 where
  sb_info file_info dentry_info : Ptr → Block

pub data Cache : Type 0 where
  inode_cache dentry_cache : Cache

-- The kernel's functions that trfs calls, and (marked peek) the fields of its objects that trfs
-- reads.
pub data Call : Type 0 where
  -- memory
  get_free_page : Call
  free_page : Ptr → Call
  -- locks
  mutex_lock mutex_unlock : Ptr → Call
  spin_lock spin_unlock : Ptr → Call
  inode_lock inode_unlock : Ptr → Call
  lock_rename unlock_rename : Ptr → Ptr → Call
  -- references
  path_get path_put : KPath → Call
  dget dput dget_parent : Ptr → Call
  igrab iput : Ptr → Call
  -- paths and the log
  dentry_path_raw : Ptr → Ptr → Call
  kernel_write : Ptr → List ℕ → ℤ → ℤ → Call
  -- peek: sb->s_type->name, dentry->d_inode, dentry->d_flags, inode->i_sb, i_nlink, i_ino, i_state, i_mode
  s_type_name : Ptr → Call
  d_inode d_flags : Ptr → Call
  i_sb i_nlink i_ino i_state i_mode : Ptr → Call
  -- the lower file system
  vfs_create : Ptr → Ptr → ℤ → Bool → Call
  vfs_link : Ptr → Ptr → Ptr → Call
  vfs_unlink vfs_rmdir : Ptr → Ptr → Call
  vfs_symlink : Ptr → Ptr → List ℕ → Call
  vfs_mkdir : Ptr → Ptr → ℤ → Call
  vfs_mknod : Ptr → Ptr → ℤ → ℤ → Call
  vfs_rename : Ptr → Ptr → Ptr → Ptr → Call
  vfs_write : Ptr → Ptr → ℤ → ℤ → Call
  -- attributes: destination and source
  fsstack_copy_attr_times fsstack_copy_attr_atime fsstack_copy_attr_all : Ptr → Ptr → Call
  fsstack_copy_inode_size : Ptr → Ptr → Call
  i_size_read : Ptr → Call
  i_size_write : Ptr → ℤ → Call
  set_nlink : Ptr → ℤ → Call
  clear_nlink : Ptr → Call
  copy_ctime : Ptr → Ptr → Call
  d_drop : Ptr → Call
  -- inodes
  iget5_locked : Ptr → ℤ → Ptr → Call
  set_i_ino : Ptr → ℤ → Call
  bump_i_version : Ptr → Call
  set_i_op set_i_fop : Ptr → ℕ → Call
  set_a_ops : Ptr → Call
  clear_times : Ptr → Call
  init_special_inode : Ptr → ℤ → ℤ → Call
  i_rdev : Ptr → Call
  unlock_new_inode : Ptr → Call
  d_splice_alias : Ptr → Ptr → Call
  -- user memory, file names and open files
  copy_from_user : Ptr → Call
  copy_to_user : Ptr → ℕ → Call
  user_bitmap user_mntpath : Ptr → Call
  getname_kernel putname : Ptr → Call
  getname_text : List ℕ → Call
  filp_open : Ptr → ℕ → ℕ → Call
  filp_close : Ptr → Call
  f_inode : Ptr → Call
  -- peek: whether there is a table, whether a method is in it, and the call of a method
  f_op i_op s_op d_op : Ptr → Call
  has : Method → Ptr → Call
  invoke : Method → Ptr → List ℤ → Call
  -- memory
  alloc : Block → Call
  free : Block → Call
  kmalloc : ℕ → Call
  alloc_inode_info : Call
  free_inode_info : Ptr → Call
  kfree : Ptr → Call
  create_cache destroy_cache : Cache → Call
  -- dentries; the last lookup of a path has filled in a dentry and a mount (peek)
  d_sb d_parent d_name is_root d_unhashed : Ptr → Call
  set_d_op d_rehash : Ptr → Call
  d_lookup d_alloc : Ptr → List ℕ → Call
  d_add d_make_root : Ptr → Call
  mntget : Ptr → Call
  vfs_path_lookup : Ptr → Ptr → List ℕ → Call
  kern_path : List ℕ → Call
  found_dentry found_mnt : Call
  -- files
  f_path_dentry f_pos : Ptr → Call
  set_f_pos : Ptr → ℤ → Call
  dentry_open : KPath → ℤ → Call
  fput get_file : Ptr → Call
  vfs_read : Ptr → Ptr → ℤ → ℤ → Call
  iterate_dir : Ptr → Ptr → Call
  filemap_write_and_wait : Ptr → Call
  generic_file_fsync vfs_fsync_range : Ptr → ℤ → ℤ → ℤ → Call
  generic_file_llseek : Ptr → ℤ → ℤ → Call
  set_ki_filp : Ptr → Ptr → Call
  -- memory maps; whether the lower mapping has `writepage` is a peek
  vm_flags vm_ops : Ptr → Call
  has_writepage : Ptr → Call
  set_vm_ops : Ptr → Call
  file_accessed set_mapping_a_ops : Ptr → Call
  -- attributes
  inode_permission : Ptr → ℤ → Call
  inode_change_ok : Ptr → Ptr → Call
  inode_newsize_ok truncate_setsize : Ptr → ℤ → Call
  notify_change : Ptr → ℤ → Ptr → Call
  vfs_getattr : KPath → Call
  generic_fillattr set_blocks : Ptr → Ptr → Call
  vfs_statfs : KPath → Ptr → Call
  set_f_type : Ptr → ℕ → Call
  vfs_setxattr : Ptr → List ℕ → Ptr → ℤ → ℤ → Call
  vfs_getxattr : Ptr → List ℕ → Ptr → ℤ → Call
  vfs_listxattr : Ptr → Ptr → ℤ → Call
  vfs_removexattr : Ptr → List ℕ → Call
  -- the address limit, and a link's buffer
  set_fs_kernel set_fs_back : Call
  set_nul : Ptr → ℤ → Call
  set_delayed_call : Ptr → Ptr → Call
  -- superblocks and inodes
  s_active_inc s_active_dec : Ptr → Call
  mutex_init mutex_destroy : Ptr → Call
  set_sb_fields : Ptr → Ptr → Call
  set_s_root : Ptr → Ptr → Call
  truncate_inode_pages clear_inode set_i_version : Ptr → Call
  ilookup : Ptr → ℤ → Call
  register_filesystem unregister_filesystem : Call
  -- the trace device
  alloc_chrdev_region unregister_chrdev_region cdev_init cdev_add cdev_del : Call
  class_create device_create : Call
  class_destroy device_destroy : Call
