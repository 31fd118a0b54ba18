-- ===== src/Tests.antt =====
-- A kernel and a mount to run the trace module on, and a process for treplay.
mod Module
mod Handlers
mod Requests
mod Mounts
mod Ends
mod Tools
mod Control
mod Lookups
mod Files
mod Programs
mod Sessions
use trace_file_system.Prelude.{
  ℕ, ℤ, pos, negsuc, Option, none, some, List, [], ◌∷◌, ◌^◌, ◌-◌, true, false,
}
use trace_file_system.Exec.{Trace, Env, World}
use trace_file_system.Record.{TrRecord, tr_unlink, tr_fcreat}
use trace_file_system.Kernel.{
  Ptr, SbInfo, KPath, Trfs, Call, get_free_page, dentry_path_raw, kernel_write, copy_from_user,
  copy_to_user, user_bitmap, i_sb, s_type_name, vfs_create, kern_path, vfs_symlink, vfs_path_lookup,
  is_root, i_state, d_unhashed, d_sb, d_splice_alias,
}
use trace_file_system.Dump.{trfs_name}
use trace_file_system.Replay.{Sys, Options, getcwd}

-- The kernel finds pages and paths, and writes every byte; the user's argument names the mount. Names
-- that are looked up are not there.
abbrev pub kernel_reply : Call → Trace Call → ℤ
kernel_reply (kernel_write f b count at) t = count
kernel_reply (copy_from_user p) t = pos 0
kernel_reply (user_bitmap p) t = pos 5
kernel_reply (copy_to_user p n) t = pos 0
kernel_reply (i_sb p) t = pos 7
kernel_reply (vfs_create p d m x) t = pos 0
kernel_reply (kern_path s) t = pos 0
kernel_reply (vfs_symlink p d s) t = pos 0
kernel_reply (vfs_path_lookup d m s) t = negsuc 1
kernel_reply (is_root d) t = pos 0
kernel_reply (i_state p) t = pos 8
kernel_reply (d_unhashed d) t = pos 0
kernel_reply (d_sb d) t = pos 7
kernel_reply (d_splice_alias i d) t = pos 0
kernel_reply _ t = pos 4096

abbrev pub kernel_bytes : Call → Trace Call → List ℕ
kernel_bytes (s_type_name sb) t = trfs_name
kernel_bytes (dentry_path_raw d p) t = b'/' ∷ b'a' ∷ []
kernel_bytes _ t = []

abbrev pub kernel : Env Call
kernel = record { reply = kernel_reply; bytes = kernel_bytes }

-- A fresh mount that traces the creation of files.
abbrev pub mount : SbInfo
mount = record {
  lower_sb = pos 7;
  tr_lower_filep = pos 9;
  f_pos = pos 0;
  tr_page = pos 0;
  umask = tr_fcreat;
}

abbrev pub mounted : World Call Trfs
mounted = record {
  trace = [];
  vars = record {
    trecord_id = 2 ^ 32 - 1;
    s_fs_info = λ sb. some mount;
    d_fsdata = λ d. some (record { dentry = pos 11; mnt = pos 12 });
    lower_inode = λ i. pos 13;
    private_data = λ f. none;
    inode_cachep = pos 2;
    dentry_cachep = pos 3;
  };
}

-- The record of an unlink of /a.
abbrev pub unlink_record : TrRecord
unlink_record = record {
  rec_id = 0;
  rec_flags = 0;
  perm_flags = 0;
  result = pos 0;
  rec_size = pos 34;
  path_len = pos 2;
  type = tr_unlink;
  aux_len = pos 0;
  pathname = record { block = pos 4096; chars = b'/' ∷ b'a' ∷ [] };
  aux = none;
}

-- treplay in the directory /w, where every call succeeds.
abbrev pub sys_bytes : Sys → Trace Sys → List ℕ
sys_bytes getcwd t = b'/' ∷ b'w' ∷ []
sys_bytes _ t = []

abbrev pub system : Env Sys
system = record { reply = λ c t. pos 3; bytes = sys_bytes }

abbrev pub started : World Sys (Unit {0})
started = record { trace = []; vars = tt }

abbrev pub strict_options : Options
strict_options = record { noreplay = false; strict = true }
