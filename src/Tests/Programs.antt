-- ===== src/Tests/Programs.antt =====
-- A mount, the creation of a file, and treplay on the log.
use trace_file_system.Prelude.{
  ℕ, ℤ, pos, ◌≡◌, refl, some, List, [], ◌∷◌, length, arith, to_int, to_short, ◌-ℤ◌, ◌+ℤ◌, ap, sym,
  bytes32, bytes16,
}
use trace_file_system.Exec.{Trace, Env, World}
use trace_file_system.Record.{header}
use trace_file_system.Kernel.{SbInfo, Trfs, Call}
use trace_file_system.Kernel.Path.{
  trfs_get_lower_path, trfs_put_lower_path, lock_parent, unlock_dir, trfs_set_lower_path,
  trfs_set_lower_super,
}
use trace_file_system.Dump.{
  log_operation, fill_record, fill_pages, fill_by_type, append_if_filled, append_record, write_log,
  append_aux,
}
use trace_file_system.Dump.Log.{log_file, pwrite}
use trace_file_system.Lookup.{trfs_iget, init_inode, interpose_dentry, trfs_interpose}
use trace_file_system.Lookup.Private.{new_dentry_private_data}
use trace_file_system.Mount.{
  name_index, open_trfile, create_trfile, finish_super, make_root, stack_super, fill_super,
  alloc_super, trfs_read_super, all_bits,
}
use trace_file_system.Inode.{lower_create, trfs_create}
use trace_file_system.Replay.{Sys, stat, st_size, read}
use trace_file_system.Replay.Main.{replay_main}
use trace_file_system.Replay.Program.{HoldsLog}
use trace_file_system.Requests.{serve}
use trace_file_system.Requests.History.{History, here, logged}
use trace_file_system.Requests.Program.{IsReplayed, mount_to_replay}
use trace_file_system.Tests.{kernel, mounted, started, strict_options}
use trace_file_system.Tests.Tools.{zeros, length-zeros}
use trace_file_system.Tests.Handlers.{traced-IsHealthy, dir-IsMounted}
use trace_file_system.Tests.Requests.{creation, kernel-Answers, kernel-TextPaths}
use trace_file_system.Tests.Mounts.{
  state_of, mounted_lower, lower_name, log_option, mount_runs, no_writes, kernel-OpensPointers,
  private_path,
}

abbrev made : World Call Trfs
made = state_of (serve creation kernel mounted_lower)

creation_runs : serve creation kernel mounted_lower ≡ some (pos 0, made)
unfolding serve trfs_create lower_create trfs_get_lower_path trfs_put_lower_path lock_parent
    unlock_dir trfs_interpose interpose_dentry trfs_iget init_inode log_operation fill_record
    fill_pages fill_by_type append_if_filled append_record write_log append_aux trfs_read_super
    alloc_super fill_super create_trfile open_trfile name_index stack_super make_root finish_super
    trfs_set_lower_path trfs_set_lower_super new_dentry_private_data to_int to_short ◌-ℤ◌ ◌+ℤ◌
creation_runs = refl

-- the superblock's data then: one record of 34 bytes is in the log
abbrev made_info : SbInfo
made_info = record {
  lower_sb = pos 7;
  tr_lower_filep = pos 4096;
  f_pos = pos 34;
  tr_page = pos 4096;
  umask = all_bits;
}

made_at : made.vars.s_fs_info (pos 7) ≡ some made_info
unfolding serve trfs_create lower_create trfs_get_lower_path trfs_put_lower_path lock_parent
    unlock_dir trfs_interpose interpose_dentry trfs_iget init_inode log_operation fill_record
    fill_pages fill_by_type append_if_filled append_record write_log append_aux trfs_read_super
    alloc_super fill_super create_trfile open_trfile name_index stack_super make_root finish_super
    trfs_set_lower_path trfs_set_lower_super new_dentry_private_data to_int to_short ◌-ℤ◌ ◌+ℤ◌
made_at = refl

abbrev log_bytes : List ℕ
log_bytes = log_file (pos 4096) made.trace

log_bytes_length : length log_bytes ≡ 34
unfolding log_file pwrite header bytes32 bytes16 serve trfs_create lower_create trfs_get_lower_path
    trfs_put_lower_path lock_parent unlock_dir trfs_interpose interpose_dentry trfs_iget init_inode
    log_operation fill_record fill_pages fill_by_type append_if_filled append_record write_log
    append_aux trfs_read_super alloc_super fill_super create_trfile open_trfile name_index
    stack_super make_root finish_super trfs_set_lower_path trfs_set_lower_super
    new_dentry_private_data to_int to_short ◌-ℤ◌ ◌+ℤ◌
log_bytes_length = refl

-- treplay finds these bytes in its file.
abbrev process_reply : Sys → Trace Sys → ℤ
process_reply (stat s) t = pos 0
process_reply (st_size s) t = pos 34
process_reply (read fd n) t = pos 34
process_reply _ t = pos 3

abbrev process : Env Sys
process = record { reply = process_reply; bytes = λ c t. log_bytes }

abbrev file_name : List ℕ
file_name = b'l' ∷ []

holds : HoldsLog process file_name 3 log_bytes started
holds = record {
  there = refl;
  size = λ t. ap pos (sym log_bytes_length);
  opens = λ t. refl;
  count = ap pos (sym log_bytes_length);
  content = refl;
}

created : History kernel (pos 7) mounted_lower ((creation, pos 0) ∷ []) made
created = logged creation (dir-IsMounted, private_path (pos 20) refl) tt creation_runs (here made)

mount_to_replay_example :
    IsReplayed kernel mounted_lower.vars.trecord_id
      ((creation, pos 0) ∷ [])
      made
      process
      started
      strict_options
      file_name
      3
      (replay_main 2 strict_options file_name zeros process started)
mount_to_replay_example =
    mount_to_replay kernel (pos 7) (some lower_name) (some log_option) mounted mounted_lower made
      ((creation, pos 0) ∷ []) made_info process started strict_options file_name zeros 3 0
      traced-IsHealthy kernel-TextPaths kernel-Answers kernel-OpensPointers no_writes mount_runs
      (tt, tt) created made_at (omega (arith, log_bytes_length)) (omega (arith, log_bytes_length))
      length-zeros holds
