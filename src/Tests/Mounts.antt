-- ===== src/Tests/Mounts.antt =====
-- A mount, and requests on it.
use trace_file_system.Prelude.{
  ℕ, ℤ, pos, refl, inl, Option, some, none, List, [], ◌∷◌, arith, ◌≡◌, ◌==ℤ◌, false, to_int,
}
use trace_file_system.Exec.{World, Env}
use trace_file_system.Kernel.{Ptr, Trfs, Call}
use trace_file_system.Kernel.Path.{trfs_set_lower_path, trfs_set_lower_super}
use trace_file_system.Dump.Log.{log_file}
use trace_file_system.Lookup.{trfs_iget}
use trace_file_system.Lookup.Private.{new_dentry_private_data}
use trace_file_system.Mount.{
  name_index, open_trfile, create_trfile, finish_super, make_root, stack_super, fill_super,
  alloc_super, trfs_read_super, all_bits,
}
use trace_file_system.Mount.Fresh.{IsFresh, NoWrites, OpensPointers, trfs_read_super-IsFresh}
use trace_file_system.Mount.Oops.{stack_super-oops}
use trace_file_system.Requests.Ready.{HasPath}
use trace_file_system.Requests.Serve.{Served, serve-Served}
use trace_file_system.Requests.History.{History}
use trace_file_system.Requests.Session.{Session}
use trace_file_system.Tests.{kernel, mounted}
use trace_file_system.Tests.Handlers.{lower_path, traced-IsHealthy, dir-IsMounted}
use trace_file_system.Tests.Requests.{kernel-Answers, creation}

abbrev pub state_of : Option (ℤ × World Call Trfs) → World Call Trfs
state_of none = mounted
state_of (some (x, w)) = w

-- "/lower" is mounted with the log "/l".
abbrev pub lower_name : List ℕ
lower_name = b'/' ∷ b'l' ∷ b'o' ∷ b'w' ∷ b'e' ∷ b'r' ∷ []

abbrev pub log_option : List ℕ
log_option = b't' ∷ b'f' ∷ b'i' ∷ b'l' ∷ b'e' ∷ b'=' ∷ b'/' ∷ b'l' ∷ []

abbrev pub mounted_lower : World Call Trfs
mounted_lower =
    state_of (trfs_read_super (pos 7) (some lower_name) (some log_option) kernel mounted)

pub mount_runs :
    trfs_read_super (pos 7) (some lower_name) (some log_option) kernel mounted
    ≡ some (pos 0, mounted_lower)
unfolding trfs_read_super alloc_super fill_super create_trfile open_trfile name_index stack_super
    make_root finish_super trfs_set_lower_path trfs_set_lower_super trfs_iget
    new_dentry_private_data to_int
mount_runs = refl

pub no_writes : NoWrites mounted
unfolding log_file
no_writes f = refl

pub kernel-OpensPointers : OpensPointers kernel
kernel-OpensPointers = (λ s t. omega arith, λ n f m t. omega arith)

trfs_read_super-IsFresh_example : IsFresh kernel (pos 7) mounted_lower
trfs_read_super-IsFresh_example =
    trfs_read_super-IsFresh kernel (pos 7) (some lower_name) (some log_option) mounted
      kernel-OpensPointers no_writes mount_runs

abbrev fresh : IsFresh kernel (pos 7) mounted_lower
fresh =
    trfs_read_super-IsFresh kernel (pos 7) (some lower_name) (some log_option) mounted
      kernel-OpensPointers no_writes mount_runs

has_path : HasPath mounted_lower (pos 20)
unfolding trfs_read_super alloc_super fill_super create_trfile open_trfile name_index stack_super
    make_root finish_super trfs_set_lower_path trfs_set_lower_super trfs_iget
    new_dentry_private_data to_int
has_path = record { path = lower_path; at = refl }

abbrev created : Served kernel (pos 7) fresh.f all_bits [] mounted_lower creation
created =
    serve-Served kernel (pos 7) fresh.f all_bits [] traced-IsHealthy kernel-Answers mounted_lower
      creation fresh.at (dir-IsMounted, has_path) tt

pub private_path : (d : Ptr) → (pos 4096 ==ℤ d) ≡ false → HasPath mounted_lower d
unfolding trfs_read_super alloc_super fill_super create_trfile open_trfile name_index stack_super
    make_root finish_super trfs_set_lower_path trfs_set_lower_super trfs_iget
    new_dentry_private_data to_int
private_path d h = record { path = lower_path; at = rw h refl }

-- A kernel that gives no inodes.
abbrev poor : Env Call
poor = record { reply = λ c t. pos 0; bytes = λ c t. [] }

stack_super-oops_example : stack_super (pos 7) (pos 9) lower_path poor mounted ≡ none
stack_super-oops_example =
    stack_super-oops poor (pos 7) (inl (λ s n l t. refl)) mounted (pos 9) lower_path
