-- ===== src/Tests/Ends.antt =====
-- What is given back, and a log that is replayed whole.
use trace_file_system.Prelude.{ℤ, pos, negsuc, refl, true, to_int, some, [], arith, ◌≡◌}
use trace_file_system.Exec.{World, Env}
use trace_file_system.Kernel.{
  Trfs, Call, cdev_add, class_create, unregister_chrdev_region, cdev_del, class_destroy,
  device_destroy,
}
use trace_file_system.Ioctl.Device.{make_device, add_device, tr_ioctl_init, tr_ioctl_exit}
use trace_file_system.Ioctl.Lifecycle.{
  Undone, Surplus, region, cdev, class, device, tr_ioctl_init_fails, tr_ioctl_init_leaks,
  tr_ioctl_exit_undoes,
}
use trace_file_system.Inode.Traced.{called}
use trace_file_system.Kernel.Path.{trfs_get_lower_path, trfs_put_lower_path}
use trace_file_system.Inode.Attr.{link_buffer, lower_readlink, trfs_readlink, trfs_get_link}
use trace_file_system.Inode.Attr.Overflow.{last_nul, trfs_get_link_overflows}
use trace_file_system.Requests.{Other}
use trace_file_system.Balance.{Balanced, Kept}
use trace_file_system.Balance.Handlers.{serve-Balanced, serve-Kept}
use trace_file_system.Balance.Others.{serve_other-Balanced}
use trace_file_system.Super.{trfs_put_super}
use trace_file_system.Super.Unmount.{Unmounts, trfs_put_super-Unmounts}
use trace_file_system.Tests.{kernel, mount, mounted}
use trace_file_system.Tests.Handlers.{traced}
use trace_file_system.Tests.Mounts.{state_of}
use trace_file_system.Tests.Requests.{creation, created, permitted, permission_runs}

serve-Balanced_example : Balanced permitted created.after
serve-Balanced_example = serve-Balanced kernel permitted creation created.runs

serve-Kept_example : Kept (pos 13) permitted created.after
serve-Kept_example = serve-Kept kernel permitted creation created.runs (pos 13)

serve_other-Balanced_example : Balanced traced permitted
serve_other-Balanced_example =
    serve_other-Balanced kernel traced (Other.permission (pos 5) (pos 2)) refl permission_runs

-- A kernel where no device class can be made, and one where no character device can be added.
abbrev no_class : Env Call
no_class = record { reply = λ c t. answer c; bytes = λ c t. [] }
  where
    answer : Call → ℤ
    answer class_create = negsuc 11
    answer _ = pos 0

abbrev no_cdev : Env Call
no_cdev = record { reply = λ c t. answer c; bytes = λ c t. [] }
  where
    answer : Call → ℤ
    answer cdev_add = negsuc 11
    answer _ = pos 0

class_fails :
    tr_ioctl_init no_class mounted ≡ some (negsuc 11, state_of (tr_ioctl_init no_class mounted))
unfolding tr_ioctl_init add_device make_device to_int
class_fails = refl

cdev_fails :
    tr_ioctl_init no_cdev mounted ≡ some (negsuc 11, state_of (tr_ioctl_init no_cdev mounted))
unfolding tr_ioctl_init add_device make_device
cdev_fails = refl

device_made : tr_ioctl_init kernel mounted ≡ some (pos 0, state_of (tr_ioctl_init kernel mounted))
unfolding tr_ioctl_init add_device make_device
device_made = refl

abbrev ended : World Call Trfs
ended = called kernel unregister_chrdev_region (
    called kernel cdev_del (
      called kernel class_destroy
        (called kernel device_destroy (state_of (tr_ioctl_init kernel mounted)))))

device_ends : tr_ioctl_exit kernel (state_of (tr_ioctl_init kernel mounted)) ≡ some (tt, ended)
unfolding tr_ioctl_exit
device_ends = refl

tr_ioctl_init_fails_example : Undone mounted (state_of (tr_ioctl_init no_class mounted))
tr_ioctl_init_fails_example = tr_ioctl_init_fails no_class mounted (λ t. refl) refl class_fails

tr_ioctl_init_leaks_example :
    (true ≡ true)
    × Surplus region 1 mounted (state_of (tr_ioctl_init no_cdev mounted))
    × Surplus cdev 0 mounted (state_of (tr_ioctl_init no_cdev mounted))
    × Surplus class 0 mounted (state_of (tr_ioctl_init no_cdev mounted))
    × Surplus device 0 mounted (state_of (tr_ioctl_init no_cdev mounted))
tr_ioctl_init_leaks_example = tr_ioctl_init_leaks no_cdev mounted (λ t. refl) (λ t. refl) cdev_fails

tr_ioctl_exit_undoes_example : Undone mounted ended
tr_ioctl_exit_undoes_example =
    tr_ioctl_exit_undoes kernel mounted (λ t. omega arith) (λ t. omega arith) device_made
      device_ends

trfs_put_super-Unmounts_example :
    Unmounts kernel (trfs_put_super (pos 7) kernel mounted) (pos 7) mount mounted
trfs_put_super-Unmounts_example =
    trfs_put_super-Unmounts kernel (pos 7) mount mounted refl refl refl

-- A kernel whose links have targets of 4096 bytes.
abbrev long_links : Env Call
long_links = record { reply = λ c t. pos 4096; bytes = λ c t. [] }

link_read :
    trfs_get_link (pos 20) (pos 5) (pos 6) long_links mounted
    ≡ some (pos 4096, state_of (trfs_get_link (pos 20) (pos 5) (pos 6) long_links mounted))
unfolding trfs_get_link link_buffer trfs_readlink lower_readlink trfs_get_lower_path
    trfs_put_lower_path
link_read = refl

trfs_get_link_overflows_example :
    last_nul (state_of (trfs_get_link (pos 20) (pos 5) (pos 6) long_links mounted)).trace
    ≡ some (pos 4096)
trfs_get_link_overflows_example =
    trfs_get_link_overflows long_links mounted (pos 20) (pos 5) (pos 6)
      (record {
        table = λ p t. refl;
        method = λ p t. refl;
        inodes = λ p t. refl;
        length = λ p args t. refl;
      })
      refl refl link_read
