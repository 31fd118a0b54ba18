-- ===== src/Ioctl/Device.antt =====
-- hw2/tr_ioctl.c: the device is made when the module is loaded, and taken back when it is unloaded.
use trace_file_system.Prelude.{ℤ, pos, is_neg, if◌then◌else◌, to_int}
use trace_file_system.Exec.{pure, call, call_, ◌>>=◌, ◌>>◌}
use trace_file_system.Kernel.{
  is_err, alloc_chrdev_region, unregister_chrdev_region, cdev_init, cdev_add, cdev_del,
  class_create, class_destroy, device_create, device_destroy,
}
use trace_file_system.Kernel.Path.{Kernel}

abbrev pub tr_open : ℤ
tr_open = pos 0

abbrev pub tr_close : ℤ
tr_close = pos 0

-- with the class
unfoldable pub make_device : Kernel ℤ
make_device = do
  dev_ret ← call device_create
  if is_err dev_ret
      then (do
        call_ class_destroy
        call_ cdev_del
        call_ unregister_chrdev_region
        pure (to_int dev_ret))
      else pure (pos 0)

-- with the region of device numbers
unfoldable pub add_device : Kernel ℤ
unfolding make_device
add_device = do
  call_ cdev_init
  ret ← call cdev_add
  if is_neg ret then pure ret else do
    trace_class ← call class_create
    if is_err trace_class
        then (do call_ cdev_del; call_ unregister_chrdev_region; pure (to_int trace_class))
        else make_device

unfoldable pub tr_ioctl_init : Kernel ℤ
unfolding add_device
tr_ioctl_init = do ret ← call alloc_chrdev_region; if is_neg ret then pure ret else add_device

unfoldable pub tr_ioctl_exit : Kernel Unit
tr_ioctl_exit = do
  call_ device_destroy
  call_ class_destroy
  call_ cdev_del
  call_ unregister_chrdev_region
