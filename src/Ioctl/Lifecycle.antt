-- ===== src/Ioctl/Lifecycle.antt =====
-- What the start of the device module takes of the kernel, and its end gives back.
use trace_file_system.Prelude.{
  neg_part, ◌≤◌, to_int, to_int_of_IsInt, ℕ, ◌+◌, ℤ, pos, is_neg, true, false, Bool, not, ◌&&◌, ◌≡◌,
  ◌≢◌, some, [], ◌∷◌, arith, if◌then◌else◌,
}
use trace_file_system.Exec.{Trace, Env, World}
use trace_file_system.Kernel.{
  Trfs, Call, alloc_chrdev_region, unregister_chrdev_region, cdev_add, cdev_del, class_create,
  class_destroy, device_create, device_destroy,
}
use trace_file_system.Ioctl.Device.{make_device, add_device, tr_ioctl_init, tr_ioctl_exit}

-- What the module has of the kernel: a region of numbers, a character device, a class and a device
-- file.
pub data Kind : Type 0 where
  region cdev class device : Kind

abbrev makes : Kind → Call → Bool
makes region alloc_chrdev_region = true
makes cdev cdev_add = true
makes class class_create = true
makes device device_create = true
makes _ _ = false

abbrev removes : Kind → Call → Bool
removes region unregister_chrdev_region = true
removes cdev cdev_del = true
removes class class_destroy = true
removes device device_destroy = true
removes _ _ = false

-- How many of a kind a trace has made, and removed.
abbrev pub made : Kind → Trace Call → ℕ
made k [] = 0
made k ((c, r) ∷ t) = (if makes k c && not (is_neg r) then 1 else 0) + made k t

abbrev pub removed : Kind → Trace Call → ℕ
removed k [] = 0
removed k ((c, r) ∷ t) = (if removes k c then 1 else 0) + removed k t

-- From `w` to `w'` so many more of a kind were made than removed.
abbrev pub Surplus : Kind → ℕ → World Call Trfs → World Call Trfs → Type 0
Surplus k n w w' = made k w'.trace + removed k w.trace ≡ n + made k w.trace + removed k w'.trace

-- Of every kind as many were removed as were made.
abbrev pub Undone : World Call Trfs → World Call Trfs → Type 0
Undone w w' =
    Surplus region 0 w w' × Surplus cdev 0 w w' × Surplus class 0 w w' × Surplus device 0 w w'

error_number : (p : ℤ) → neg_part p ≤ 4095 → is_neg p ≡ true → to_int p ≢ pos 0
error_number p h e z = ground (arith, to_int_of_IsInt p)

-- The start of the module that fails has removed all that it made, kind by kind, if `cdev_add` does
-- not fail.
pub tr_ioctl_init_fails :
    (env : Env Call) (w : World Call Trfs) {ret : ℤ} {w' : World Call Trfs}
    → ((t : Trace Call) → is_neg (env.reply cdev_add t) ≡ false)
    → is_neg ret ≡ true
    → tr_ioctl_init env w ≡ some (ret, w')
    → Undone w w'
unfolding tr_ioctl_init add_device make_device
tr_ioctl_init_fails env w adds fails h = grind (arith, adds)

-- If the numbers are to be had and `cdev_add` fails, the start of the module fails and one region of
-- numbers more was made than removed; of the other kinds as many were made as removed.
pub tr_ioctl_init_leaks :
    (env : Env Call) (w : World Call Trfs) {ret : ℤ} {w' : World Call Trfs}
    → ((t : Trace Call) → is_neg (env.reply alloc_chrdev_region t) ≡ false)
    → ((t : Trace Call) → is_neg (env.reply cdev_add t) ≡ true)
    → tr_ioctl_init env w ≡ some (ret, w')
    → (is_neg ret ≡ true)
      × Surplus region 1 w w'
      × Surplus cdev 0 w w'
      × Surplus class 0 w w'
      × Surplus device 0 w w'
unfolding tr_ioctl_init add_device
tr_ioctl_init_leaks env w numbers fails h = grind (arith, numbers, fails)

-- After a start of the module that returns 0, where error pointers are numbers from 1 to 4095
-- negated, its end removes all that the start has made, kind by kind.
pub tr_ioctl_exit_undoes :
    (env : Env Call) (w : World Call Trfs) {w1 w2 : World Call Trfs} {u : Unit {0}}
    → ((t : Trace Call) → neg_part (env.reply class_create t) ≤ 4095)
    → ((t : Trace Call) → neg_part (env.reply device_create t) ≤ 4095)
    → tr_ioctl_init env w ≡ some (pos 0, w1)
    → tr_ioctl_exit env w1 ≡ some (u, w2)
    → Undone w w2
unfolding tr_ioctl_init add_device make_device tr_ioctl_exit
tr_ioctl_exit_undoes env w classes devices h k = grind (arith, classes, devices, error_number)
