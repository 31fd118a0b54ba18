-- ===== src/Ctl/Main.antt =====
-- `main` of hw2/trctl.c as a process: what it prints and what it asks of the trace device.
use trace_file_system.Prelude.{
  ℕ, ℤ, pos, negsuc, is_neg, pos_part, ◌==ℤ◌, Option, none, some, List, if◌then◌else◌,
}
use trace_file_system.Exec.{Exec, pure, call, call_, peek, ◌>>=◌, ◌>>◌}
use trace_file_system.Ioctl.{tr_get_bmap, tr_set_bmap}
use trace_file_system.Ctl.{Command, get_bmap, set_bmap, parse_args}
use trace_file_system.Ctl.Print.{print_bitmap}

-- What the process calls. The bitmap of an `ioctl` is `none` where the process has not set it;
-- `arg_bitmap` is the bitmap in the argument, as the kernel has left it.
pub data Sys : Type 0 where
  usage open_device perror_open perror_get perror_set arg_bitmap : Sys
  print_path print_line : List ℕ → Sys
  ioctl : ℤ → ℕ → Option ℕ → List ℕ → Sys
  close : ℤ → Sys

abbrev pub Process : Type 0 → Type 0
Process A = Exec Sys (Unit {0}) A

-- `print_line` is "Bitmap : " and its text.
unfoldable pub get_bitmap : ℤ → List ℕ → Process Unit
unfolding print_bitmap
get_bitmap fd mntpath = do
  ret ← call (ioctl fd tr_get_bmap none mntpath)
  if ret ==ℤ negsuc 0
      then call_ perror_get
      else do bitmap ← peek arg_bitmap; call_ (print_line (print_bitmap (pos_part bitmap)))

unfoldable pub set_bitmap : ℤ → ℕ → List ℕ → Process Unit
set_bitmap fd bitmap mntpath = do
  ret ← call (ioctl fd tr_set_bmap (some bitmap) mntpath)
  if ret ==ℤ negsuc 0 then call_ perror_set else pure tt

-- `switch (option)`
unfoldable pub run_option : ℤ → Command → Process Unit
unfolding get_bitmap set_bitmap
run_option fd (get_bmap mntpath) = get_bitmap fd mntpath
run_option fd (set_bmap bitmap mntpath) = set_bitmap fd bitmap mntpath

abbrev mntpath_of : Command → List ℕ
mntpath_of (get_bmap mntpath) = mntpath
mntpath_of (set_bmap bitmap mntpath) = mntpath

-- From `printf` of the mount's path to the end.
unfoldable pub run_command : Command → Process ℤ
unfolding run_option
run_command c = do
  call_ (print_path (mntpath_of c))
  trfd ← call open_device
  if is_neg trfd
      then (do call_ perror_open; pure trfd)
      else do run_option trfd c; call_ (close trfd); pure (pos 0)

-- The exit status is the value that `main` returns.
unfoldable pub main_command : Option Command → Process ℤ
unfolding run_command
main_command none = do call_ usage; pure (pos 1)
main_command (some c) = run_command c

unfoldable pub main : List (List ℕ) → Process ℤ
unfolding parse_args main_command
main args = main_command (parse_args args)
