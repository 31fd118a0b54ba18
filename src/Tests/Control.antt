-- ===== src/Tests/Control.antt =====
-- A run of trctl that sets a bitmap, and one that prints it, against the handler of the device.
use trace_file_system.Prelude.{ℤ, pos, ◌≡◌, refl, some, none, [], ◌∷◌, arith}
use trace_file_system.Exec.{Trace, Env, World}
use trace_file_system.Ioctl.{tr_get_bmap, tr_set_bmap}
use trace_file_system.Ctl.{parse_bitmap, isvalidhex, strtoul}
use trace_file_system.Ctl.Main.{Sys, ioctl, open_device, arg_bitmap}
use trace_file_system.Ctl.Device.{IsHandled, Runs, set_done, get_done, set_then_get}
use trace_file_system.Tests.{kernel, mount, mounted}
use trace_file_system.Tests.Module.{names, after_set, after_get, set_runs, get_runs}

-- The device opens as 3, the `ioctl`s succeed, and the kernel hands over 5.
abbrev process_reply : Sys → Trace Sys → ℤ
process_reply open_device t = pos 3
process_reply arg_bitmap t = pos 5
process_reply c t = pos 0

abbrev process : Env Sys
process = record { reply = process_reply; bytes = λ c t. [] }

abbrev fresh : World Sys (Unit {0})
fresh = record { trace = []; vars = tt }

set_IsHandled :
    IsHandled process kernel
      (ioctl (pos 3) tr_set_bmap (some 5) (b'm' ∷ []))
      tr_set_bmap
      (pos 30)
      (pos 0)
      mounted
      after_set
set_IsHandled = record {
  runs = set_runs;
  answered = λ t. refl;
  written = λ b t h ok. absurd (ground arith);
}

get_IsHandled :
    IsHandled process kernel
      (ioctl (pos 3) tr_get_bmap none (b'm' ∷ []))
      tr_get_bmap
      (pos 30)
      (pos 0)
      after_set
      after_get
get_IsHandled = record { runs = get_runs; answered = λ t. refl; written = λ b t h ok. ground arith }

five : parse_bitmap (b'0' ∷ b'x' ∷ b'5' ∷ []) ≡ some 5
unfolding parse_bitmap isvalidhex strtoul
five = refl

set_then_get_example :
    (after_get.vars.s_fs_info (pos 7) ≡ some (record mount { umask = 5 }))
    × Runs process fresh
        ((b'0' ∷ b'x' ∷ b'5' ∷ []) ∷ (b'm' ∷ []) ∷ [])
        (b'm' ∷ [])
        (set_done 3 5 (b'm' ∷ []))
    × Runs process fresh ((b'm' ∷ []) ∷ []) (b'm' ∷ []) (get_done process 3 5 (b'm' ∷ []))
set_then_get_example =
    set_then_get process process fresh fresh kernel mounted after_set after_get 3 3
      (b'0' ∷ b'x' ∷ b'5' ∷ []) (b'm' ∷ []) (b'm' ∷ []) 5 5 (pos 30) (pos 30) (pos 7) mount (pos 0)
      (λ t. refl) (λ t. refl) five (names (pos 30)) (names (pos 30)) refl set_IsHandled
      get_IsHandled
