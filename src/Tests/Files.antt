-- ===== src/Tests/Files.antt =====
-- A file that is opened and released, a write of no bytes and one of 32767.
use trace_file_system.Prelude.{
  ℤ, ℕ, pos, negsuc, ◌≡◌, refl, none, some, List, [], ◌∷◌, arith, to_short, zero, suc, length, ◌^◌,
  ◌-◌,
}
use trace_file_system.Exec.{Trace, Env, World}
use trace_file_system.Kernel.{Call, Trfs, d_unhashed, kernel_write}
use trace_file_system.Kernel.Path.{trfs_get_lower_path, trfs_set_lower_file}
use trace_file_system.File.{trfs_write}
use trace_file_system.File.Open.{drop_lower, open_lower, trfs_open, trfs_file_release}
use trace_file_system.Record.{Chars}
use trace_file_system.Dump.Log.{LogIs}
use trace_file_system.Dump.Overflow.{Refuses}
use trace_file_system.File.Write.{result}
use trace_file_system.File.Overflow.{HasPaths, trfs_write-overflows}
use trace_file_system.File.Empty.{trfs_write-stops}
use trace_file_system.File.Lifecycle.{IsOpened, lower_of, released, open_then_release}
use trace_file_system.Tests.{kernel}
use trace_file_system.Tests.Handlers.{
  traced, traced_mount, traced-LogIs, lower_file, open_file, buffer,
}
use trace_file_system.Tests.Mounts.{state_of}

abbrev opening_reply : Call → Trace Call → ℤ
opening_reply (d_unhashed d) t = pos 0
opening_reply _ t = pos 4096

abbrev opening : Env Call
opening = record { reply = opening_reply; bytes = λ c t. [] }

abbrev opened : World Call Trfs
opened = state_of (trfs_open (pos 5) open_file opening traced)

open_runs : trfs_open (pos 5) open_file opening traced ≡ some (pos 0, opened)
unfolding trfs_open open_lower drop_lower trfs_get_lower_path trfs_set_lower_file
open_runs = refl

opened_data :
    opened.vars.private_data (pos 30)
    ≡ some
        (record { lower_file = lower_of (opened.vars.private_data (pos 30)); lower_vm_ops = pos 0 })
unfolding trfs_open open_lower drop_lower trfs_get_lower_path trfs_set_lower_file
opened_data = refl

open_then_release_example :
    IsOpened opening open_file traced (lower_of (opened.vars.private_data (pos 30)))
    × (trfs_file_release (pos 5) open_file opening opened
        ≡ some (
          pos 0,
          released opening open_file (lower_of (opened.vars.private_data (pos 30))) (pos 0) opened,
        ))
open_then_release_example =
    open_then_release opening open_file traced opened opened (pos 5) (pos 5) (pos 0)
      (λ p f t. (refl, omega arith)) open_runs opened_data

no_bytes : to_short (pos 0) ≡ pos 0
unfolding to_short
no_bytes = refl

trfs_write-stops_example : trfs_write open_file (some buffer) (pos 0) (pos 0) kernel traced ≡ none
trfs_write-stops_example =
    trfs_write-stops kernel (pos 7) open_file buffer (pos 0) (pos 0) traced lower_file traced_mount
      (λ t. refl) (record { inode = refl; super = refl }) refl refl refl no_bytes

-- A disk that refuses a write of a negative size with -EINVAL.
abbrev strict_reply : Call → Trace Call → ℤ
strict_reply (kernel_write f b (negsuc n) at) t = negsuc 21
strict_reply c t = kernel.reply c t

abbrev strict : Env Call
strict = record { reply = strict_reply; bytes = kernel.bytes }

strict-Refuses : Refuses strict
strict-Refuses = record { takes = λ f b n at t. refl; refuses = λ f b n at t. (refl, omega arith) }

strict-HasPaths : HasPaths strict
strict-HasPaths = record { page = λ t. refl; path = λ d p t. refl; path_max = λ d p t. omega arith }

-- 32767 bytes.
unfoldable repeat : ℕ → ℕ → List ℕ
repeat zero x = []
repeat (suc n) x = x ∷ repeat n x

length-repeat : (n x : ℕ) → length (repeat n x) ≡ n
unfolding repeat
length-repeat zero x = refl
length-repeat (suc n) x = omega (arith, length-repeat n x)

abbrev large : Chars
large = record { block = pos 40; chars = repeat 32767 b'x' }

trfs_write-overflows_example :
    (w' : World Call Trfs) × (trfs_write open_file
        (some large)
        (pos (length large.chars))
        (pos 0)
        strict
        traced
      ≡ some
          (result strict lower_file open_file large (pos (length large.chars)) (pos 0) traced, w'))
    × LogIs (pos 7) (pos 9) (2 ^ 64 - 1) (repeat 32767 b'x') w'
trfs_write-overflows_example =
    trfs_write-overflows strict (pos 7) (pos 9) (2 ^ 64 - 1) [] open_file lower_file large (pos 0)
      traced strict-Refuses strict-HasPaths (λ t. refl) (record { inode = refl; super = refl })
      (omega (arith, length-repeat 32767 b'x')) (λ p t. omega (arith, length-repeat 32767 b'x'))
      traced-LogIs refl refl
