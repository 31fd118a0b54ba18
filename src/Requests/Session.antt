-- ===== src/Requests/Session.antt =====
-- From the mount to the replay.
use trace_file_system.Prelude.{ℕ, ℤ, ◌≡◌, ◌≢◌, refl, ap, suc, length, bit_and, arith, List}
use trace_file_system.Exec.{Env, World}
use trace_file_system.Kernel.{Ptr, Trfs, Call}
use trace_file_system.Mount.{all_bits}
use trace_file_system.Mount.Fresh.{IsOpened}
use trace_file_system.Requests.{Request, entry}
use trace_file_system.Record.{TrRecord}
use trace_file_system.Dump.Fill.{
  Operation, type_of, fcreat, fwrite, dcreat, rename, link, symlink, unlink,
}
use trace_file_system.Requests.History.{History, Tells, end, told, untold}
use trace_file_system.Requests.Image.{Replayed}

-- The log file that a mount has opened, and what treplay does on it.
pub record Session (env : Env Call) (id : ℕ) (l : List (Request × ℤ)) (w' : World Call Trfs)
    : Type 0 where
  pub f : Ptr
  pub is_open : IsOpened env f
  pub replayed : Replayed env f all_bits id l w'
  pub one_each : length replayed.records ≡ length l

-- A mask with all its bits has the bit of each operation.
all_bits-set : (op : Operation) → bit_and (type_of op) all_bits ≢ 0
all_bits-set fcreat h = absurd (ground arith)
all_bits-set fwrite h = absurd (ground arith)
all_bits-set dcreat h = absurd (ground arith)
all_bits-set rename h = absurd (ground arith)
all_bits-set link h = absurd (ground arith)
all_bits-set symlink h = absurd (ground arith)
all_bits-set unlink h = absurd (ground arith)

pub length-Tells :
    (env : Env Call) {id last : ℕ} {l : List (Request × ℤ)} {rs : List TrRecord}
    → Tells env all_bits id l rs last
    → length rs ≡ length l
length-Tells env (end id) = refl
length-Tells env (told on is rest) = ap suc (length-Tells env rest)
length-Tells env (untold {req = req} off rest) = absurd (all_bits-set (entry req).op off)
