-- ===== src/Replay.antt =====
-- hw2/treplay.c: the log is read in chunks of 16 KB, and each record in a chunk is replayed by a
-- system call below the working directory. What is undefined in C is `none`: reading or writing
-- outside a buffer, following a NULL pointer, and using a pointer that was never set.
pub mod Status
pub mod Switch
pub mod Chunk
pub mod Main
pub mod RoundTrip
pub mod Records
pub mod Whole
pub mod Program
use trace_file_system.Prelude.{ℕ, ℤ, Bool, List, Option}
use trace_file_system.Exec.{Exec}

-- The texts that name a system call in the output.
pub data SysName : Type 0 where
  open_name write_name mkdir_name rename_name link_name symlink_name remove_name : SysName

-- The system calls and the library calls of the process, and the lines that it prints about a
-- record: `report ok id` is SUCESS or FAILED, `print_record` the line with its fields.
pub data Sys : Type 0 where
  stat st_size : List ℕ → Sys
  open_file : List ℕ → ℕ → Option ℕ → Sys
  read : ℤ → ℕ → Sys
  close : ℤ → Sys
  getcwd : Sys
  write : ℤ → List ℕ → ℤ → Sys
  mkdir : List ℕ → ℕ → Sys
  rename link symlink : List ℕ → List ℕ → Sys
  remove : List ℕ → Sys
  report : Bool → ℕ → Sys
  print_record : SysName → ℕ → ℤ → Bool → Sys

-- The process keeps nothing between calls but local variables.
abbrev pub Process : Type 0 → Type 0
Process A = Exec Sys (Unit {0}) A

-- enum troption, after option parsing
pub record Options : Type 0 where
  pub noreplay : Bool
  pub strict : Bool

abbrev pub buffer_size : ℕ
buffer_size = 4096
