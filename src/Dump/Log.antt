-- ===== src/Dump/Log.antt =====
-- The contents of the log file, read off the trace of `kernel_write` calls, and what
-- `append_record` adds to them.
use trace_file_system.Prelude.{
  ℕ, ◌+◌, ℤ, pos, pos_part, ◌≡◌, ◌==ℤ◌, ==ℤ_self, some, List, [], ◌∷◌, ◌++◌, arith, length, take,
  drop, take_all, drop_all, length-append, append-nil, if◌then◌else◌, ◌+ℤ◌,
}
use trace_file_system.Exec.{Trace, Env, World}
use trace_file_system.Kernel.{Ptr, SbInfo, Trfs, Call, update, kernel_write}
use trace_file_system.Dump.{write_log}

-- A file after `ret` bytes of `bytes` went to the position `at`, as `kernel_write` documents it.
unfoldable pub pwrite : List ℕ → List ℕ → ℤ → ℤ → List ℕ
pwrite file bytes at ret =
    take (pos_part at) file ++ (take (pos_part ret) bytes ++ drop (pos_part at + pos_part ret) file)

-- The contents of the file `f`, which is created empty.
unfoldable pub log_file : Ptr → Trace Call → List ℕ
log_file f [] = []
log_file f ((kernel_write g bytes count at, ret) ∷ t) =
    if g ==ℤ f then pwrite (log_file f t) bytes at ret else log_file f t
log_file f (_ ∷ t) = log_file f t

-- `sb` is mounted with the log file `f` and the mask `umask`; `f` holds `file`, and the position
-- is at its end.
pub record LogIs (sb f : Ptr) (umask : ℕ) (file : List ℕ) (w : World Call Trfs) : Type 0 where
  pub info : SbInfo
  pub mounted : w.vars.s_fs_info sb ≡ some info
  pub filep : info.tr_lower_filep ≡ f
  pub mask : info.umask ≡ umask
  pub f_pos : info.f_pos ≡ pos (length file)
  pub content : log_file f w.trace ≡ file

-- The disk takes every write whole.
abbrev pub FullWrites : Env Call → Type 0
FullWrites env =
    (f : Ptr) (bytes : List ℕ) (count at : ℤ) (t : Trace Call)
    → env.reply (kernel_write f bytes count at) t ≡ count

pwrite-end :
    (file bytes : List ℕ)
    → pwrite file bytes (pos (length file)) (pos (length bytes)) ≡ file ++ bytes
unfolding pwrite
pwrite-end file bytes = rw (
  take_all (length file) file (omega arith),
  take_all (length bytes) bytes (omega arith),
  drop_all (length file + length bytes) file (omega arith),
  append-nil,
)

-- The state after a whole write of `bytes` through the superblock data `info`.
abbrev pub wrote : Ptr → SbInfo → List ℕ → World Call Trfs → World Call Trfs
wrote sb info bytes w =
    let count = pos (length bytes) in
    record {
      trace = (kernel_write info.tr_lower_filep bytes count info.f_pos, count) ∷ w.trace;
      vars = record w.vars {
        s_fs_info = update w.vars.s_fs_info sb (some (record info { f_pos = info.f_pos +ℤ count }));
      };
    }

module _ (env : Env Call) (w : World Call Trfs) (sb f : Ptr) (umask : ℕ) (file bytes : List ℕ) where
  pub write_log-wrote :
      FullWrites env
      → (at : LogIs sb f umask file w)
      → write_log sb bytes (pos (length bytes)) env w
        ≡ some (pos (length bytes), wrote sb at.info bytes w)
  unfolding write_log
  write_log-wrote full at = ground (
    arith,
    full at.info.tr_lower_filep bytes (pos (length bytes)) at.info.f_pos w.trace,
    ==ℤ_self (pos (length bytes)),
  )

  pub wrote-LogIs :
      (at : LogIs sb f umask file w) → LogIs sb f umask (file ++ bytes) (wrote sb at.info bytes w)
  unfolding log_file ◌+ℤ◌
  wrote-LogIs at = record {
    info = record at.info { f_pos = at.info.f_pos +ℤ pos (length bytes) };
    mounted = rw (==ℤ_self sb);
    filep = at.filep;
    mask = at.mask;
    f_pos = rw at.f_pos (ground (arith, length-append file bytes));
    content = rw (at.filep, ==ℤ_self f, at.content, at.f_pos) (pwrite-end file bytes);
  }
