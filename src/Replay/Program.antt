-- ===== src/Replay/Program.antt =====
-- treplay as a whole, from `stat` to `exit`, on a log that fits one chunk.
use trace_file_system.Prelude.{
  ap, ◌∙◌, to_int, to_int_of_IsInt, ℕ, suc, ◌≤◌, ℤ, pos, ◌≡◌, none, List, ◌∷◌, length, min, arith,
  Option-cases, inl, inr,
}
use trace_file_system.Exec.{Trace, Env, World, pure, call_, ◌>>=◌, ◌>>◌}
use trace_file_system.Record.{TrRecord}
use trace_file_system.Replay.{Sys, Process, Options, stat, st_size, open_file, read, close}
use trace_file_system.Replay.Main.{chunk_size, replay_file, replay_main}
use trace_file_system.Replay.RoundTrip.{images}
use trace_file_system.Replay.Records.{AllReplayable}
use trace_file_system.Replay.Whole.{replay_all, replay_chunks-records}

-- What treplay is to do on a log of the records `rs`: the file is found, opened as `fd` and read, the
-- records are replayed, the file is closed, and the exit status is the last `err`.
abbrev pub replay_log : Options → List ℕ → ℤ → List TrRecord → Process ℤ
replay_log o tfile fd rs = do
  call_ (stat tfile)
  call_ (open_file tfile 0 none)
  call_ (read fd chunk_size)
  err ← replay_all o rs
  call_ (close fd)
  pure err

-- The calls of a process that starts in `s`, up to the opening of the file.
abbrev pub opened : Env Sys → List ℕ → World Sys (Unit {0}) → Trace Sys
opened env tfile s =
    let t = (stat tfile, env.reply (stat tfile) s.trace) ∷ s.trace in
    (open_file tfile 0 none, env.reply (open_file tfile 0 none) t) ∷ t

-- The file `tfile` is there and holds `bytes`: it opens as `fd`, and the first read of it hands over
-- all of them.
pub record HoldsLog (env : Env Sys) (tfile : List ℕ) (fd : ℕ) (bytes : List ℕ)
    (s : World Sys (Unit {0})) : Type 0 where
  pub there : env.reply (stat tfile) s.trace ≡ pos 0
  pub size : (t : Trace Sys) → env.reply (st_size tfile) t ≡ pos (length bytes)
  pub opens : (t : Trace Sys) → env.reply (open_file tfile 0 none) t ≡ pos fd
  pub count : env.reply (read (pos fd) chunk_size) (opened env tfile s) ≡ pos (length bytes)
  pub content : env.bytes (read (pos fd) chunk_size) (opened env tfile s) ≡ bytes

-- On a log that is not empty and fits one chunk, treplay does what the records of the log say, from
-- `stat` to the argument of `exit`, whatever was in its fresh buffer.
pub replay_main-records :
    (env : Env Sys) (s : World Sys (Unit {0})) (o : Options) (tfile : List ℕ) (garbage : ℕ → List ℕ)
    (fd fuel : ℕ) (rs : List TrRecord)
    → ((n : ℕ) → length (garbage n) ≡ n)
    → AllReplayable rs
    → 1 ≤ length (images rs)
    → length (images rs) ≤ chunk_size
    → HoldsLog env tfile fd (images rs) s
    → replay_main (suc (suc fuel)) o tfile garbage env s ≡ replay_log o tfile (pos fd) rs env s
unfolding replay_main replay_file
replay_main-records env s o tfile garbage fd fuel rs fresh ok some_bytes fits file =
    let size = length (images rs) in
    let m = garbage (min size chunk_size) in
    let w : World Sys (Unit {0}) = record s { trace = opened env tfile s } in
    let w1 : World Sys (Unit {0}) = record s {
      trace = (read (pos fd) chunk_size, env.reply (read (pos fd) chunk_size) w.trace) ∷ w.trace;
    } in
    let t1 : Trace Sys = (stat tfile, env.reply (stat tfile) s.trace) ∷ s.trace in
    let whole : to_int (env.reply (st_size tfile) t1) ≡ pos size =
      ap to_int (file.size t1) ∙ to_int_of_IsInt (pos size) (omega arith) in
    let room = fresh (min size chunk_size) in
    let chunks =
      replay_chunks-records o (pos fd) rs m env w fuel ok some_bytes (omega (arith, room))
        file.count file.content in
    elim (Option-cases (replay_all o rs env w1)) [
      | inl e ↦ ground (arith, file.there, whole, file.opens t1, chunks)
      | inr ((err, w2), e) ↦ ground (arith, file.there, whole, file.opens t1, chunks)
    ]
