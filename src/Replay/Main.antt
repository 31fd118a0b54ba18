-- ===== src/Replay/Main.antt =====
-- `main`: the options, the buffers and the loop over the chunks of the log.
use trace_file_system.Prelude.{
  to_int, ℕ, zero, suc, ◌+◌, ◌*◌, ℤ, pos, negsuc, is_neg, ◌==ℤ◌, Bool, true, false, ◌&&◌, Option,
  none, some, List, [], ◌∷◌, ◌++◌, ◌==◌, ltb, leb, length, drop, min, pos_part, if◌then◌else◌,
}
use trace_file_system.Exec.{pure, crash, call, call_, call_bytes, peek, ◌>>=◌, ◌>>◌}
use trace_file_system.Replay.{Process, Options, stat, st_size, open_file, read, close, buffer_size}
use trace_file_system.Replay.Switch.{Next, go, out}
use trace_file_system.Replay.Chunk.{replay_chunk}

-- The bits of `option`, and the two variables that the replay tests.
pub record Parsed : Type 0 where
  pub noreplay_bit : Bool
  pub strict_bit : Bool
  pub options : Options

-- The `getopt` loop over the option characters: `none` is the usage text and exit 0. The two
-- variables keep what they held at the start, unless their option is given.
unfoldable pub parse_options : List ℕ → Parsed → Option Parsed
parse_options [] p = if p.noreplay_bit && p.strict_bit then none else some p
parse_options (c ∷ cs) p =
    let n =
      parse_options cs
        (record p { noreplay_bit = true; options = record p.options { noreplay = true } }) in
    let s =
      parse_options cs
        (record p { strict_bit = true; options = record p.options { strict = true } }) in
    if c == b'n' then n else if c == b's' then s else none

-- `MIN(fsize, 4 * BUFFER_SIZE)`
abbrev pub chunk_size : ℕ
chunk_size = 4 * buffer_size

-- The buffer after `read` has put `bytes` at its front; more than it holds is written outside.
unfoldable pub filled_buffer : List ℕ → List ℕ → Process (List ℕ)
filled_buffer bytes m =
    if leb (length bytes) (length m) then pure (bytes ++ drop (length bytes) m) else crash

-- The end of a chunk: `size += bytes_read` and the next `read`, or `goto out`.
unfoldable pub after_chunk : Next → (ℤ → Process ℤ) → Process ℤ
after_chunk (go err) k = k err
after_chunk (out err) k = pure err

-- `while (size < fsize)`: the value is `err` at the label `out`. Each chunk has fuel for as many
-- records as it has bytes, and one round more to see its end.
unfoldable pub replay_chunks : ℕ → Options → ℤ → ℕ → ℕ → List ℕ → ℤ → Option (List ℕ) → Process ℤ
unfolding filled_buffer after_chunk
replay_chunks zero o fd fsize size m err auxpath = crash
replay_chunks (suc fuel) o fd fsize size m err auxpath = elim (ltb size fsize) [
  | true ↦ (do
    (bytes_read, bytes) ← call_bytes (read fd chunk_size)
    if is_neg bytes_read then pure bytes_read else do
      m ← filled_buffer bytes m
      (next, auxpath) ←
          replay_chunk (suc (pos_part bytes_read)) o m (pos_part bytes_read) 0 err auxpath
      after_chunk next
          (λ err. replay_chunks fuel o fd fsize (size + pos_part bytes_read) m err auxpath))
  | false ↦ pure err
]

-- From `open` to `exit`, for a file of `fsize` bytes; `m` is the fresh buffer.
unfoldable pub replay_file : ℕ → Options → List ℕ → ℕ → List ℕ → Process ℤ
replay_file fuel o tfile fsize m = do
  fd ← call (open_file tfile 0 none)
  err ← if is_neg fd then pure fd else replay_chunks fuel o fd fsize 0 m (pos 0) none
  call_ (close fd)
  pure err

-- `main` after option parsing: the value is the argument of `exit`. `garbage` is what `malloc`
-- left in the buffer of `MIN(fsize, 4 * BUFFER_SIZE)` bytes; `fsize` is an `int`, and nothing is read
-- where it is not above 0.
unfoldable pub replay_main : ℕ → Options → List ℕ → (ℕ → List ℕ) → Process ℤ
unfolding replay_file
replay_main fuel o tfile garbage = do
  status ← call (stat tfile)
  if status ==ℤ pos 0
      then (do
        fsize ← peek (st_size tfile)
        let n = pos_part (to_int fsize)
        replay_file fuel o tfile n (garbage (min n chunk_size)))
      else pure (negsuc 0)
