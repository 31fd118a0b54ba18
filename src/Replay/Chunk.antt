-- ===== src/Replay/Chunk.antt =====
-- The loop over the records of one chunk.
use trace_file_system.Prelude.{
  ℕ, zero, suc, ◌+◌, ℤ, pos, negsuc, pos_part, ◌+ℤ◌, ◌==ℤ◌, true, false, ◌&&◌, Option, none, some,
  List, [], ◌∷◌, ◌++◌, ◌==◌, ltb, leb, length, take, drop, if◌then◌else◌,
}
use trace_file_system.Exec.{pure, crash, or_crash, call_bytes, ◌>>=◌}
use trace_file_system.Record.{tr_fwrite, tr_symlink}
use trace_file_system.Record.Layout.{Fields, read_fields}
use trace_file_system.Replay.{Process, Options, getcwd, buffer_size}
use trace_file_system.Replay.Switch.{Next, go, out, replay_switch}

-- The characters in front of the first NUL.
unfoldable pub c_string : List ℕ → List ℕ
c_string [] = []
c_string (c ∷ s) = if c == 0 then [] else c ∷ c_string s

-- `memcpy(resolvebuf, m + at, len); resolvebuf[len] = '\0'`, as the string that is then in
-- `resolvebuf`. The length must leave room for the NUL, and the source must be in the buffer.
unfoldable pub copy_string : List ℕ → ℕ → ℤ → Option (List ℕ)
copy_string m at (pos len) =
    if ltb len buffer_size && leb (at + len) (length m)
    then some (c_string (take len (drop at m)))
    else none
copy_string m at (negsuc n) = none

-- `strcat(getcwd(b, BUFFER_SIZE), s)` in a buffer `b` of that size
pub resolve : List ℕ → Process (List ℕ)
resolve s = do
  (p, cwd) ← call_bytes getcwd
  if p ==ℤ pos 0
      then crash
      else if ltb (length cwd + length s) buffer_size
      then pure (cwd ++ s)
      else crash

-- What `write(rfd, aux, aux_len)` is given: the bytes at `aux`.
unfoldable pub write_data : List ℕ → ℤ → List ℕ
write_data m (pos len) = take len m
write_data m (negsuc n) = m

-- `aux` and `auxpath` of the `switch`, for a record whose auxiliary data begin at `at`: for a write
-- the data stay in the buffer; for the others the text is copied, and resolved unless it is the
-- target of a symbolic link. With no auxiliary data `aux` is the text behind the path, and
-- `auxpath` is what it was.
unfoldable pub find_aux : List ℕ → ℕ → Fields → Option (List ℕ) → Process (List ℕ × Option (List ℕ))
find_aux m at r auxpath =
    if r.type == tr_fwrite
    then pure (write_data (drop at m) r.aux_len, auxpath)
    else if r.aux_len ==ℤ pos 0
    then pure (c_string (drop at m), auxpath)
    else do
      aux ← or_crash (copy_string m at r.aux_len)
      if r.type == tr_symlink
          then pure (aux, auxpath)
          else (do path ← resolve aux; pure (aux, some path))

-- What one round leaves: how it ended, `auxpath`, and the size by which `buf` moves on.
pub record Round : Type 0 where
  pub next : Next
  pub auxpath : Option (List ℕ)
  pub size : ℤ

-- One round of the loop, at the offset `off` in the buffer.
unfoldable pub replay_record : Options → List ℕ → ℕ → ℤ → Option (List ℕ) → Process Round
replay_record o m off err auxpath = do
  r ← or_crash (read_fields (drop off m))
  rel_path ← or_crash (copy_string m (off + 32) r.path_len)
  pathname ← resolve rel_path
  (aux, auxpath) ← find_aux m (off + 32 + pos_part r.path_len) r auxpath
  next ←
      replay_switch o (record { fields = r; pathname = pathname; aux = aux; auxpath = auxpath }) err
  pure (record { next = next; auxpath = auxpath; size = r.rec_size })

-- The end of a round: `buf += record->rec_size` and the next round, or `goto out`. In front of the
-- buffer nothing is defined.
unfoldable pub after_round :
    Next
    → ℤ
    → Option (List ℕ)
    → (ℤ → ℕ → Process (Next × Option (List ℕ)))
    → Process (Next × Option (List ℕ))
after_round (go err) (pos off) auxpath k = k err off
after_round (go err) (negsuc n) auxpath k = crash
after_round (out err) off auxpath k = pure (out err, auxpath)

-- `while (buf < limit)`. With no fuel left it is none; a size of 0 would loop for ever.
unfoldable pub replay_chunk :
    ℕ → Options → List ℕ → ℕ → ℕ → ℤ → Option (List ℕ) → Process (Next × Option (List ℕ))
replay_chunk zero o m limit off err auxpath = crash
replay_chunk (suc fuel) o m limit off err auxpath = elim (ltb off limit) [
  | true ↦ (do
    r ← replay_record o m off err auxpath
    after_round r.next (pos off +ℤ r.size) r.auxpath
        (λ err off. replay_chunk fuel o m limit off err r.auxpath))
  | false ↦ pure (go err, auxpath)
]
