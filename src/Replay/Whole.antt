-- ===== src/Replay/Whole.antt =====
-- A log that fits one chunk is replayed whole.
use trace_file_system.Prelude.{
  ℕ, suc, ◌+◌, ◌≤◌, ℤ, pos, ◌≡◌, true, false, none, List, [], ◌∷◌, ◌++◌, length, length-append,
  drop, arith, Option-cases, inl, inr, ltb, leb, lt→ltb, le→leb,
}
use trace_file_system.Exec.{Env, World, pure, ◌>>=◌}
use trace_file_system.Record.{TrRecord}
use trace_file_system.Record.Layout.{image}
use trace_file_system.Replay.{Sys, Process, Options, read}
use trace_file_system.Replay.Switch.{Next, go, out}
use trace_file_system.Replay.Chunk.{replay_chunk}
use trace_file_system.Replay.Main.{chunk_size, filled_buffer, after_chunk, replay_chunks}
use trace_file_system.Replay.RoundTrip.{images, replay_records}
use trace_file_system.Replay.Records.{AllReplayable, image_pos, replay_chunk-records}

-- The value of `err` at the label `out`, however the loop ended.
abbrev pub status_of : Next → ℤ
status_of (go err) = err
status_of (out err) = err

-- The records of a log, and `err` behind them.
abbrev pub replay_all : Options → List TrRecord → Process ℤ
replay_all o rs = do (n, a) ← replay_records o rs (pos 0) none; pure (status_of n)

length-images : (rs : List TrRecord) → AllReplayable rs → length rs ≤ length (images rs)
length-images [] ok = omega arith
length-images (r ∷ rs) ok =
    omega
      (arith, image_pos r ok.0.sized, length-append (image r) (images rs), length-images rs ok.1)

module _ (o : Options) (fd : ℤ) (rs : List TrRecord) (m : List ℕ) (env : Env Sys)
    (w : World Sys (Unit {0})) where
  abbrev size : ℕ
  size = length (images rs)

  -- after the `read`
  abbrev was_read : World Sys (Unit {0})
  was_read = record w {
    trace = (read fd chunk_size, env.reply (read fd chunk_size) w.trace) ∷ w.trace;
  }

  chunk_records :
      AllReplayable rs
      → replay_chunk (suc size) o (images rs ++ drop size m) size 0 (pos 0) none env was_read
        ≡ replay_records o rs (pos 0) none env was_read
  chunk_records ok =
      replay_chunk-records rs o [] (drop size m) (suc size) size (pos 0) none env was_read ok
        (omega (arith, length-images rs ok)) (omega arith)

  -- If the log is not empty and fits the buffer of one chunk, and `read` hands it over whole, the loop
  -- over the chunks does what its records say and ends with their last `err`.
  pub replay_chunks-records :
      (fuel : ℕ)
      → AllReplayable rs
      → 1 ≤ size
      → size ≤ length m
      → env.reply (read fd chunk_size) w.trace ≡ pos size
      → env.bytes (read fd chunk_size) w.trace ≡ images rs
      → replay_chunks (suc (suc fuel)) o fd size 0 m (pos 0) none env w
        ≡ replay_all o rs env was_read
  unfolding replay_chunks filled_buffer after_chunk
  replay_chunks-records fuel ok some_bytes room count bytes =
      let inside : ltb 0 size ≡ true = lt→ltb _ _ (omega arith) in
      let past : ltb (0 + size) size ≡ false = ground arith in
      let fits : leb size (length m) ≡ true = le→leb _ _ room in
      let chunk = chunk_records ok in
      elim (Option-cases (replay_records o rs (pos 0) none env was_read)) [
        | inl e ↦ ground arith
        | inr (((go err, a), w1), e) ↦ ground arith
        | inr (((out err, a), w1), e) ↦ ground arith
      ]
