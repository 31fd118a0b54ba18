-- ===== src/Tests/Tools.antt =====
-- Runs of the record's layout, of treplay and of trctl.
use trace_file_system.Prelude.{
  List, zero, suc, ℤ, ℕ, ◌≡◌, refl, pos, none, some, [], ◌∷◌, ◌++◌, arith, length, true, ◌+◌, ◌↔◌,
  bytes32, bytes16,
}
use trace_file_system.Record.{header}
use trace_file_system.Record.Layout.{image}
use trace_file_system.Record.Shape.{IsRecord, IsSized}
use trace_file_system.Replay.Chunk.{replay_chunk}
use trace_file_system.Replay.RoundTrip.{IsReplayable, images, replay_records}
use trace_file_system.Exec.{Trace, Env}
use trace_file_system.Prelude.{ap, sym}
use trace_file_system.Replay.{Sys, stat, st_size, read}
use trace_file_system.Replay.Main.{replay_main}
use trace_file_system.Replay.Program.{HoldsLog, replay_log, replay_main-records}
use trace_file_system.Replay.Records.{replay_chunk-records}
use trace_file_system.Ctl.{parse_bitmap, isvalidhex}
use trace_file_system.Ctl.Valid.{IsHex, isvalidhex_iff}
use trace_file_system.Ctl.Print.{print_bitmap, parse_bitmap-print_bitmap}
use trace_file_system.Tests.{unlink_record, system, started, strict_options}

unlink_record-IsRecord : IsRecord unlink_record
unlink_record-IsRecord = record {
  rec_id = omega arith;
  rec_flags = omega arith;
  perm_flags = omega arith;
  type = omega arith;
  result = omega arith;
  rec_size = omega arith;
  path_len = omega arith;
  aux_len = omega arith;
}

unlink_record-IsSized : IsSized unlink_record
unlink_record-IsSized = record { path_len = refl; aux_len = refl; rec_size = refl }

unlink_record-IsReplayable : IsReplayable unlink_record
unlink_record-IsReplayable = record {
  ranges = unlink_record-IsRecord;
  sized = unlink_record-IsSized;
  path_text = (refl, (refl, tt));
  path_max = omega arith;
  aux_text = λ n. (tt, omega arith);
  target = λ s. ground arith;
}

two_images : 68 ≡ length {A = ℕ} [] + length (images (unlink_record ∷ unlink_record ∷ []))
unfolding image header bytes32 bytes16
two_images = refl

replay_chunk-records_example :
    replay_chunk 3 strict_options
      ([] ++ (images (unlink_record ∷ unlink_record ∷ []) ++ (2 ∷ [])))
      68
      0
      (pos 0)
      none
      system
      started
    ≡ replay_records strict_options (unlink_record ∷ unlink_record ∷ []) (pos 0) none system started
replay_chunk-records_example =
    replay_chunk-records (unlink_record ∷ unlink_record ∷ []) strict_options [] (2 ∷ []) 3 68
      (pos 0) none system started (unlink_record-IsReplayable, (unlink_record-IsReplayable, tt))
      (omega arith) two_images

isvalidhex_iff_example :
    (isvalidhex (b'0' ∷ b'x' ∷ b'f' ∷ []) ≡ true) ↔ IsHex (b'0' ∷ b'x' ∷ b'f' ∷ [])
isvalidhex_iff_example = isvalidhex_iff (b'0' ∷ b'x' ∷ b'f' ∷ [])

parse_bitmap-print_bitmap_example : parse_bitmap (print_bitmap 255) ≡ some 255
parse_bitmap-print_bitmap_example = parse_bitmap-print_bitmap 255 (omega arith)

-- treplay finds a log of one record.
abbrev reader_reply : Sys → Trace Sys → ℤ
reader_reply (stat s) t = pos 0
reader_reply (st_size s) t = pos 34
reader_reply (read fd n) t = pos 34
reader_reply _ t = pos 3

abbrev reader : Env Sys
reader = record { reply = reader_reply; bytes = λ c t. images (unlink_record ∷ []) }

one_image : length (images (unlink_record ∷ [])) ≡ 34
unfolding image header bytes32 bytes16
one_image = refl

log_file_held : HoldsLog reader (b'l' ∷ []) 3 (images (unlink_record ∷ [])) started
log_file_held = record {
  there = refl;
  size = λ t. ap pos (sym one_image);
  opens = λ t. refl;
  count = ap pos (sym one_image);
  content = refl;
}

-- a fresh buffer
pub zeros : ℕ → List ℕ
zeros zero = []
zeros (suc n) = 0 ∷ zeros n

pub length-zeros : (n : ℕ) → length (zeros n) ≡ n
unfolding zeros
length-zeros zero = refl
length-zeros (suc n) = ap suc (length-zeros n)

replay_main-records_example :
    replay_main 2 strict_options (b'l' ∷ []) zeros reader started
    ≡ replay_log strict_options (b'l' ∷ []) (pos 3) (unlink_record ∷ []) reader started
replay_main-records_example =
    replay_main-records reader started strict_options (b'l' ∷ []) zeros 3 0 (unlink_record ∷ [])
      length-zeros (unlink_record-IsReplayable, tt) (omega (arith, one_image))
      (omega (arith, one_image)) log_file_held
