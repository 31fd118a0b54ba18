-- ===== src/Replay/Status.antt =====
-- `replayed_status`: the result of a replayed call is reported, and in strict mode a failure ends
-- the replay.
use trace_file_system.Prelude.{ℤ, pos, negsuc, Bool, true, false, not, ◌&&◌, is_neg, if◌then◌else◌}
use trace_file_system.Exec.{pure, call_, ◌>>◌}
use trace_file_system.Record.Layout.{Fields}
use trace_file_system.Replay.{SysName, Process, report, print_record}

-- `err >= 0 && record->result >= 0`
abbrev pub succeeded : Fields → ℤ → Bool
succeeded r err = not (is_neg err) && not (is_neg r.result)

pub replayed_status : Fields → SysName → ℤ → Bool → Process ℤ
replayed_status r syscall err strict =
    if strict
    then (if succeeded r err
        then (do
          call_ (report true r.rec_id)
          call_ (print_record syscall r.rec_id err false)
          pure (pos 0))
        else do
          call_ (report false r.rec_id)
          call_ (print_record syscall r.rec_id err false)
          pure (negsuc 0))
    else if succeeded r err
    then (do
      call_ (report true r.rec_id)
      call_ (print_record syscall r.rec_id err false)
      pure (pos 0))
    else do
      call_ (report false r.rec_id)
      call_ (print_record syscall r.rec_id err false)
      pure (pos 0)
