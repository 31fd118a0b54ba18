-- ===== src/Replay/Switch.antt =====
-- The `switch` of the main loop: one record is replayed, or with `noreplay` only printed.
use trace_file_system.Prelude.{
  ℕ, ℤ, pos, ◌==ℤ◌, is_neg, Bool, not, Option, none, some, List, ◌==◌, if◌then◌else◌,
}
use trace_file_system.Exec.{pure, or_crash, call, call_, if_do, ◌>>=◌, ◌>>◌}
use trace_file_system.Record.{
  tr_fcreat, tr_fwrite, tr_dcreat, tr_rename, tr_link, tr_symlink, tr_unlink,
}
use trace_file_system.Record.Layout.{Fields}
use trace_file_system.Replay.{
  SysName, open_name, write_name, mkdir_name, rename_name, link_name, symlink_name, remove_name,
  Process, Options, open_file, close, write, mkdir, rename, link, symlink, remove, print_record,
}
use trace_file_system.Replay.Status.{replayed_status}

-- `break` with the new `err`, or `goto out`.
pub data Next : Type 0 where
  go out : ℤ → Next

-- What the `switch` reads: the record's fields, the resolved path, the auxiliary data, and the
-- resolved second path, which is none while `auxpath` has never been set.
pub record Job : Type 0 where
  pub fields : Fields
  pub pathname : List ℕ
  pub aux : List ℕ
  pub auxpath : Option (List ℕ)

-- the common end of most cases
finish : Fields → SysName → ℤ → Bool → Process Next
finish r syscall err strict = do
  status ← replayed_status r syscall err strict
  pure (if status ==ℤ pos 0 then go err else out err)

-- the common beginning: with `noreplay` the record is printed and `err` stays
abbrev unless_noreplay : Options → ℤ → Fields → SysName → Process Next → Process Next
unless_noreplay o err r syscall m =
    if o.noreplay
    then (do call_ (print_record syscall r.rec_id r.result o.noreplay); pure (go err))
    else m

abbrev o_creat : ℕ
o_creat = 64

replay_fcreat : Options → Job → ℤ → Process Next
replay_fcreat o j err = unless_noreplay o err j.fields open_name do
  rfd ← call (open_file j.pathname o_creat (some j.fields.perm_flags))
  if_do (not (is_neg rfd)) (call_ (close rfd))
  finish j.fields open_name rfd o.strict

-- `goto out` closes the file first, and the end of the case does too.
close_then : ℤ → Next → Process Next
close_then rfd n = do if_do (not (is_neg rfd)) (call_ (close rfd)); pure n

replay_write : Options → Job → ℤ → Process Next
unfolding finish close_then
replay_write o j rfd = do
  err ← call (write rfd j.aux j.fields.aux_len)
  n ← finish j.fields write_name err o.strict
  close_then rfd n

after_open : Options → Job → ℤ → Next → Process Next
unfolding replay_write
after_open o j rfd (go err) = replay_write o j rfd
after_open o j rfd (out err) = close_then rfd (out err)

replay_fwrite : Options → Job → ℤ → Process Next
unfolding after_open
replay_fwrite o j err =
    if o.noreplay
    then (do
      call_ (print_record open_name j.fields.rec_id j.fields.result o.noreplay)
      call_ (print_record write_name j.fields.rec_id j.fields.result o.noreplay)
      pure (go err))
    else do
      rfd ← call (open_file j.pathname j.fields.rec_flags none)
      n ← finish j.fields open_name rfd o.strict
      after_open o j rfd n

replay_dcreat : Options → Job → ℤ → Process Next
unfolding finish
replay_dcreat o j err =
    unless_noreplay o err j.fields mkdir_name
      do err ← call (mkdir j.pathname j.fields.perm_flags); finish j.fields mkdir_name err o.strict

replay_rename : Options → Job → ℤ → Process Next
unfolding finish
replay_rename o j err = unless_noreplay o err j.fields rename_name do
  auxpath ← or_crash j.auxpath
  err ← call (rename j.pathname auxpath)
  finish j.fields rename_name err o.strict

replay_link : Options → Job → ℤ → Process Next
unfolding finish
replay_link o j err = unless_noreplay o err j.fields link_name do
  auxpath ← or_crash j.auxpath
  err ← call (link j.pathname auxpath)
  finish j.fields link_name err o.strict

replay_symlink : Options → Job → ℤ → Process Next
unfolding finish
replay_symlink o j err =
    unless_noreplay o err j.fields symlink_name
      do err ← call (symlink j.aux j.pathname); finish j.fields symlink_name err o.strict

replay_unlink : Options → Job → ℤ → Process Next
unfolding finish
replay_unlink o j err =
    unless_noreplay o err j.fields remove_name
      do err ← call (remove j.pathname); finish j.fields remove_name err o.strict

-- An operation of no known type ends the replay with the `err` of the record before.
unfoldable pub replay_switch : Options → Job → ℤ → Process Next
unfolding replay_fcreat replay_fwrite replay_dcreat replay_rename replay_link replay_symlink
    replay_unlink
replay_switch o j err =
    let type = j.fields.type in
    if type == tr_fcreat
    then replay_fcreat o j err
    else if type == tr_fwrite
    then replay_fwrite o j err
    else if type == tr_dcreat
    then replay_dcreat o j err
    else if type == tr_rename
    then replay_rename o j err
    else if type == tr_link
    then replay_link o j err
    else if type == tr_symlink
    then replay_symlink o j err
    else if type == tr_unlink
    then replay_unlink o j err
    else pure (out err)
