-- ===== src/File/Overflow.antt =====
-- A write that is longer than a record can say.
use trace_file_system.Prelude.{
  ℕ, ◌+◌, ◌%◌, ◌^◌, ◌≤◌, ℤ, pos, ◌≡◌, refl, ◌==ℤ◌, false, some, List, ◌∷◌, ◌++◌, arith, to_short,
  length, ap, ◌∙◌, bit_and, is_neg, ◌+ℤ◌, ◌-ℤ◌, to_short_of_IsShort,
}
use trace_file_system.Exec.{Trace, Env, World}
use trace_file_system.Record.{TrRecord, Chars, tr_fwrite}
use trace_file_system.Kernel.{
  Ptr, null, FileInfo, Trfs, Call, get_free_page, dentry_path_raw, mutex_lock, mutex_unlock,
}
use trace_file_system.Dump.{
  memory, start, filled, fill_by_type, fill_record, append_record, append_if_filled, log_operation,
}
use trace_file_system.Dump.Fill.{with_aux, path_at, switch_at, page_trace}
use trace_file_system.Dump.Log.{LogIs, log_file}
use trace_file_system.Dump.Append.{IsTrfs}
use trace_file_system.Dump.Operation.{mutex-LogIs}
use trace_file_system.Dump.Overflow.{Refuses, Overflows, append_record-Overflows}
use trace_file_system.Inode.Traced.{InSuperAt, called}
use trace_file_system.File.{OpenFile, trfs_write}
use trace_file_system.File.Write.{written, result, written-SameLog, write_runs}

-- Memory is to be had, and paths are found and have at most 4095 characters.
pub record HasPaths (env : Env Call) : Type 0 where
  pub page : (t : Trace Call) → (env.reply get_free_page t ==ℤ null) ≡ false
  pub path : (d p : Ptr) (t : Trace Call) → is_neg (env.reply (dentry_path_raw d p) t) ≡ false
  pub path_max : (d p : Ptr) (t : Trace Call) → length (env.bytes (dentry_path_raw d p) t) ≤ 4095

module _ (env : Env Call) (paths : HasPaths env) (d : Ptr) (flags err : ℤ) (buf : Chars)
    (max : length buf.chars ≤ 32767) where
  -- the record that is filled in
  abbrev huge : World Call Trfs → TrRecord
  huge w =
      with_aux
        (start tr_fwrite flags (pos 0) err ((w.vars.trecord_id + 1) % 2 ^ 32) (path_at env w d))
        (some buf)

  fill_record-huge :
      (w : World Call Trfs)
      → fill_record tr_fwrite d flags (pos 0) err (memory buf) (pos (length buf.chars)) env w
        ≡ some (filled (huge w), switch_at env w d)
  unfolding fill_record fill_by_type
  fill_record-huge w = ground (
    arith,
    paths.page w.trace,
    paths.page ((get_free_page, env.reply get_free_page w.trace) ∷ w.trace),
    paths.path d (env.reply get_free_page w.trace) (page_trace env w d),
  )

  huge-Overflows :
      (w : World Call Trfs)
      → 32768 ≤ 32 + length (path_at env w d).chars + length buf.chars
      → Overflows (huge w) buf
  unfolding ◌+ℤ◌ ◌-ℤ◌
  huge-Overflows w long =
      let path_max : length (path_at env w d).chars ≤ 4095 = paths.path_max d _ _ in
      let path_len : to_short (pos (length (path_at env w d).chars))
          ≡ pos (length (path_at env w d).chars) =
        to_short_of_IsShort _ (omega arith) in
      let aux_len : to_short (pos (length buf.chars)) ≡ pos (length buf.chars) =
        to_short_of_IsShort _ (omega arith) in
      record {
        type = refl;
        aux = refl;
        path_len = path_len;
        aux_len = aux_len;
        rec_size = rw (path_len, aux_len) (ap to_short (ground arith));
        path_max = path_max;
        buf_max = max;
        long = long;
      }

  log_operation_runs :
      (w w2 : World Call Trfs) (sb f : Ptr) (umask : ℕ) (file : List ℕ) (ret : ℤ)
      → LogIs sb f umask file w
      → bit_and tr_fwrite umask ≡ tr_fwrite
      → append_record sb
          (huge (called env (mutex_lock sb) w))
          env
          (switch_at env (called env (mutex_lock sb) w) d)
        ≡ some (ret, w2)
      → log_operation sb tr_fwrite d flags (pos 0) err (memory buf) (pos (length buf.chars)) env w
        ≡ some (tt, called env (mutex_unlock sb) w2)
  unfolding log_operation append_if_filled
  log_operation_runs w w2 sb f umask file ret at on h =
      ground (arith, at.mounted, at.mask, fill_record-huge (called env (mutex_lock sb) w))

  log_operation-overflows :
      (w : World Call Trfs) (sb f : Ptr) (umask : ℕ) (file : List ℕ)
      → Refuses env
      → IsTrfs env sb
      → ((p : Ptr) (t : Trace Call)
          → 32768 ≤ 32 + length (env.bytes (dentry_path_raw d p) t) + length buf.chars)
      → LogIs sb f umask file w
      → bit_and tr_fwrite umask ≡ tr_fwrite
      → (w' : World Call Trfs) × (log_operation sb tr_fwrite d flags
            (pos 0)
            err
            (memory buf)
            (pos (length buf.chars))
            env
            w
          ≡ some (tt, w'))
        × LogIs sb f umask (file ++ buf.chars) w'
  unfolding log_file
  log_operation-overflows w sb f umask file refuses trfs long at on =
      let locked = called env (mutex_lock sb) w in
      let at1 = (mutex-LogIs sb f umask file w sb (env.reply (mutex_lock sb) w.trace) at).0 in
      let at2 : LogIs sb f umask file (switch_at env locked d) = record {
        info = at1.info;
        mounted = at1.mounted;
        filep = at1.filep;
        mask = at1.mask;
        f_pos = at1.f_pos;
        content = at1.content;
      } in
      let led =
        append_record-Overflows env sb f umask file refuses (switch_at env locked d) (huge locked)
          buf trfs (huge-Overflows locked (long _ _)) at2 in
      (
        called env (mutex_unlock sb) led.after,
        log_operation_runs w led.after sb f umask file led.ret at on led.runs,
        (mutex-LogIs sb f umask (file ++ buf.chars) led.after sb
            (env.reply (mutex_unlock sb) led.after.trace) led.at).1,
      )

-- A write, to a file whose dentry has an inode of the mount behind the lower write, of at most
-- 32767 bytes that are with the header and the path more than 32767, on a trfs mount whose mask has
-- the bit of a write and whose disk refuses a write of a negative size: the handler comes to an end
-- and returns what the lower file system answered, and behind what was in the log stand the data
-- alone, without a header and without the path.
pub trfs_write-overflows :
    (env : Env Call) (sb f : Ptr) (umask : ℕ) (file : List ℕ) (o : OpenFile) (info : FileInfo)
    (buf : Chars) (ppos : ℤ) (w : World Call Trfs)
    → Refuses env
    → HasPaths env
    → IsTrfs env sb
    → InSuperAt env sb o.f_dentry (written env info o buf (pos (length buf.chars)) ppos w)
    → length buf.chars ≤ 32767
    → ((p : Ptr) (t : Trace Call)
        → 32768 ≤ 32 + length (env.bytes (dentry_path_raw o.f_dentry p) t) + length buf.chars)
    → LogIs sb f umask file w
    → bit_and tr_fwrite umask ≡ tr_fwrite
    → w.vars.private_data o.file ≡ some info
    → (w' : World Call Trfs) × (trfs_write o (some buf) (pos (length buf.chars)) ppos env w
        ≡ some (result env info o buf (pos (length buf.chars)) ppos w, w'))
      × LogIs sb f umask (file ++ buf.chars) w'
trfs_write-overflows env sb f umask file o info buf ppos w refuses paths trfs super max long at on
      opened =
    let count = pos (length buf.chars) in
    let w1 = written env info o buf count ppos w in
    let err = result env info o buf count ppos w in
    let (same, super_same, id) = written-SameLog env info o buf count ppos f w in
    let at1 : LogIs sb f umask file w1 = record {
      info = at.info;
      mounted = at.mounted;
      filep = at.filep;
      mask = at.mask;
      f_pos = at.f_pos;
      content = same ∙ at.content;
    } in
    let (w2, runs, log) =
      log_operation-overflows env paths o.f_dentry o.f_flags err buf max w1 sb f umask file refuses
        trfs long at1 on in
    (w2, write_runs env info o buf count ppos sb w w2 super opened runs, log)
