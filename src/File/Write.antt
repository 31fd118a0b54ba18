-- ===== src/File/Write.antt =====
-- What the handler of `write` does with the log, whatever the lower file system answers.
use trace_file_system.Prelude.{
  ℕ, ℤ, pos, ◌≡◌, refl, ◌+◌, ◌%◌, ◌^◌, ◌≤◌, some, to_int, to_int-IsInt, arith, List, bit_and,
  length, ◌∷◌, not, is_neg, if◌then◌else◌,
}
use trace_file_system.Exec.{Env, World}
use trace_file_system.Record.{Chars, tr_fwrite}
use trace_file_system.Kernel.{
  Ptr, FileInfo, Trfs, Call, d_inode, vfs_write, f_inode, fsstack_copy_inode_size,
  fsstack_copy_attr_times,
}
use trace_file_system.Dump.{memory, log_operation}
use trace_file_system.Dump.Fill.{fwrite}
use trace_file_system.Dump.Log.{LogIs, log_file}
use trace_file_system.Dump.Switch.{IsHealthy}
use trace_file_system.Lookup.Interpose.{SameLog}
use trace_file_system.Inode.Traced.{Traced, InSuperAt, Handled-Traced, Handled}
use trace_file_system.File.{OpenFile, copy_attrs, trfs_write}

module _ (env : Env Call) (info : FileInfo) (o : OpenFile) (buf : Chars) (count ppos : ℤ) where
  -- the lower file system's write and the attributes behind it, as the handler makes them
  abbrev pub written : World Call Trfs → World Call Trfs
  written w =
      let c = vfs_write info.lower_file buf.block count ppos in
      let t1 = (c, env.reply c w.trace) ∷ w.trace in
      let inode = env.reply (d_inode o.f_dentry) t1 in
      let lower = env.reply (f_inode info.lower_file) t1 in
      let size = fsstack_copy_inode_size inode lower in
      let t2 = (size, env.reply size t1) ∷ t1 in
      let times = fsstack_copy_attr_times inode lower in
      record w {
        trace =
            if not (is_neg (to_int (env.reply c w.trace)))
            then (times, env.reply times t2) ∷ t2
            else t1;
      }

  abbrev pub result : World Call Trfs → ℤ
  result w = to_int (env.reply (vfs_write info.lower_file buf.block count ppos) w.trace)

  pub written-SameLog : (f : Ptr) (w : World Call Trfs) → SameLog f w (written w)
  unfolding log_file
  written-SameLog f w = ground arith

  pub write_runs :
      (sb : Ptr) (w w2 : World Call Trfs)
      → InSuperAt env sb o.f_dentry (written w)
      → w.vars.private_data o.file ≡ some info
      → log_operation sb tr_fwrite o.f_dentry o.f_flags
          (pos 0)
          (result w)
          (memory buf)
          count
          env
          (written w)
        ≡ some (tt, w2)
      → trfs_write o (some buf) count ppos env w ≡ some (result w, w2)
  unfolding trfs_write copy_attrs
  write_runs sb w w2 super at k = ground (arith, super.inode, super.super)

-- `trfs_write` comes to an end in the code that logs it.
pub trfs_write-Handled :
    (env : Env Call) (sb f : Ptr)
    → (o : OpenFile) (info : FileInfo) (buf : Chars) (ppos : ℤ) (w : World Call Trfs)
    → InSuperAt env sb o.f_dentry (written env info o buf (pos (length buf.chars)) ppos w)
    → w.vars.private_data o.file ≡ some info
    → Handled env
        (trfs_write o (some buf) (pos (length buf.chars)) ppos env w)
        sb
        f
        fwrite
        o.f_dentry
        o.f_flags
        (pos 0)
        (memory buf)
        w
trfs_write-Handled env sb f o info buf ppos w super opened =
    let count = pos (length buf.chars) in
    record {
      err = result env info o buf count ppos w;
      w1 = written env info o buf count ppos w;
      finish = λ v. v;
      same = written-SameLog env info o buf count ppos f w;
      int = to_int-IsInt _;
      fin = λ v. (refl, refl, refl);
      runs = λ w2. write_runs env info o buf count ppos sb w w2 super opened;
    }

-- With the mask's bit for it set and a healthy kernel, a write of 1 to 28640 bytes comes to an end
-- if the dentry has an inode of the mount behind the lower write, whatever the lower file system
-- answers, and one record stands behind what was in the log: it describes the operation, with the
-- result that the handler returns, the flags and the path of the file.
pub trfs_write-Traced :
    (env : Env Call) (sb f : Ptr) (umask : ℕ) (file : List ℕ)
    → IsHealthy env sb
    → (o : OpenFile) (info : FileInfo) (buf : Chars) (ppos : ℤ) (w : World Call Trfs)
    → InSuperAt env sb o.f_dentry (written env info o buf (pos (length buf.chars)) ppos w)
    → 1 ≤ length buf.chars
    → length buf.chars ≤ 28640
    → LogIs sb f umask file w
    → bit_and tr_fwrite umask ≡ tr_fwrite
    → w.vars.private_data o.file ≡ some info
    → Traced env
        (trfs_write o (some buf) (pos (length buf.chars)) ppos env w)
        sb
        f
        umask
        file
        fwrite
        o.f_dentry
        o.f_flags
        (pos 0)
        (memory buf)
        ((w.vars.trecord_id + 1) % 2 ^ 32)
trfs_write-Traced env sb f umask file healthy o info buf ppos w super lo hi at on opened =
    Handled-Traced env sb f fwrite o.f_dentry o.f_flags (pos 0) (memory buf)
      (trfs_write o (some buf) (pos (length buf.chars)) ppos env w) w umask file healthy (lo, hi) at
      on (trfs_write-Handled env sb f o info buf ppos w super opened)
