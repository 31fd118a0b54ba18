-- ===== src/Dump/Overflow.antt =====
-- A record whose size does not fit the `short` that holds it.
use trace_file_system.Prelude.{
  ℕ, ◌+◌, ◌≤◌, ℤ, pos, negsuc, ◌≡◌, refl, ==ℤ_self, some, List, ◌++◌, arith, to_short, neg_part,
  take, length, take_all, drop_all, append-nil, ◌-ℤ◌, is_neg, true, ◌-◌,
}
use trace_file_system.Exec.{Trace, Env, World, ◌>>=◌}
use trace_file_system.Record.{TrRecord, Chars, tr_fwrite}
use trace_file_system.Kernel.{Ptr, Trfs, Call, free_page, kernel_write}
use trace_file_system.Dump.{write_log, append_aux, append_record, page_bytes}
use trace_file_system.Dump.Log.{LogIs, log_file, pwrite, wrote, wrote-LogIs}
use trace_file_system.Dump.Append.{IsTrfs, Leads, free_page-LogIs}
use trace_file_system.Inode.Traced.{called}

-- The disk takes every write of a size that is not negative whole, and answers one of a negative
-- size with an error number.
pub record Refuses (env : Env Call) : Type 0 where
  pub takes :
      (f : Ptr) (bytes : List ℕ) (n : ℕ) (at : ℤ) (t : Trace Call)
      → env.reply (kernel_write f bytes (pos n) at) t ≡ pos n
  pub refuses :
      (f : Ptr) (bytes : List ℕ) (n : ℕ) (at : ℤ) (t : Trace Call)
      → (is_neg (env.reply (kernel_write f bytes (negsuc n) at) t) ≡ true)
        × (neg_part (env.reply (kernel_write f bytes (negsuc n) at) t) ≤ 4095)

-- The record of a write of `buf`, where all of it together is longer than a `short` can say.
pub record Overflows (r : TrRecord) (buf : Chars) : Type 0 where
  pub type : r.type ≡ tr_fwrite
  pub aux : r.aux ≡ some buf
  pub path_len : r.path_len ≡ pos (length r.pathname.chars)
  pub aux_len : r.aux_len ≡ pos (length buf.chars)
  pub rec_size : r.rec_size ≡ to_short (pos (32 + length r.pathname.chars + length buf.chars))
  pub path_max : length r.pathname.chars ≤ 4095
  pub buf_max : length buf.chars ≤ 32767
  pub long : 32768 ≤ 32 + length r.pathname.chars + length buf.chars

-- The size that the first write asks for.
abbrev asked : TrRecord → ℤ
asked r = negsuc (65503 - length r.pathname.chars)

common_size :
    (r : TrRecord) (buf : Chars)
    → Overflows r buf
    → to_short (r.rec_size -ℤ r.path_len -ℤ r.aux_len) ≡ pos 32
unfolding to_short ◌-ℤ◌
common_size r buf o = ground arith

front_size : (r : TrRecord) (buf : Chars) → Overflows r buf → r.rec_size -ℤ r.aux_len ≡ asked r
unfolding to_short ◌-ℤ◌
front_size r buf o = ground arith

pwrite-refused :
    (file bytes : List ℕ) (x : ℤ) → is_neg x ≡ true → pwrite file bytes (pos (length file)) x ≡ file
unfolding pwrite
pwrite-refused file bytes (pos n) h = absurd (ground arith)
pwrite-refused file bytes (negsuc n) h =
    rw
      (
        take_all (length file) file (omega arith),
        drop_all (length file + 0) file (omega arith),
        append-nil,
      )
      refl

module _ (env : Env Call) (sb f : Ptr) (umask : ℕ) (file : List ℕ) (refuses : Refuses env) where
  -- A write of a negative size leaves the log as it was.
  write_log-refused :
      (w : World Call Trfs) (bytes : List ℕ) (n : ℕ)
      → 4095 ≤ n
      → (at : LogIs sb f umask file w)
      → write_log sb bytes (negsuc n) env w
        ≡ some (
          negsuc 0,
          called env (kernel_write at.info.tr_lower_filep bytes (negsuc n) at.info.f_pos) w,
        )
  unfolding write_log
  write_log-refused w bytes n big at =
      ground (arith, refuses.refuses at.info.tr_lower_filep bytes n at.info.f_pos w.trace)

  refused-LogIs :
      (w : World Call Trfs) (bytes : List ℕ) (n : ℕ) (at : LogIs sb f umask file w)
      → LogIs sb f umask file
          (called env (kernel_write at.info.tr_lower_filep bytes (negsuc n) at.info.f_pos) w)
  unfolding log_file
  refused-LogIs w bytes n at = record {
    info = at.info;
    mounted = at.mounted;
    filep = at.filep;
    mask = at.mask;
    f_pos = at.f_pos;
    content =
        rw (at.filep, ==ℤ_self f, at.content, at.f_pos)
          (pwrite-refused file bytes _ (refuses.refuses f bytes n (pos (length file)) w.trace).0);
  }

  append_aux-written :
      (w : World Call Trfs) (r : TrRecord) (buf : Chars) (ret : ℤ)
      → Overflows r buf
      → (at : LogIs sb f umask file w)
      → append_aux sb r ret env w ≡ some (pos (length buf.chars), wrote sb at.info buf.chars w)
  unfolding append_aux write_log
  append_aux-written w r buf ret o at = ground (
    arith,
    refuses.takes at.info.tr_lower_filep buf.chars (length buf.chars) at.info.f_pos w.trace,
    ==ℤ_self (pos (length buf.chars)),
    take_all (length buf.chars) buf.chars (omega arith),
  )

  -- On a trfs mount, `append_record` of such a record comes to an end: the log is what it was with
  -- the data behind it, and neither the header nor the path.
  pub append_record-Overflows :
      (w : World Call Trfs) (r : TrRecord) (buf : Chars)
      → IsTrfs env sb
      → Overflows r buf
      → LogIs sb f umask file w
      → Leads (append_record sb r env w) sb f umask (file ++ buf.chars) w.vars.trecord_id
  unfolding append_record
  append_record-Overflows w r buf trfs o at =
      let n : ℕ = 65503 - length r.pathname.chars in
      let bytes = take 0 (page_bytes r (pos 32)) in
      let w1 = called env (free_page r.pathname.block) w in
      let at1 = free_page-LogIs sb f umask file w r.pathname.block _ at in
      let w2 =
        called env (kernel_write at1.info.tr_lower_filep bytes (negsuc n) at1.info.f_pos) w1 in
      let at2 = refused-LogIs w1 bytes n at1 in
      let o_max = o.path_max in
      record {
        ret = pos (length buf.chars);
        after = wrote sb at2.info buf.chars w2;
        runs =
            rw
              (
                trfs w.trace,
                common_size r buf o,
                front_size r buf o,
                write_log-refused w1 bytes n (omega arith) at1,
                ◌>>=◌,
              )
              (append_aux-written w2 r buf (negsuc 0) o at2);
        at = wrote-LogIs env w2 sb f umask file buf.chars at2;
        counter = refl;
      }
