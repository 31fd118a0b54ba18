-- ===== src/File/Empty.antt =====
-- A write of no bytes, and of any number whose `short` is 0, runs into the `BUG_ON` of
-- `append_record`.
use trace_file_system.Prelude.{
  ◌+◌, ◌%◌, ◌^◌, ℤ, pos, ◌≡◌, refl, ◌==ℤ◌, false, some, none, arith, to_short, bit_and,
  Option-cases, inl, inr, pos_part, take, ◌-ℤ◌,
}
use trace_file_system.Exec.{Trace, Env, World}
use trace_file_system.Record.{TrRecord, Chars, tr_fwrite}
use trace_file_system.Kernel.{
  Ptr, null, SbInfo, FileInfo, Trfs, Call, get_free_page, dentry_path_raw, free_page, mutex_lock,
}
use trace_file_system.Dump.{
  Filled, filled, memory, start, sized_aux, page_bytes, with_memory, fill_by_type, fill_pages,
  fill_record, write_log, append_aux, append_record, append_if_filled, log_operation,
}
use trace_file_system.Inode.Traced.{InSuperAt, called}
use trace_file_system.File.{OpenFile, copy_attrs, trfs_write}
use trace_file_system.File.Write.{written, result}

module _ (env : Env Call) where
  append_record-stops :
      (w : World Call Trfs) (sb : Ptr) (r : TrRecord) (buf : Chars)
      → r.aux_len ≡ pos 0
      → r.aux ≡ some buf
      → append_record sb r env w ≡ none
  unfolding append_record append_aux
  append_record-stops w sb r buf len aux =
      let common = to_short (r.rec_size -ℤ r.path_len -ℤ r.aux_len) in
      let count = r.rec_size -ℤ r.aux_len in
      let w1 = called env (free_page r.pathname.block) w in
      let bytes = take (pos_part count) (page_bytes r common) in
      elim (Option-cases (write_log sb bytes count env w1)) [
        | inl e ↦ ground arith
        | inr ((ret, w2), e) ↦ ground arith
      ]

  -- the record that the `switch` leaves
  abbrev emptied : TrRecord → Chars → TrRecord
  emptied r buf = sized_aux (record r { aux = some buf; aux_len = pos 0 })

  module _ (d : Ptr) (flags err : ℤ) (buf : Chars) (count : ℤ)
      (empty : to_short count ≡ pos 0) where
    switch_empties :
        (w : World Call Trfs) (page : Ptr) (r : TrRecord)
        → fill_by_type tr_fwrite (memory buf) count page r env w ≡ some (emptied r buf, w)
    unfolding fill_by_type with_memory
    switch_empties w page r = rw empty refl

    fill_pages_empties :
        (w : World Call Trfs) (p q : Ptr) {x : Filled} {w' : World Call Trfs}
        → fill_pages tr_fwrite d flags (pos 0) err (memory buf) count p q env w ≡ some (x, w')
        → (r : TrRecord) × (x ≡ filled (emptied r buf))
    unfolding fill_pages
    fill_pages_empties w p q h =
        let id = (w.vars.trecord_id + 1) % 2 ^ 32 in
        let v : World Call Trfs = record w { vars = record w.vars { trecord_id = id } } in
        let w1 = called env (dentry_path_raw d p) v in
        let path : Chars = record { block = p; chars = env.bytes (dentry_path_raw d p) w.trace } in
        let r0 = start tr_fwrite flags (pos 0) err id path in
        (r0, ground (arith, switch_empties w1 q r0))

    fill_record_empties :
        ((t : Trace Call) → (env.reply get_free_page t ==ℤ null) ≡ false)
        → (w : World Call Trfs) {x : Filled} {w' : World Call Trfs}
        → fill_record tr_fwrite d flags (pos 0) err (memory buf) count env w ≡ some (x, w')
        → (r : TrRecord) × (x ≡ filled (emptied r buf))
    unfolding fill_record
    fill_record_empties page w {x} {w'} h =
        let w1 = called env get_free_page w in
        let w2 = called env get_free_page w1 in
        let p = env.reply get_free_page w.trace in
        let q = env.reply get_free_page w1.trace in
        let filling : fill_pages tr_fwrite d flags (pos 0) err (memory buf) count p q env w2
            ≡ some (x, w') =
          ground (arith, page w.trace, page w1.trace) in
        fill_pages_empties w2 p q filling

    log_operation-stops :
        ((t : Trace Call) → (env.reply get_free_page t ==ℤ null) ≡ false)
        → (w : World Call Trfs) (sb : Ptr) (info : SbInfo) → w.vars.s_fs_info sb ≡ some info
        → bit_and tr_fwrite info.umask ≡ tr_fwrite
        → log_operation sb tr_fwrite d flags (pos 0) err (memory buf) count env w ≡ none
    unfolding log_operation append_if_filled
    log_operation-stops page w sb info at on =
        let w1 = called env (mutex_lock sb) w in
        elim (Option-cases (fill_record tr_fwrite d flags (pos 0) err (memory buf) count env w1)) [
          | inl e ↦ ground arith
          | inr ((x, w2), e) ↦
              let (r, is) = fill_record_empties page w1 e in
              ground (arith, append_record-stops w2 sb (emptied r buf) buf refl refl)
        ]

-- With the mask's bit for it set and memory to be had, a write from a buffer, not from NULL,
-- through a file that has its private data and whose dentry has an inode of the mount behind the
-- lower write, whose number of bytes is 0 or another multiple of 65536, does not come to an end:
-- behind the write of the lower file system, whatever that answers, the code that logs stops the
-- kernel.
pub trfs_write-stops :
    (env : Env Call) (sb : Ptr) (o : OpenFile) (buf : Chars) (count ppos : ℤ) (w : World Call Trfs)
    (file : FileInfo) (info : SbInfo)
    → ((t : Trace Call) → (env.reply get_free_page t ==ℤ null) ≡ false)
    → InSuperAt env sb o.f_dentry (written env file o buf count ppos w)
    → w.vars.private_data o.file ≡ some file
    → w.vars.s_fs_info sb ≡ some info
    → bit_and tr_fwrite info.umask ≡ tr_fwrite
    → to_short count ≡ pos 0
    → trfs_write o (some buf) count ppos env w ≡ none
unfolding trfs_write copy_attrs
trfs_write-stops env sb o buf count ppos w file info page super opened at on empty =
    let w1 = written env file o buf count ppos w in
    let err = result env file o buf count ppos w in
    ground (
      arith,
      super.inode,
      super.super,
      log_operation-stops env o.f_dentry o.f_flags err buf count empty page w1 sb info at on,
    )
