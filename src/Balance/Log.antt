-- ===== src/Balance/Log.antt =====
-- The code that logs gives back the lock of the mount, on each branch.
use trace_file_system.Prelude.{
  ℕ, ℤ, ◌≡◌, some, List, arith, Option-cases, inl, inr, bit_and, ◌+◌, ◌%◌, ◌^◌, ◌-ℤ◌, take,
  pos_part, to_short,
}
use trace_file_system.Exec.{Env, World}
use trace_file_system.Record.{TrRecord, Chars, chars_of}
use trace_file_system.Kernel.{
  Ptr, Trfs, Call, get_free_page, dentry_path_raw, mutex_lock, free_page,
}
use trace_file_system.Dump.{
  Aux, Filled, failed, filled, start, page_bytes, fill_by_type, with_memory, with_path, fill_pages,
  fill_record, write_log, append_aux, append_record, append_if_filled, log_operation,
}
use trace_file_system.Inode.Traced.{called}
use trace_file_system.Balance.{Tidy, taken, given}

module _ (env : Env Call) (i : Ptr) where
  fill_by_type-Tidy :
      (w : World Call Trfs) (type : ℕ) (aux : Aux) (aux_len : ℤ) (page : Ptr) (r : TrRecord)
      {r' : TrRecord} {w' : World Call Trfs}
      → fill_by_type type aux aux_len page r env w ≡ some (r', w')
      → Tidy i w w'
  unfolding fill_by_type with_memory with_path taken given
  fill_by_type-Tidy w type aux aux_len page r h = ground arith

  fill_pages-Tidy :
      (w : World Call Trfs) (type : ℕ) (d : Ptr) (flags perm_flags err : ℤ) (aux : Aux)
      (aux_len : ℤ) (p q : Ptr) {r : Filled} {w' : World Call Trfs}
      → fill_pages type d flags perm_flags err aux aux_len p q env w ≡ some (r, w')
      → Tidy i w w'
  unfolding fill_pages taken given
  fill_pages-Tidy w type d flags perm_flags err aux aux_len p q h =
      let id = (w.vars.trecord_id + 1) % 2 ^ 32 in
      let v : World Call Trfs = record w { vars = record w.vars { trecord_id = id } } in
      let w1 = called env (dentry_path_raw d p) v in
      let path : Chars = record { block = p; chars = env.bytes (dentry_path_raw d p) w.trace } in
      let r0 = start type flags perm_flags err id path in
      elim (Option-cases (fill_by_type type aux aux_len q r0 env w1)) [
        | inl e ↦ ground arith
        | inr ((r, w2), e) ↦ ground (arith, fill_by_type-Tidy w1 type aux aux_len q r0 e)
      ]

  fill_record-Tidy :
      (w : World Call Trfs) (type : ℕ) (d : Ptr) (flags perm_flags err : ℤ) (aux : Aux)
      (aux_len : ℤ) {r : Filled} {w' : World Call Trfs}
      → fill_record type d flags perm_flags err aux aux_len env w ≡ some (r, w')
      → Tidy i w w'
  unfolding fill_record taken given
  fill_record-Tidy w type d flags perm_flags err aux aux_len h =
      let w1 = called env get_free_page w in
      let w2 = called env get_free_page w1 in
      let p = env.reply get_free_page w.trace in
      let q = env.reply get_free_page w1.trace in
      elim (Option-cases (fill_pages type d flags perm_flags err aux aux_len p q env w2)) [
        | inl e ↦ ground arith
        | inr ((r, w3), e) ↦
            ground (arith, fill_pages-Tidy w2 type d flags perm_flags err aux aux_len p q e)
      ]

  write_log-Tidy :
      (w : World Call Trfs) (sb : Ptr) (bytes : List ℕ) (count : ℤ) {ret : ℤ} {w' : World Call Trfs}
      → write_log sb bytes count env w ≡ some (ret, w')
      → Tidy i w w'
  unfolding write_log taken given
  write_log-Tidy w sb bytes count h = ground arith

  append_aux-Tidy :
      (w : World Call Trfs) (sb : Ptr) (r : TrRecord) (ret : ℤ) {ret' : ℤ} {w' : World Call Trfs}
      → append_aux sb r ret env w ≡ some (ret', w')
      → Tidy i w w'
  unfolding append_aux taken given
  append_aux-Tidy w sb r ret h =
      let bytes = take (pos_part r.aux_len) (chars_of r.aux) in
      elim (Option-cases (write_log sb bytes r.aux_len env w)) [
        | inl e ↦ ground arith
        | inr ((ret, w1), e) ↦ ground (arith, write_log-Tidy w sb bytes r.aux_len e)
      ]

  append_record-Tidy :
      (w : World Call Trfs) (sb : Ptr) (r : TrRecord) {ret : ℤ} {w' : World Call Trfs}
      → append_record sb r env w ≡ some (ret, w')
      → Tidy i w w'
  unfolding append_record taken given
  append_record-Tidy w sb r h =
      let common = to_short (r.rec_size -ℤ r.path_len -ℤ r.aux_len) in
      let count = r.rec_size -ℤ r.aux_len in
      let w1 = called env (free_page r.pathname.block) w in
      let bytes = take (pos_part count) (page_bytes r common) in
      elim (Option-cases (write_log sb bytes count env w1)) [
        | inl e ↦ ground arith
        | inr ((ret, w2), e) ↦ elim (Option-cases (append_aux sb r ret env w2)) [
          | inl e1 ↦ ground arith
          | inr ((ret1, w3), e1) ↦
              ground (arith, write_log-Tidy w1 sb bytes count e, append_aux-Tidy w2 sb r ret e1)
        ]
      ]

  append_if_filled-Tidy :
      (w : World Call Trfs) (sb : Ptr) (r : Filled) {u : Unit {0}} {w' : World Call Trfs}
      → append_if_filled sb r env w ≡ some (u, w')
      → Tidy i w w'
  unfolding append_if_filled
  append_if_filled-Tidy w sb (failed e) h = ground arith
  append_if_filled-Tidy w sb (filled r) h = elim (Option-cases (append_record sb r env w)) [
    | inl e ↦ ground arith
    | inr ((ret, w1), e) ↦ ground (arith, append_record-Tidy w sb r e)
  ]

  pub log_operation-Tidy :
      (w : World Call Trfs) (sb : Ptr) (type : ℕ) (d : Ptr) (flags perm_flags err : ℤ) (aux : Aux)
      (aux_len : ℤ) {u : Unit {0}} {w' : World Call Trfs}
      → log_operation sb type d flags perm_flags err aux aux_len env w ≡ some (u, w')
      → Tidy i w w'
  unfolding log_operation taken given
  log_operation-Tidy w sb type d flags perm_flags err aux aux_len h =
      elim (Option-cases (w.vars.s_fs_info sb)) [
        | inl e ↦ ground arith
        | inr (info, e) ↦
            let w1 = called env (mutex_lock sb) w in
            let type1 = bit_and type info.umask in
            elim (Option-cases (fill_record type1 d flags perm_flags err aux aux_len env w1)) [
              | inl e1 ↦ ground arith
              | inr ((r, w2), e1) ↦ elim (Option-cases (append_if_filled sb r env w2)) [
                | inl e2 ↦ ground arith
                | inr ((u, w3), e2) ↦ ground (
                  arith,
                  fill_record-Tidy w1 type1 d flags perm_flags err aux aux_len e1,
                  append_if_filled-Tidy w2 sb r e2,
                )
              ]
            ]
      ]
