-- ===== src/Dump/Pages.antt =====
-- The pages that the code that logs takes, and those that it gives back.
use trace_file_system.Prelude.{
  ℕ, ◌+◌, ◌%◌, ◌^◌, ℤ, pos, ◌≡◌, refl, ◌==ℤ◌, ◌==◌, Bool, true, false, ◌||◌, some, List, [], ◌∷◌,
  arith, Option-cases, inl, inr, bit_and, ◌-ℤ◌, take, pos_part, to_short, if◌then◌else◌,
}
use trace_file_system.Exec.{Trace, Env, World}
use trace_file_system.Record.{TrRecord, Chars, chars_of, tr_fcreat, tr_dcreat, tr_unlink, tr_fwrite}
use trace_file_system.Kernel.{
  Ptr, null, SbInfo, Trfs, Call, get_free_page, free_page, dentry_path_raw, mutex_lock,
}
use trace_file_system.Dump.{
  Aux, Filled, filled, start, page_bytes, fill_by_type, with_memory, with_path, fill_pages,
  fill_record, write_log, append_aux, append_record, append_if_filled, log_operation,
}
use trace_file_system.Inode.Traced.{called}

unfoldable pub pages_taken : Trace Call → ℕ
pages_taken [] = 0
pages_taken ((get_free_page, p) ∷ t) =
    let rest = pages_taken t in if p ==ℤ null then rest else 1 + rest
pages_taken (_ ∷ t) = pages_taken t

unfoldable pub pages_freed : Trace Call → ℕ
pages_freed [] = 0
pages_freed ((free_page p, r) ∷ t) = 1 + pages_freed t
pages_freed (_ ∷ t) = pages_freed t

-- The operations whose record has no page for auxiliary data.
abbrev pub needs_one_page : ℕ → Bool
needs_one_page type =
    type == tr_fcreat || type == tr_dcreat || type == tr_unlink || type == tr_fwrite

-- The auxiliary data of `r` are no page: there are none, or they are the caller's.
abbrev frees_one : TrRecord → Bool
frees_one r = (r.aux_len ==ℤ pos 0) || (r.type == tr_fwrite)

-- From `w` to `w'` so many pages were taken, and so many given back.
abbrev Pages : ℕ → ℕ → World Call Trfs → World Call Trfs → Type 0
Pages taken freed w w' =
    (pages_taken w'.trace ≡ taken + pages_taken w.trace)
    × (pages_freed w'.trace ≡ freed + pages_freed w.trace)

module _ (env : Env Call) where
  fill_by_type-Pages :
      (w : World Call Trfs) (type : ℕ) (aux : Aux) (aux_len : ℤ) (page : Ptr) (r : TrRecord)
      {r' : TrRecord} {w' : World Call Trfs}
      → needs_one_page type ≡ true
      → r.type ≡ type
      → r.aux_len ≡ pos 0
      → fill_by_type type aux aux_len page r env w ≡ some (r', w')
      → (frees_one r' ≡ true) × Pages 0 0 w w'
  unfolding fill_by_type with_memory with_path pages_taken pages_freed
  fill_by_type-Pages w type aux aux_len page r one is len h = ground arith

  fill_pages-Pages :
      (w : World Call Trfs) (type : ℕ) (d : Ptr) (flags perm_flags err : ℤ) (aux : Aux)
      (aux_len : ℤ) (p q : Ptr) {x : Filled} {w' : World Call Trfs}
      → needs_one_page type ≡ true
      → fill_pages type d flags perm_flags err aux aux_len p q env w ≡ some (x, w')
      → ((r : TrRecord) × (x ≡ filled r) × (frees_one r ≡ true)) × Pages 0 0 w w'
  unfolding fill_pages pages_taken pages_freed
  fill_pages-Pages w type d flags perm_flags err aux aux_len p q {x} {w'} one h =
      let id = (w.vars.trecord_id + 1) % 2 ^ 32 in
      let v : World Call Trfs = record w { vars = record w.vars { trecord_id = id } } in
      let w1 = called env (dentry_path_raw d p) v in
      let path : Chars = record { block = p; chars = env.bytes (dentry_path_raw d p) w.trace } in
      let r0 = start type flags perm_flags err id path in
      elim (Option-cases (fill_by_type type aux aux_len q r0 env w1)) [
        | inl e ↦ absurd (ground arith)
        | inr ((r, w2), e) ↦
            let (frees, pages) = fill_by_type-Pages w1 type aux aux_len q r0 one refl refl e in
            ((r, ground arith, frees), ground (arith, pages))
      ]

  module _ (page : (t : Trace Call) → (env.reply get_free_page t ==ℤ null) ≡ false) where
    fill_record-Pages :
        (w : World Call Trfs) (type : ℕ) (d : Ptr) (flags perm_flags err : ℤ) (aux : Aux)
        (aux_len : ℤ) {x : Filled} {w' : World Call Trfs}
        → needs_one_page type ≡ true
        → fill_record type d flags perm_flags err aux aux_len env w ≡ some (x, w')
        → ((r : TrRecord) × (x ≡ filled r) × (frees_one r ≡ true)) × Pages 2 0 w w'
    unfolding fill_record pages_taken pages_freed
    fill_record-Pages w type d flags perm_flags err aux aux_len {x} {w'} one h =
        let w1 = called env get_free_page w in
        let w2 = called env get_free_page w1 in
        let p = env.reply get_free_page w.trace in
        let q = env.reply get_free_page w1.trace in
        let filling : fill_pages type d flags perm_flags err aux aux_len p q env w2 ≡ some (x, w') =
          ground (arith, page w.trace, page w1.trace) in
        let (r, pages) =
          fill_pages-Pages w2 type d flags perm_flags err aux aux_len p q one filling in
        (r, ground (arith, page w.trace, page w1.trace, pages))

  write_log-Pages :
      (w : World Call Trfs) (sb : Ptr) (bytes : List ℕ) (count : ℤ) {ret : ℤ} {w' : World Call Trfs}
      → write_log sb bytes count env w ≡ some (ret, w')
      → Pages 0 0 w w'
  unfolding write_log pages_taken pages_freed
  write_log-Pages w sb bytes count h = ground arith

  append_aux-Pages :
      (w : World Call Trfs) (sb : Ptr) (r : TrRecord) (ret : ℤ) {ret' : ℤ} {w' : World Call Trfs}
      → frees_one r ≡ true
      → append_aux sb r ret env w ≡ some (ret', w')
      → Pages 0 0 w w'
  unfolding append_aux pages_taken pages_freed
  append_aux-Pages w sb r ret one h =
      let bytes = take (pos_part r.aux_len) (chars_of r.aux) in
      elim (Option-cases (write_log sb bytes r.aux_len env w)) [
        | inl e ↦ ground arith
        | inr ((ret, w1), e) ↦ ground (arith, write_log-Pages w sb bytes r.aux_len e)
      ]

  append_record-Pages :
      (w : World Call Trfs) (sb : Ptr) (r : TrRecord) {ret : ℤ} {w' : World Call Trfs}
      → frees_one r ≡ true
      → append_record sb r env w ≡ some (ret, w')
      → Pages 0 1 w w'
  unfolding append_record pages_taken pages_freed
  append_record-Pages w sb r one h =
      let common = to_short (r.rec_size -ℤ r.path_len -ℤ r.aux_len) in
      let count = r.rec_size -ℤ r.aux_len in
      let w1 = called env (free_page r.pathname.block) w in
      let bytes = take (pos_part count) (page_bytes r common) in
      elim (Option-cases (write_log sb bytes count env w1)) [
        | inl e ↦ ground arith
        | inr ((ret, w2), e) ↦ elim (Option-cases (append_aux sb r ret env w2)) [
          | inl e1 ↦ ground arith
          | inr ((ret1, w3), e1) ↦
              ground
                (arith, write_log-Pages w1 sb bytes count e, append_aux-Pages w2 sb r ret one e1)
        ]
      ]

  append_if_filled-Pages :
      (w : World Call Trfs) (sb : Ptr) (r : TrRecord) {u : Unit {0}} {w' : World Call Trfs}
      → frees_one r ≡ true
      → append_if_filled sb (filled r) env w ≡ some (u, w')
      → Pages 0 1 w w'
  unfolding append_if_filled
  append_if_filled-Pages w sb r one h = elim (Option-cases (append_record sb r env w)) [
    | inl e ↦ absurd (ground arith)
    | inr ((ret, w1), e) ↦ ground (arith, append_record-Pages w sb r one e)
  ]

-- Where memory is to be had and the mask has the operation's bit, the code that logs a create, a
-- mkdir, an unlink or a write, and that comes to an end, has taken two pages and given back one.
pub log_operation-leaks :
    (env : Env Call) (w : World Call Trfs) (sb : Ptr) (info : SbInfo) (type : ℕ) (d : Ptr)
    (flags perm_flags err : ℤ) (aux : Aux) (aux_len : ℤ) {w' : World Call Trfs}
    → ((t : Trace Call) → (env.reply get_free_page t ==ℤ null) ≡ false)
    → w.vars.s_fs_info sb ≡ some info
    → bit_and type info.umask ≡ type
    → needs_one_page type ≡ true
    → log_operation sb type d flags perm_flags err aux aux_len env w ≡ some (tt, w')
    → (pages_taken w'.trace ≡ 2 + pages_taken w.trace)
      × (pages_freed w'.trace ≡ 1 + pages_freed w.trace)
unfolding log_operation pages_taken pages_freed
log_operation-leaks env w sb info type d flags perm_flags err aux aux_len page at on one h =
    let w1 = called env (mutex_lock sb) w in
    elim (Option-cases (fill_record type d flags perm_flags err aux aux_len env w1)) [
      | inl e ↦ absurd (ground arith)
      | inr ((x, w2), e) ↦
          let ((r, is, frees), pages) =
            fill_record-Pages env page w1 type d flags perm_flags err aux aux_len one e in
          elim (Option-cases (append_if_filled sb (filled r) env w2)) [
            | inl e1 ↦ absurd (ground arith)
            | inr ((u, w3), e1) ↦ ground (arith, pages, append_if_filled-Pages env w2 sb r frees e1)
          ]
    ]
