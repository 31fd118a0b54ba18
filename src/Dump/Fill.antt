-- ===== src/Dump/Fill.antt =====
-- What `fill_record` puts in a record.
use trace_file_system.Prelude.{
  ℕ, ◌+◌, ◌%◌, ◌^◌, ◌≤◌, ◌<◌, ℤ, pos, ◌≡◌, ◌⊎◌, inl, inr, ap, ◌∙◌, to_short_of_IsShort, Option,
  none, some, ◌∷◌, arith, length, to_short, ◌+ℤ◌, ◌-ℤ◌,
}
use trace_file_system.Exec.{Trace, Env, World}
use trace_file_system.Record.{
  TrRecord, Chars, chars_of, tr_fcreat, tr_fwrite, tr_dcreat, tr_rename, tr_link, tr_symlink,
  tr_unlink,
}
use trace_file_system.Record.Shape.{IsSized}
use trace_file_system.Kernel.{Ptr, Trfs, Call, get_free_page, dentry_path_raw}
use trace_file_system.Dump.{
  Aux, sized, sized_aux, aux_memory, with_path, filled, start, fill_by_type, fill_record, memory,
  no_aux, dentry,
}

-- The operations that are logged.
pub data Operation : Type 0 where
  fcreat fwrite dcreat rename link symlink unlink : Operation

abbrev pub type_of : Operation → ℕ
type_of fcreat = tr_fcreat
type_of fwrite = tr_fwrite
type_of dcreat = tr_dcreat
type_of rename = tr_rename
type_of link = tr_link
type_of symlink = tr_symlink
type_of unlink = tr_unlink

-- `aux_len` is the length of the memory at `aux`, and 0 where `aux` is no memory.
abbrev pub HasLength : Aux → ℤ → Type 0
HasLength aux aux_len = aux_len ≡ pos (length (chars_of (aux_memory aux)))

short_fits : (n : ℕ) → n ≤ 32767 → to_short (pos n) ≡ pos n
short_fits n h = to_short_of_IsShort (pos n) (omega arith)

size_fits :
    (p a : ℕ)
    → 32 + p + a ≤ 32767
    → to_short (pos 48 +ℤ pos p +ℤ pos a -ℤ pos 8 -ℤ pos 8) ≡ pos (32 + p + a)
unfolding ◌+ℤ◌ ◌-ℤ◌
size_fits p a h = ground (arith, short_fits (32 + p + a))

size_fits_plain :
    (p : ℕ) → 32 + p ≤ 32767 → to_short (pos 48 +ℤ pos p -ℤ pos 8 -ℤ pos 8) ≡ pos (32 + p)
unfolding ◌+ℤ◌ ◌-ℤ◌
size_fits_plain p h = ground (arith, short_fits (32 + p))

-- The record that comes out of the `switch`: sized by its path alone, or with `aux` set.
abbrev pub with_aux : TrRecord → Option Chars → TrRecord
with_aux r c = sized_aux (record r { aux = c; aux_len = to_short (pos (length (chars_of c))) })

abbrev pub Leaves : TrRecord → TrRecord → Type 0
Leaves r r' = (r' ≡ sized r) ⊎ ((c : Option Chars) × (r' ≡ with_aux r c))

pub sized-IsSized :
    (r : TrRecord)
    → r.path_len ≡ to_short (pos (length r.pathname.chars))
    → r.aux ≡ none
    → r.aux_len ≡ pos 0
    → 32 + length r.pathname.chars ≤ 32767
    → IsSized (sized r)
sized-IsSized r hp hn ha hl =
    let path_len : r.path_len ≡ pos (length r.pathname.chars) = hp ∙ short_fits _ (omega arith) in
    record {
      path_len = path_len;
      aux_len = ha ∙ simp hn;
      rec_size = simp (path_len, hn) (size_fits_plain _ hl ∙ ap pos (omega arith));
    }

pub with_aux-IsSized :
    (r : TrRecord) (c : Option Chars)
    → r.path_len ≡ to_short (pos (length r.pathname.chars))
    → 32 + length r.pathname.chars + length (chars_of c) ≤ 32767
    → IsSized (with_aux r c)
with_aux-IsSized r c hp hl =
    let path_len : r.path_len ≡ pos (length r.pathname.chars) = hp ∙ short_fits _ (omega arith) in
    let aux_len : to_short (pos (length (chars_of c))) ≡ pos (length (chars_of c)) =
      short_fits _ (omega arith) in
    record {
      path_len = path_len;
      aux_len = aux_len;
      rec_size = simp (path_len, aux_len) (size_fits _ _ hl);
    }

with_path-Leaves :
    (env : Env Call) (w : World Call Trfs) (aux : Aux) (page : Ptr) (r : TrRecord) {r' : TrRecord}
    {w' : World Call Trfs}
    → with_path aux page r env w ≡ some (r', w')
    → Leaves r r' × (w'.vars ≡ w.vars)
unfolding with_path
with_path-Leaves env w (dentry d) page r h =
    let path : Chars = record {
      block = page;
      chars = env.bytes (dentry_path_raw d page) w.trace;
    } in
    (inr (some path, ground arith), ground arith)
with_path-Leaves env w no_aux page r h = cc
with_path-Leaves env w (memory c) page r h = cc

pub fill_by_type-Leaves :
    (env : Env Call) (w : World Call Trfs) (op : Operation) (aux : Aux) (page : Ptr) (r : TrRecord)
    {r' : TrRecord} {w' : World Call Trfs}
    → fill_by_type (type_of op) aux (pos (length (chars_of (aux_memory aux)))) page r env w
      ≡ some (r', w')
    → Leaves r r' × (w'.vars ≡ w.vars)
unfolding fill_by_type
fill_by_type-Leaves env w fcreat aux page r h = (inl (cc), cc)
fill_by_type-Leaves env w dcreat aux page r h = (inl (cc), cc)
fill_by_type-Leaves env w unlink aux page r h = (inl (cc), cc)
fill_by_type-Leaves env w rename aux page r h = with_path-Leaves env w aux page r h
fill_by_type-Leaves env w link aux page r h = with_path-Leaves env w aux page r h
fill_by_type-Leaves env w fwrite aux page r h = (inr (aux_memory aux, cc), cc)
fill_by_type-Leaves env w symlink aux page r h = (inr (aux_memory aux, cc), cc)

-- The state in which `fill_record` enters the `switch`: both pages are there, the identifier is
-- taken, and the path is known.
module _ (env : Env Call) (w : World Call Trfs) (d : Ptr) where
  abbrev pub page_trace : Trace Call
  page_trace =
      let t = (get_free_page, env.reply get_free_page w.trace) ∷ w.trace in
      (get_free_page, env.reply get_free_page t) ∷ t

  abbrev pub path_at : Chars
  path_at =
      let page = env.reply get_free_page w.trace in
      record { block = page; chars = env.bytes (dentry_path_raw d page) page_trace }

  abbrev pub switch_at : World Call Trfs
  switch_at =
      let c = dentry_path_raw d (env.reply get_free_page w.trace) in
      record {
        trace = (c, env.reply c page_trace) ∷ page_trace;
        vars = record w.vars { trecord_id = (w.vars.trecord_id + 1) % 2 ^ 32 };
      }

  abbrev pub second_page : Ptr
  second_page = env.reply get_free_page ((get_free_page, env.reply get_free_page w.trace) ∷ w.trace)

  pub fill_record_switch :
      (type : ℕ) (flags perm_flags err : ℤ) (aux : Aux) (aux_len : ℤ) {r : TrRecord}
      {w' : World Call Trfs}
      → fill_record type d flags perm_flags err aux aux_len env w ≡ some (filled r, w')
      → fill_by_type type aux aux_len second_page
          (start type flags perm_flags err ((w.vars.trecord_id + 1) % 2 ^ 32) path_at)
          env
          switch_at
        ≡ some (r, w')
  unfolding fill_record
  fill_record_switch type flags perm_flags err aux aux_len h = ground arith

pub type_of-lt : (op : Operation) → type_of op < 2 ^ 32
type_of-lt fcreat = omega arith
type_of-lt _ = omega arith
