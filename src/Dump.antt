-- ===== src/Dump.antt =====
-- trfs/trdump.c: a record of an operation is filled in and appended to the log file. The messages
-- to the kernel's log are left out.
pub mod Fill
pub mod Fields
pub mod Log
pub mod Append
pub mod Switch
pub mod Operation
pub mod Mask
pub mod Pages
pub mod Overflow
use trace_file_system.Prelude.{
  ℕ, zero, ◌+◌, ◌%◌, ◌^◌, ℤ, pos, negsuc, pos_part, ◌+ℤ◌, ◌-ℤ◌, ◌==ℤ◌, is_neg, is_nonpos, Bool,
  true, false, not, Option, none, some, List, [], ◌∷◌, ◌++◌, ◌==◌, length, take, if◌then◌else◌,
  low32, to_short, bit_and, same,
}
use trace_file_system.Exec.{
  Exec, pure, crash, gets, or_crash, modify, call, call_, call_bytes, peek_bytes, ◌>>=◌, ◌>>◌,
  if_do, bug_on,
}
use trace_file_system.Record.{
  TrRecord, Chars, chars_of, header, sizeof_record, sizeof_pointer, tr_fcreat, tr_fwrite, tr_dcreat,
  tr_rename, tr_link, tr_symlink, tr_unlink,
}
use trace_file_system.Kernel.{
  Ptr, null, enomem, SbInfo, Trfs, update, get_free_page, free_page, dentry_path_raw, s_type_name,
  kernel_write, mutex_lock, mutex_unlock,
}
use trace_file_system.Kernel.Path.{Kernel, trfs_sb}

-- The `void *aux` of `fill_record`: NULL, memory, or a dentry.
pub data Aux : Type 0 where
  no_aux : Aux
  memory : Chars → Aux
  dentry : Ptr → Aux

-- How `fill_record` ends: with a value that is not 0, or with 0 and the record.
pub data Filled : Type 0 where
  failed : ℤ → Filled
  filled : TrRecord → Filled

-- `SAFE_FREE_PAGE`
abbrev safe_free_page : Ptr → Kernel Unit
safe_free_page p = if_do (not (p ==ℤ null)) (call_ (free_page p))

-- `dentry_path_raw(dentry, page, PAGE_SIZE)`, and the `strlen` of what it returns, which is an
-- oops if that is an error pointer.
path_of : Ptr → Ptr → Kernel Chars
path_of d page = do
  (p, path) ← call_bytes (dentry_path_raw d page)
  if is_neg p then crash else pure (record { block = page; chars = path })

-- `atomic_inc_return(&trecord_id)`
next_id : Kernel ℕ
next_id = do
  modify (λ s. record s { trecord_id = (s.trecord_id + 1) % 2 ^ 32 })
  gets (λ s. s.trecord_id)

-- RECORD_SIZE and RECORD_SIZE_AUX, as they are stored in a `short`
abbrev record_size : TrRecord → ℤ
record_size r =
    to_short (pos sizeof_record +ℤ r.path_len -ℤ pos sizeof_pointer -ℤ pos sizeof_pointer)

abbrev record_size_aux : TrRecord → ℤ
record_size_aux r =
    to_short
      (pos sizeof_record +ℤ r.path_len +ℤ r.aux_len -ℤ pos sizeof_pointer -ℤ pos sizeof_pointer)

-- Sets the size once `aux` and `aux_len` are set.
abbrev sized : TrRecord → TrRecord
sized r = record r { rec_size = record_size r }

abbrev pub sized_aux : TrRecord → TrRecord
sized_aux r = record r { rec_size = record_size_aux r }

-- `(char *)aux`
abbrev pub aux_memory : Aux → Option Chars
aux_memory (memory c) = some c
aux_memory _ = none

unfoldable pub with_memory : Aux → ℤ → TrRecord → Kernel TrRecord
with_memory aux aux_len r =
    pure (sized_aux (record r { aux = aux_memory aux; aux_len = to_short aux_len }))

unfoldable pub with_path : Aux → Ptr → TrRecord → Kernel TrRecord
unfolding path_of
with_path (dentry d) page r = do
  path ← path_of d page
  pure (sized_aux (record r { aux = some path; aux_len = to_short (pos (length path.chars)) }))
with_path _ page r = crash

-- the `switch` of `fill_record`
unfoldable pub fill_by_type : ℕ → Aux → ℤ → Ptr → TrRecord → Kernel TrRecord
unfolding with_memory with_path
fill_by_type type aux aux_len aux_page r =
    if type == tr_fcreat
    then pure (sized r)
    else if type == tr_dcreat
    then pure (sized r)
    else if type == tr_unlink
    then pure (sized r)
    else if type == tr_fwrite
    then with_memory aux aux_len r
    else if type == tr_rename
    then with_path aux aux_page r
    else if type == tr_link
    then with_path aux aux_page r
    else if type == tr_symlink
    then with_memory aux aux_len r
    else pure r

-- the fields that are set before the `switch`; the rest is 0
abbrev pub start : ℕ → ℤ → ℤ → ℤ → ℕ → Chars → TrRecord
start type flags perm_flags err rec_id path = record {
  rec_id = rec_id;
  rec_flags = low32 flags;
  perm_flags = low32 perm_flags;
  result = err;
  rec_size = pos 0;
  path_len = to_short (pos (length path.chars));
  type = type;
  aux_len = pos 0;
  pathname = path;
  aux = none;
}

-- the part of `fill_record` that has both pages
unfoldable pub fill_pages : ℕ → Ptr → ℤ → ℤ → ℤ → Aux → ℤ → Ptr → Ptr → Kernel Filled
unfolding path_of next_id
fill_pages type d flags perm_flags err aux aux_len pathname aux_pathname = do
  rec_id ← next_id
  path ← path_of d pathname
  r ← fill_by_type type aux aux_len aux_pathname (start type flags perm_flags err rec_id path)
  pure (filled r)

unfoldable pub fill_record : ℕ → Ptr → ℤ → ℤ → ℤ → Aux → ℤ → Kernel Filled
unfolding fill_pages
fill_record type d flags perm_flags err aux aux_len =
    if type == 0 then pure (failed (negsuc 0)) else do
      pathname ← call get_free_page
      if pathname ==ℤ null then pure (failed enomem) else do
        aux_pathname ← call get_free_page
        if aux_pathname ==ℤ null
            then (do safe_free_page pathname; pure (failed enomem))
            else fill_pages type d flags perm_flags err aux aux_len pathname aux_pathname

-- The page of the superblock: the record's first bytes and the path behind them. The header has
-- exactly as many bytes as are copied.
abbrev pub page_bytes : TrRecord → ℤ → List ℕ
page_bytes r common = take (pos_part common) (header r) ++ r.pathname.chars

-- `kernel_write` at the log's position, which moves on by what was asked if that was written;
-- the result is the code's `ret`.
unfoldable pub write_log : Ptr → List ℕ → ℤ → Kernel ℤ
write_log sb bytes count = do
  info ← trfs_sb sb
  ret ← call (kernel_write info.tr_lower_filep bytes count info.f_pos)
  if ret ==ℤ count
      then (do
        modify (λ s. record s {
          s_fs_info = update s.s_fs_info sb (some (record info { f_pos = info.f_pos +ℤ ret }));
        })
        pure ret)
      else pure (negsuc 0)

-- `free_page((unsigned long)record->aux)`
abbrev free_aux : Option Chars → Kernel Unit
free_aux none = call_ (free_page null)
free_aux (some a) = call_ (free_page a.block)

abbrev is_some : Option Chars → Bool
is_some none = false
is_some (some a) = true

-- the second half of `append_record`: the auxiliary data
unfoldable pub append_aux : Ptr → TrRecord → ℤ → Kernel ℤ
append_aux sb r ret = if r.aux_len ==ℤ pos 0 then (do bug_on (is_some r.aux); pure ret) else do
  ret ← write_log sb (take (pos_part r.aux_len) (chars_of r.aux)) r.aux_len
  if_do (not (r.type == tr_fwrite)) (free_aux r.aux)
  pure ret

-- "trfs"
abbrev pub trfs_name : List ℕ
trfs_name = b't' ∷ b'r' ∷ b'f' ∷ b's' ∷ []

unfoldable pub append_record : Ptr → TrRecord → Kernel ℤ
append_record sb r = do
  name ← peek_bytes (s_type_name sb)
  bug_on (not (same name trfs_name))
  let common = to_short (r.rec_size -ℤ r.path_len -ℤ r.aux_len)
  bug_on (is_nonpos common)
  let count = r.rec_size -ℤ r.aux_len
  call_ (free_page r.pathname.block)
  ret ← write_log sb (take (pos_part count) (page_bytes r common)) count
  append_aux sb r ret

unfoldable pub append_if_filled : Ptr → Filled → Kernel Unit
append_if_filled sb (failed e) = pure tt
append_if_filled sb (filled r) = do append_record sb r; pure tt

-- What each operation does at its label `out`: under the lock of the mount, a record is filled in
-- if the mask has the operation's bit, and appended if it could be filled in.
unfoldable pub log_operation : Ptr → ℕ → Ptr → ℤ → ℤ → ℤ → Aux → ℤ → Kernel Unit
log_operation sb type d flags perm_flags err aux aux_len = do
  trfs_sb sb
  call_ (mutex_lock sb)
  info ← trfs_sb sb
  result ← fill_record (bit_and type info.umask) d flags perm_flags err aux aux_len
  append_if_filled sb result
  call_ (mutex_unlock sb)
