-- ===== src/Dump/Switch.antt =====
-- What a healthy kernel is, and what the `switch` of `fill_record` does on one.
use trace_file_system.Prelude.{
  List, ℕ, ◌≤◌, pos, ◌≡◌, refl, ◌∙◌, is_neg, ◌==ℤ◌, false, Option, none, some, ◌∷◌, arith, length,
  to_short, ◌≢◌, to_short_of_IsShort,
}
use trace_file_system.Exec.{Trace, Env, World}
use trace_file_system.Record.{TrRecord, Chars, chars_of, aux_chars}
use trace_file_system.Kernel.{Ptr, null, Trfs, Call, get_free_page, dentry_path_raw}
use trace_file_system.Dump.{Aux, no_aux, memory, dentry, aux_memory, sized, with_path, fill_by_type}
use trace_file_system.Dump.Fill.{
  Operation, type_of, fcreat, fwrite, dcreat, rename, link, symlink, unlink, with_aux,
}
use trace_file_system.Dump.Log.{log_file, FullWrites}
use trace_file_system.Dump.Append.{IsTrfs, HasAux}

-- Memory is to be had, paths are found and have 1 to 4095 characters, and the disk works.
pub record IsHealthy (env : Env Call) (sb : Ptr) : Type 0 where
  pub full : FullWrites env
  pub trfs : IsTrfs env sb
  pub page : (t : Trace Call) → (env.reply get_free_page t ==ℤ null) ≡ false
  pub path : (d p : Ptr) (t : Trace Call) → is_neg (env.reply (dentry_path_raw d p) t) ≡ false
  pub path_min : (d p : Ptr) (t : Trace Call) → 1 ≤ length (env.bytes (dentry_path_raw d p) t)
  pub path_max : (d p : Ptr) (t : Trace Call) → length (env.bytes (dentry_path_raw d p) t) ≤ 4095

-- What the handlers pass as `aux`: data that is not empty and fits a record, or the second dentry.
abbrev pub Suits : Operation → Aux → Type 0
Suits fwrite (memory c) = (1 ≤ length c.chars) × (length c.chars ≤ 28640)
Suits symlink (memory c) = (1 ≤ length c.chars) × (length c.chars ≤ 28640)
Suits rename (dentry d) = Unit
Suits link (dentry d) = Unit
Suits fcreat no_aux = Unit
Suits dcreat no_aux = Unit
Suits unlink no_aux = Unit
Suits _ _ = ⊥

-- The text `s` is what the kernel said of the path of `d`, at a time `t`.
pub record IsPathOf (env : Env Call) (d : Ptr) (s : List ℕ) : Type 0 where
  pub page : Ptr
  pub t : Trace Call
  pub said : s ≡ env.bytes (dentry_path_raw d page) t

-- The auxiliary data of `r` are those of the operation: the data of a write, the target of a
-- symbolic link, the path of the second dentry, or none.
abbrev pub Carries : Env Call → Aux → TrRecord → Type 0
Carries env no_aux r = r.aux ≡ none
Carries env (memory c) r = r.aux ≡ some c
Carries env (dentry d) r = IsPathOf env d (aux_chars r)

-- The `switch` returns the record `r`, whose `aux` is NULL or not empty, and the log is as before.
pub record Switched (env : Env Call) (aux : Aux) (m : Option (TrRecord × World Call Trfs))
    (p : Chars) (w : World Call Trfs) (f : Ptr) : Type 0 where
  pub r : TrRecord
  pub after : World Call Trfs
  pub runs : m ≡ some (r, after)
  pub path : r.pathname ≡ p
  pub aux_max : length (aux_chars r) ≤ 28640
  pub carries : Carries env aux r
  pub has_aux : HasAux r
  pub log : log_file f after.trace ≡ log_file f w.trace

short_nonzero : (n : ℕ) → 1 ≤ n → n ≤ 28640 → to_short (pos n) ≢ pos 0
short_nonzero n lo hi e = ground (arith, to_short_of_IsShort (pos n) (omega arith))

module _ (env : Env Call) (sb f : Ptr) (healthy : IsHealthy env sb) (w : World Call Trfs)
    (page : Ptr) (r : TrRecord) where
  memory-Switched :
      (op : Operation) (c : Chars)
      → 1 ≤ length c.chars
      → length c.chars ≤ 28640
      → fill_by_type (type_of op) (memory c) (pos (length c.chars)) page r env w
        ≡ some (with_aux r (some c), w)
      → Switched env
          (memory c)
          (fill_by_type (type_of op) (memory c) (pos (length c.chars)) page r env w)
          r.pathname
          w
          f
  memory-Switched op c lo hi e = record {
    r = with_aux r (some c);
    after = w;
    runs = e;
    path = refl;
    aux_max = hi;
    carries = refl;
    has_aux = λ z. absurd (short_nonzero (length c.chars) lo hi z);
    log = refl;
  }

  dentry-Switched :
      (op : Operation) (d : Ptr)
      → fill_by_type (type_of op) (dentry d) (pos 0) page r env w
        ≡ with_path (dentry d) page r env w
      → Switched env
          (dentry d)
          (fill_by_type (type_of op) (dentry d) (pos 0) page r env w)
          r.pathname
          w
          f
  unfolding with_path log_file
  dentry-Switched op d e =
      let c = dentry_path_raw d page in
      let path : Chars = record { block = page; chars = env.bytes c w.trace } in
      record {
        r = with_aux r (some path);
        after = record w { trace = (c, env.reply c w.trace) ∷ w.trace };
        runs = e ∙ ground (arith, healthy.path d page w.trace);
        path = refl;
        aux_max = omega (arith, healthy.path_max d page w.trace);
        carries = record { page = page; t = w.trace; said = refl };
        has_aux = λ z. absurd (
            short_nonzero (length path.chars) (healthy.path_min d page w.trace)
              (omega (arith, healthy.path_max d page w.trace)) z);
        log = refl;
      }

  plain-Switched :
      (op : Operation)
      → r.aux ≡ none
      → fill_by_type (type_of op) no_aux (pos 0) page r env w ≡ some (sized r, w)
      → Switched env no_aux (fill_by_type (type_of op) no_aux (pos 0) page r env w) r.pathname w f
  plain-Switched op n e = record {
    r = sized r;
    after = w;
    runs = e;
    path = refl;
    aux_max = rw n (omega arith);
    carries = n;
    has_aux = λ z. n;
    log = refl;
  }

  pub fill_by_type-Switched :
      (op : Operation) (aux : Aux)
      → Suits op aux
      → r.aux ≡ none
      → Switched env aux
          (fill_by_type (type_of op) aux (pos (length (chars_of (aux_memory aux)))) page r env w)
          r.pathname
          w
          f
  unfolding fill_by_type
  fill_by_type-Switched fwrite (memory c) h n = memory-Switched fwrite c h.0 h.1 refl
  fill_by_type-Switched symlink (memory c) h n = memory-Switched symlink c h.0 h.1 refl
  fill_by_type-Switched rename (dentry d) h n = dentry-Switched rename d refl
  fill_by_type-Switched link (dentry d) h n = dentry-Switched link d refl
  fill_by_type-Switched fcreat no_aux h n = plain-Switched fcreat n refl
  fill_by_type-Switched dcreat no_aux h n = plain-Switched dcreat n refl
  fill_by_type-Switched unlink no_aux h n = plain-Switched unlink n refl
  fill_by_type-Switched _ _ h n = absurd h
