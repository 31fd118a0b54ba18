-- ===== src/Dump/Append.antt =====
-- `append_record` puts a sized record whole at the end of the log.
use trace_file_system.Prelude.{
  ◌≢◌, if◌then◌else◌, inl, inr, Bool-cases, Option-cases, ◌==◌, ℕ, ◌+◌, ℤ, pos, pos_part, ◌≡◌, refl,
  sym, ap, ◌∙◌, Option, none, some, List, ◌∷◌, ◌++◌, arith, length, take, take_all, length-append,
  append-nil, append_assoc, to_short, ◌-ℤ◌,
}
use mathlib.Core.Path.{subst}
use trace_file_system.Exec.{Trace, Env, World, ◌>>=◌}
use trace_file_system.Record.{TrRecord, Chars, chars_of, header, aux_chars, tr_fwrite}
use trace_file_system.Record.Layout.{image}
use trace_file_system.Record.Shape.{IsSized, length-header}
use trace_file_system.Kernel.{Ptr, Trfs, Call, s_type_name, free_page}
use trace_file_system.Dump.{page_bytes, append_aux, append_record, write_log, trfs_name}
use trace_file_system.Dump.Log.{LogIs, log_file, FullWrites, wrote, write_log-wrote, wrote-LogIs}

-- The superblock is one of trfs.
abbrev pub IsTrfs : Env Call → Ptr → Type 0
IsTrfs env sb = (t : Trace Call) → env.bytes (s_type_name sb) t ≡ trfs_name

-- What follows the 32-byte header is `aux` only where `aux` is set.
abbrev pub HasAux : TrRecord → Type 0
HasAux r = r.aux_len ≡ pos 0 → r.aux ≡ none

abbrev front : TrRecord → List ℕ
front r = header r ++ r.pathname.chars

-- The first write takes the header and the path.
page_bytes-front :
    (r : TrRecord)
    → IsSized r
    → take (32 + length r.pathname.chars) (page_bytes r (pos 32)) ≡ front r
page_bytes-front r s =
    ap (λ h. take (32 + length r.pathname.chars) (h ++ r.pathname.chars))
      (take_all 32 (header r) (omega (arith, length-header r)))
    ∙ take_all (32 + length r.pathname.chars) (front r)
        (omega (arith, length-header r, length-append (header r) r.pathname.chars))

length-front : (r : TrRecord) → length (front r) ≡ 32 + length r.pathname.chars
length-front r = omega (arith, length-header r, length-append (header r) r.pathname.chars)

common_size : (r : TrRecord) → IsSized r → to_short (r.rec_size -ℤ r.path_len -ℤ r.aux_len) ≡ pos 32
unfolding to_short ◌-ℤ◌
common_size r s = ground arith

front_size :
    (r : TrRecord) → IsSized r → r.rec_size -ℤ r.aux_len ≡ pos (32 + length r.pathname.chars)
unfolding ◌-ℤ◌
front_size r s = ground arith

pub free_page-LogIs :
    (sb f : Ptr) (umask : ℕ) (file : List ℕ) (w : World Call Trfs) (p : Ptr) (x : ℤ)
    → LogIs sb f umask file w
    → LogIs sb f umask file (record w { trace = (free_page p, x) ∷ w.trace })
unfolding log_file
free_page-LogIs sb f umask file w p x at = record {
  info = at.info;
  mounted = at.mounted;
  filep = at.filep;
  mask = at.mask;
  f_pos = at.f_pos;
  content = at.content;
}

-- A run of `append_record` or of its second half that ends with `file` in the log.
pub record Leads (m : Option (ℤ × World Call Trfs)) (sb f : Ptr) (umask : ℕ) (file : List ℕ)
    (id : ℕ) : Type 0 where
  pub ret : ℤ
  pub after : World Call Trfs
  pub runs : m ≡ some (ret, after)
  pub at : LogIs sb f umask file after
  pub counter : after.vars.trecord_id ≡ id

module _ (env : Env Call) (w : World Call Trfs) (sb : Ptr) (r : TrRecord) (ret : ℤ) where
  append_aux-none : r.aux ≡ none → r.aux_len ≡ pos 0 → append_aux sb r ret env w ≡ some (ret, w)
  unfolding append_aux
  append_aux-none e l = ground arith

  -- The page of `aux` is freed behind the write, but for the buffer of a write.
  abbrev freed : Ptr → World Call Trfs → World Call Trfs
  freed p w2 =
      if r.type == tr_fwrite
      then w2
      else record w2 { trace = (free_page p, env.reply (free_page p) w2.trace) ∷ w2.trace }

  append_aux-some :
      (a : Chars) (count : ℤ) (w2 : World Call Trfs)
      → r.aux ≡ some a
      → r.aux_len ≢ pos 0
      → write_log sb (take (pos_part r.aux_len) (aux_chars r)) r.aux_len env w ≡ some (count, w2)
      → append_aux sb r ret env w ≡ some (count, freed a.block w2)
  unfolding append_aux
  append_aux-some a count w2 e l h = ground arith

module _ (env : Env Call) (sb f : Ptr) (umask : ℕ) (full : FullWrites env) where
  freed-LogIs :
      (w : World Call Trfs) (file : List ℕ) (r : TrRecord) (p : Ptr) (ret : ℤ)
      → LogIs sb f umask file w
      → LogIs sb f umask file (freed env w sb r ret p w)
  freed-LogIs w file r p ret at = elim (Bool-cases (r.type == tr_fwrite)) [
    | inl e ↦ rw e at
    | inr e ↦ rw e (free_page-LogIs sb f umask file w p _ at)
  ]

  append_aux-data :
      (w : World Call Trfs) (file : List ℕ) (r : TrRecord) (ret : ℤ) (a : Chars)
      → LogIs sb f umask file w
      → IsSized r
      → HasAux r
      → r.aux ≡ some a
      → Leads (append_aux sb r ret env w) sb f umask (file ++ aux_chars r) w.vars.trecord_id
  append_aux-data w file r ret a at s ha e =
      let w2 : World Call Trfs = wrote sb at.info (aux_chars r) w in
      record {
        ret = pos (length (aux_chars r));
        after = freed env w2 sb r ret a.block w2;
        runs =
            append_aux-some env w sb r ret a (pos (length (aux_chars r))) w2 e (λ z. cc (e, ha z))
              writes;
        at = freed-LogIs w2 _ r a.block ret (wrote-LogIs env w sb f umask file (aux_chars r) at);
        counter = ground arith;
      }
    where
      writes :
          write_log sb (take (pos_part r.aux_len) (aux_chars r)) r.aux_len env w
          ≡ some (pos (length (aux_chars r)), wrote sb at.info (aux_chars r) w)
      writes =
          simp (s.aux_len, take_all (length (aux_chars r)) (aux_chars r) (omega arith))
            (write_log-wrote env w sb f umask file (aux_chars r) full at)

  append_aux-Leads :
      (w : World Call Trfs) (file : List ℕ) (r : TrRecord) (ret : ℤ)
      → LogIs sb f umask file w
      → IsSized r
      → HasAux r
      → Leads (append_aux sb r ret env w) sb f umask (file ++ aux_chars r) w.vars.trecord_id
  append_aux-Leads w file r ret at s ha = elim (Option-cases r.aux) [
    | inl e ↦ record {
      ret = ret;
      after = w;
      runs = append_aux-none env w sb r ret e (s.aux_len ∙ ap (λ c. pos (length (chars_of c))) e);
      at =
          subst (λ c. LogIs sb f umask (file ++ chars_of c) w) (sym e)
            (subst (λ l. LogIs sb f umask l w) (sym (append-nil file)) at);
      counter = refl;
    }
    | inr (a, e) ↦ append_aux-data w file r ret a at s ha e
  ]

  module _ (w : World Call Trfs) (file : List ℕ) (r : TrRecord) (trfs : IsTrfs env sb)
      (at : LogIs sb f umask file w) (s : IsSized r) where
    abbrev unpaged : World Call Trfs
    unpaged =
        let p = free_page r.pathname.block in
        record w { trace = (p, env.reply p w.trace) ∷ w.trace }

    unpaged-LogIs : LogIs sb f umask file unpaged
    unpaged-LogIs = free_page-LogIs sb f umask file w r.pathname.block _ at

    append_record-front :
        append_record sb r env w
        ≡ append_aux sb r
            (pos (length (front r)))
            env
            (wrote sb unpaged-LogIs.info (front r) unpaged)
    unfolding append_record
    append_record-front = rw (
      trfs w.trace,
      common_size r s,
      front_size r s,
      common_size r s,
      page_bytes-front r s,
      ← length-front r,
      write_log-wrote env unpaged sb f umask file (front r) full unpaged-LogIs,
      ◌>>=◌,
    )

    -- On a trfs mount whose disk takes every write whole, `append_record` of a sized record, whose
    -- `aux` is NULL if `aux_len` is 0, comes to an end: the log is what it was with the image of the
    -- record behind it, the position is at its end again, and the mask and the counter of records
    -- are as they were.
    pub append_record-Leads :
        HasAux r → Leads (append_record sb r env w) sb f umask (file ++ image r) w.vars.trecord_id
    append_record-Leads ha =
        let w2 : World Call Trfs = wrote sb unpaged-LogIs.info (front r) unpaged in
        let log : LogIs sb f umask (file ++ front r) w2 =
          wrote-LogIs env unpaged sb f umask file (front r) unpaged-LogIs in
        let rest = append_aux-Leads w2 (file ++ front r) r (pos (length (front r))) log s ha in
        record {
          ret = rest.ret;
          after = rest.after;
          runs = append_record-front ∙ rest.runs;
          at = subst (λ l. LogIs sb f umask l rest.after) whole rest.at;
          counter = rest.counter;
        }
      where
        whole : (file ++ front r) ++ aux_chars r ≡ file ++ image r
        whole = unfold image in simp append_assoc
