-- ===== src/Dump/Fields.antt =====
-- The record that `fill_record` hands to `append_record`.
use trace_file_system.Prelude.{
  ℕ, ◌+◌, ◌%◌, ◌^◌, ◌≤◌, ◌<◌, ℤ, pos, ◌≡◌, inl, inr, refl, some, arith, length, low32, low32-lt,
  IsInt,
}
use trace_file_system.Exec.{Env, World}
use trace_file_system.Record.{TrRecord, Chars, chars_of, aux_chars}
use trace_file_system.Record.Shape.{IsRecord, IsSized}
use trace_file_system.Kernel.{Ptr, Trfs, Call}
use trace_file_system.Dump.{Aux, sized, aux_memory, filled, start, fill_record}
use trace_file_system.Dump.Fill.{
  Operation, type_of, Leaves, with_aux, sized-IsSized, with_aux-IsSized, fill_by_type-Leaves,
  fill_record_switch, path_at, switch_at, second_page, type_of-lt,
}

-- `r` is sized and in range, and says what was done: the operation, its flags, its result, the
-- number of the record and the path.
pub record Describes (op : Operation) (f p err : ℤ) (id : ℕ) (path : Chars) (r : TrRecord)
    : Type 0 where
  pub sized : IsSized r
  pub ranges : IsRecord r
  pub type : r.type ≡ type_of op
  pub rec_flags : r.rec_flags ≡ low32 f
  pub perm_flags : r.perm_flags ≡ low32 p
  pub result : r.result ≡ err
  pub rec_id : r.rec_id ≡ id
  pub pathname : r.pathname ≡ path

module _ (op : Operation) (flags perm_flags err : ℤ) (id : ℕ) (path : Chars) where
  -- A sized record that fits 16 bits is in range.
  describe :
      (r : TrRecord)
      → IsSized r
      → 32 + length r.pathname.chars + length (aux_chars r) ≤ 32767
      → id < 4294967296
      → IsInt err
      → r.type ≡ type_of op
      → r.rec_flags ≡ low32 flags
      → r.perm_flags ≡ low32 perm_flags
      → r.result ≡ err
      → r.rec_id ≡ id
      → r.pathname ≡ path
      → Describes op flags perm_flags err id path r
  describe r s fits hi he t f p e i n = record {
    sized = s;
    ranges = record {
      rec_id = rw i hi;
      rec_flags = rw f (low32-lt flags);
      perm_flags = rw p (low32-lt perm_flags);
      type = rw t (type_of-lt op);
      result = rw e he;
      rec_size = rw s.rec_size (omega arith);
      path_len = rw s.path_len (omega arith);
      aux_len = rw s.aux_len (omega arith);
    };
    type = t;
    rec_flags = f;
    perm_flags = p;
    result = e;
    rec_id = i;
    pathname = n;
  }

  Leaves-Describes :
      (r : TrRecord)
      → Leaves (start (type_of op) flags perm_flags err id path) r
      → 32 + length r.pathname.chars + length (aux_chars r) ≤ 32767
      → id < 4294967296
      → IsInt err
      → Describes op flags perm_flags err id path r
  Leaves-Describes r (inl e) fits hi he =
      let r0 = start (type_of op) flags perm_flags err id path in
      let fits' : 32 + length path.chars ≤ 32767 = omega (arith, rw e at fits) in
      rw e (
        describe (sized r0) (sized-IsSized r0 refl refl refl fits') (omega arith) hi he refl refl
          refl refl refl refl)
  Leaves-Describes r (inr (c, e)) fits hi he =
      let r0 = start (type_of op) flags perm_flags err id path in
      let fits' : 32 + length path.chars + length (chars_of c) ≤ 32767 = rw e at fits in
      rw e (
        describe (with_aux r0 c) (with_aux-IsSized r0 c refl fits') fits' hi he refl refl refl refl
          refl refl)

module _ (op : Operation) (env : Env Call) (w : World Call Trfs) (d : Ptr)
    (flags perm_flags err : ℤ) (aux : Aux) {r : TrRecord} {w' : World Call Trfs} where
  pub fill_record-Describes :
      fill_record
          (type_of op)
          d
          flags
          perm_flags
          err
          aux
          (pos (length (chars_of (aux_memory aux))))
          env
          w
        ≡ some (filled r, w')
      → 32 + length r.pathname.chars + length (aux_chars r) ≤ 32767
      → IsInt err
      → Describes op flags perm_flags err ((w.vars.trecord_id + 1) % 2 ^ 32) (path_at env w d) r
        × (w'.vars ≡ record w.vars { trecord_id = (w.vars.trecord_id + 1) % 2 ^ 32 })
  fill_record-Describes h fits he =
      let id : ℕ = (w.vars.trecord_id + 1) % 2 ^ 32 in
      let path : Chars = path_at env w d in
      let (leaves, vars) =
        fill_by_type-Leaves env (switch_at env w d) op aux (second_page env w d)
          (start (type_of op) flags perm_flags err id path)
          (fill_record_switch env w d (type_of op) flags perm_flags err aux _ h) in
      (Leaves-Describes op flags perm_flags err id path r leaves fits (omega arith) he, vars)
