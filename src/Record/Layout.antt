-- ===== src/Record/Layout.antt =====
-- The bytes of a record in the log, and the fields read back from memory as treplay does: through
-- a `struct tr_record *` into its buffer. A read past the buffer is `none`.
use trace_file_system.Prelude.{
  ℕ, ℤ, List, ◌∷◌, ◌++◌, Option, none, some, signed16, signed32, word16, word32,
}
use trace_file_system.Record.{TrRecord, header, aux_chars}

-- What is in the log for a record: header, path without its NUL, auxiliary data.
unfoldable pub image : TrRecord → List ℕ
image r = header r ++ (r.pathname.chars ++ aux_chars r)

-- The fields that stand in the log.
pub record Fields : Type 0 where
  pub rec_id : ℕ
  pub rec_flags : ℕ
  pub perm_flags : ℕ
  pub result : ℤ
  pub rec_size : ℤ
  pub path_len : ℤ
  pub type : ℕ
  pub aux_len : ℤ

abbrev pub fields : TrRecord → Fields
fields r = record {
  rec_id = r.rec_id;
  rec_flags = r.rec_flags;
  perm_flags = r.perm_flags;
  result = r.result;
  rec_size = r.rec_size;
  path_len = r.path_len;
  type = r.type;
  aux_len = r.aux_len;
}

-- The 32 bytes at `(struct tr_record *)buf`, read as fields.
unfoldable pub read_fields : List ℕ → Option Fields
read_fields
      (a0 ∷ a1 ∷ a2 ∷ a3 ∷ b0 ∷ b1 ∷ b2 ∷ b3 ∷ c0 ∷ c1 ∷ c2 ∷ c3 ∷ d0 ∷ d1 ∷ d2 ∷ d3 ∷ e0 ∷ e1 ∷ f0
        ∷ f1 ∷ g0 ∷ g1 ∷ g2 ∷ g3 ∷ h0 ∷ h1 ∷ p0 ∷ p1 ∷ p2 ∷ p3 ∷ p4 ∷ p5 ∷ rest) =
    some (record {
      rec_id = word32 a0 a1 a2 a3;
      rec_flags = word32 b0 b1 b2 b3;
      perm_flags = word32 c0 c1 c2 c3;
      result = signed32 (word32 d0 d1 d2 d3);
      rec_size = signed16 (word16 e0 e1);
      path_len = signed16 (word16 f0 f1);
      type = word32 g0 g1 g2 g3;
      aux_len = signed16 (word16 h0 h1);
    })
read_fields _ = none
