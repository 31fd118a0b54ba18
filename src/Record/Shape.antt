-- ===== src/Record/Shape.antt =====
-- Records whose fields fit their C types and describe what follows the header.
use trace_file_system.Prelude.{
  ℕ, ◌+◌, ◌/◌, ◌%◌, ◌<◌, ℤ, pos, ◌≡◌, refl, List, ◌++◌, some, arith, length, length-append, ap, sym,
  ◌∙◌, low16, low32, signed16, signed32, bytes16, bytes32, word16, word32, IsShort, IsInt, low32-lt,
}
use trace_file_system.Record.{TrRecord, header, aux_chars}
use trace_file_system.Record.Layout.{image, fields, read_fields}

-- Each field is in the range of its type.
pub record IsRecord (r : TrRecord) : Type 0 where
  pub rec_id : r.rec_id < 4294967296
  pub rec_flags : r.rec_flags < 4294967296
  pub perm_flags : r.perm_flags < 4294967296
  pub type : r.type < 4294967296
  pub result : IsInt r.result
  pub rec_size : IsShort r.rec_size
  pub path_len : IsShort r.path_len
  pub aux_len : IsShort r.aux_len

-- The three lengths are those of the 32-byte header, the path and the auxiliary data.
pub record IsSized (r : TrRecord) : Type 0 where
  pub path_len : r.path_len ≡ pos (length r.pathname.chars)
  pub aux_len : r.aux_len ≡ pos (length (aux_chars r))
  pub rec_size : r.rec_size ≡ pos (32 + length r.pathname.chars + length (aux_chars r))

word32-bytes :
    (w : ℕ) → w < 4294967296 → word32 (w % 256) (w / 256 % 256) (w / 65536 % 256) (w / 16777216) ≡ w
unfolding word32
word32-bytes w h = omega arith

signed32-low32 :
    (x : ℤ)
    → IsInt x
    → signed32
        (word32 (low32 x % 256) (low32 x / 256 % 256) (low32 x / 65536 % 256) (low32 x / 16777216))
      ≡ x
unfolding signed32 low32
signed32-low32 x h = rw (word32-bytes (low32 x) (low32-lt x)) (ground arith)

signed16-low16 : (x : ℤ) → IsShort x → signed16 (word16 (low16 x % 256) (low16 x / 256)) ≡ x
unfolding signed16 low16 word16
signed16-low16 x h = ground arith

-- The eight fields of a record whose fields are in the range of their types are read back from the
-- bytes of its header, whatever follows.
pub read_fields-header :
    (r : TrRecord) (rest : List ℕ) → IsRecord r → read_fields (header r ++ rest) ≡ some (fields r)
unfolding read_fields header bytes32 bytes16
read_fields-header r rest h = rw (
  word32-bytes r.rec_id h.rec_id,
  word32-bytes r.rec_flags h.rec_flags,
  word32-bytes r.perm_flags h.perm_flags,
  word32-bytes r.type h.type,
  signed32-low32 r.result h.result,
  signed16-low16 r.rec_size h.rec_size,
  signed16-low16 r.path_len h.path_len,
  signed16-low16 r.aux_len h.aux_len,
)

pub length-header : (r : TrRecord) → length (header r) ≡ 32
unfolding header bytes32 bytes16
length-header r = refl

-- The size field counts the bytes of the record in the log.
pub length-image : (r : TrRecord) → IsSized r → pos (length (image r)) ≡ r.rec_size
unfolding image
length-image r h = sym (h.rec_size ∙ ap pos parts)
  where
    parts : 32 + length r.pathname.chars + length (aux_chars r) ≡ length (image r)
    parts = omega (
      arith,
      length-append (header r) (r.pathname.chars ++ aux_chars r),
      length-append r.pathname.chars (aux_chars r),
      length-header r,
    )
