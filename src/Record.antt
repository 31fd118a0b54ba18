-- ===== src/Record.antt =====
-- trfs/tr_types.h: the operation types and `struct tr_record`, with its layout in memory.
pub mod Layout
pub mod Shape
use trace_file_system.Prelude.{
  ℕ, ◌+◌, ◌*◌, ◌^◌, ◌/◌, ◌%◌, ℤ, List, [], ◌∷◌, ◌++◌, Option, none, some, low16, low32, bytes16,
  bytes32,
}

-- enum rec_type
abbrev pub tr_fcreat : ℕ
tr_fcreat = 2 ^ 0

abbrev pub tr_fread : ℕ
tr_fread = 2 ^ 1

abbrev pub tr_fwrite : ℕ
tr_fwrite = 2 ^ 2

abbrev pub tr_dcreat : ℕ
tr_dcreat = 2 ^ 10

abbrev pub tr_dread : ℕ
tr_dread = 2 ^ 11

abbrev pub tr_rename : ℕ
tr_rename = 2 ^ 20

abbrev pub tr_link : ℕ
tr_link = 2 ^ 21

abbrev pub tr_symlink : ℕ
tr_symlink = 2 ^ 22

abbrev pub tr_unlink : ℕ
tr_unlink = 2 ^ 23

-- A `char *`: the address of the memory block that it points into, and what it points to, up to
-- its NUL or its length.
pub record Chars : Type 0 where
  pub block : ℤ
  pub chars : List ℕ

-- struct tr_record: `short` and `int32_t` fields are integers, `uint32_t` fields numbers, and a
-- NULL `aux` is `none`.
pub record TrRecord : Type 0 where
  pub rec_id : ℕ
  pub rec_flags : ℕ
  pub perm_flags : ℕ
  pub result : ℤ
  pub rec_size : ℤ
  pub path_len : ℤ
  pub type : ℕ
  pub aux_len : ℤ
  pub pathname : Chars
  pub aux : Option Chars

-- sizeof(struct tr_record), sizeof(char *) and sizeof(...) - 2 * sizeof(char *), on x86-64
abbrev pub sizeof_record : ℕ
sizeof_record = 48

abbrev pub sizeof_pointer : ℕ
sizeof_pointer = 8

-- The bytes of the fields in front of the two pointers: offsets 0, 4, 8, 12, 16, 18, 20, 24, then
-- six bytes of padding, which `fill_record` has cleared.
unfoldable pub header : TrRecord → List ℕ
header r =
    bytes32 r.rec_id
    ++ (bytes32 r.rec_flags
        ++ (bytes32 r.perm_flags
            ++ (bytes32 (low32 r.result)
                ++ (bytes16 (low16 r.rec_size)
                    ++ (bytes16 (low16 r.path_len)
                        ++ (bytes32 r.type
                            ++ (bytes16 (low16 r.aux_len) ++ (0 ∷ 0 ∷ 0 ∷ 0 ∷ 0 ∷ 0 ∷ []))))))))

abbrev pub chars_of : Option Chars → List ℕ
chars_of none = []
chars_of (some a) = a.chars

abbrev pub aux_chars : TrRecord → List ℕ
aux_chars r = chars_of r.aux
