-- ===== src/Ctl.antt =====
-- hw2/trctl.c: the command line of the control program.
mod Hex
pub mod Valid
pub mod Print
pub mod Main
pub mod Device
unfoldable pub use Hex.*
use trace_file_system.Prelude.{
  ℕ, ◌-◌, ◌^◌, Bool, Option, none, some, List, [], ◌∷◌, same, if◌then◌else◌,
}

-- GET_BMAP or SET_BMAP, with the mount's path and the bitmap to set.
pub data Command : Type 0 where
  get_bmap : List ℕ → Command
  set_bmap : ℕ → List ℕ → Command

-- "all" and "none"
abbrev pub all_text : List ℕ
all_text = b'a' ∷ b'l' ∷ b'l' ∷ []

abbrev pub none_text : List ℕ
none_text = b'n' ∷ b'o' ∷ b'n' ∷ b'e' ∷ []

-- The bitmap of a `set`: `none` is the usage text. -1 as an unsigned long is 2 ^ 64 - 1.
unfoldable pub parse_bitmap : List ℕ → Option ℕ
unfolding isvalidhex strtoul
parse_bitmap arg =
    if same arg all_text
    then some (2 ^ 64 - 1)
    else if same arg none_text
    then some 0
    else if isvalidhex arg
    then some (strtoul arg)
    else none

abbrev set_command : Option ℕ → List ℕ → Option Command
set_command none mntpath = none
set_command (some b) mntpath = some (set_bmap b mntpath)

-- `main` up to the opening of the device: the arguments without the program's name; `none` is the
-- usage text and exit 1.
unfoldable pub parse_args : List (List ℕ) → Option Command
unfolding parse_bitmap
parse_args (mntpath ∷ []) = some (get_bmap mntpath)
parse_args (bitmap ∷ mntpath ∷ []) = set_command (parse_bitmap bitmap) mntpath
parse_args _ = none
