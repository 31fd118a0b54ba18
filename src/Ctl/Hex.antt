-- ===== src/Ctl/Hex.antt =====
-- `isvalidhex` of hw2/trctl.c, and what it and `main` use of the C library on ASCII text.
use trace_file_system.Prelude.{
  ℕ, zero, suc, ◌+◌, ◌-◌, ◌*◌, ◌^◌, Bool, true, false, not, ◌&&◌, ◌||◌, List, [], ◌∷◌, ◌==◌, ltb,
  leb, length, drop, min, if◌then◌else◌,
}

-- `s[i]` of a string: the NUL behind its end is 0.
abbrev pub char_at : List ℕ → ℕ → ℕ
char_at [] i = 0
char_at (c ∷ s) zero = c
char_at (c ∷ s) (suc i) = char_at s i

abbrev pub isxdigit : ℕ → Bool
isxdigit c = leb 48 c && leb c 57 || leb 65 c && leb c 70 || leb 97 c && leb c 102

abbrev pub tolower : ℕ → ℕ
tolower c = if leb 65 c && leb c 90 then c + 32 else c

-- the loop of `isvalidhex`, over the characters from index 2 on
abbrev pub all_xdigits : List ℕ → Bool
all_xdigits [] = true
all_xdigits (c ∷ s) = let rest = all_xdigits s in if not (isxdigit c) then false else rest

unfoldable pub isvalidhex : List ℕ → Bool
isvalidhex hex =
    if ltb 18 (length hex)
    then false
    else char_at hex 0 == b'0' && tolower (char_at hex 1) == b'x' && all_xdigits (drop 2 hex)

-- The value of a hexadecimal digit.
abbrev pub digit_value : ℕ → ℕ
digit_value c = if leb c 57 then c - 48 else if leb c 70 then c - 55 else c - 87

-- The number of the longest prefix of digits, behind the digits that make `acc`.
unfoldable pub xdigits_value : ℕ → List ℕ → ℕ
xdigits_value acc [] = acc
xdigits_value acc (c ∷ s) =
    let rest = xdigits_value (acc * 16 + digit_value c) s in if isxdigit c then rest else acc

-- `strtoul(s, NULL, 16)` of a text that begins with a digit: the prefix 0x is skipped in front of a
-- digit, and a number that is too large gives ULONG_MAX.
unfoldable pub strtoul : List ℕ → ℕ
unfolding xdigits_value
strtoul s =
    let prefixed = char_at s 0 == b'0' && tolower (char_at s 1) == b'x' && isxdigit (char_at s 2) in
    min (2 ^ 64 - 1) (xdigits_value 0 (if prefixed then drop 2 s else s))
