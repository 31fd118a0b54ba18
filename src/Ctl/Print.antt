-- ===== src/Ctl/Print.antt =====
-- `get_bitmap` of hw2/trctl.c prints a bitmap that the same program accepts.
use native.Mathlib.Nat.{pow-suc}
use trace_file_system.Prelude.{
  ℕ, zero, suc, ◌+◌, ◌*◌, ◌/◌, ◌%◌, ◌^◌, ◌≤◌, ◌<◌, ◌≡◌, refl, ap, ◌∙◌, true, some, List, [], ◌∷◌,
  ◌++◌, ltb, length, length-append, arith, if◌then◌else◌, inl,
}
use trace_file_system.Ctl.{parse_bitmap, isvalidhex, isxdigit, all_xdigits, digit_value}
use trace_file_system.Ctl.Valid.{value, isvalidhex_iff, strtoul_valid}

-- A digit as printf writes it, in lower case.
abbrev digit_char : ℕ → ℕ
digit_char d = if ltb d 10 then d + 48 else d + 87

-- `%lx` for a number of at most `fuel` digits.
unfoldable pub print_digits : ℕ → ℕ → List ℕ
print_digits zero n = []
print_digits (suc fuel) n =
    let front = print_digits fuel (n / 16) in
    if ltb n 16 then digit_char n ∷ [] else front ++ (digit_char (n % 16) ∷ [])

-- What `get_bitmap` prints behind "Bitmap : ": `0x%lx`.
unfoldable pub print_bitmap : ℕ → List ℕ
unfolding print_digits
print_bitmap n = b'0' ∷ b'x' ∷ print_digits 16 n

digit_char_digit :
    (d : ℕ) → d < 16 → (isxdigit (digit_char d) ≡ true) × (digit_value (digit_char d) ≡ d)
digit_char_digit d h = ground arith

value-append :
    (acc : ℕ) (xs : List ℕ) (c : ℕ) → value acc (xs ++ (c ∷ [])) ≡ value acc xs * 16 + digit_value c
value-append acc [] c = refl
value-append acc (x ∷ xs) c = value-append (acc * 16 + digit_value x) xs c

all_xdigits-append :
    (xs : List ℕ) (c : ℕ)
    → all_xdigits xs ≡ true
    → isxdigit c ≡ true
    → all_xdigits (xs ++ (c ∷ [])) ≡ true
all_xdigits-append [] c h hc = ground arith
all_xdigits-append (x ∷ xs) c h hc = ground (arith, all_xdigits-append xs c)

print_digits_lem :
    (fuel n : ℕ)
    → n < 16 ^ fuel
    → (all_xdigits (print_digits fuel n) ≡ true)
      × (value 0 (print_digits fuel n) ≡ n)
      × (length (print_digits fuel n) ≤ fuel)
unfolding print_digits
print_digits_lem zero n h = ground arith
print_digits_lem (suc fuel) n h =
    let smaller : n / 16 < 16 ^ fuel = omega (arith, pow-suc 16 fuel) in
    let (digits, number, short) = print_digits_lem fuel (n / 16) smaller in
    ground (
      arith,
      digit_char_digit n,
      digit_char_digit (n % 16),
      digits,
      number,
      short,
      all_xdigits-append (print_digits fuel (n / 16)) (digit_char (n % 16)),
      value-append 0 (print_digits fuel (n / 16)) (digit_char (n % 16)),
      length-append (print_digits fuel (n / 16)) (digit_char (n % 16) ∷ []),
    )

-- The bitmap that `get` prints is one that `set` reads back, for every unsigned long.
pub parse_bitmap-print_bitmap : (n : ℕ) → n < 2 ^ 64 → parse_bitmap (print_bitmap n) ≡ some n
unfolding parse_bitmap print_bitmap
parse_bitmap-print_bitmap n h =
    let (digits, number, short) = print_digits_lem 16 n h in
    let accepted : isvalidhex (b'0' ∷ b'x' ∷ print_digits 16 n) ≡ true =
      (isvalidhex_iff (b'0' ∷ b'x' ∷ print_digits 16 n)).1 (refl, inl refl, short, digits) in
    let exact = strtoul_valid b'0' b'x' (print_digits 16 n) accepted in
    rw accepted (ap some (exact.0 ∙ number))
