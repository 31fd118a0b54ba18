-- ===== src/Ctl/Valid.antt =====
-- Which texts `isvalidhex` accepts, and what `main` makes of them.
use native.Mathlib.Nat.{pow-suc, pow-le-pow_right}
use trace_file_system.Prelude.{
  ℕ, ◌+◌, ◌*◌, ◌^◌, ◌≤◌, ◌<◌, ◌≡◌, ◌⊎◌, refl, ◌↔◌, true, List, [], ◌∷◌, length, arith,
}
use trace_file_system.Ctl.Hex.{
  isxdigit, all_xdigits, isvalidhex, digit_value, xdigits_value, strtoul,
}

-- 0x or 0X, and at most 16 hexadecimal digits.
abbrev pub IsHex : List ℕ → Type 0
IsHex (z ∷ x ∷ ds) =
    (z ≡ b'0') × ((x ≡ b'x') ⊎ (x ≡ b'X')) × (length ds ≤ 16) × (all_xdigits ds ≡ true)
IsHex _ = ⊥

-- `isvalidhex` accepts exactly these texts; a text with no digit behind 0x is one of them.
pub isvalidhex_iff : (s : List ℕ) → (isvalidhex s ≡ true) ↔ IsHex s
unfolding isvalidhex
isvalidhex_iff [] = ground arith
isvalidhex_iff (z ∷ []) = ground arith
isvalidhex_iff (z ∷ x ∷ ds) = ground arith

-- The digits as a number.
abbrev pub value : ℕ → List ℕ → ℕ
value acc [] = acc
value acc (c ∷ s) = value (acc * 16 + digit_value c) s

digit_value-lt : (c : ℕ) → isxdigit c ≡ true → digit_value c < 16
digit_value-lt c h = ground arith

pub xdigits_value-value :
    (acc : ℕ) (ds : List ℕ) → all_xdigits ds ≡ true → xdigits_value acc ds ≡ value acc ds
unfolding xdigits_value
xdigits_value-value acc [] h = refl
xdigits_value-value acc (c ∷ ds) h =
    ground (arith, xdigits_value-value (acc * 16 + digit_value c) ds)

value-lt :
    (acc : ℕ) (ds : List ℕ) → all_xdigits ds ≡ true → value acc ds < (acc + 1) * 16 ^ length ds
value-lt acc [] h = omega arith
value-lt acc (c ∷ ds) h =
    let d : ℕ = digit_value c in
    let small : d < 16 = digit_value-lt c (ground arith) in
    let rest : value (acc * 16 + d) ds < (acc * 16 + d + 1) * 16 ^ length ds =
      value-lt (acc * 16 + d) ds (ground arith) in
    let wider : (acc * 16 + d + 1) * 16 ^ length ds ≤ (acc * 16 + 16) * 16 ^ length ds =
      grind arith in
    rw pow-suc (omega arith)

-- A text that is accepted is read as its digits' number, with no overflow: 0x alone is 0.
pub strtoul_valid :
    (z x : ℕ) (ds : List ℕ)
    → isvalidhex (z ∷ x ∷ ds) ≡ true
    → (strtoul (z ∷ x ∷ ds) ≡ value 0 ds) × (value 0 ds < 2 ^ 64)
unfolding strtoul isvalidhex
strtoul_valid z x [] h = ground arith
strtoul_valid z x (c ∷ ds) h =
    let small : value 0 (c ∷ ds) < 1 * 16 ^ length (c ∷ ds) = value-lt 0 (c ∷ ds) (ground arith) in
    let wide : 16 ^ length (c ∷ ds) ≤ 16 ^ 16 =
      pow-le-pow_right (omega arith) {j = 16} (ground arith) in
    ground (arith, xdigits_value-value 0 (c ∷ ds))
