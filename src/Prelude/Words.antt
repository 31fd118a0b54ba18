-- ===== src/Prelude/Words.antt =====
-- C's integer conversions on x86-64 and their bytes in memory, lowest first.
use Prim.Native.Nat.{ℕ, ◌+◌, ◌-◌, ◌*◌, ◌/◌, ◌%◌, ◌≤◌, ◌<◌}
use mathlib.Core.Path.{◌≡◌}
use mathlib.Core.List.{List, [], ◌∷◌}
use native.Mathlib.Omega.{arith}
use trace_file_system.Prelude.Tests.{ltb, if◌then◌else◌}
use trace_file_system.Prelude.Int.{ℤ, pos, negsuc, pos_part, neg_part}

-- The bit pattern that a conversion to a 16-bit integer keeps, and the `short` with that pattern.
unfoldable pub low16 : ℤ → ℕ
low16 (pos n) = n % 65536
low16 (negsuc n) = 65535 - n % 65536

unfoldable pub signed16 : ℕ → ℤ
signed16 w = if ltb w 32768 then pos w else negsuc (65535 - w)

-- `(short)x`
unfoldable pub to_short : ℤ → ℤ
unfolding low16 signed16
to_short x = signed16 (low16 x)

unfoldable pub low32 : ℤ → ℕ
low32 (pos n) = n % 4294967296
low32 (negsuc n) = 4294967295 - n % 4294967296

unfoldable pub signed32 : ℕ → ℤ
signed32 w = if ltb w 2147483648 then pos w else negsuc (4294967295 - w)

-- `(int)x`
unfoldable pub to_int : ℤ → ℤ
unfolding low32 signed32
to_int x = signed32 (low32 x)

abbrev pub IsShort : ℤ → Type 0
IsShort x = (pos_part x ≤ 32767) × (neg_part x ≤ 32768)

abbrev pub IsInt : ℤ → Type 0
IsInt x = (pos_part x ≤ 2147483647) × (neg_part x ≤ 2147483648)

pub to_short_of_IsShort : (x : ℤ) → IsShort x → to_short x ≡ x
unfolding to_short
to_short_of_IsShort x h = ground arith

pub to_int_of_IsInt : (x : ℤ) → IsInt x → to_int x ≡ x
unfolding to_int
to_int_of_IsInt x h = ground arith

pub to_int-IsInt : (x : ℤ) → IsInt (to_int x)
unfolding to_int low32 signed32
to_int-IsInt x = ground arith

pub low16-lt : (x : ℤ) → low16 x < 65536
unfolding low16
low16-lt x = ground arith

pub low32-lt : (x : ℤ) → low32 x < 4294967296
unfolding low32
low32-lt x = ground arith

-- The bytes of a 16-bit and of a 32-bit word, and the words read back from them.
unfoldable pub bytes16 : ℕ → List ℕ
bytes16 w = w % 256 ∷ w / 256 ∷ []

unfoldable pub bytes32 : ℕ → List ℕ
bytes32 w = w % 256 ∷ w / 256 % 256 ∷ w / 65536 % 256 ∷ w / 16777216 ∷ []

unfoldable pub word16 : ℕ → ℕ → ℕ
word16 a b = a + 256 * b

unfoldable pub word32 : ℕ → ℕ → ℕ → ℕ → ℕ
word32 a b c d = a + 256 * b + 65536 * c + 16777216 * d
