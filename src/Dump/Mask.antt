-- ===== src/Dump/Mask.antt =====
-- The mask of a mount (`umask`) selects the operations that are logged.
use Prim.Native.Nat.{digits, bit_and-bitwise}
use native.Mathlib.Nat.{pow-suc}
use trace_file_system.Prelude.{
  ℕ, zero, suc, ◌+◌, ◌*◌, ◌/◌, ◌%◌, ◌^◌, ◌≤◌, ℤ, ◌≡◌, ◌⊎◌, refl, some, ◌∷◌, arith, bit_and, min,
}
use trace_file_system.Exec.{Env, World}
use trace_file_system.Kernel.{Ptr, SbInfo, Trfs, Call, mutex_lock, mutex_unlock}
use trace_file_system.Dump.{Aux, fill_record, append_if_filled, log_operation}

-- The digits of `bit_and`, on enough fuel.
abbrev and_fuel : ℕ → ℕ → ℕ → ℕ
and_fuel n a b = digits (λ b. zero) min n a b

and_fuel_enough : (n m a b : ℕ) → a ≤ n → a ≤ m → and_fuel n a b ≡ and_fuel m a b
and_fuel_enough zero zero a b p q = refl
and_fuel_enough zero (suc m) zero b p q = refl
and_fuel_enough zero (suc m) (suc a) b p q = absurd (omega arith)
and_fuel_enough (suc n) zero zero b p q = refl
and_fuel_enough (suc n) zero (suc a) b p q = absurd (omega arith)
and_fuel_enough (suc n) (suc m) zero b p q = refl
and_fuel_enough (suc n) (suc m) (suc a) b p q =
    omega (arith, and_fuel_enough n m (suc a / 2) (b / 2) (omega arith) (omega arith))

bit_and_halves : (a b : ℕ) → 1 ≤ a → bit_and a b ≡ bit_and (a / 2) (b / 2) * 2 + min (a % 2) (b % 2)
bit_and_halves zero b h = absurd (omega arith)
bit_and_halves (suc a) b h = omega (
  arith,
  bit_and-bitwise (suc a) b,
  bit_and-bitwise (suc a / 2) (b / 2),
  and_fuel_enough a (suc a / 2) (suc a / 2) (b / 2) (omega arith) (omega arith),
)

bit_and-double : (p b : ℕ) → 1 ≤ p → bit_and (2 * p) b ≡ bit_and p (b / 2) * 2
bit_and-double p b h =
    let half : 2 * p / 2 ≡ p = omega arith in
    omega (arith, rw half at (bit_and_halves (2 * p) b (omega arith)))

bit_and-one : (m : ℕ) → bit_and 1 m ≡ m % 2
bit_and-one m = omega (arith, bit_and_halves 1 m (omega arith), bit_and-bitwise 0 (m / 2))

pow_pos : (k : ℕ) → 1 ≤ 2 ^ k
pow_pos zero = omega arith
pow_pos (suc k) = rw pow-suc (omega (arith, pow_pos k))

-- A single bit under a mask is that bit or nothing.
pub bit_and-pow : (k m : ℕ) → (bit_and (2 ^ k) m ≡ 0) ⊎ (bit_and (2 ^ k) m ≡ 2 ^ k)
bit_and-pow zero m = omega (arith, bit_and-one m)
bit_and-pow (suc k) m =
    let double : 2 ^ suc k ≡ 2 * 2 ^ k = rw pow-suc (omega arith) in
    rw double (omega (arith, bit_and-double (2 ^ k) m (pow_pos k), bit_and-pow k (m / 2)))

-- With the bit clear an operation takes the lock and releases it: it allocates nothing, and the
-- log, its position and the counter of records are as they were.
pub log_operation_off :
    (env : Env Call) (w : World Call Trfs) (sb : Ptr) (info : SbInfo) (type : ℕ) (d : Ptr)
    (flags perm_flags err : ℤ) (aux : Aux) (aux_len : ℤ)
    → w.vars.s_fs_info sb ≡ some info
    → bit_and type info.umask ≡ 0
    → let locked = (mutex_lock sb, env.reply (mutex_lock sb) w.trace) ∷ w.trace in
      log_operation sb type d flags perm_flags err aux aux_len env w
      ≡ some
          (tt, record w { trace = (mutex_unlock sb, env.reply (mutex_unlock sb) locked) ∷ locked })
unfolding log_operation fill_record append_if_filled
log_operation_off env w sb info type d flags perm_flags err aux aux_len mounted off = ground arith
