-- ===== src/Prelude/Word.antt =====
-- Arithmetic of `u64` and of the 64-bit `usize`: checked, saturating and wrapping operations.
-- A word is a natural number below `2 ^ 64`; the bound is a hypothesis or a field of an invariant.
use Prim.Native.Nat.{ℕ, zero, suc, ◌+◌, ◌-◌, ◌*◌, ◌/◌, ◌%◌, ◌^◌, min}
use mathlib.Core.Option.{Option, none, some}
use zenbench.Prelude.Bools.{ltb, leb, if◌then◌else◌}

abbrev pub u64_mod : ℕ
u64_mod = 2 ^ 64

-- `a.checked_add(b)`
abbrev pub checked_add : ℕ → ℕ → Option ℕ
checked_add a b = if ltb (a + b) u64_mod then some (a + b) else none

-- `a.checked_sub(b)`
abbrev pub checked_sub : ℕ → ℕ → Option ℕ
checked_sub a b = if leb b a then some (a - b) else none

-- `a.checked_mul(b)`
abbrev pub checked_mul : ℕ → ℕ → Option ℕ
checked_mul a b = if ltb (a * b) u64_mod then some (a * b) else none

-- `a.saturating_mul(b)`
abbrev pub saturating_mul : ℕ → ℕ → ℕ
saturating_mul a b = min (a * b) (u64_mod - 1)

-- `a.wrapping_add(b)`
abbrev pub wrapping_add : ℕ → ℕ → ℕ
wrapping_add a b = (a + b) % u64_mod

-- `a.wrapping_mul(b)`
abbrev pub wrapping_mul : ℕ → ℕ → ℕ
wrapping_mul a b = (a * b) % u64_mod

-- `a.wrapping_neg()`
abbrev pub wrapping_neg : ℕ → ℕ
wrapping_neg a = (u64_mod - a) % u64_mod

-- The exclusive or of the lowest `bits` bits.
abbrev pub xor_bits : ℕ → ℕ → ℕ → ℕ
xor_bits zero a b = 0
xor_bits (suc bits) a b = (a % 2 + b % 2) % 2 + 2 * xor_bits bits (a / 2) (b / 2)

-- `a ^ b`
abbrev pub xor : ℕ → ℕ → ℕ
xor a b = xor_bits 64 a b
