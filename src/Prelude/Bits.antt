-- ===== src/Prelude/Bits.antt =====
-- The bits of a machine word.
use zenbench.Prelude.{
  ℕ, zero, suc, ◌+◌, ◌*◌, ◌/◌, ◌%◌, ◌<◌, ◌≡◌, refl, ◌∙◌, ap, Bool, false, max, ◌==◌, ◌||◌, arith,
}

-- `word & (1 << k) != 0`
abbrev pub bit : ℕ → ℕ → Bool
bit word zero = word % 2 == 1
bit word (suc k) = bit (word / 2) k

-- `1 << k`
abbrev pub one_bit : ℕ → ℕ
one_bit zero = 1
one_bit (suc k) = 2 * one_bit k

-- `a | b`, of the lowest `bits` bits
abbrev pub or_bits : ℕ → ℕ → ℕ → ℕ
or_bits zero a b = 0
or_bits (suc bits) a b = max (a % 2) (b % 2) + 2 * or_bits bits (a / 2) (b / 2)

-- `a & !b`, of the lowest `bits` bits
abbrev pub and_not : ℕ → ℕ → ℕ → ℕ
and_not zero a b = 0
and_not (suc bits) a b = (a % 2) * ((b % 2 + 1) % 2) + 2 * and_not bits (a / 2) (b / 2)

-- `word.count_ones()`, of the lowest `bits` bits
abbrev pub count_ones : ℕ → ℕ → ℕ
count_ones zero word = 0
count_ones (suc bits) word = word % 2 + count_ones bits (word / 2)

pub bit-zero : (k : ℕ) → bit 0 k ≡ false
bit-zero zero = refl
bit-zero (suc k) = bit-zero k

half : (low rest : ℕ) → low < 2 → (low + 2 * rest) / 2 ≡ rest
half low rest h = omega (arith, h)

halved : (n : ℕ) → (2 * n) / 2 ≡ n
halved n = omega arith

pub bit-one_bit : (c k : ℕ) → bit (one_bit c) k ≡ (c == k)
bit-one_bit zero zero = refl
bit-one_bit zero (suc k) = bit-zero k ∙ ground arith
bit-one_bit (suc c) zero = ground arith
bit-one_bit (suc c) (suc k) =
    ap (λ w. bit w k) (halved (one_bit c)) ∙ bit-one_bit c k ∙ ground arith

pub bit-or_bits : (bits a b k : ℕ) → k < bits → bit (or_bits bits a b) k ≡ (bit a k || bit b k)
bit-or_bits zero a b k h = absurd (omega (arith, h))
bit-or_bits (suc bits) a b zero h = ground arith
bit-or_bits (suc bits) a b (suc k) h =
    ap (λ w. bit w k) (half (max (a % 2) (b % 2)) (or_bits bits (a / 2) (b / 2)) (omega arith))
    ∙ bit-or_bits bits (a / 2) (b / 2) k (omega (arith, h))
