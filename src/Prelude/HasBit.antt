-- ===== src/Prelude/HasBit.antt =====
-- The laws of the test `(x & (1 << k)) != 0`, as Boolean equations.
use Prim.Native.Nat.{ℕ, ◌-◌, ◌≤◌, ◌<◌, ◌^◌, bit_and, bit_or}
use mathlib.Core.Path.{◌≡◌}
use mathlib.Core.Bool.{true, false, not, ◌&&◌, ◌||◌}
use native.Mathlib.Nat.{pow-le-pow_right}
use native.Mathlib.Omega.{arith}
use linuxab.Prelude.Tests.{◌==◌}
use linuxab.Prelude.Bits.{
  nth-lt, nth-zero, nth-bit_and, nth-bit_or, nth-shift, nth-complement, complement, has_bit,
  has_bit-nth,
}

pub has_bit-bit_or : (a b k : ℕ) → has_bit (bit_or a b) k ≡ (has_bit a k || has_bit b k)
has_bit-bit_or a b k = ground (
  arith,
  has_bit-nth (bit_or a b) k,
  has_bit-nth a k,
  has_bit-nth b k,
  nth-bit_or k a b,
  nth-lt k a,
  nth-lt k b,
)

pub has_bit-bit_and : (a b k : ℕ) → has_bit (bit_and a b) k ≡ (has_bit a k && has_bit b k)
has_bit-bit_and a b k = ground (
  arith,
  has_bit-nth (bit_and a b) k,
  has_bit-nth a k,
  has_bit-nth b k,
  nth-bit_and k a b,
  nth-lt k a,
  nth-lt k b,
)

pub has_bit-shift : (j k : ℕ) → has_bit (2 ^ j) k ≡ (j == k)
has_bit-shift j k = ground (arith, has_bit-nth (2 ^ j) k, nth-shift j k)

pub has_bit-zero : (k : ℕ) → has_bit 0 k ≡ false
has_bit-zero k = ground (arith, has_bit-nth 0 k, nth-zero k)

pub has_bit-complement :
    (w a k : ℕ) → a < 2 ^ w → k < w → has_bit (complement w a) k ≡ not (has_bit a k)
has_bit-complement w a k h lt =
    ground (
      arith,
      has_bit-nth (complement w a) k,
      has_bit-nth a k,
      nth-complement w k a h lt,
      nth-lt k a,
    )

pub shift-lt : (k : ℕ) → k < 32 → 2 ^ k < 2 ^ 32
shift-lt k h =
    let le : 2 ^ k ≤ 2 ^ 31 = pow-le-pow_right (omega arith) {j = 31} (omega arith) in
    omega (arith, le)

-- `x |= 1 << j` and `x &= ~(1 << j)` on a 32-bit word.
pub has_bit-raise : (a j k : ℕ) → has_bit (bit_or a (2 ^ j)) k ≡ (j == k || has_bit a k)
has_bit-raise a j k = ground (arith, has_bit-bit_or a (2 ^ j) k, has_bit-shift j k)

pub has_bit-lower :
    (a j k : ℕ)
    → j < 32
    → k < 32
    → has_bit (bit_and a (complement 32 (2 ^ j))) k ≡ (not (j == k) && has_bit a k)
has_bit-lower a j k hj hk = ground (
  arith,
  has_bit-bit_and a (complement 32 (2 ^ j)) k,
  has_bit-complement 32 (2 ^ j) k (shift-lt j hj) hk,
  has_bit-shift j k,
)

pub has_bit-ones : (k : ℕ) → k < 32 → has_bit (2 ^ 32 - 1) k ≡ true
unfolding complement
has_bit-ones k h = ground (arith, has_bit-complement 32 0 k (omega arith) h, has_bit-zero k)
