-- ===== src/Types/Divide.antt =====
-- rust/types.c: `__div64_32`, `div64_u64`. `none` is a loop that has run out of fuel.
pub mod Correct
use linuxab.Prelude.{
  ℕ, Bool, zero, suc, ◌+◌, ◌-◌, ◌*◌, ◌/◌, ◌%◌, ◌^◌, Option, none, some, ltb, leb, ◌==◌,
  if◌then◌else◌, ◌&&◌,
}
use mathlib.Core.Option

-- `(int64_t)b > 0 && b < rem`: the sign bit of `b` is clear below 2 ^ 63.
pub wider : ℕ → ℕ → Bool
wider rem b = ltb 0 b && ltb b (2 ^ 63) && ltb b rem

-- `while ((int64_t)b > 0 && b < rem) { b = b + b; d = d + d; }`
pub widen : ℕ → ℕ → ℕ → ℕ → Option (ℕ × ℕ)
widen zero rem b d = none
widen (suc fuel) rem b d =
    let more = widen fuel rem ((b + b) % 2 ^ 64) ((d + d) % 2 ^ 64) in
    if wider rem b then more else some (b, d)

-- `if (rem >= b) { rem -= b; res += d; }`: the new `res` and `rem`
pub subtract : ℕ → ℕ → ℕ → ℕ → ℕ × ℕ
subtract rem res b d = if leb b rem then ((res + d) % 2 ^ 64, rem - b) else (res, rem)

-- `do { ...; b >>= 1; d >>= 1; } while (d);`
pub reduce : ℕ → ℕ → ℕ → ℕ → ℕ → Option (ℕ × ℕ)
reduce zero rem res b d = none
reduce (suc fuel) rem res b d =
    let (res', rem') = subtract rem res b d in
    let more = reduce fuel rem' res' (b / 2) (d / 2) in
    if d / 2 == 0 then some (res', rem') else more

-- "Reduce the thing a bit first": the quotient and the remainder after that step. `high * base` is
-- computed in 32 bits.
pub reduce_high : ℕ → ℕ → ℕ × ℕ
reduce_high n base =
    let high = n / 2 ^ 32 in
    let high' = high / base in
    if leb base high
    then (high' * 2 ^ 32 % 2 ^ 64, n - (high' * base % 2 ^ 32) * 2 ^ 32 % 2 ^ 64)
    else (0, n)

-- The quotient, left in `*n`, and the remainder, which is returned. The loops take at most 64 rounds.
pub div64_32 : ℕ → ℕ → Option (ℕ × ℕ)
div64_32 n base =
    let (res, rem) = reduce_high n base in
    elim (widen 65 rem base 1) [
      | none ↦ none
      | some (b, d) ↦ Option.map (λ (p : ℕ × ℕ). (p.0, p.1 % 2 ^ 32)) (reduce 65 rem res b d)
    ]

-- Division by zero is reported and answered with 0.
unfoldable pub div64_u64 : ℕ → ℕ → ℕ
div64_u64 dividend divisor = if divisor == 0 then 0 else dividend / divisor
