-- ===== src/Types/Divide/Correct.antt =====
-- Both loops of `__div64_32` end, and what they compute is the Euclidean division.
use linuxab.Prelude.{
  ℕ, zero, suc, ◌+◌, ◌*◌, ◌/◌, ◌%◌, ◌^◌, ◌≤◌, ◌<◌, ◌≡◌, refl, sym, ap, ◌∙◌, inl, inr, true, false,
  some, arith, leb, ◌==◌, Bool-cases, leb→le, dec_lt,
}
use linuxab.Prelude.Bits.{pow-pos}
use native.Mathlib.Nat.{pow-suc, pow-le-pow_right, div-add-mod}
use mathlib.Core.Path.{ap₂}
use linuxab.Types.Divide.{wider, widen, subtract, reduce, reduce_high, div64_32}

wider_lem : (rem b : ℕ) → wider rem b ≡ true → b < 2 ^ 63
unfolding wider
wider_lem rem b h = ground arith

not_wider : (rem b : ℕ) → 0 < b → rem < 2 ^ 64 → wider rem b ≡ false → rem < 2 * b
unfolding wider
not_wider rem b pos hr h = ground arith

widen_more :
    (fuel rem b d : ℕ)
    → wider rem b ≡ true
    → widen (suc fuel) rem b d ≡ widen fuel rem ((b + b) % 2 ^ 64) ((d + d) % 2 ^ 64)
unfolding widen
widen_more fuel rem b d h = rw h

widen_done : (fuel rem b d : ℕ) → wider rem b ≡ false → widen (suc fuel) rem b d ≡ some (b, d)
unfolding widen
widen_done fuel rem b d h = rw h

reduce_more :
    (fuel rem res b d : ℕ)
    → (d / 2 == 0) ≡ false
    → reduce (suc fuel) rem res b d
      ≡ reduce fuel (subtract rem res b d).1 (subtract rem res b d).0 (b / 2) (d / 2)
unfolding reduce
reduce_more fuel rem res b d h = rw h

reduce_last :
    (fuel rem res base : ℕ)
    → reduce (suc fuel) rem res (base * 1) 1
      ≡ some ((subtract rem res (base * 1) 1).0, (subtract rem res (base * 1) 1).1)
unfolding reduce
reduce_last fuel rem res base = refl

-- `b` doubles in each round, so a fuel of 65 takes it past 2 ^ 64.
widen_lem :
    (fuel k base rem : ℕ)
    → 0 < base
    → rem < 2 ^ 64
    → base * 2 ^ k < 2 ^ 64
    → 2 ^ 64 ≤ base * 2 ^ k * 2 ^ fuel
    → (j : ℕ) × (widen fuel rem (base * 2 ^ k) (2 ^ k) ≡ some (base * 2 ^ j, 2 ^ j))
      × (rem < 2 * (base * 2 ^ j))
      × (base * 2 ^ j < 2 ^ 64)
widen_lem zero k base rem pos hr hb hf = absurd (omega arith)
widen_lem (suc fuel) k base rem pos hr hb hf = elim (Bool-cases (wider rem (base * 2 ^ k))) [
  | inl more ↦
      let b' : (base * 2 ^ k + base * 2 ^ k) % 2 ^ 64 ≡ base * 2 ^ suc k =
        omega (arith, wider_lem rem (base * 2 ^ k) more, double) in
      let d' : (2 ^ k + 2 ^ k) % 2 ^ 64 ≡ 2 ^ suc k =
        omega (arith, wider_lem rem (base * 2 ^ k) more, pow-suc 2 k, pow_le) in
      let (j, runs, close, fits) =
        widen_lem fuel (suc k) base rem pos hr
          (omega (arith, wider_lem rem (base * 2 ^ k) more, double))
          (omega (
            arith,
            ap (λ (t : ℕ). t * 2 ^ fuel) double,
            ap (λ (t : ℕ). base * 2 ^ k * t) (pow-suc 2 fuel),
          )) in
      (
        j,
        widen_more fuel rem (base * 2 ^ k) (2 ^ k) more ∙ ap₂ (widen fuel rem) b' d' ∙ runs,
        close,
        fits,
      )
  | inr done ↦ (
    k,
    widen_done fuel rem (base * 2 ^ k) (2 ^ k) done,
    not_wider rem (base * 2 ^ k) (omega (arith, pow_le, pow-pos k)) hr done,
    hb,
  )
]
  where
    double : base * 2 ^ suc k ≡ 2 * (base * 2 ^ k)
    double = omega (arith, ap (λ (t : ℕ). base * t) (pow-suc 2 k))

    pow_le : 2 ^ k ≤ base * 2 ^ k
    pow_le = grind arith

-- One round of the second loop.
subtract_lem :
    (base d rem res n : ℕ)
    → 0 < base
    → res * base + rem ≡ n
    → n < 2 ^ 64
    → rem < 2 * (base * d)
    → ((subtract rem res (base * d) d).0 * base + (subtract rem res (base * d) d).1 ≡ n)
      × ((subtract rem res (base * d) d).1 < base * d)
unfolding subtract
subtract_lem base d rem res n pos e hn hr = elim (Bool-cases (leb (base * d) rem)) [
  | inl le ↦
      let fits : base * d ≤ rem = leb→le (base * d) rem le in
      let scaled : res + d ≤ (res + d) * base = grind arith in
      let no_wrap : (res + d) % 2 ^ 64 ≡ res + d = omega arith in
      rw (le, no_wrap) (omega arith, omega arith)
  | inr gt ↦ rw gt (e, ground arith)
]

reduce_lem :
    (k fuel base rem res n : ℕ)
    → 0 < base
    → k < fuel
    → res * base + rem ≡ n
    → n < 2 ^ 64
    → rem < 2 * (base * 2 ^ k)
    → (q r : ℕ) × (reduce fuel rem res (base * 2 ^ k) (2 ^ k) ≡ some (q, r))
      × (q * base + r ≡ n)
      × (r < base)
reduce_lem k zero base rem res n pos h e hn hr = elim h [ ]
reduce_lem zero (suc fuel) base rem res n pos h e hn hr =
    let (total, small) = subtract_lem base 1 rem res n pos e hn hr in
    (
      (subtract rem res (base * 1) 1).0,
      (subtract rem res (base * 1) 1).1,
      reduce_last fuel rem res base,
      total,
      omega (arith, small),
    )
reduce_lem (suc k) (suc fuel) base rem res n pos h e hn hr =
    let (total, small) = subtract_lem base (2 ^ suc k) rem res n pos e hn hr in
    let d' : 2 ^ suc k / 2 ≡ 2 ^ k = omega (arith, pow-suc 2 k) in
    let b' : base * 2 ^ suc k / 2 ≡ base * 2 ^ k = omega (arith, double) in
    let d_pos : (2 ^ suc k / 2 == 0) ≡ false = ground (arith, d', pow-pos k) in
    let (q, r, runs, total', small') =
      reduce_lem k fuel base (subtract rem res (base * 2 ^ suc k) (2 ^ suc k)).1
        (subtract rem res (base * 2 ^ suc k) (2 ^ suc k)).0 n pos (omega arith) total hn
        (omega (arith, small, double)) in
    (
      q,
      r,
      reduce_more fuel rem res (base * 2 ^ suc k) (2 ^ suc k) d_pos
          ∙ ap₂
              (reduce fuel (subtract rem res (base * 2 ^ suc k) (2 ^ suc k)).1
                (subtract rem res (base * 2 ^ suc k) (2 ^ suc k)).0)
              b' d'
          ∙ runs,
      total',
      small',
    )
  where
    double : base * 2 ^ suc k ≡ 2 * (base * 2 ^ k)
    double = omega (arith, ap (λ (t : ℕ). base * t) (pow-suc 2 k))

-- The first step takes off the multiples of 2 ^ 32 times the base, and wraps nowhere.
reduce_high_lem :
    (n base : ℕ)
    → 0 < base
    → n < 2 ^ 64
    → base < 2 ^ 32
    → ((reduce_high n base).0 * base + (reduce_high n base).1 ≡ n)
      × ((reduce_high n base).1 < 2 ^ 64)
unfolding reduce_high
reduce_high_lem n base pos hn hb = elim (Bool-cases (leb base (n / 2 ^ 32))) [
  | inl le ↦
      let part : n / 2 ^ 32 / base * base ≤ n / 2 ^ 32 =
        omega (arith, div-add-mod (n / 2 ^ 32) base) in
      let scaled : n / 2 ^ 32 / base ≤ n / 2 ^ 32 / base * base = grind arith in
      let fits : n / 2 ^ 32 / base * 2 ^ 32 % 2 ^ 64 ≡ n / 2 ^ 32 / base * 2 ^ 32 = omega arith in
      let fits' : (n / 2 ^ 32 / base * base % 2 ^ 32) * 2 ^ 32 % 2 ^ 64
          ≡ n / 2 ^ 32 / base * base * 2 ^ 32 =
        omega arith in
      rw (le, fits, fits') (omega arith, omega arith)
  | inr gt ↦ rw gt (omega arith, hn)
]

le_scaled : (a b : ℕ) → 0 < a → b ≤ a * b
le_scaled a b h = grind arith

exponent_small : (j base : ℕ) → 0 < base → base * 2 ^ j < 2 ^ 64 → j < 64
exponent_small j base pos h = elim (dec_lt j 64) [
  | yes lt ↦ lt
  | no ge ↦
      let big : 2 ^ 64 ≤ 2 ^ j = pow-le-pow_right (omega arith) {i = 64} (omega arith) in
      absurd (omega (arith, big, le_scaled base (2 ^ j) pos))
]

-- The two loops, put together by the code.
div64_32_runs :
    (n base b d q r : ℕ)
    → widen 65 (reduce_high n base).1 base 1 ≡ some (b, d)
    → reduce 65 (reduce_high n base).1 (reduce_high n base).0 b d ≡ some (q, r)
    → div64_32 n base ≡ some (q, r % 2 ^ 32)
unfolding div64_32
div64_32_runs n base b d q r w e = cc

-- For every 64-bit dividend and every nonzero 32-bit base both loops end, the quotient left in `*n`
-- and the returned remainder make up the dividend, and the remainder is below the base.
pub div64_32_correct :
    (n base : ℕ)
    → n < 2 ^ 64
    → 0 < base
    → base < 2 ^ 32
    → (q r : ℕ) × (div64_32 n base ≡ some (q, r)) × (q * base + r ≡ n) × (r < base)
div64_32_correct n base hn pos hb =
    let (total, small) = reduce_high_lem n base pos hn hb in
    let one : base * 2 ^ 0 ≡ base = omega arith in
    let (j, wide, close, fits) =
      widen_lem 65 0 base (reduce_high n base).1 pos small (omega arith) (omega arith) in
    let (q, r, runs, e, lt) =
      reduce_lem j 65 base (reduce_high n base).1 (reduce_high n base).0 n pos
        (omega (arith, exponent_small j base pos fits)) total hn close in
    let truncated : r % 2 ^ 32 ≡ r = omega arith in
    let first : widen 65 (reduce_high n base).1 base 1 ≡ some (base * 2 ^ j, 2 ^ j) =
      ap (λ b. widen 65 (reduce_high n base).1 b 1) (sym one) ∙ wide in
    (
      q,
      r,
      div64_32_runs n base (base * 2 ^ j) (2 ^ j) q r first runs ∙ ap (λ k. some (q, k)) truncated,
      e,
      lt,
    )
