-- ===== src/Prelude/Bits.antt =====
-- Bits of machine words: what `&`, `|`, `~` and `1 << k` do to each bit. A word is a native number;
-- `nth a i` is its bit `i`, as 0 or 1.
use Prim.Native.Nat.{
  ℕ, zero, suc, ◌+◌, ◌-◌, ◌*◌, ◌/◌, ◌%◌, ◌^◌, ◌≤◌, ◌<◌, min, max, bit_and, bit_or, digits,
  bit_and-bitwise, bit_or-bitwise,
}
use mathlib.Core.Path.{◌≡◌, refl, ◌∙◌, ap}
use mathlib.Core.Bool.{Bool, not}
use mathlib.Core.Logic.{◌⊎◌, inl, inr, ◌↔◌}
use native.Mathlib.Nat.{pow-suc}
use native.Mathlib.Omega.{arith}
use linuxab.Prelude.Tests.{◌==◌, if◌then◌else◌}

abbrev pub nth : ℕ → ℕ → ℕ
nth a zero = a % 2
nth a (suc i) = nth (a / 2) i

pub nth-lt : (i a : ℕ) → nth a i < 2
nth-lt zero a = omega arith
nth-lt (suc i) a = nth-lt i (a / 2)

pub bit_cases : (i a : ℕ) → (nth a i ≡ 0) ⊎ (nth a i ≡ 1)
bit_cases i a = omega (arith, nth-lt i a)

pub nth-zero : (i : ℕ) → nth 0 i ≡ 0
nth-zero zero = refl
nth-zero (suc i) = nth-zero i

-- A digitwise operation: `rest b` once the first word has run out, `bit` on each pair of digits.
module _ (rest : ℕ → ℕ) (bit : ℕ → ℕ → ℕ) where
  more_fuel : (m n a b : ℕ) → a ≤ m → m ≤ n → digits rest bit n a b ≡ digits rest bit m a b
  more_fuel zero zero a b p q = refl
  more_fuel zero (suc n) zero b p q = refl
  more_fuel zero (suc n) (suc a) b p q = absurd (omega arith)
  more_fuel (suc m) zero a b p q = absurd (omega arith)
  more_fuel (suc m) (suc n) zero b p q = refl
  more_fuel (suc m) (suc n) (suc a) b p q =
      omega (arith, more_fuel m n (suc a / 2) (b / 2) (omega arith) (omega arith))

  -- With the fuel that the native operations take, the lowest digit splits off.
  split_lowest :
      ((b : ℕ) → rest b ≡ rest (b / 2) * 2 + bit 0 (b % 2))
      → (a b : ℕ)
      → digits rest bit a a b ≡ digits rest bit (a / 2) (a / 2) (b / 2) * 2 + bit (a % 2) (b % 2)
  split_lowest law zero b = law b
  split_lowest law (suc a) b =
      omega (arith, more_fuel (suc a / 2) a (suc a / 2) (b / 2) (omega arith) (omega arith))

and_split : (a b : ℕ) → bit_and a b ≡ bit_and (a / 2) (b / 2) * 2 + min (a % 2) (b % 2)
and_split a b = omega (
  arith,
  bit_and-bitwise a b,
  bit_and-bitwise (a / 2) (b / 2),
  split_lowest (λ _. 0) min (λ b. omega arith) a b,
)

or_split : (a b : ℕ) → bit_or a b ≡ bit_or (a / 2) (b / 2) * 2 + max (a % 2) (b % 2)
or_split a b = omega (
  arith,
  bit_or-bitwise a b,
  bit_or-bitwise (a / 2) (b / 2),
  split_lowest (λ b. b) max (λ b. omega arith) a b,
)

pub nth-bit_and : (i a b : ℕ) → nth (bit_and a b) i ≡ min (nth a i) (nth b i)
nth-bit_and zero a b = omega (arith, and_split a b)
nth-bit_and (suc i) a b =
    ap (λ x. nth x i)
      (let e : bit_and a b / 2 ≡ bit_and (a / 2) (b / 2) = omega (arith, and_split a b) in e)
    ∙ nth-bit_and i (a / 2) (b / 2)

pub nth-bit_or : (i a b : ℕ) → nth (bit_or a b) i ≡ max (nth a i) (nth b i)
nth-bit_or zero a b = omega (arith, or_split a b)
nth-bit_or (suc i) a b =
    ap (λ x. nth x i)
      (let e : bit_or a b / 2 ≡ bit_or (a / 2) (b / 2) = omega (arith, or_split a b) in e)
    ∙ nth-bit_or i (a / 2) (b / 2)

-- `1 << k` has bit `k` alone.
pub nth-shift : (k i : ℕ) → nth (2 ^ k) i ≡ (if k == i then 1 else 0)
nth-shift zero zero = refl
nth-shift zero (suc i) = ground (arith, nth-zero i)
nth-shift (suc k) zero = grind (arith, pow-suc 2 k)
nth-shift (suc k) (suc i) =
    let e : 2 ^ suc k / 2 ≡ 2 ^ k = omega (arith, pow-suc 2 k) in
    rw e (ground (arith, nth-shift k i))

-- `~x` at width `w`
unfoldable pub complement : ℕ → ℕ → ℕ
complement w x = 2 ^ w - 1 - x

pub nth-complement : (w i x : ℕ) → x < 2 ^ w → i < w → nth (complement w x) i ≡ 1 - nth x i
unfolding complement
nth-complement (suc w) zero x h lt = omega (arith, pow-suc 2 w)
nth-complement (suc w) (suc i) x h lt =
    ap (λ y. nth y i)
      (let e : (2 ^ suc w - 1 - x) / 2 ≡ 2 ^ w - 1 - x / 2 = omega (arith, pow-suc 2 w) in e)
    ∙ nth-complement w i (x / 2) (omega (arith, pow-suc 2 w)) (omega arith)
nth-complement zero i x h lt = absurd (omega arith)

and_digits_zero : (n a : ℕ) → digits (λ _. 0) min n a 0 ≡ 0
and_digits_zero zero a = refl
and_digits_zero (suc n) zero = refl
and_digits_zero (suc n) (suc a) = omega (arith, and_digits_zero n (suc a / 2))

-- `x & (1 << k)` is bit `k` in its place.
pub and_shift : (k a : ℕ) → bit_and a (2 ^ k) ≡ nth a k * 2 ^ k
and_shift zero a =
    omega (arith, and_split a 1, bit_and-bitwise (a / 2) 0, and_digits_zero (a / 2) (a / 2))
and_shift (suc k) a =
    let e : 2 ^ suc k / 2 ≡ 2 ^ k = omega (arith, pow-suc 2 k) in
    omega (
      arith,
      and_split a (2 ^ suc k),
      ap (bit_and (a / 2)) e,
      and_shift k (a / 2),
      pow-suc 2 k,
      ap (λ (t : ℕ). nth (a / 2) k * t) (pow-suc 2 k),
    )

pub pow-pos : (k : ℕ) → 0 < 2 ^ k
pow-pos zero = omega arith
pow-pos (suc k) = omega (arith, pow-suc 2 k, pow-pos k)

-- The test `(x & (1 << k)) != 0` reads bit `k`.
unfoldable pub has_bit : ℕ → ℕ → Bool
has_bit a k = not (bit_and a (2 ^ k) == 0)

pub has_bit-nth : (a k : ℕ) → has_bit a k ≡ (nth a k == 1)
unfolding has_bit
has_bit-nth a k = elim (bit_cases k a) [
  | inl e ↦
      let m : bit_and a (2 ^ k) ≡ 0 = omega (arith, and_shift k a ∙ ap (λ t. t * 2 ^ k) e) in
      rw (m, e)
  | inr e ↦
      let m : bit_and a (2 ^ k) ≡ 2 ^ k = omega (arith, and_shift k a ∙ ap (λ t. t * 2 ^ k) e) in
      rw (m, e) (ground (arith, pow-pos k))
]

pub bit_and-lt : (w a b : ℕ) → a < 2 ^ w → bit_and a b < 2 ^ w
bit_and-lt zero a b h = let e : a ≡ 0 = omega arith in rw (e, bit_and-bitwise 0 b) (omega arith)
bit_and-lt (suc w) a b h =
    omega
      (arith, and_split a b, pow-suc 2 w, bit_and-lt w (a / 2) (b / 2) (omega (arith, pow-suc 2 w)))

pub bit_or-lt : (w a b : ℕ) → a < 2 ^ w → b < 2 ^ w → bit_or a b < 2 ^ w
bit_or-lt zero a b h k = let e : a ≡ 0 = omega arith in rw (e, bit_or-bitwise 0 b) (omega arith)
bit_or-lt (suc w) a b h k = omega (
  arith,
  or_split a b,
  pow-suc 2 w,
  bit_or-lt w (a / 2) (b / 2) (omega (arith, pow-suc 2 w)) (omega (arith, pow-suc 2 w)),
)

-- `x & (p | q)` is zero only when `x & p` and `x & q` are.
pub and_or_zero :
    (w a p q : ℕ)
    → a < 2 ^ w
    → (bit_and a (bit_or p q) ≡ 0) ↔ ((bit_and a p ≡ 0) × (bit_and a q ≡ 0))
and_or_zero zero a p q h =
    let e : a ≡ 0 = omega arith in
    rw (e, bit_and-bitwise 0 p, bit_and-bitwise 0 q, bit_and-bitwise 0 (bit_or p q))
      ((λ _. (refl, refl)), (λ _. refl))
and_or_zero (suc w) a p q h =
    let ih = and_or_zero w (a / 2) (p / 2) (q / 2) (omega (arith, pow-suc 2 w)) in
    let o = or_split p q in
    let half : bit_or p q / 2 ≡ bit_or (p / 2) (q / 2) = omega (arith, o) in
    let low : bit_or p q % 2 ≡ max (p % 2) (q % 2) = omega (arith, o) in
    let whole = and_split a (bit_or p q) in
    let mid = ap (bit_and (a / 2)) half in
    (
      (λ (e : bit_and a (bit_or p q) ≡ 0).
          let (l, r) = ih.0 (omega (arith, whole, mid)) in
          (
            omega (arith, and_split a p, whole, low, l),
            omega (arith, and_split a q, whole, low, r),
          )),
      (λ (e : (bit_and a p ≡ 0) × (bit_and a q ≡ 0)).
          let z = ih.1 (omega (arith, and_split a p, e.0), omega (arith, and_split a q, e.1)) in
          omega (arith, whole, low, mid, z, and_split a p, and_split a q, e.0, e.1)),
    )
