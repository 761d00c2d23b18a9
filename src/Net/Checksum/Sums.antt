-- ===== src/Net/Checksum/Sums.antt =====
-- net/af_inet.c: the sums behind the two checksums without their wrap-around, and how they relate.
use linuxab.Prelude.{ℕ, zero, suc, ◌+◌, ◌*◌, ◌<◌, ◌≤◌, ◌%◌, ◌≡◌, refl, arith, ap, ◌∙◌}
use linuxab.Net.Skb.{Memory}
use linuxab.Net.Checksum.{half, word, add_halves, add_words}

abbrev pub AreBytes : Memory → Type 0
AreBytes m = (i : ℕ) → m i < 256

-- The sum of `n` halves, and of `n` words, from an address on.
pub halves_sum : Memory → ℕ → ℕ → ℕ
halves_sum m a zero = 0
halves_sum m a (suc n) = half m a + halves_sum m (a + 2) n

pub words_sum : Memory → ℕ → ℕ → ℕ
words_sum m a zero = 0
words_sum m a (suc n) = word m a + words_sum m (a + 4) n

upper_sum : Memory → ℕ → ℕ → ℕ
upper_sum m a zero = 0
upper_sum m a (suc n) = half m (a + 2) + upper_sum m (a + 4) n

half-lt : (m : Memory) (a : ℕ) → AreBytes m → half m a < 65536
half-lt m a bytes = omega (arith, bytes a, bytes (a + 1))

pub halves_sum-le : (m : Memory) (a n : ℕ) → AreBytes m → halves_sum m a n ≤ 65535 * n
unfolding halves_sum
halves_sum-le m a zero bytes = omega arith
halves_sum-le m a (suc n) bytes = omega (arith, half-lt m a bytes, halves_sum-le m (a + 2) n bytes)

pub words_sum-lt : (m : Memory) (a n : ℕ) → AreBytes m → words_sum m a n ≤ 4294967295 * n
unfolding words_sum
words_sum-lt m a zero bytes = omega arith
words_sum-lt m a (suc n) bytes =
    omega (arith, half-lt m a bytes, half-lt m (a + 2) bytes, words_sum-lt m (a + 4) n bytes)

-- Fewer than 65538 halves do not wrap.
pub add_halves-halves_sum :
    (m : Memory) (a n sum : ℕ)
    → sum + halves_sum m a n < 4294967296
    → add_halves m a (2 * n) sum ≡ sum + halves_sum m a n
unfolding add_halves halves_sum
add_halves-halves_sum m a zero sum h = omega arith
add_halves-halves_sum m a (suc n) sum h =
    let e : 2 * suc n ≡ suc (suc (2 * n)) = omega arith in
    let s : (sum + half m a) % 4294967296 ≡ sum + half m a = omega arith in
    ap (λ k. add_halves m a k sum) e
    ∙ ap (λ t. add_halves m (a + 2) (2 * n) t) s
    ∙ add_halves-halves_sum m (a + 2) n (sum + half m a) (omega arith)
    ∙ omega arith

-- The words wrap: what is left is the remainder.
pub add_words-words_sum :
    (m : Memory) (a n sum : ℕ)
    → add_words m a n sum % 4294967296 ≡ (sum + words_sum m a n) % 4294967296
unfolding add_words words_sum
add_words-words_sum m a zero sum = omega arith
add_words-words_sum m a (suc n) sum =
    omega (arith, add_words-words_sum m (a + 4) n ((sum + word m a) % 4294967296))

pub add_words-lt : (m : Memory) (a n sum : ℕ) → sum < 4294967296 → add_words m a n sum < 4294967296
unfolding add_words
add_words-lt m a zero sum h = h
add_words-lt m a (suc n) sum h =
    add_words-lt m (a + 4) n ((sum + word m a) % 4294967296) (omega arith)

-- A word is its two halves, and 65535 times the upper one.
words-halves :
    (m : Memory) (a n : ℕ) → words_sum m a n ≡ halves_sum m a (2 * n) + 65535 * upper_sum m a n
unfolding words_sum halves_sum upper_sum
words-halves m a zero = omega arith
words-halves m a (suc n) =
    let e : 2 * suc n ≡ suc (suc (2 * n)) = omega arith in
    let f : a + 2 + 2 ≡ a + 4 = omega arith in
    let g : halves_sum m a (2 * suc n)
        ≡ half m a + (half m (a + 2) + halves_sum m (a + 4) (2 * n)) =
      ap (halves_sum m a) e ∙ ap (λ k. half m a + (half m (a + 2) + halves_sum m k (2 * n))) f in
    omega (arith, g, words-halves m (a + 4) n)

upper_sum-le : (m : Memory) (a n : ℕ) → upper_sum m a n ≤ halves_sum m a (2 * n)
unfolding halves_sum upper_sum
upper_sum-le m a zero = omega arith
upper_sum-le m a (suc n) =
    let e : 2 * suc n ≡ suc (suc (2 * n)) = omega arith in
    let f : a + 2 + 2 ≡ a + 4 = omega arith in
    let g : halves_sum m a (2 * suc n)
        ≡ half m a + (half m (a + 2) + halves_sum m (a + 4) (2 * n)) =
      ap (halves_sum m a) e ∙ ap (λ k. half m a + (half m (a + 2) + halves_sum m k (2 * n))) f in
    omega (arith, g, upper_sum-le m (a + 4) n)

pub words_sum-le : (m : Memory) (a n : ℕ) → words_sum m a n ≤ 65536 * halves_sum m a (2 * n)
words_sum-le m a n = omega (arith, words-halves m a n, upper_sum-le m a n)

pub words_sum-halves_sum :
    (m : Memory) (a n : ℕ) → words_sum m a n % 65535 ≡ halves_sum m a (2 * n) % 65535
words_sum-halves_sum m a n = omega (arith, words-halves m a n)

-- A sum reads only the bytes it is over.
pub halves_sum-agree :
    (m m' : Memory) (a n : ℕ)
    → ((i : ℕ) → a ≤ i → i < a + 2 * n → m i ≡ m' i)
    → halves_sum m a n ≡ halves_sum m' a n
unfolding halves_sum
halves_sum-agree m m' a zero h = refl
halves_sum-agree m m' a (suc n) h = omega (
  arith,
  h a (omega arith) (omega arith),
  h (a + 1) (omega arith) (omega arith),
  halves_sum-agree m m' (a + 2) n (λ i p q. h i (omega arith) (omega arith)),
)

pub halves_sum_split :
    (m : Memory) (a j k : ℕ)
    → halves_sum m a (j + k) ≡ halves_sum m a j + halves_sum m (a + 2 * j) k
unfolding halves_sum
halves_sum_split m a zero k =
    let e : a + 2 * 0 ≡ a = omega arith in
    let f : 0 + k ≡ k = omega arith in rw (e, f) (omega arith)
halves_sum_split m a (suc j) k =
    let e : a + 2 * suc j ≡ a + 2 + 2 * j = omega arith in
    let f : suc j + k ≡ suc (j + k) = omega arith in
    rw (e, f) (omega (arith, halves_sum_split m (a + 2) j k))

pub halves_sum-suc :
    (m : Memory) (a n : ℕ) → halves_sum m a (suc n) ≡ half m a + halves_sum m (a + 2) n
unfolding halves_sum
halves_sum-suc m a n = refl
