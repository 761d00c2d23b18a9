-- ===== src/Net/Checksum/Verify.antt =====
-- net/af_inet.c, net/ip_output.c, net/ip_input.c: what the receiver's test of the checksum says of the
-- header that each of the two routines filled.
use linuxab.Prelude.{
  ℕ, suc, ◌+◌, ◌-◌, ◌*◌, ◌<◌, ◌≤◌, ◌%◌, ◌/◌, ◌≡◌, ◌≢◌, ◌↔◌, arith, ap, ◌∙◌, some, sym, subst,
}
use mathlib.Core.Option
use linuxab.Net.Skb.{Memory}
use linuxab.Net.Checksum.{inverted, set_check, ip_compute_csum, ip_fast_csum, fold_carries}
use linuxab.Net.Checksum.Fold.{
  folded, folded-lt, folded_complement, folded-carries, fold_carries-folded,
}
use linuxab.Net.Checksum.Sums.{
  AreBytes, halves_sum, words_sum, halves_sum-le, words_sum-lt, add_halves-halves_sum,
  add_words-words_sum, add_words-lt, words_sum-halves_sum, words_sum-le, halves_sum-agree,
  halves_sum_split, halves_sum-suc,
}

pub set_check-other :
    (a c : ℕ) (m : Memory) (i : ℕ) → i ≢ a + 10 → i ≢ a + 11 → set_check a c m i ≡ m i
unfolding set_check
set_check-other a c m i h k = ground arith

pub set_check-AreBytes :
    (a c : ℕ) (m : Memory) → c < 65536 → AreBytes m → AreBytes (set_check a c m)
unfolding set_check
set_check-AreBytes a c m h bytes i = ground (arith, bytes i)

-- The field adds its value to the sum.
halves_sum-set_check_at :
    (a c k : ℕ) (m : Memory)
    → halves_sum (set_check a c m) a (5 + suc k) ≡ halves_sum (set_check a 0 m) a (5 + suc k) + c
unfolding set_check
halves_sum-set_check_at a c k m =
    let m1 : Memory = set_check a c m in
    let m0 : Memory = set_check a 0 m in
    let same : (i : ℕ) → i ≢ a + 10 → i ≢ a + 11 → m1 i ≡ m0 i = λ i p q. ground arith in
    let lo : m1 (a + 2 * 5) ≡ c % 256 = ground arith in
    let hi : m1 (a + 2 * 5 + 1) ≡ c / 256 = ground arith in
    let lo0 : m0 (a + 2 * 5) ≡ 0 = ground arith in
    let hi0 : m0 (a + 2 * 5 + 1) ≡ 0 = ground arith in
    omega (
      arith,
      halves_sum_split m1 a 5 (suc k),
      halves_sum_split m0 a 5 (suc k),
      halves_sum-agree m1 m0 a 5 (λ i p q. same i (omega arith) (omega arith)),
      halves_sum-suc m1 (a + 2 * 5) k,
      halves_sum-suc m0 (a + 2 * 5) k,
      halves_sum-agree m1 m0 (a + 2 * 5 + 2) k (λ i p q. same i (omega arith) (omega arith)),
    )

halves_sum-set_check :
    (a c n : ℕ) (m : Memory)
    → 6 ≤ n
    → halves_sum (set_check a c m) a n ≡ halves_sum (set_check a 0 m) a n + c
halves_sum-set_check a c n m h =
    let e : 5 + suc (n - 6) ≡ n = omega arith in
    subst (λ t. halves_sum (set_check a c m) a t ≡ halves_sum (set_check a 0 m) a t + c) e
      (halves_sum-set_check_at a c (n - 6) m)

-- What the two routines compute, on bytes and for lengths whose sum of halves does not wrap.
ip_compute_csum-folded :
    (m : Memory) (a n : ℕ)
    → AreBytes m
    → n < 65538
    → ip_compute_csum m a (2 * n) ≡ some (65535 - folded (halves_sum m a n))
unfolding ip_compute_csum
ip_compute_csum-folded m a n bytes h =
    let small : halves_sum m a n < 4294967296 = omega (arith, halves_sum-le m a n bytes) in
    ap (λ s. Option.map inverted (fold_carries 3 s))
      (add_halves-halves_sum m a n 0 (omega arith)
        ∙ (let e : 0 + halves_sum m a n ≡ halves_sum m a n = omega arith in e))
    ∙ ap (Option.map inverted) (fold_carries-folded (halves_sum m a n) small)
    ∙ ap some (omega (arith, folded-lt (halves_sum m a n)))

ip_fast_csum-folded :
    (m : Memory) (a n : ℕ)
    → ip_fast_csum m a n ≡ some (65535 - folded (words_sum m a n % 4294967296))
unfolding ip_fast_csum
ip_fast_csum-folded m a n =
    ap (λ s. Option.map inverted (fold_carries 3 s))
      (omega (arith, add_words-words_sum m a n 0, add_words-lt m a n 0 (omega arith)))
    ∙ ap (Option.map inverted) (fold_carries-folded (words_sum m a n % 4294967296) (omega arith))
    ∙ ap some (omega (arith, folded-lt (words_sum m a n % 4294967296)))

-- The sums are of 32 bits, so that the loop always ends; the checksum has 16.
pub ip_fast_csum-some :
    (m : Memory) (a n : ℕ) → (c : ℕ) × (ip_fast_csum m a n ≡ some c) × (c < 65536)
ip_fast_csum-some m a n =
    (65535 - folded (words_sum m a n % 4294967296), ip_fast_csum-folded m a n, omega arith)

-- With its field filled by `ip_compute_csum` over the block with a zero field, a block of bytes whose
-- length is even, 12 at least and at most 131074 passes the test for a checksum of 0.
pub ip_compute_csum_verifies :
    (a n : ℕ) (m : Memory)
    → AreBytes m
    → 6 ≤ n
    → n < 65538
    → (c : ℕ) × (ip_compute_csum (set_check a 0 m) a (2 * n) ≡ some c)
      × (ip_compute_csum (set_check a c m) a (2 * n) ≡ some 0)
ip_compute_csum_verifies a n m bytes h small =
    let s : ℕ = halves_sum (set_check a 0 m) a n in
    let c : ℕ = 65535 - folded s in
    (
      c,
      ip_compute_csum-folded (set_check a 0 m) a n (set_check-AreBytes a 0 m (omega arith) bytes)
          small,
      ip_compute_csum-folded (set_check a c m) a n (set_check-AreBytes a c m (omega arith) bytes)
            small
          ∙ ap some (
              let t : halves_sum (set_check a c m) a n ≡ s + c = halves_sum-set_check a c n m h in
              rw t (omega (arith, folded_complement s))),
    )

-- With its field filled by `ip_fast_csum`, a header of five to fifteen words passes the receiver's test
-- exactly when the sum of its words, with a zero field, fits in 32 bits.
pub ip_fast_csum_verifies :
    (a ihl : ℕ) (m : Memory)
    → AreBytes m
    → 5 ≤ ihl
    → ihl < 16
    → (c : ℕ) × (ip_fast_csum (set_check a 0 m) a ihl ≡ some c)
      × ((ip_compute_csum (set_check a c m) a (ihl * 4) ≡ some 0)
          ↔ (words_sum (set_check a 0 m) a ihl < 4294967296))
ip_fast_csum_verifies a ihl m bytes h small =
    let m0 : Memory = set_check a 0 m in
    let w : ℕ = words_sum m0 a ihl in
    let c : ℕ = 65535 - folded (w % 4294967296) in
    let bytes0 : AreBytes m0 = set_check-AreBytes a 0 m (omega arith) bytes in
    let sum : halves_sum (set_check a c m) a (2 * ihl) ≡ halves_sum m0 a (2 * ihl) + c =
      halves_sum-set_check a c (2 * ihl) m (omega arith) in
    let value : ip_compute_csum (set_check a c m) a (ihl * 4)
        ≡ some (65535 - folded (halves_sum m0 a (2 * ihl) + c)) =
      ap (ip_compute_csum (set_check a c m) a) (omega arith)
      ∙ ip_compute_csum-folded (set_check a c m) a (2 * ihl)
          (set_check-AreBytes a c m (omega arith) bytes) (omega arith)
      ∙ ap (λ t. some (65535 - folded t)) sum in
    let carries =
      folded-carries (halves_sum m0 a (2 * ihl)) w (sym (words_sum-halves_sum m0 a ihl))
        (omega (arith, words_sum-lt m0 a ihl bytes0)) (words_sum-le m0 a ihl) in
    let bound = folded-lt (halves_sum m0 a (2 * ihl) + c) in
    (
      c,
      ip_fast_csum-folded m0 a ihl,
      (
        (λ (e : ip_compute_csum (set_check a c m) a (ihl * 4) ≡ some 0).
            carries.0 (ground (arith, value))),
        (λ (e : w < 4294967296). value ∙ ap some (omega (arith, carries.1 e))),
      ),
    )
