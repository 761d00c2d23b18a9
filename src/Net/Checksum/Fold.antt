-- ===== src/Net/Checksum/Fold.antt =====
-- net/af_inet.c: the loop that folds the carries of a 32-bit sum ends, and what it leaves.
use linuxab.Prelude.{
  ℕ, zero, suc, ◌+◌, ◌-◌, ◌*◌, ◌<◌, ◌≤◌, ◌%◌, ◌/◌, ◌≡◌, ◌≢◌, ◌↔◌, refl, true, false, some, ◌==◌,
  arith, ap, sym, ◌∙◌, dec_lt,
}
use linuxab.Net.Checksum.{fold_carries}

-- The nonzero representative modulo 65535, and 0 for 0.
abbrev pub folded : ℕ → ℕ
folded zero = 0
folded (suc n) = n % 65535 + 1

pub folded-lt : (s : ℕ) → folded s < 65536
folded-lt zero = omega arith
folded-lt (suc n) = omega arith

folded_small : (s : ℕ) → s < 65536 → folded s ≡ s
folded_small zero h = refl
folded_small (suc n) h = omega arith

pub folded_pos : (s : ℕ) → 0 < s → folded s ≡ (s - 1) % 65535 + 1
folded_pos zero h = absurd (omega arith)
folded_pos (suc n) h = omega arith

folded_step : (s : ℕ) → s / 65536 ≢ 0 → folded (s % 65536 + s / 65536) ≡ folded s
folded_step s h =
    let big : 65536 ≤ s = omega arith in
    omega (arith, folded_pos s, folded_pos (s % 65536 + s / 65536))

fold_done : (fuel s : ℕ) → s < 65536 → fold_carries (suc fuel) s ≡ some (folded s)
unfolding fold_carries
fold_done fuel s h =
    let t : (s / 65536 == 0) ≡ true = ground arith in
    rw (t, fold_carries) (ap some (sym (folded_small s h)))

fold_more :
    (fuel s : ℕ)
    → s / 65536 ≢ 0
    → fold_carries fuel (s % 65536 + s / 65536) ≡ some (folded (s % 65536 + s / 65536))
    → fold_carries (suc fuel) s ≡ some (folded s)
unfolding fold_carries
fold_more fuel s h e =
    let t : (s / 65536 == 0) ≡ false = ground arith in
    rw (t, fold_carries) (e ∙ ap some (folded_step s h))

-- One round leaves at most one carry, and the second none.
fold_twice : (fuel s : ℕ) → s < 131071 → fold_carries (suc (suc fuel)) s ≡ some (folded s)
fold_twice fuel s h = elim (dec_lt s 65536) [
  | yes p ↦ fold_done (suc fuel) s p
  | no p ↦
      fold_more (suc fuel) s (omega arith) (fold_done fuel (s % 65536 + s / 65536) (omega arith))
]

-- Three tests of the loop are enough for every 32-bit sum.
pub fold_carries-folded : (s : ℕ) → s < 4294967296 → fold_carries 3 s ≡ some (folded s)
fold_carries-folded s h = elim (dec_lt s 65536) [
  | yes p ↦ fold_done 2 s p
  | no p ↦ fold_more 2 s (omega arith) (fold_twice 0 (s % 65536 + s / 65536) (omega arith))
]

-- A sum and the complement of what it folds to are together a multiple of 65535.
pub folded_complement : (s : ℕ) → folded (s + (65535 - folded s)) ≡ 65535
folded_complement zero = omega (arith, folded_pos 65535)
folded_complement (suc n) = omega (arith, folded_pos (suc n + (65535 - (n % 65535 + 1))))

-- Likewise when up to 65534 carries out of 32 bits are lost, exactly when there were none.
pub folded-carries :
    (s w : ℕ)
    → s % 65535 ≡ w % 65535
    → w < 4294967296 * 65535
    → w ≤ 65536 * s
    → (folded (s + (65535 - folded (w % 4294967296))) ≡ 65535) ↔ (w < 4294967296)
folded-carries zero w h k l = let e : w ≡ 0 = omega arith in rw e ((λ _. omega arith), (λ _. refl))
folded-carries (suc n) w h k l =
    let x : ℕ = w % 4294967296 in
    let t : ℕ = suc n + (65535 - folded x) in
    let split : w ≡ x + 4294967296 * (w / 4294967296) = omega arith in
    elim (dec_lt 0 x) [
      | yes p ↦
          let f = folded_pos x p in
          let g = folded_pos t (omega (arith, folded-lt x)) in
          ((λ (e : folded t ≡ 65535). omega arith), (λ (e : w < 4294967296). omega arith))
      | no p ↦
          let z : x ≡ 0 = omega arith in
          let f : folded x ≡ 0 = ap folded z in
          let g = folded_pos t (omega arith) in
          ((λ (e : folded t ≡ 65535). omega arith), (λ (e : w < 4294967296). omega arith))
    ]
