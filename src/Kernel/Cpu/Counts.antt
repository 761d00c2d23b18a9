-- ===== src/Kernel/Cpu/Counts.antt =====
-- The counting loops, and whom `on_each_cpu` calls.
use Prim.Native.Nat.{bit_and}
use linuxab.Prelude.{
  ℕ, zero, suc, ◌+◌, ◌/◌, ◌%◌, ◌^◌, ◌≤◌, ◌<◌, ◌≡◌, refl, ap, ◌∙◌, inl, inr, true, false, some, ◌==◌,
  if◌then◌else◌, arith, Bool-cases,
}
use linuxab.Prelude.Bits.{nth, nth-lt, nth-zero, has_bit, has_bit-nth, and_shift}
use native.Mathlib.Nat.{pow-suc}
use linuxab.Kernel.Cpu.{Cpus, count_loop, num_online_cpus, on_each_loop, on_each_cpu}

-- How many of the first n bits are set.
abbrev ones : ℕ → ℕ → ℕ
ones zero map = 0
ones (suc n) map = ones n map + nth map n

ones_lowest : (n map : ℕ) → ones (suc n) map ≡ map % 2 + ones n (map / 2)
ones_lowest zero map = omega arith
ones_lowest (suc n) map = omega (arith, ones_lowest n map)

ones_zero : (n : ℕ) → ones n 0 ≡ 0
ones_zero zero = refl
ones_zero (suc n) = omega (arith, ones_zero n, nth-zero n)

low_bit : (map : ℕ) → bit_and map 1 ≡ map % 2
low_bit map = omega (arith, and_shift 0 map)

count_end : (fuel map count : ℕ) → map ≡ 0 → count_loop (suc fuel) map count ≡ some count
unfolding count_loop
count_end fuel map count e = let t : (map == 0) ≡ true = ground arith in rw t

count_more :
    (fuel map count : ℕ)
    → (map == 0) ≡ false
    → count_loop (suc fuel) map count ≡ count_loop fuel (map / 2) (count + bit_and map 1)
unfolding count_loop
count_more fuel map count t = rw t

count_loop-ones :
    (n map count : ℕ) → map < 2 ^ n → count_loop (suc n) map count ≡ some (count + ones n map)
count_loop-ones zero map count h = count_end 0 map count (omega arith) ∙ ap some (omega arith)
count_loop-ones (suc n) map count h = elim (Bool-cases (map == 0)) [
  | inl end ↦
      let zero_map : map ≡ 0 = ground arith in
      count_end (suc n) map count zero_map
      ∙ ap some (omega (arith, ap (ones (suc n)) zero_map, ones_zero (suc n)))
  | inr more ↦
      count_more (suc n) map count more
      ∙ count_loop-ones n (map / 2) (count + bit_and map 1) (omega (arith, pow-suc 2 n))
      ∙ ap some (omega (arith, ones_lowest n map, low_bit map))
]

-- How many processors below k are online.
pub online_below : Cpus → ℕ → ℕ
online_below c zero = 0
online_below c (suc k) = online_below c k + (if has_bit c.online k then 1 else 0)

online_below-ones : (c : Cpus) (k : ℕ) → online_below c k ≡ ones k c.online
unfolding online_below
online_below-ones c zero = refl
online_below-ones c (suc k) =
    ground (arith, online_below-ones c k, has_bit-nth c.online k, nth-lt k c.online)

-- The loop of `num_online_cpus` ends on every 32-bit map, and counts the processors that are online.
pub num_online_cpus-online_below :
    (c : Cpus) → c.online < 2 ^ 32 → num_online_cpus c ≡ some (online_below c 32)
unfolding num_online_cpus
num_online_cpus-online_below c h =
    count_loop-ones 32 c.online 0 h ∙ ap some (omega (arith, online_below-ones c 32))

-- The loop of `on_each_cpu` over processors of the map other than 0.
each_loop : (c : Cpus) (left cpu : ℕ) → 0 < cpu → cpu + left ≤ 32 → on_each_loop c left cpu ≡ some 0
unfolding on_each_loop
each_loop c zero cpu pos h = refl
each_loop c (suc left) cpu pos h =
    ground (arith, each_loop c left (cpu + 1) (omega arith) (omega arith))

each_first :
    (c : Cpus) (n : ℕ)
    → 0 < n
    → n ≤ 32
    → on_each_loop c n 0 ≡ some (if has_bit c.online 0 then 1 else 0)
unfolding on_each_loop
each_first c zero pos h = elim pos [ ]
each_first c (suc n) pos h = ground (arith, each_loop c n 1 (omega arith) (omega arith))

-- With one to 32 processor ids, `on_each_cpu` makes one call, if processor 0 is online, and none
-- otherwise: whichever other processors of the map are online, the function is not called for them.
pub on_each_cpu_lem :
    (c : Cpus)
    → 0 < c.nr_cpu_ids
    → c.nr_cpu_ids ≤ 32
    → on_each_cpu c ≡ some (if has_bit c.online 0 then 1 else 0)
unfolding on_each_cpu
on_each_cpu_lem c pos h = each_first c c.nr_cpu_ids pos h
