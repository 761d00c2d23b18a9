-- ===== src/Kernel/Cpu.antt =====
-- kernel/cpu.c: the maps of online, present, active and possible processors, the notifier chain and
-- the calls on other processors. A map is a 32-bit word, and `1U << cpu` is undefined from 32 on: the
-- `none` of `cpu_online` and of what uses it. A negative processor number fails the same tests as
-- one at NR_CPUS and is not modelled.
pub mod Maps
pub mod Counts
pub mod Notify
use Prim.Native.Nat.{bit_and, bit_or}
use linuxab.Prelude.{
  ℕ, zero, suc, ◌+◌, ◌-◌, ◌/◌, ◌%◌, ◌^◌, Bool, true, false, not, Option, none, some, List, [], ◌∷◌,
  ltb, leb, ◌==◌, if◌then◌else◌,
}
use linuxab.Prelude.Bits.{complement, has_bit}

abbrev pub nr_cpus : ℕ
nr_cpus = 256

pub record Cpus : Type 0 where
  pub online : ℕ
  pub present : ℕ
  pub active : ℕ
  pub possible : ℕ
  pub nr_cpu_ids : ℕ

-- The part of `cpu_init` that sets the maps.
unfoldable pub cpu_init : Cpus
cpu_init = record { online = 1; present = 1; active = 1; possible = 1; nr_cpu_ids = 1 }

-- The body that `cpu_online`, `cpu_present`, `cpu_active` and `cpu_possible` share.
unfoldable pub in_map : ℕ → ℕ → Option Bool
in_map map cpu =
    if leb nr_cpus cpu then some false else if leb 32 cpu then none else some (has_bit map cpu)

unfoldable pub cpu_online : Cpus → ℕ → Option Bool
unfolding in_map
cpu_online c cpu = in_map c.online cpu

pub cpu_present : Cpus → ℕ → Option Bool
unfolding in_map
cpu_present c cpu = in_map c.present cpu

pub cpu_active : Cpus → ℕ → Option Bool
unfolding in_map
cpu_active c cpu = in_map c.active cpu

pub cpu_possible : Cpus → ℕ → Option Bool
unfolding in_map
cpu_possible c cpu = in_map c.possible cpu

-- `while (map) { count += map & 1; map >>= 1; }`; `none` is fuel that has run out.
pub count_loop : ℕ → ℕ → ℕ → Option ℕ
count_loop zero map count = none
count_loop (suc fuel) map count =
    let more = count_loop fuel (map / 2) (count + bit_and map 1) in
    if map == 0 then some count else more

-- The loop takes a round for each bit of the word at most.
pub num_online_cpus : Cpus → Option ℕ
num_online_cpus c = count_loop 33 c.online 0

pub num_present_cpus : Cpus → Option ℕ
num_present_cpus c = count_loop 33 c.present 0

pub num_active_cpus : Cpus → Option ℕ
num_active_cpus c = count_loop 33 c.active 0

pub num_possible_cpus : Cpus → Option ℕ
num_possible_cpus c = count_loop 33 c.possible 0

pub get_cpu_mask : ℕ → ℕ
get_cpu_mask cpu = if leb 32 cpu then 0 else 2 ^ cpu

-- The body that `set_cpu_online` and `set_cpu_present` share.
unfoldable pub set_map : ℕ → ℕ → Bool → ℕ
set_map map cpu on =
    if leb 32 cpu
    then map
    else if on
    then bit_or map (2 ^ cpu)
    else bit_and map (complement 32 (2 ^ cpu))

unfoldable pub set_cpu_online : Cpus → ℕ → Bool → Cpus
unfolding set_map
set_cpu_online c cpu on = record c { online = set_map c.online cpu on }

pub set_cpu_present : Cpus → ℕ → Bool → Cpus
unfolding set_map
set_cpu_present c cpu on = record c { present = set_map c.present cpu on }

-- `true` is the result 0, `false` is -1.
unfoldable pub cpu_up : Cpus → ℕ → Option (Bool × Cpus)
unfolding cpu_online set_cpu_online
cpu_up c cpu = elim (cpu_online c cpu) [
  | none ↦ none
  | some up ↦ some (if up then (false, c) else (true, set_cpu_online c cpu true))
]

pub cpu_down : Cpus → ℕ → Option (Bool × Cpus)
unfolding cpu_online set_cpu_online
cpu_down c cpu = elim (cpu_online c cpu) [
  | none ↦ none
  | some up ↦ some (
      if not up
      then (false, c)
      else if cpu == 0
      then (false, c)
      else (true, set_cpu_online c cpu false))
]

-- A notifier is its function of the action; the chain is the list from `head` on.
abbrev pub Notifier : Type 0
Notifier = ℕ → ℕ

pub register_cpu_notifier : Notifier → List Notifier → List Notifier
register_cpu_notifier nb chain = nb ∷ chain

-- The loop of `cpu_notify`, with the number of calls made beside the last result.
pub cpu_notify : ℕ → List Notifier → ℕ → ℕ × ℕ
cpu_notify val [] ret = (ret, 0)
cpu_notify val (nb ∷ chain) ret =
    let (r, calls) = cpu_notify val chain (nb val) in
    if bit_and (nb val) 1 == 0 then (r, calls + 1) else (nb val, 1)

-- How often `func` is called: on another processor than 0 it is not.
unfoldable pub smp_call_function_single : Cpus → ℕ → Option (Bool × ℕ)
unfolding cpu_online
smp_call_function_single c cpu = elim (cpu_online c cpu) [
  | none ↦ none
  | some up ↦ some (if not up then (false, 0) else (true, if cpu == 0 then 1 else 0))
]

-- The loop of `on_each_cpu` over the processors from `cpu` on: how often `func` is called.
unfoldable pub on_each_loop : Cpus → ℕ → ℕ → Option ℕ
unfolding cpu_online smp_call_function_single
on_each_loop c zero cpu = some 0
on_each_loop c (suc left) cpu =
    let rest = on_each_loop c left (cpu + 1) in
    elim (cpu_online c cpu) [
      | none ↦ none
      | some up ↦ elim rest [
        | none ↦ none
        | some n ↦
            if not up
            then some n
            else elim (smp_call_function_single c cpu) [ none ↦ none | some (ok, k) ↦ some (k + n) ]
      ]
    ]

unfoldable pub on_each_cpu : Cpus → Option ℕ
unfolding on_each_loop
on_each_cpu c = on_each_loop c c.nr_cpu_ids 0
