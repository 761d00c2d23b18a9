-- ===== src/Tests/Cpus.antt =====
-- kernel/cpu.c at concrete inputs.
use linuxab.Prelude.{◌≡◌, refl, true, false, not, ◌&&◌, some, ◌==◌, if◌then◌else◌, arith}
use linuxab.Kernel.Cpu.{
  Cpus, cpu_init, cpu_online, cpu_up, cpu_down, in_map, set_cpu_online, set_map,
}
use linuxab.Kernel.Cpu.Maps.{cpu_up-cpu_down}
use linuxab.Prelude.Bits.{has_bit}

-- Four processors of which 0 and 2 are online.
abbrev some_cpus : Cpus
some_cpus = record { online = 5; present = 15; active = 5; possible = 15; nr_cpu_ids = 4 }

two_online : cpu_online some_cpus 2 ≡ some true
unfolding cpu_online in_map has_bit
two_online = refl

cpu_up-cpu_down_example :
    (d e : Cpus) × (cpu_up some_cpus 2 ≡ some (false, d))
    × (cpu_down some_cpus 2 ≡ some (true, e))
    × (cpu_online d 0 ≡ (if 2 == 0 then some true else cpu_online some_cpus 0))
    × (cpu_online e 0 ≡ (if 2 == 0 && not (2 == 0) then some false else cpu_online some_cpus 0))
cpu_up-cpu_down_example = cpu_up-cpu_down some_cpus 2 0 true (omega arith) (omega arith) two_online

abbrev with_one : Cpus
with_one = record cpu_init { online = 3 }

up_one : cpu_up cpu_init 1 ≡ some (true, with_one)
unfolding cpu_up cpu_online in_map cpu_init set_cpu_online set_map has_bit
up_one = refl
