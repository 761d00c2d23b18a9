-- ===== src/Kernel/Cpu/Maps.antt =====
-- Bringing processors up and down.
use linuxab.Prelude.{
  ℕ, ◌≤◌, ◌<◌, ◌≡◌, refl, Bool, true, false, not, some, ◌==◌, if◌then◌else◌, ◌&&◌, arith,
}
use linuxab.Prelude.Bits.{has_bit}
use linuxab.Prelude.HasBit.{has_bit-raise, has_bit-lower}
use linuxab.Kernel.Cpu.{
  Cpus, cpu_init, in_map, cpu_online, set_map, set_cpu_online, cpu_up, cpu_down, nr_cpus,
}

set_map_lem :
    (map cpu k : ℕ) (on : Bool)
    → cpu < 32
    → k < 32
    → has_bit (set_map map cpu on) k ≡ (if cpu == k then on else has_bit map k)
unfolding set_map
set_map_lem map cpu k true h hk = ground (arith, has_bit-raise map cpu k)
set_map_lem map cpu k false h hk = ground (arith, has_bit-lower map cpu k h hk)

-- `set_cpu_online` changes the state of that processor alone, for the 32 processors of the map.
pub set_cpu_online-cpu_online :
    (c : Cpus) (cpu k : ℕ) (on : Bool)
    → cpu < 32
    → k < 32
    → cpu_online (set_cpu_online c cpu on) k ≡ (if cpu == k then some on else cpu_online c k)
unfolding cpu_online set_cpu_online in_map
set_cpu_online-cpu_online c cpu k on h hk = ground (arith, set_map_lem c.online cpu k on h hk)

up_result :
    (c : Cpus) (cpu : ℕ) (up : Bool)
    → cpu_online c cpu ≡ some up
    → cpu_up c cpu ≡ some (not up, if up then c else set_cpu_online c cpu true)
unfolding cpu_up
up_result c cpu up e = ground arith

down_result :
    (c : Cpus) (cpu : ℕ) (up : Bool)
    → cpu_online c cpu ≡ some up
    → cpu_down c cpu
      ≡ some (up && not (cpu == 0), if up && not (cpu == 0) then set_cpu_online c cpu false else c)
unfolding cpu_down
down_result c cpu up e = ground arith

-- A processor's state, found under an equal number.
same_online :
    (c : Cpus) (cpu k : ℕ) (up : Bool)
    → cpu_online c cpu ≡ some up
    → cpu ≡ k
    → cpu_online c k ≡ some up
same_online c cpu k up e same = cc

-- Of the processors below 32, `cpu_up` succeeds exactly on one that is down and `cpu_down` exactly on
-- one that is up and is not processor 0. Behind `cpu_up` the processor is up; behind `cpu_down` it is
-- down, unless it is processor 0. The state of no other processor below 32 changes.
pub cpu_up-cpu_down :
    (c : Cpus) (cpu k : ℕ) (up : Bool)
    → cpu < 32
    → k < 32
    → cpu_online c cpu ≡ some up
    → (d e : Cpus) × (cpu_up c cpu ≡ some (not up, d))
      × (cpu_down c cpu ≡ some (up && not (cpu == 0), e))
      × (cpu_online d k ≡ (if cpu == k then some true else cpu_online c k))
      × (cpu_online e k ≡ (if cpu == k && not (cpu == 0) then some false else cpu_online c k))
cpu_up-cpu_down c cpu k up h hk e = (
  (if up then c else set_cpu_online c cpu true),
  (if up && not (cpu == 0) then set_cpu_online c cpu false else c),
  up_result c cpu up e,
  down_result c cpu up e,
  ground (arith, set_cpu_online-cpu_online c cpu k true h hk, same_online c cpu k up e),
  ground (arith, set_cpu_online-cpu_online c cpu k false h hk, same_online c cpu k up e),
)

-- The calls of the hotplug code, in any order.
pub data Step : Cpus → Cpus → Type 0 where
  up : (c d : Cpus) (cpu : ℕ) (ok : Bool) → cpu_up c cpu ≡ some (ok, d) → Step c d
  down : (c d : Cpus) (cpu : ℕ) (ok : Bool) → cpu_down c cpu ≡ some (ok, d) → Step c d

pub data Reach (c : Cpus) : Cpus → Type 0 where
  here : Reach c c
  next : {d e : Cpus} → Reach c d → Step d e → Reach c e

boot_online : cpu_online cpu_init 0 ≡ some true
unfolding cpu_online cpu_init has_bit
boot_online = refl

up_keeps :
    (c d : Cpus) (cpu : ℕ) (ok : Bool)
    → cpu_online c 0 ≡ some true
    → cpu_up c cpu ≡ some (ok, d)
    → cpu_online d 0 ≡ some true
unfolding cpu_up in_map set_map
up_keeps c d cpu ok h r = ground (arith, has_bit-raise c.online cpu 0)

down_keeps :
    (c d : Cpus) (cpu : ℕ) (ok : Bool)
    → cpu_online c 0 ≡ some true
    → cpu_down c cpu ≡ some (ok, d)
    → cpu_online d 0 ≡ some true
unfolding cpu_down in_map set_map
down_keeps c d cpu ok h r = ground (arith, has_bit-lower c.online cpu 0)

-- From boot on, by any sequence of successful and failed hotplug calls, processor 0 stays online.
pub boot_cpu_online : {c : Cpus} → Reach cpu_init c → cpu_online c 0 ≡ some true
boot_cpu_online here = boot_online
boot_cpu_online (next r (up c d cpu ok h)) = up_keeps c d cpu ok (boot_cpu_online r) h
boot_cpu_online (next r (down c d cpu ok h)) = down_keeps c d cpu ok (boot_cpu_online r) h

-- On a number from NR_CPUS on, `cpu_up` reports success though nothing changes.
pub cpu_up_beyond :
    (c : Cpus) (cpu : ℕ)
    → nr_cpus ≤ cpu
    → (cpu_up c cpu ≡ some (true, c)) × (cpu_online c cpu ≡ some false)
unfolding cpu_up cpu_online set_cpu_online in_map set_map
cpu_up_beyond c cpu h = (ground arith, ground arith)
