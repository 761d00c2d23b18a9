-- ===== src/Net/Device.antt =====
-- net/dev.c, net/dev.h: the list of network devices and what is sent through one. The `next` and the name
-- of a device are functions of its address, and the address 0 is NULL. A name is the list of its
-- characters up to the NUL. `init` of a device is what its callback returns, with `none` for a device that
-- has no such callback; the callbacks change nothing here. A walk along the list takes fuel.
pub mod Chain
pub mod Register
pub mod Unlink
use linuxab.Prelude.{
  ℕ, zero, suc, ◌+◌, ◌-◌, Bool, true, false, not, Option, none, some, List, [], ◌∷◌, ◌++◌, ◌==◌,
  ◌&&◌, if◌then◌else◌,
}
use linuxab.Prelude.Bits.{has_bit}
use linuxab.Types.Text.{Text, write_number}
use linuxab.Net.Queue.{put}

pub record Devices : Type 0 where
  pub next : ℕ → ℕ
  pub name : ℕ → Text
  pub dev_base : ℕ
  pub dev_count : ℕ

-- `!strcmp(a, b)`
pub same_text : Text → Text → Bool
same_text [] [] = true
same_text [] (d ∷ t) = false
same_text (c ∷ s) [] = false
same_text (c ∷ s) (d ∷ t) = c == d && same_text s t

-- `snprintf(dev->name, IFNAMSIZ, "eth%d", dev_count)`; ten digits fit in the field.
pub eth_name : ℕ → Text
eth_name n = elim (write_number 32 false n 10) [
  | none ↦ b'e' ∷ b't' ∷ b'h' ∷ []
  | some digits ↦ b'e' ∷ b't' ∷ b'h' ∷ digits
]

-- `for (dev = dev_base; dev; dev = dev->next) if (!strcmp(dev->name, name)) return dev;` from a device
-- on. `none` is fuel that has run out.
pub find_name : ℕ → Devices → ℕ → Text → Option ℕ
find_name zero s dev name = none
find_name (suc fuel) s dev name = elim (dev == 0) [
  | true ↦ some 0
  | false ↦ elim (same_text (s.name dev) name) [
    | true ↦ some dev
    | false ↦ find_name fuel s (s.next dev) name
  ]
]

pub dev_get_by_name : ℕ → Devices → Text → Option ℕ
dev_get_by_name fuel s name = find_name fuel s s.dev_base name

unfoldable pub no_name : Text → Bool
no_name [] = true
no_name (c ∷ s) = false

-- `if (!dev->name[0])` and the name that is made up
pub auto_name : ℕ → Devices → Devices
auto_name dev s =
    if no_name (s.name dev)
    then record s { name = λ a. if dev == a then eth_name s.dev_count else s.name a }
    else s

-- `if (dev->init && dev->init(dev) != 0)`
pub init_fails : Option ℕ → Bool
init_fails none = false
init_fails (some r) = not (r == 0)

-- `dev->next = dev_base; dev_base = dev; dev_count++;`
pub link : ℕ → Devices → Devices
link dev s = record s {
  next = put s.next dev s.dev_base;
  dev_base = dev;
  dev_count = s.dev_count + 1;
}

-- Whether 0 is returned, and the devices.
pub register_netdev : ℕ → Option ℕ → ℕ → Devices → Option (Bool × Devices)
register_netdev fuel init dev s =
    let s1 = auto_name dev s in
    elim (find_name fuel s1 s1.dev_base (s1.name dev)) [
      | none ↦ none
      | some found ↦
          if not (found == 0)
          then some (false, s1)
          else if init_fails init
          then some (false, s1)
          else some (true, link dev s1)
    ]

-- A pointer to `dev_base`, or to the `next` of a device.
pub data Place : Type 0 where
  at_base : Place
  at_next : ℕ → Place

pub read_place : Place → Devices → ℕ
read_place at_base s = s.dev_base
read_place (at_next d) s = s.next d

pub write_place : Place → ℕ → Devices → Devices
write_place at_base v s = record s { dev_base = v }
write_place (at_next d) v s = record s { next = put s.next d v }

-- The loop of `unregister_netdev`
pub unlink : ℕ → Place → ℕ → Devices → Option Devices
unlink zero p dev s = none
unlink (suc fuel) p dev s =
    let here = read_place p s in
    elim (here == 0) [
      | true ↦ some s
      | false ↦ elim (here == dev) [
        | true ↦
            let s1 = write_place p (s.next dev) s in
            some (record s1 { dev_count = s1.dev_count - 1 })
        | false ↦ unlink fuel (at_next here) dev s
      ]
    ]

pub unregister_netdev : ℕ → ℕ → Devices → Option Devices
unregister_netdev fuel dev s = unlink fuel at_base dev s

-- IFF_RUNNING and IFF_UP
unfoldable pub netif_running : ℕ → Bool
netif_running flags = has_bit flags 6

pub netif_device_present : ℕ → Bool
netif_device_present flags = has_bit flags 0

-- What becomes of a buffer: it is released and -1 is returned, or the driver has it.
pub data Sent : Type 0 where
  dropped : Sent
  to_driver : ℕ → Sent

-- `flags` and `xmit` say of a device what its flags are and whether it has a `hard_start_xmit`.
unfoldable pub dev_queue_xmit : (ℕ → ℕ) → (ℕ → Bool) → ℕ → Sent
dev_queue_xmit flags xmit dev =
    if dev == 0
    then dropped
    else if not (netif_running (flags dev))
    then dropped
    else if xmit dev
    then to_driver dev
    else dropped
