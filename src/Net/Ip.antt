-- ===== src/Net/Ip.antt =====
-- net/ip_output.c, net/ip_input.c, net/eth.c, net/dev.c: how a packet leaves and how one comes in, on the
-- bytes of memory. A packet is a socket buffer, its `nh` pointer and the memory. The device that is found
-- as "eth0" and what it accepts are arguments; `none` is fuel that ran out in a checksum. What the
-- routines print is left out.
pub mod Header
pub mod Frames
pub mod Received
pub mod Sent
use linuxab.Prelude.{
  ℕ, zero, suc, ◌+◌, ◌-◌, ◌%◌, ◌/◌, ◌*◌, Bool, true, false, not, Option, none, some, ◌==◌, ◌&&◌,
  if◌then◌else◌, leb, ltb,
}
use linuxab.Net.Skb.{Skb, Memory, skb_push, skb_pull}
use linuxab.Net.Checksum.{half, ip_fast_csum, set_check}
use linuxab.Net.Device
use linuxab.Net.Device.{dev_queue_xmit}
use mathlib.Core.Option

pub record Packet : Type 0 where
  pub skb : Skb
  pub nh : ℕ
  pub memory : Memory

-- Where a packet ends up: released, with the driver of a device, or with a protocol.
pub data Fate : Type 0 where
  freed : Fate
  sent : ℕ → Packet → Fate
  to_tcp to_udp to_icmp to_arp : Packet → Fate

-- Stores of a byte, of a uint16_t and of a uint32_t, lowest byte first.
pub put8 : ℕ → ℕ → Memory → Memory
put8 a v m i = if a == i then v % 256 else m i

pub put16 : ℕ → ℕ → Memory → Memory
put16 a v m = put8 (a + 1) (v / 256) (put8 a v m)

pub put32 : ℕ → ℕ → Memory → Memory
put32 a v m = put16 (a + 2) (v / 65536) (put16 a v m)

-- `__builtin_bswap16`
unfoldable pub htons : ℕ → ℕ
htons x = (x % 256) * 256 + (x / 256) % 256

-- The stores to `*iph` up to `daddr`; `version` and `ihl` are the nibbles of one byte.
pub write_header : ℕ → ℕ → ℕ → ℕ → ℕ → Memory → Memory
write_header a len proto saddr daddr m =
    let m1 = put8 a (m a % 16 + 4 * 16) m in
    let m2 = put8 a (m1 a / 16 * 16 + 5) m1 in
    let m3 = put16 (a + 2) (htons (len % 65536)) (put8 (a + 1) 0 m2) in
    let m4 = put16 (a + 6) (htons 16384) (put16 (a + 4) 0 m3) in
    let m5 = put8 (a + 9) proto (put8 (a + 8) 64 m4) in
    put32 (a + 16) daddr (put32 (a + 12) saddr (put16 (a + 10) 0 m5))

-- `iph->check = ip_fast_csum(iph, iph->ihl);`
pub fill_check : ℕ → Memory → Option Memory
fill_check a m = Option.map (λ c. set_check a c m) (ip_fast_csum m a (m a % 16))

module _ (eth0 : ℕ) (flags : ℕ → ℕ) (xmit : ℕ → Bool) where
  -- The buffer is released where the device does not take it.
  pub hand_over : Packet → Fate
  hand_over p = elim (dev_queue_xmit flags xmit p.skb.dev) [
    | Device.dropped ↦ freed
    | Device.to_driver d ↦ sent d p
  ]

  pub ip_output : Packet → Option Fate
  ip_output p =
      let iph = p.nh in
      let skb = record p.skb { dev = eth0 } in
      let ttl = (p.memory (iph + 8) + 255) % 256 in
      let m1 = put8 (iph + 8) ttl p.memory in
      if eth0 == 0
      then some freed
      else if ttl == 0
      then some freed
      else Option.map
          (λ m. hand_over (record {
            skb = record ((skb_push skb 14).1) { protocol = htons 2048 };
            nh = iph;
            memory = m;
          }))
          (fill_check iph (set_check iph 0 m1))

  -- `proto` is the number of the socket, or 0 for a buffer that has none.
  pub ip_build_and_send_pkt : ℕ → ℕ → ℕ → Skb → Memory → Option Fate
  ip_build_and_send_pkt proto saddr daddr skb m =
      let s1 = (skb_push skb 20).1 in
      let a = s1.data_at in
      elim (fill_check a (write_header a s1.len proto saddr daddr m)) [
        | none ↦ none
        | some m1 ↦ ip_output (record { skb = s1; nh = a; memory = m1 })
      ]

  pub ip_queue_xmit : Packet → Option Fate
  ip_queue_xmit p = ip_output p

-- `iph` is read in its own initialiser, before it is set: `ihl` is whatever that read gives, if it gives
-- anything.
pub ip_local_deliver : ℕ → Packet → Fate
ip_local_deliver ihl p =
    let protocol = p.memory (p.skb.data_at - ihl * 4 + 9) in
    if protocol == 6
    then to_tcp p
    else if protocol == 17
    then to_udp p
    else if protocol == 1
    then to_icmp p
    else freed

-- A checksum that is wrong is only reported.
pub ip_rcv : ℕ → Packet → Fate
ip_rcv ihl p =
    let a = p.skb.data_at in
    let len = htons (half p.memory (a + 2)) in
    if not (p.memory a / 16 == 4)
    then freed
    else if ltb (p.memory a % 16) 5
    then freed
    else if ltb p.skb.len len
    then freed
    else ip_local_deliver ihl (record p { skb = (skb_pull p.skb (p.memory a % 16 * 4)).1 })

-- `memcmp(a, b, 6) == 0`
pub same_bytes : ℕ → (ℕ → ℕ) → (ℕ → ℕ) → Bool
same_bytes zero f g = true
same_bytes (suc n) f g = f n == g n && same_bytes n f g

-- `memcpy(a, f, 6)`
pub put_address : ℕ → (ℕ → ℕ) → Memory → Memory
put_address a f m i = if leb a i && ltb i (a + 6) then f (i - a) else m i

-- `none` is an address that is NULL; `addr` is the device's.
pub eth_header : (ℕ → ℕ) → ℕ → Option (ℕ → ℕ) → Option (ℕ → ℕ) → Packet → ℕ × Packet
eth_header addr type daddr saddr p =
    let s1 = (skb_push p.skb 14).1 in
    let a = s1.data_at in
    let m1 = put16 (a + 12) (htons type) p.memory in
    let m2 = put_address a (elim daddr [ none ↦ λ k. 255 | some f ↦ f ]) m1 in
    let m3 = put_address (a + 6) (elim saddr [ none ↦ addr | some f ↦ f ]) m2 in
    (14, record p { skb = s1; memory = m3 })

-- The frame's type as it stands in memory, and the packet behind its header.
pub eth_type_trans : ℕ → (ℕ → ℕ) → Packet → ℕ × Packet
eth_type_trans dev addr p =
    let a = p.skb.data_at in
    let proto = half p.memory (a + 12) in
    let kind =
      if same_bytes 6 (λ k. p.memory (a + k)) addr
      then 0
      else if same_bytes 6 (λ k. p.memory (a + k)) (λ k. 255)
      then 1
      else 3 in
    let s1 = record p.skb { dev = dev; protocol = proto; pkt_type = kind } in
    (proto, record p { skb = (skb_pull s1 14).1 })

pub eth_rcv : ℕ → (ℕ → ℕ) → Packet → Fate
eth_rcv ihl addr p =
    let r = eth_type_trans p.skb.dev addr p in
    if htons (r.0) == 2048 then ip_rcv ihl (r.1) else freed

-- dev.c
pub netif_rx : ℕ → Packet → Fate
netif_rx ihl p =
    if p.skb.protocol == htons 2048
    then ip_rcv ihl p
    else if p.skb.protocol == htons 2054
    then to_arp p
    else freed
