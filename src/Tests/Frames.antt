-- ===== src/Tests/Frames.antt =====
-- net/af_inet.c, net/dev.c, net/ip_output.c and net/ip_input.c at concrete inputs.
use linuxab.Prelude.{
  ℕ, ◌+◌, ◌-◌, ◌*◌, ◌%◌, ◌<◌, ◌≤◌, ◌≡◌, ◌↔◌, refl, true, not, ◌&&◌, ◌==◌, none, some, [], ◌∷◌,
  if◌then◌else◌, arith,
}
use linuxab.Prelude.Bits.{has_bit}
use linuxab.Prelude.Distinct.{without}
use linuxab.Types.Text.{Text}
use linuxab.Net.Skb.{Skb, Memory, skb_pull, skb_headroom}
use linuxab.Net.Skb.Window.{IsBuffer}
use linuxab.Net.Checksum.{ip_compute_csum, ip_fast_csum, set_check}
use linuxab.Net.Checksum.Sums.{AreBytes, words_sum}
use linuxab.Net.Checksum.Verify.{ip_compute_csum_verifies, ip_fast_csum_verifies}
use linuxab.Net.Device.{
  Devices, same_text, dev_get_by_name, register_netdev, unregister_netdev, netif_running,
  init_fails,
}
use linuxab.Net.Device.Chain.{IsDevices, named}
use linuxab.Net.Device.Register.{name_taken, register_netdev_lem}
use linuxab.Net.Device.Unlink.{unregister_netdev_lem}
use linuxab.Net.Ip.{Packet, sent, ip_build_and_send_pkt, ip_rcv, htons, eth_header, eth_type_trans}
use linuxab.Net.Ip.Frames.{kind_of, target, eth_type_trans-eth_header}
use linuxab.Net.Ip.Received.{delivered, ip_rcv-ip_build_and_send_pkt}

abbrev bytes : Memory
bytes a = a % 256

bytes-AreBytes : AreBytes bytes
bytes-AreBytes i = omega arith

ip_compute_csum_verifies_example :
    (c : ℕ) × (ip_compute_csum (set_check 100 0 bytes) 100 (2 * 10) ≡ some c)
    × (ip_compute_csum (set_check 100 c bytes) 100 (2 * 10) ≡ some 0)
ip_compute_csum_verifies_example =
    ip_compute_csum_verifies 100 10 bytes bytes-AreBytes (omega arith) (omega arith)

ip_fast_csum_verifies_example :
    (c : ℕ) × (ip_fast_csum (set_check 100 0 bytes) 100 5 ≡ some c)
    × ((ip_compute_csum (set_check 100 c bytes) 100 (5 * 4) ≡ some 0)
        ↔ (words_sum (set_check 100 0 bytes) 100 5 < 4294967296))
ip_fast_csum_verifies_example =
    ip_fast_csum_verifies 100 5 bytes bytes-AreBytes (omega arith) (omega arith)

-- "lo" at 9 is registered, the device at 5 has no name.
abbrev devices : Devices
devices = record {
  next = λ a. 0;
  name = λ a. if a == 9 then b'l' ∷ b'o' ∷ [] else [];
  dev_base = 9;
  dev_count = 1;
}

devices-IsDevices : IsDevices devices (9 ∷ [])
devices-IsDevices = record {
  listed = (refl, omega arith, refl);
  distinct = (tt, tt);
  names = (tt, tt);
  counted = refl;
}

register_netdev_lem_example :
    let name = name_taken 5 devices in
    let ok = named devices.name name (9 ∷ []) == 0 && not (init_fails (some 0)) in
    (s' : Devices) × (register_netdev 2 (some 0) 5 devices ≡ some (ok, s'))
    × IsDevices s' (if ok then 5 ∷ 9 ∷ [] else 9 ∷ [])
    × ((n : Text)
        → dev_get_by_name 3 s' n
          ≡ some (if ok && same_text name n then 5 else named devices.name n (9 ∷ [])))
register_netdev_lem_example =
    register_netdev_lem 2 5 (some 0) devices (9 ∷ []) devices-IsDevices (omega arith)
      (omega arith, tt) (omega arith)

unregister_netdev_lem_example :
    (s' : Devices) × (unregister_netdev 2 9 devices ≡ some s')
    × IsDevices s' (without 9 (9 ∷ []))
    × ((n : Text) → dev_get_by_name 2 s' n ≡ some (named devices.name n (without 9 (9 ∷ []))))
unregister_netdev_lem_example =
    unregister_netdev_lem 2 9 devices (9 ∷ []) devices-IsDevices (omega arith)

-- Eight bytes of data behind 48 bytes of room.
abbrev payload : Skb
payload = record {
  head = 4096;
  data_at = 4144;
  tail = 4152;
  limit = 4200;
  len = 8;
  truesize = 320;
  users = 1;
  dev = 0;
  protocol = 0;
  pkt_type = 0;
  priority = 0;
}

payload-IsBuffer : IsBuffer payload
payload-IsBuffer = record {
  front = omega arith;
  back = omega arith;
  window = refl;
  small = omega arith;
}

room : 34 ≤ skb_headroom payload
unfolding skb_headroom
room = omega arith

fourteen : 14 ≤ skb_headroom payload
unfolding skb_headroom
fourteen = omega arith

abbrev packet : Packet
packet = record { skb = payload; nh = 0; memory = bytes }

-- A frame for the broadcast address, taken apart by the device at 3, whose address is 1, 2 and so on.
eth_type_trans-eth_header_example :
    let r = eth_type_trans 3 (λ k. k + 1) (eth_header (λ k. k) 2048 none none packet).1 in
    (r.0 ≡ htons 2048)
    × ((r.1).skb.data_at ≡ payload.data_at)
    × ((r.1).skb.len ≡ payload.len)
    × ((r.1).skb.dev ≡ 3)
    × ((r.1).skb.pkt_type ≡ kind_of (target none) (λ k. k + 1))
    × ((i : ℕ) → payload.data_at ≤ i → (r.1).memory i ≡ bytes i)
eth_type_trans-eth_header_example =
    eth_type_trans-eth_header (λ k. k) (λ k. k + 1) 3 2048 none none packet payload-IsBuffer
      fourteen

up : netif_running 65 ≡ true
unfolding netif_running has_bit
up = refl

ip_rcv-ip_build_and_send_pkt_example :
    (p : Packet) × (q : Packet) × (ip_build_and_send_pkt 3
        (λ d. 65)
        (λ d. true)
        17
        10
        20
        payload
        bytes
      ≡ some (sent 3 p))
    × (p.skb.data_at + 34 ≡ payload.data_at)
    × ((i : ℕ) → payload.data_at ≤ i → p.memory i ≡ bytes i)
    × (p.memory (4144 - 20 + 9) ≡ 17 % 256)
    × (ip_rcv 6 (record p { skb = (skb_pull p.skb 14).1 })
        ≡ delivered (p.memory (4144 - 6 * 4 + 9)) q)
    × (q.skb.data_at ≡ payload.data_at)
    × (q.skb.len ≡ payload.len)
    × (q.memory ≡ p.memory)
    × ((ip_compute_csum p.memory (p.skb.data_at + 14) 20 ≡ some 0) ↔ (
        words_sum (set_check (p.skb.data_at + 14) 0 p.memory) (p.skb.data_at + 14) 5 < 4294967296))
ip_rcv-ip_build_and_send_pkt_example =
    ip_rcv-ip_build_and_send_pkt 6 3 (λ d. 65) (λ d. true) 17 10 20 payload bytes (omega arith) up
      refl payload-IsBuffer room (omega arith) bytes-AreBytes
