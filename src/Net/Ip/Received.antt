-- ===== src/Net/Ip/Received.antt =====
-- net/ip_input.c: what the receiver makes of a packet that `ip_build_and_send_pkt` sent.
use linuxab.Prelude.{
  ℕ, ◌+◌, ◌-◌, ◌*◌, ◌<◌, ◌≤◌, ◌%◌, ◌/◌, ◌≡◌, ◌≢◌, ◌↔◌, refl, ap, sym, subst, ◌∙◌, arith, ◌==◌,
  if◌then◌else◌, true, false, Bool, some, none, inr, ltb,
}
use mathlib.Core.Path.{fun_ext}
use linuxab.Net.Skb.{Skb, Memory, skb_push, skb_pull, skb_headroom}
use linuxab.Net.Skb.Window.{IsBuffer}
use linuxab.Net.Checksum.{half, set_check, ip_fast_csum, ip_compute_csum}
use linuxab.Net.Checksum.Sums.{AreBytes, words_sum}
use linuxab.Net.Checksum.Verify.{ip_fast_csum_verifies, set_check-other, set_check-AreBytes}
use linuxab.Net.Device.{netif_running}
use linuxab.Net.Ip.{
  Packet, Fate, freed, sent, to_tcp, to_udp, to_icmp, put8, htons, write_header,
  ip_build_and_send_pkt, ip_local_deliver, ip_rcv,
}
use linuxab.Net.Ip.Header.{
  header_version, header_len_hi, header_len_lo, header_proto, header_outside, header-AreBytes,
  put8_other, put8-AreBytes,
}
use linuxab.Net.Ip.Sent.{forwarded, built, build-sent}

-- The protocol that a packet of the number `proto` goes to.
abbrev pub delivered : ℕ → Packet → Fate
delivered proto q =
    if proto == 6
    then to_tcp q
    else if proto == 17
    then to_udp q
    else if proto == 1
    then to_icmp q
    else freed

-- `ip_local_deliver` behind a header of five words, whatever number it takes for the header's words.
deliver_at :
    (ihl : ℕ) (p : Packet)
    → let q = record p { skb = (skb_pull p.skb 20).1 } in
      ip_local_deliver ihl q ≡ delivered (p.memory (p.skb.data_at + 20 - ihl * 4 + 9)) q
unfolding ip_local_deliver skb_pull
deliver_at ihl p = refl

-- A packet with five words of header before its payload passes the receiver's tests.
accepted :
    (ihl : ℕ) (p : Packet) (len : ℕ)
    → let a = p.skb.data_at in
      p.memory a ≡ 69
      → p.memory (a + 2) ≡ len / 256 % 256
      → p.memory (a + 3) ≡ len % 256
      → len < 65536
      → p.skb.len ≡ len
      → ip_rcv ihl p
        ≡ delivered (p.memory (a + 20 - ihl * 4 + 9)) (record p { skb = (skb_pull p.skb 20).1 })
unfolding ip_rcv htons
accepted ihl p len version hi lo small total =
    let a : ℕ = p.skb.data_at in
    let v : (p.memory a / 16 == 4) ≡ true = ground arith in
    let i : ltb (p.memory a % 16) 5 ≡ false = ground arith in
    let at3 : p.memory (a + 2 + 1) ≡ len % 256 =
      ap p.memory (let e : a + 2 + 1 ≡ a + 3 = omega arith in e) ∙ lo in
    let whole : htons (half p.memory (a + 2)) ≡ len = omega (arith, hi, at3) in
    let l : ltb p.skb.len (htons (half p.memory (a + 2))) ≡ false = ground (arith, whole) in
    let n : p.memory a % 16 * 4 ≡ 20 = omega arith in
    rw (v, i, l)
      (ap (λ k. ip_local_deliver ihl (record p { skb = (skb_pull p.skb k).1 })) n
        ∙ deliver_at ihl p)

set_check_twice : (a c d : ℕ) (m : Memory) → set_check a c (set_check a d m) ≡ set_check a c m
unfolding set_check
set_check_twice a c d m = fun_ext (λ i. ground arith)

-- What the stores behind the header's leave alone.
forwarded_other :
    (a ttl c d i : ℕ) (h : Memory)
    → i ≢ a + 8
    → i ≢ a + 10
    → i ≢ a + 11
    → forwarded a ttl d (set_check a c h) i ≡ h i
forwarded_other a ttl c d i h p q r =
    let h1 : Memory = set_check a c h in
    let h2 : Memory = put8 (a + 8) ttl h1 in
    set_check-other a d (set_check a 0 h2) i q r
    ∙ set_check-other a 0 h2 i q r
    ∙ put8_other (a + 8) ttl i h1 (λ e. p (sym e))
    ∙ set_check-other a c h i q r

-- The checksum that `ip_output` leaves is right exactly when no carry is lost.
forwarded_check :
    (a d : ℕ) (m : Memory)
    → AreBytes m
    → ip_fast_csum (set_check a 0 m) a 5 ≡ some d
    → let s = set_check a d (set_check a 0 m) in
      (ip_compute_csum s a 20 ≡ some 0) ↔ (words_sum (set_check a 0 s) a 5 < 4294967296)
forwarded_check a d m bytes e =
    let (c, runs, both) = ip_fast_csum_verifies a 5 m bytes (omega arith) (omega arith) in
    let same : c ≡ d = ap (λ o. elim o [ none ↦ c | some x ↦ x ]) (sym runs ∙ e) in
    rw (set_check_twice a d 0 m, set_check_twice a 0 d m)
      (subst
        (λ z.
          (ip_compute_csum (set_check a z m) a 20 ≡ some 0)
          ↔ (words_sum (set_check a 0 m) a 5 < 4294967296))
        same both)

-- For a device "eth0" that is there, runs and has a routine to transmit, and a buffer in order with 34
-- bytes of room before a payload that with the header is shorter than 65536: what is sent begins 34 bytes
-- before the payload, whose bytes stay, and byte 9 of its header is the protocol's number. The receiver,
-- told that the header is 14 bytes on, passes it and is left with the payload alone. It hands that to the
-- protocol whose number it reads at byte 9 of a header of `ihl` words, where `ihl` is whatever the read
-- through the pointer that `ip_local_deliver` has not set gives: the number that was sent, if five. Its
-- test of the checksum, which it only reports, succeeds exactly when the header's words, without the
-- checksum, add up to less than 2 ^ 32.
pub ip_rcv-ip_build_and_send_pkt :
    (ihl eth0 : ℕ) (flags : ℕ → ℕ) (xmit : ℕ → Bool) (proto saddr daddr : ℕ) (skb : Skb)
    (m : Memory)
    → eth0 ≢ 0
    → netif_running (flags eth0) ≡ true
    → xmit eth0 ≡ true
    → IsBuffer skb
    → 34 ≤ skb_headroom skb
    → skb.len + 20 < 65536
    → AreBytes m
    → (p : Packet) × (q : Packet) × (ip_build_and_send_pkt eth0 flags xmit proto saddr daddr skb m
        ≡ some (sent eth0 p))
      × (p.skb.data_at + 34 ≡ skb.data_at)
      × ((i : ℕ) → skb.data_at ≤ i → p.memory i ≡ m i)
      × (p.memory (skb.data_at - 20 + 9) ≡ proto % 256)
      × (ip_rcv ihl (record p { skb = (skb_pull p.skb 14).1 })
          ≡ delivered (p.memory (skb.data_at - ihl * 4 + 9)) q)
      × (q.skb.data_at ≡ skb.data_at)
      × (q.skb.len ≡ skb.len)
      × (q.memory ≡ p.memory)
      × ((ip_compute_csum p.memory (p.skb.data_at + 14) 20 ≡ some 0) ↔ (
          words_sum (set_check (p.skb.data_at + 14) 0 p.memory) (p.skb.data_at + 14) 5
          < 4294967296))
unfolding skb_push skb_pull skb_headroom
ip_rcv-ip_build_and_send_pkt ihl eth0 flags xmit proto saddr daddr skb m found running takes b room
      short bytes =
    let len : ℕ = (skb.len + 20) % 4294967296 in
    let a : ℕ = skb.data_at - 20 in
    let h : Memory = write_header a len proto saddr daddr m in
    let hb : AreBytes h = header-AreBytes a len proto saddr daddr m bytes in
    let (c, d, fits, fits2, sum, runs) =
      build-sent eth0 flags xmit found running takes proto saddr daddr skb m bytes in
    let p : Packet = built eth0 flags xmit found running takes proto saddr daddr skb m c d in
    let r : Packet = record p { skb = (skb_pull p.skb 14).1 } in
    let q : Packet = record r { skb = (skb_pull r.skb 20).1 } in
    let front = b.front in
    let base : skb.data_at - 20 - 14 + 14 ≡ a = omega arith in
    let whole : skb.data_at - 20 - 14 + 14 + 20 ≡ skb.data_at = omega arith in
    let read = λ (k : ℕ) (e : k ≢ 8) (f : k ≢ 10) (g : k ≢ 11).
      ap (λ z. p.memory (z + k)) base
      ∙ forwarded_other a 63 c d (a + k) h (omega arith) (omega arith) (omega arith) in
    (
      p,
      q,
      runs,
      omega arith,
      (λ i e.
          forwarded_other a 63 c d i h (omega arith) (omega arith) (omega arith)
          ∙ header_outside a len proto saddr daddr m i (inr (omega arith))),
      forwarded_other a 63 c d (a + 9) h (omega arith) (omega arith) (omega arith)
          ∙ header_proto a len proto saddr daddr m,
      accepted ihl r len
            (ap p.memory base
              ∙ forwarded_other a 63 c d a h (omega arith) (omega arith) (omega arith)
              ∙ header_version a len proto saddr daddr m (bytes a))
            (read 2 (omega arith) (omega arith) (omega arith)
              ∙ header_len_hi a len proto saddr daddr m)
            (read 3 (omega arith) (omega arith) (omega arith)
              ∙ header_len_lo a len proto saddr daddr m)
            (omega arith) (omega arith)
          ∙ ap (λ z. delivered (p.memory (z - ihl * 4 + 9)) q) whole,
      omega arith,
      omega arith,
      refl,
      subst
          (λ z.
            (ip_compute_csum p.memory z 20 ≡ some 0)
            ↔ (words_sum (set_check z 0 p.memory) z 5 < 4294967296))
          (sym base)
          (forwarded_check a d (put8 (a + 8) 63 (set_check a c h))
            (put8-AreBytes (a + 8) 63 (set_check a c h) (set_check-AreBytes a c h fits hb)) sum),
    )
