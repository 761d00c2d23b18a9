-- ===== src/Net/Ip/Sent.antt =====
-- net/ip_output.c, net/ip_input.c: what is sent through a device is what the other end delivers.
use linuxab.Prelude.{
  ℕ, suc, ◌+◌, ◌<◌, ◌%◌, ◌≡◌, ◌≢◌, refl, ap, ◌∙◌, arith, ◌==◌, true, false, Bool, Option, some,
  none,
}
use mathlib.Core.Option
use linuxab.Net.Skb.{Skb, Memory, skb_push}
use linuxab.Net.Checksum.{set_check, ip_fast_csum}
use linuxab.Net.Checksum.Sums.{AreBytes}
use linuxab.Net.Checksum.Verify.{ip_fast_csum-some, set_check-other}
use linuxab.Net.Device
use linuxab.Net.Device.{netif_running, dev_queue_xmit}
use linuxab.Net.Ip.{
  Packet, Fate, freed, sent, put8, htons, write_header, fill_check, hand_over, ip_output,
  ip_build_and_send_pkt,
}
use linuxab.Net.Ip.Header.{header_version, header_ttl, put8_other}

fill_check-some :
    (a n : ℕ) (m : Memory)
    → m a % 16 ≡ n
    → (c : ℕ) × (fill_check a m ≡ some (set_check a c m))
      × (ip_fast_csum m a n ≡ some c)
      × (c < 65536)
unfolding fill_check
fill_check-some a n m e =
    let (c, runs, small) = ip_fast_csum-some m a n in
    (c, rw (e, fill_check) (ap (Option.map (λ c. set_check a c m)) runs), runs, small)

-- The memory once `ip_output` has counted the time to live down and filled the checksum `c` again.
abbrev pub forwarded : ℕ → ℕ → ℕ → Memory → Memory
forwarded a ttl c m = set_check a c (set_check a 0 (put8 (a + 8) ttl m))

abbrev pub framed : ℕ → Packet → Memory → Packet
framed eth0 p m = record {
  skb = record ((skb_push (record p.skb { dev = eth0 }) 14).1) { protocol = htons 2048 };
  nh = p.nh;
  memory = m;
}

framed_dev : (eth0 : ℕ) (p : Packet) (m : Memory) → (framed eth0 p m).skb.dev ≡ eth0
unfolding skb_push
framed_dev eth0 p m = refl

module _ (eth0 : ℕ) (flags : ℕ → ℕ) (xmit : ℕ → Bool) (found : eth0 ≢ 0)
    (running : netif_running (flags eth0) ≡ true) (takes : xmit eth0 ≡ true) where
  xmit_sent : dev_queue_xmit flags xmit eth0 ≡ Device.to_driver eth0
  unfolding dev_queue_xmit
  xmit_sent = let t : (eth0 == 0) ≡ false = ground arith in rw (t, running, takes) refl

  hand_over-sent : (p : Packet) → p.skb.dev ≡ eth0 → hand_over eth0 flags xmit p ≡ sent eth0 p
  unfolding hand_over
  hand_over-sent p e =
      ap (λ r. elim r [ Device.dropped ↦ freed | Device.to_driver d ↦ sent d p ])
        (ap (dev_queue_xmit flags xmit) e ∙ xmit_sent)

  -- `ip_output` where a time to live of `ttl`, which is not 0, is left.
  abbrev output_with : Packet → ℕ → Option Fate
  output_with p ttl =
      Option.map (λ m. hand_over eth0 flags xmit (framed eth0 p m))
        (fill_check p.nh (set_check p.nh 0 (put8 (p.nh + 8) ttl p.memory)))

  ip_output-with :
      (p : Packet) (ttl : ℕ)
      → (p.memory (p.nh + 8) + 255) % 256 ≡ suc ttl
      → ip_output eth0 flags xmit p ≡ output_with p (suc ttl)
  unfolding ip_output
  ip_output-with p ttl e =
      let t : (eth0 == 0) ≡ false = ground arith in
      let z : (suc ttl == 0) ≡ false = ground arith in rw (t, e, z) refl

  ip_output-sent :
      (p : Packet) (ttl : ℕ)
      → p.memory p.nh ≡ 69
      → p.memory (p.nh + 8) ≡ suc (suc ttl)
      → ttl < 254
      → (c : ℕ) × (ip_fast_csum (set_check p.nh 0 (put8 (p.nh + 8) (suc ttl) p.memory)) p.nh 5
          ≡ some c)
        × (c < 65536)
        × (ip_output eth0 flags xmit p
            ≡ some (sent eth0 (framed eth0 p (forwarded p.nh (suc ttl) c p.memory))))
  ip_output-sent p ttl version live small =
      let m : Memory = set_check p.nh 0 (put8 (p.nh + 8) (suc ttl) p.memory) in
      let v : m p.nh ≡ 69 =
        set_check-other p.nh 0 (put8 (p.nh + 8) (suc ttl) p.memory) p.nh (omega arith) (omega arith)
        ∙ put8_other (p.nh + 8) (suc ttl) p.nh p.memory (omega arith)
        ∙ version in
      let (c, runs, sum, fits) = fill_check-some p.nh 5 m (omega (arith, v)) in
      (
        c,
        sum,
        fits,
        ip_output-with p ttl (omega arith)
            ∙ ap (Option.map (λ m. hand_over eth0 flags xmit (framed eth0 p m))) runs
            ∙ ap some (
                hand_over-sent (framed eth0 p (set_check p.nh c m))
                  (framed_dev eth0 p (set_check p.nh c m))),
      )

  -- The packet that `ip_build_and_send_pkt` hands to the device, for checksums `c` of the header as it is
  -- built and `d` as it is sent.
  abbrev pub built : ℕ → ℕ → ℕ → Skb → Memory → ℕ → ℕ → Packet
  built proto saddr daddr skb m c d =
      let s1 = (skb_push skb 20).1 in
      let a = s1.data_at in
      framed eth0 (record { skb = s1; nh = a; memory = m })
        (forwarded a 63 d (set_check a c (write_header a s1.len proto saddr daddr m)))

  pub build-sent :
      (proto saddr daddr : ℕ) (skb : Skb) (m : Memory)
      → AreBytes m
      → let s1 = (skb_push skb 20).1 in
        let a = s1.data_at in
        (c : ℕ) × (d : ℕ) × (c < 65536)
        × (d < 65536)
        × (ip_fast_csum
              (set_check a 0
                (put8 (a + 8) 63 (set_check a c (write_header a s1.len proto saddr daddr m))))
              a
              5
            ≡ some d)
        × (ip_build_and_send_pkt eth0 flags xmit proto saddr daddr skb m
            ≡ some (sent eth0 (built proto saddr daddr skb m c d)))
  unfolding ip_build_and_send_pkt
  build-sent proto saddr daddr skb m bytes =
      let s1 : Skb = (skb_push skb 20).1 in
      let a : ℕ = s1.data_at in
      let h : Memory = write_header a s1.len proto saddr daddr m in
      let v : h a ≡ 69 = header_version a s1.len proto saddr daddr m (bytes a) in
      let (c, runs, sum, fits) = fill_check-some a 5 h (omega (arith, v)) in
      let h1 : Memory = set_check a c h in
      let v1 : h1 a ≡ 69 = set_check-other a c h a (omega arith) (omega arith) ∙ v in
      let t1 : h1 (a + 8) ≡ 64 =
        set_check-other a c h (a + 8) (omega arith) (omega arith)
        ∙ header_ttl a s1.len proto saddr daddr m in
      let (d, sum2, fits2, goes) =
        ip_output-sent (record { skb = s1; nh = a; memory = h1 }) 62 v1 t1 (omega arith) in
      (
        c,
        d,
        fits,
        fits2,
        sum2,
        ap
              (λ o. elim o [
                | none ↦ none
                | some m1 ↦ ip_output eth0 flags xmit (record { skb = s1; nh = a; memory = m1 })
              ])
              runs
            ∙ goes,
      )
