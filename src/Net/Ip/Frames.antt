-- ===== src/Net/Ip/Frames.antt =====
-- net/eth.c: what `eth_type_trans` reads of a frame that `eth_header` has written.
use linuxab.Prelude.{
  ℕ, zero, suc, ◌+◌, ◌-◌, ◌<◌, ◌≤◌, ◌%◌, ◌/◌, ◌≡◌, refl, ◌∙◌, arith, ◌&&◌, leb, ltb, if◌then◌else◌,
  true, Option, none, some,
}
use linuxab.Net.Skb.{Memory, skb_push, skb_pull, skb_headroom}
use linuxab.Net.Skb.Window.{IsBuffer}
use linuxab.Net.Checksum.{half}
use linuxab.Net.Ip.{Packet, put8, put16, put_address, htons, same_bytes, eth_header, eth_type_trans}

-- Equal bytes pass the same tests.
same_bytes-same :
    (n : ℕ) (f g h : ℕ → ℕ) → ((k : ℕ) → k < n → f k ≡ g k) → same_bytes n f h ≡ same_bytes n g h
unfolding same_bytes
same_bytes-same zero f g h e = refl
same_bytes-same (suc n) f g h e =
    rw (e n (omega arith), same_bytes-same n f g h (λ k l. e k (omega (arith, l)))) refl

put_address-at : (a k : ℕ) (f : ℕ → ℕ) (m : Memory) → k < 6 → put_address a f m (a + k) ≡ f k
unfolding put_address
put_address-at a k f m h =
    let t : (leb a (a + k) && ltb (a + k) (a + 6)) ≡ true = ground arith in
    let e : a + k - a ≡ k = omega arith in rw (t, e) refl

put_address-beyond : (a i : ℕ) (f : ℕ → ℕ) (m : Memory) → a + 6 ≤ i → put_address a f m i ≡ m i
unfolding put_address
put_address-beyond a i f m h = ground arith

put_address-before : (a i : ℕ) (f : ℕ → ℕ) (m : Memory) → i < a → put_address a f m i ≡ m i
unfolding put_address
put_address-before a i f m h = ground arith

-- The bytes that `eth_header` writes, at `a`.
module _ (a v : ℕ) (to from : ℕ → ℕ) (m : Memory) where
  abbrev written : Memory
  written = put_address (a + 6) from (put_address a to (put16 (a + 12) v m))

  written_dest : (k : ℕ) → k < 6 → written (a + k) ≡ to k
  written_dest k h =
      put_address-before (a + 6) (a + k) from (put_address a to (put16 (a + 12) v m))
        (omega (arith, h))
      ∙ put_address-at a k to (put16 (a + 12) v m) h

  written_later : (i : ℕ) → a + 12 ≤ i → written i ≡ put16 (a + 12) v m i
  written_later i h =
      put_address-beyond (a + 6) i from (put_address a to (put16 (a + 12) v m)) (omega arith)
      ∙ put_address-beyond a i to (put16 (a + 12) v m) (omega arith)

  written_proto : v < 65536 → half written (a + 12) ≡ v
  unfolding put16 put8
  written_proto h =
      let lo : written (a + 12) ≡ v % 256 = written_later (a + 12) (omega arith) ∙ ground arith in
      let hi : written (a + 12 + 1) ≡ v / 256 % 256 =
        written_later (a + 12 + 1) (omega arith) ∙ ground arith in
      omega (arith, lo, hi, h)

  written_payload : (i : ℕ) → a + 14 ≤ i → written i ≡ m i
  unfolding put16 put8
  written_payload i h = written_later i (omega arith) ∙ ground arith

htons-lt : (x : ℕ) → htons x < 65536
unfolding htons
htons-lt x = omega arith

-- The address that a frame is made for.
abbrev pub target : Option (ℕ → ℕ) → ℕ → ℕ
target daddr = elim daddr [ none ↦ λ k. 255 | some f ↦ f ]

-- The kind of a frame to an address, for a device of another.
abbrev pub kind_of : (ℕ → ℕ) → (ℕ → ℕ) → ℕ
kind_of to addr = if same_bytes 6 to addr then 0 else if same_bytes 6 to (λ k. 255) then 1 else 3

-- A frame that `eth_header` makes of a buffer in order with 14 bytes of room, for an address or for NULL, which is
-- the broadcast address, is taken apart by `eth_type_trans` of any device: it gives the frame's type, in
-- the order of the network, and the packet with the data, the length and the payload that it had. The
-- packet belongs to the device and is marked as its own, as a broadcast or as another's by the address
-- that the frame was made for.
pub eth_type_trans-eth_header :
    (own addr : ℕ → ℕ) (dev type : ℕ) (daddr saddr : Option (ℕ → ℕ)) (p : Packet)
    → IsBuffer p.skb
    → 14 ≤ skb_headroom p.skb
    → let r = eth_type_trans dev addr (eth_header own type daddr saddr p).1 in
      (r.0 ≡ htons type)
      × ((r.1).skb.data_at ≡ p.skb.data_at)
      × ((r.1).skb.len ≡ p.skb.len)
      × ((r.1).skb.dev ≡ dev)
      × ((r.1).skb.pkt_type ≡ kind_of (target daddr) addr)
      × ((i : ℕ) → p.skb.data_at ≤ i → (r.1).memory i ≡ p.memory i)
unfolding eth_type_trans eth_header skb_push skb_pull skb_headroom
eth_type_trans-eth_header own addr dev type daddr saddr p v room =
    let a = p.skb.data_at - 14 in
    let from : ℕ → ℕ = elim saddr [ none ↦ own | some f ↦ f ] in
    let to = target daddr in
    let same : (h : ℕ → ℕ)
        → same_bytes 6 (λ k. written a (htons type) to from p.memory (a + k)) h
          ≡ same_bytes 6 to h =
      λ h.
        same_bytes-same 6 (λ k. written a (htons type) to from p.memory (a + k)) to h
          (written_dest a (htons type) to from p.memory) in
    (
      written_proto a (htons type) to from p.memory (htons-lt type),
      omega (arith, room),
      omega (arith, v.front, v.back, v.window, v.small),
      refl,
      rw (same addr, same (λ k. 255)) refl,
      (λ i h. written_payload a (htons type) to from p.memory i (omega (arith, h, room))),
    )
