-- ===== src/Net/Ip/Header.antt =====
-- net/ip_output.c: the bytes of the header that is written, and what the stores leave alone.
use linuxab.Prelude.{ℕ, ◌+◌, ◌<◌, ◌≤◌, ◌%◌, ◌/◌, ◌≡◌, ◌≢◌, ◌⊎◌, arith}
use linuxab.Net.Skb.{Memory}
use linuxab.Net.Checksum.Sums.{AreBytes}
use linuxab.Net.Ip.{put8, put16, put32, htons, write_header}

-- Stores at other addresses do not change a byte.
pub put8_self : (a v : ℕ) (m : Memory) → put8 a v m a ≡ v % 256
unfolding put8
put8_self a v m = ground arith

pub put8_other : (a v i : ℕ) (m : Memory) → a ≢ i → put8 a v m i ≡ m i
unfolding put8
put8_other a v i m h = ground arith

pub put8-AreBytes : (a v : ℕ) (m : Memory) → AreBytes m → AreBytes (put8 a v m)
unfolding put8
put8-AreBytes a v m h i = ground (arith, h i)

put16-AreBytes : (a v : ℕ) (m : Memory) → AreBytes m → AreBytes (put16 a v m)
unfolding put16
put16-AreBytes a v m h = put8-AreBytes (a + 1) (v / 256) (put8 a v m) (put8-AreBytes a v m h)

put32-AreBytes : (a v : ℕ) (m : Memory) → AreBytes m → AreBytes (put32 a v m)
unfolding put32
put32-AreBytes a v m h = put16-AreBytes (a + 2) (v / 65536) (put16 a v m) (put16-AreBytes a v m h)

-- The bytes that the receiver reads: version 4 and five words, the length with its upper byte first, the
-- time to live and the protocol.
module _ (a len proto saddr daddr : ℕ) (m : Memory) where
  abbrev header : Memory
  header = write_header a len proto saddr daddr m

  pub header_version : m a < 256 → header a ≡ 69
  unfolding write_header put32 put16 put8
  header_version h = ground arith

  pub header_len_hi : header (a + 2) ≡ len / 256 % 256
  unfolding write_header put32 put16 put8 htons
  header_len_hi = ground arith

  pub header_len_lo : header (a + 3) ≡ len % 256
  unfolding write_header put32 put16 put8 htons
  header_len_lo = ground arith

  pub header_ttl : header (a + 8) ≡ 64
  unfolding write_header put32 put16 put8
  header_ttl = ground arith

  pub header_proto : header (a + 9) ≡ proto % 256
  unfolding write_header put32 put16 put8
  header_proto = ground arith

  pub header_outside : (i : ℕ) → (i < a) ⊎ (a + 20 ≤ i) → header i ≡ m i
  unfolding write_header put32 put16 put8
  header_outside i h = ground arith

  pub header-AreBytes : AreBytes m → AreBytes header
  unfolding write_header
  header-AreBytes h = search (put8-AreBytes, put16-AreBytes, put32-AreBytes) depth 14
