-- ===== src/Net/Checksum.antt =====
-- net/af_inet.c: the two checksums of a header, on bytes of memory. The machine is little endian. `sum`
-- is a uint32_t and wraps; the loop that folds it takes fuel, and `none` is fuel that has run out.
pub mod Fold
pub mod Sums
pub mod Verify
use linuxab.Prelude.{
  ℕ, zero, suc, ◌+◌, ◌-◌, ◌%◌, ◌/◌, ◌*◌, true, false, Option, none, some, ◌==◌, if◌then◌else◌,
}
use linuxab.Net.Skb.{Memory}
use mathlib.Core.Option

-- `*(const uint16_t *)` and `*(const uint32_t *)` of an address
abbrev pub half : Memory → ℕ → ℕ
half m a = m a + 256 * m (a + 1)

abbrev pub word : Memory → ℕ → ℕ
word m a = half m a + 65536 * half m (a + 2)

-- `while (len > 1) { sum += *ptr++; len -= 2; }` and the odd byte
pub add_halves : Memory → ℕ → ℕ → ℕ → ℕ
add_halves m a zero sum = sum
add_halves m a (suc zero) sum = (sum + m a) % 4294967296
add_halves m a (suc (suc n)) sum = add_halves m (a + 2) n ((sum + half m a) % 4294967296)

-- `for (unsigned int i = 0; i < ihl; i++) sum += ptr[i];`
pub add_words : Memory → ℕ → ℕ → ℕ → ℕ
add_words m a zero sum = sum
add_words m a (suc n) sum = add_words m (a + 4) n ((sum + word m a) % 4294967296)

-- `while (sum >> 16) sum = (sum & 0xFFFF) + (sum >> 16);`
pub fold_carries : ℕ → ℕ → Option ℕ
fold_carries zero sum = none
fold_carries (suc fuel) sum = elim (sum / 65536 == 0) [
  | true ↦ some sum
  | false ↦ fold_carries fuel (sum % 65536 + sum / 65536)
]

-- `~sum`, as a uint16_t
abbrev pub inverted : ℕ → ℕ
inverted sum = 65535 - sum % 65536

pub ip_compute_csum : Memory → ℕ → ℕ → Option ℕ
ip_compute_csum m a len = Option.map inverted (fold_carries 3 (add_halves m a len 0))

pub ip_fast_csum : Memory → ℕ → ℕ → Option ℕ
ip_fast_csum m a ihl = Option.map inverted (fold_carries 3 (add_words m a ihl 0))

-- `iph->check = c;`
unfoldable pub set_check : ℕ → ℕ → Memory → Memory
set_check a c m i = if i == a + 10 then c % 256 else if i == a + 11 then c / 256 else m i
