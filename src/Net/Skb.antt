-- ===== src/Net/Skb.antt =====
-- net/skbuff.c, net/skbuff.h: a socket buffer, the window of its data between its head and its end, and
-- its copies. Memory is a function of the address. The page allocator's answer is an argument `page`,
-- with 0 for NULL, and `header` is `sizeof(struct sk_buff)`. The field `data` is `data_at` here. `len` is
-- a uint32_t and wraps; pointers do not.
pub mod Window
pub mod Copies
use linuxab.Prelude.{
  ℕ, zero, suc, ◌+◌, ◌-◌, ◌%◌, ◌/◌, ◌*◌, Bool, true, false, Option, none, some, ◌==◌, ◌&&◌,
  if◌then◌else◌, leb, ltb,
}

pub record Skb : Type 0 where
  pub head : ℕ
  pub data_at : ℕ
  pub tail : ℕ
  pub limit : ℕ
  pub len : ℕ
  pub truesize : ℕ
  pub users : ℕ
  pub dev : ℕ
  pub protocol : ℕ
  pub pkt_type : ℕ
  pub priority : ℕ

abbrev pub Memory : Type 0
Memory = ℕ → ℕ

-- What is appended: the place of the new bytes, and the buffer.
pub skb_put : Skb → ℕ → ℕ × Skb
skb_put s n = (s.tail, record s { tail = s.tail + n; len = (s.len + n) % 4294967296 })

unfoldable pub skb_push : Skb → ℕ → ℕ × Skb
skb_push s n = (s.data_at - n, record s { data_at = s.data_at - n; len = (s.len + n) % 4294967296 })

unfoldable pub skb_pull : Skb → ℕ → ℕ × Skb
skb_pull s n = (
  s.data_at + n,
  record s { data_at = s.data_at + n; len = (s.len + (4294967296 - n)) % 4294967296 },
)

-- For a length that is not negative.
pub skb_reserve : Skb → ℕ → Skb
skb_reserve s n = record s { data_at = s.data_at + n; tail = s.tail + n }

unfoldable pub skb_headroom : Skb → ℕ
skb_headroom s = s.data_at - s.head

unfoldable pub skb_tailroom : Skb → ℕ
skb_tailroom s = s.limit - s.tail

-- `users` is counted down; the page is released when none is left.
pub kfree_skb : Skb → Bool × Skb
kfree_skb s = (s.users - 1 == 0, record s { users = s.users - 1 })

pub memcpy : ℕ → ℕ → ℕ → Memory → Memory
memcpy to from n m a = if leb to a && ltb a (to + n) then m (from + (a - to)) else m a

-- ALIGN(x, 64) of an unsigned int.
pub skb_data_align : ℕ → ℕ
skb_data_align x = ((x + 63) % 4294967296) / 64 * 64

module _ (header : ℕ) where
  pub alloc_skb : ℕ → ℕ → Option Skb
  alloc_skb page size =
      let base = page + skb_data_align header in
      if page == 0
      then none
      else some (record {
        head = base;
        data_at = base;
        tail = base;
        limit = base + size;
        len = 0;
        truesize = (skb_data_align header + skb_data_align size) % 4294967296;
        users = 1;
        dev = 0;
        protocol = 0;
        pkt_type = 0;
        priority = 0;
      })

  pub dev_alloc_skb : ℕ → ℕ → Option Skb
  dev_alloc_skb page length = elim (alloc_skb page ((length + 64) % 4294967296)) [
    | none ↦ none
    | some s ↦ some (skb_reserve s 64)
  ]

  pub skb_clone : ℕ → Skb → Memory → Option (Skb × Memory)
  skb_clone page s m = elim (alloc_skb page s.len) [
    | none ↦ none
    | some n ↦ some (
      record ((skb_put n s.len).1) {
        dev = s.dev;
        protocol = s.protocol;
        pkt_type = s.pkt_type;
        priority = s.priority;
      },
      memcpy ((skb_put n s.len).0) s.data_at s.len m,
    )
  ]

  pub skb_copy : ℕ → Skb → Memory → Option (Skb × Memory)
  skb_copy page s m =
      let headerlen = s.data_at - s.head in
      elim (alloc_skb page ((s.len + headerlen) % 4294967296)) [
        | none ↦ none
        | some n ↦
            let r = skb_put (skb_reserve n headerlen) s.len in
            some (r.1, memcpy (r.0) s.data_at s.len m)
      ]
