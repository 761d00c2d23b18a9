-- ===== src/Net/Skb/Window.antt =====
-- net/skbuff.h: the order of the four pointers of a buffer, and what the window operations keep.
use linuxab.Prelude.{ℕ, ◌+◌, ◌<◌, ◌≤◌, ◌≡◌, refl, arith}
use linuxab.Net.Skb.{Skb, skb_put, skb_push, skb_pull, skb_headroom, skb_tailroom}

-- The data lies within the buffer, and `len` is what it takes.
pub record IsBuffer (s : Skb) : Type 0 where
  pub front : s.head ≤ s.data_at
  pub back : s.tail ≤ s.limit
  pub window : s.data_at + s.len ≡ s.tail
  pub small : s.limit < 4294967296 + s.head

-- The fields that a `skb_push` and a `skb_pull` of one length leave as they were.
abbrev pub Same : Skb → Skb → Type 0
Same r s =
    (r.head ≡ s.head)
    × (r.data_at ≡ s.data_at)
    × (r.tail ≡ s.tail)
    × (r.limit ≡ s.limit)
    × (r.len ≡ s.len)
    × (r.users ≡ s.users)

-- To append no more than the room behind the data keeps the data within the buffer; the new bytes
-- begin where the data ended, and the room behind shrinks by them while the room before stays.
pub skb_put-IsBuffer :
    (s : Skb) (n : ℕ)
    → IsBuffer s
    → n ≤ skb_tailroom s
    → IsBuffer (skb_put s n).1
      × ((skb_put s n).0 ≡ s.data_at + s.len)
      × (skb_tailroom (skb_put s n).1 + n ≡ skb_tailroom s)
      × (skb_headroom (skb_put s n).1 ≡ skb_headroom s)
unfolding skb_tailroom skb_headroom skb_put
skb_put-IsBuffer s n b h =
    let w = b.window in
    let f = b.front in
    let k = b.back in
    let l = b.small in
    (
      record {
        front = ground arith;
        back = ground arith;
        window = omega arith;
        small = ground arith;
      },
      ground arith,
      ground arith,
      refl,
    )

-- To prepend no more than the room before the data keeps the data within the buffer, and to drop as
-- much from the front again gives the buffer as it was.
pub skb_push-skb_pull :
    (s : Skb) (n : ℕ)
    → IsBuffer s
    → n ≤ skb_headroom s
    → IsBuffer (skb_push s n).1
      × (skb_headroom (skb_push s n).1 + n ≡ skb_headroom s)
      × Same (skb_pull (skb_push s n).1 n).1 s
unfolding skb_headroom skb_push skb_pull
skb_push-skb_pull s n b h =
    let w = b.window in
    let f = b.front in
    let k = b.back in
    let l = b.small in
    (
      record {
        front = ground arith;
        back = ground arith;
        window = omega arith;
        small = ground arith;
      },
      ground arith,
      (refl, ground arith, refl, refl, omega arith, refl),
    )

-- To drop no more than there is keeps the data within the buffer, and to prepend as much again gives
-- the buffer as it was.
pub skb_pull-skb_push :
    (s : Skb) (n : ℕ)
    → IsBuffer s
    → n ≤ s.len
    → IsBuffer (skb_pull s n).1 × Same (skb_push (skb_pull s n).1 n).1 s
unfolding skb_headroom skb_push skb_pull
skb_pull-skb_push s n b h =
    let w = b.window in
    let f = b.front in
    let k = b.back in
    let l = b.small in
    (
      record {
        front = ground arith;
        back = ground arith;
        window = omega arith;
        small = ground arith;
      },
      (refl, ground arith, refl, refl, omega arith, refl),
    )
