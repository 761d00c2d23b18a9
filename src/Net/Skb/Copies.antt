-- ===== src/Net/Skb/Copies.antt =====
-- net/skbuff.c: what the allocators give, and that a copy has the bytes of its source.
use linuxab.Prelude.{
  ℕ, ◌+◌, ◌-◌, ◌<◌, ◌≤◌, ◌%◌, ◌≡◌, ◌≢◌, refl, ap, ◌∙◌, true, false, Option, none, some, ◌==◌, leb,
  ltb, arith,
}
use linuxab.Net.Skb.{
  Skb, Memory, memcpy, skb_put, skb_reserve, skb_headroom, skb_tailroom, skb_data_align, alloc_skb,
  dev_alloc_skb, skb_copy, skb_clone,
}
use linuxab.Net.Skb.Window.{IsBuffer}

-- The buffer that `alloc_skb` makes in a page.
abbrev made : ℕ → ℕ → ℕ → Skb
made header page size =
    let base = page + skb_data_align header in
    record {
      head = base;
      data_at = base;
      tail = base;
      limit = base + size;
      len = 0;
      truesize = (skb_data_align header + skb_data_align size) % 4294967296;
      users = 1;
      dev = 0;
      protocol = 0;
      pkt_type = 0;
      priority = 0;
    }

alloc_skb-made :
    (header page size : ℕ) → page ≢ 0 → alloc_skb header page size ≡ some (made header page size)
unfolding alloc_skb
alloc_skb-made header page size some_page = let t : (page == 0) ≡ false = ground arith in rw t

dev_alloc_skb-made :
    (header page size : ℕ)
    → page ≢ 0
    → size + 64 < 4294967296
    → dev_alloc_skb header page size ≡ some (skb_reserve (made header page (size + 64)) 64)
unfolding dev_alloc_skb
dev_alloc_skb-made header page size some_page small =
    let whole : (size + 64) % 4294967296 ≡ size + 64 = omega arith in
    ap (λ o. elim o [ none ↦ none | some s ↦ some (skb_reserve s 64) ])
      (ap (λ k. alloc_skb header page k) whole ∙ alloc_skb-made header page (size + 64) some_page)

-- The copies when the allocator has made `n` for them.
abbrev copy_of : Skb → Memory → Option Skb → Option (Skb × Memory)
copy_of s m o = elim o [
  | none ↦ none
  | some n ↦
      let r = skb_put (skb_reserve n (s.data_at - s.head)) s.len in
      some (r.1, memcpy (r.0) s.data_at s.len m)
]

abbrev clone_of : Skb → Memory → Option Skb → Option (Skb × Memory)
clone_of s m o = elim o [
  | none ↦ none
  | some n ↦ some (
    record ((skb_put n s.len).1) {
      dev = s.dev;
      protocol = s.protocol;
      pkt_type = s.pkt_type;
      priority = s.priority;
    },
    memcpy ((skb_put n s.len).0) s.data_at s.len m,
  )
]

skb_copy-made :
    (header page : ℕ) (s : Skb) (m : Memory)
    → page ≢ 0
    → s.len + (s.data_at - s.head) < 4294967296
    → skb_copy header page s m
      ≡ copy_of s m (some (made header page (s.len + (s.data_at - s.head))))
unfolding skb_copy
skb_copy-made header page s m some_page small =
    let whole : (s.len + (s.data_at - s.head)) % 4294967296 ≡ s.len + (s.data_at - s.head) =
      omega arith in
    ap (copy_of s m) (
      ap (λ k. alloc_skb header page k) whole
      ∙ alloc_skb-made header page (s.len + (s.data_at - s.head)) some_page)

skb_clone-made :
    (header page : ℕ) (s : Skb) (m : Memory)
    → page ≢ 0
    → skb_clone header page s m ≡ clone_of s m (some (made header page s.len))
unfolding skb_clone
skb_clone-made header page s m some_page =
    ap (clone_of s m) (alloc_skb-made header page s.len some_page)

-- A buffer with no data, with `front` bytes before it and `back` bytes behind it.
abbrev pub Fresh : ℕ → ℕ → Option Skb → Type 0
Fresh front back none = ⊥
Fresh front back (some s) =
    IsBuffer s × (s.len ≡ 0) × (skb_headroom s ≡ front) × (skb_tailroom s ≡ back) × (s.users ≡ 1)

-- When the allocator has a page, `alloc_skb` gives an empty buffer with all its room behind the data,
-- and `dev_alloc_skb` one with 64 bytes before the data and the length asked for behind it.
pub alloc_skb-Fresh :
    (header page size : ℕ)
    → page ≢ 0
    → size + 64 < 4294967296
    → Fresh 0 size (alloc_skb header page size) × Fresh 64 size (dev_alloc_skb header page size)
unfolding skb_reserve skb_headroom skb_tailroom
alloc_skb-Fresh header page size some_page small = (
  rw (alloc_skb-made header page size some_page) (
    record { front = omega arith; back = omega arith; window = omega arith; small = omega arith },
    refl,
    omega arith,
    omega arith,
    refl,
  ),
  rw (dev_alloc_skb-made header page size some_page small) (
    record { front = omega arith; back = omega arith; window = omega arith; small = omega arith },
    refl,
    omega arith,
    omega arith,
    refl,
  ),
)

abbrev pub Beyond : ℕ → Option Skb → Type 0
Beyond bound none = ⊥
Beyond bound (some s) = bound ≤ s.limit

-- The size is not compared with that of the page: whatever is asked for, the buffer ends `size` bytes
-- behind a header that itself lies in the page, so that one of a page or more ends beyond the page.
pub alloc_skb-Beyond :
    (header page size page_size : ℕ)
    → page ≢ 0
    → page_size ≤ size
    → Beyond (page + page_size) (alloc_skb header page size)
alloc_skb-Beyond header page size page_size some_page big =
    rw (alloc_skb-made header page size some_page) (omega arith)

-- A copy of `s`: `front` bytes before the data, the data's length and its byte `i`.
abbrev pub Copied : ℕ → ℕ → Skb → Memory → Option (Skb × Memory) → Type 0
Copied front i s m none = ⊥
Copied front i s m (some (n, m')) =
    IsBuffer n
    × (skb_headroom n ≡ front)
    × (n.len ≡ s.len)
    × (m' (n.data_at + i) ≡ m (s.data_at + i))

pub memcpy_inside :
    (to from n i : ℕ) (m : Memory) → i < n → memcpy to from n m (to + i) ≡ m (from + i)
unfolding memcpy
memcpy_inside to from n i m h =
    let l : leb to (to + i) ≡ true = ground arith in
    let r : ltb (to + i) (to + n) ≡ true = ground arith in
    let e : to + i - to ≡ i = omega arith in rw (l, r, e)

-- With a page, and a source whose data lies within it, `skb_copy` gives a buffer with the source's
-- room before the data and `skb_clone` one with none; the data of both lies within the buffer and has
-- the length and each byte of the source's.
pub skb_copy-skb_clone :
    (header page i : ℕ) (s : Skb) (m : Memory)
    → page ≢ 0
    → IsBuffer s
    → i < s.len
    → Copied (skb_headroom s) i s m (skb_copy header page s m)
      × Copied 0 i s m (skb_clone header page s m)
unfolding skb_reserve skb_put skb_headroom
skb_copy-skb_clone header page i s m some_page b h =
    let w = b.window in
    let f = b.front in
    let k = b.back in
    let l = b.small in
    (
      rw (skb_copy-made header page s m some_page (omega arith)) (
        record {
          front = omega arith;
          back = omega arith;
          window = omega arith;
          small = omega arith;
        },
        omega arith,
        omega arith,
        memcpy_inside (page + skb_data_align header + (s.data_at - s.head)) s.data_at s.len i m h,
      ),
      rw (skb_clone-made header page s m some_page) (
        record {
          front = omega arith;
          back = omega arith;
          window = omega arith;
          small = omega arith;
        },
        omega arith,
        omega arith,
        memcpy_inside (page + skb_data_align header) s.data_at s.len i m h,
      ),
    )
