-- ===== src/Net/Queue.antt =====
-- net/skbuff.c: queues of socket buffers, doubly linked rings through the queue's head. The `next` and
-- `prev` of buffers and heads are functions of their address, as is the queue that a buffer is on;
-- the address 0 is NULL.
pub mod Ring
pub mod Order
use linuxab.Prelude.{
  ℕ, zero, suc, ◌+◌, ◌-◌, ◌%◌, Bool, true, false, Option, none, some, List, [], ◌∷◌, ◌==◌,
  if◌then◌else◌,
}

pub record Links : Type 0 where
  pub next : ℕ → ℕ
  pub prev : ℕ → ℕ
  pub owner : ℕ → ℕ
  pub qlen : ℕ → ℕ

abbrev pub put : (ℕ → ℕ) → ℕ → ℕ → ℕ → ℕ
put f a v b = if a == b then v else f b

abbrev pub set_next : ℕ → ℕ → Links → Links
set_next a v s = record s { next = put s.next a v }

abbrev pub set_prev : ℕ → ℕ → Links → Links
set_prev a v s = record s { prev = put s.prev a v }

abbrev pub set_owner : ℕ → ℕ → Links → Links
set_owner a v s = record s { owner = put s.owner a v }

abbrev pub set_qlen : ℕ → ℕ → Links → Links
set_qlen a v s = record s { qlen = put s.qlen a v }

pub skb_queue_head_init : ℕ → Links → Links
skb_queue_head_init list s = set_qlen list 0 (set_next list list (set_prev list list s))

-- The assignments of the source, the first one innermost. `next` is read before any of them.
pub skb_queue_tail : ℕ → ℕ → Links → Links
skb_queue_tail list newsk s =
    let next = s.next list in
    let s1 = set_qlen list ((s.qlen list + 1) % 4294967296) (set_owner newsk list s) in
    set_next list newsk (set_prev next newsk (set_prev newsk list (set_next newsk next s1)))

pub skb_dequeue : ℕ → Links → Option ℕ × Links
skb_dequeue list s =
    let skb = s.next list in
    let next = s.next skb in
    let s1 = set_prev next list (set_next list next s) in
    if skb == list
    then (none, s)
    else (some skb, set_owner skb 0 (set_qlen list ((s.qlen list + 4294967295) % 4294967296) s1))

pub skb_queue_len : ℕ → Links → ℕ
skb_queue_len list s = s.qlen list

-- `while ((skb = skb_dequeue(list)) != NULL) kfree_skb(skb);`: the buffers that `kfree_skb`
-- is called for, in order; what their counts make of that is outside. `none` is fuel that has run out.
pub skb_queue_purge : ℕ → ℕ → Links → Option (List ℕ × Links)
skb_queue_purge zero list s = none
skb_queue_purge (suc fuel) list s =
    let rest = skb_queue_purge fuel list (skb_dequeue list s).1 in
    elim ((skb_dequeue list s).0) [
      | none ↦ some ([], (skb_dequeue list s).1)
      | some skb ↦ elim rest [ none ↦ none | some (freed, s') ↦ some (skb ∷ freed, s') ]
    ]
