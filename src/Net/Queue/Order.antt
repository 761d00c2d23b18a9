-- ===== src/Net/Queue/Order.antt =====
-- What the operations do to the list of buffers: `skb_queue_tail` puts a buffer at the front.
use linuxab.Prelude.{
  ℕ, zero, suc, ◌+◌, ◌<◌, ◌≡◌, ◌≢◌, refl, sym, ◌%◌, ap, true, false, Option, none, some, List, [],
  ◌∷◌, ◌==◌, arith, length,
}
use linuxab.Net.Queue.{
  Links, set_next, set_prev, set_owner, set_qlen, put, skb_queue_head_init, skb_queue_tail,
  skb_dequeue, skb_queue_purge,
}
use linuxab.Prelude.Distinct.{NotIn}
use linuxab.Net.Queue.Ring.{Chain, IsQueue, frame_next, frame_prev}

pub init-IsQueue : (list : ℕ) (s : Links) → IsQueue (skb_queue_head_init list s) list []
unfolding skb_queue_head_init
init-IsQueue list s = ground arith

-- A new buffer joins a queue at its front: the next `skb_dequeue` takes it, before all that have waited.
pub skb_queue_tail-IsQueue :
    (list x : ℕ) (xs : List ℕ) (s : Links)
    → IsQueue s list xs
    → x ≢ list
    → NotIn x xs
    → length xs < 4294967295
    → IsQueue (skb_queue_tail list x s) list (x ∷ xs)
unfolding skb_queue_tail
skb_queue_tail-IsQueue list x [] s q ne out small =
    let step : s.next list ≡ list = q.ring.0 in
    let count : s.qlen list ≡ 0 = q.counted in
    record {
      ring = ground arith;
      apart = (ground arith, tt);
      distinct = (tt, tt);
      counted = ground arith;
    }
skb_queue_tail-IsQueue list x (y ∷ ys) s q ne out small =
    let step : s.next list ≡ y = q.ring.0 in
    let count : s.qlen list ≡ suc (length ys) = q.counted in
    let low : Chain s.next (put (put s.prev x list) (s.next list) x) y ys list =
      frame_prev s.next (put s.prev x list) (s.next list) x y ys list (ground arith)
        (rw step q.distinct.0) (frame_prev s.next s.prev x list y ys list ne out.1 q.ring.2) in
    record {
      ring = (
        ground arith,
        ground arith,
        (
          ground arith,
          ground arith,
          frame_next (put s.next x (s.next list)) (put (put s.prev x list) (s.next list) x) list x y
              ys list q.apart.0 q.apart.1
              (frame_next s.next (put (put s.prev x list) (s.next list) x) x (s.next list) y ys list
                out.0 out.1 low),
        ),
      );
      apart = (ground arith, q.apart);
      distinct = (out, q.distinct);
      counted = ground arith;
    }

-- The links once `skb_dequeue` has taken `x`.
abbrev taken : ℕ → ℕ → Links → Links
taken list x s =
    let s1 = set_prev (s.next x) list (set_next list (s.next x) s) in
    set_owner x 0 (set_qlen list ((s.qlen list + 4294967295) % 4294967296) s1)

skb_dequeue_more :
    (list x : ℕ) (s : Links)
    → s.next list ≡ x
    → x ≢ list
    → skb_dequeue list s ≡ (some x, taken list x s)
unfolding skb_dequeue
skb_dequeue_more list x s e ne = rw e (let t : (x == list) ≡ false = ground arith in rw t)

taken-IsQueue :
    (list x : ℕ) (xs : List ℕ) (s : Links)
    → IsQueue s list (x ∷ xs)
    → length xs < 4294967295
    → IsQueue (taken list x s) list xs
taken-IsQueue list x [] s q small =
    let step : s.next x ≡ list = q.ring.2.0 in
    let count : s.qlen list ≡ 1 = q.counted in
    record {
      ring = (ground arith, ground arith);
      apart = tt;
      distinct = tt;
      counted = ground arith;
    }
taken-IsQueue list x (y ∷ ys) s q small =
    let step : s.next x ≡ y = q.ring.2.0 in
    let count : s.qlen list ≡ suc (suc (length ys)) = q.counted in
    record {
      ring = (
        ground arith,
        ground arith,
        frame_next s.next (put s.prev (s.next x) list) list (s.next x) y ys list q.apart.1.0
            q.apart.1.1
            (frame_prev s.next s.prev (s.next x) list y ys list (ground arith)
              (rw step q.distinct.1.0) q.ring.2.2),
      );
      apart = q.apart.1;
      distinct = q.distinct.1;
      counted = ground arith;
    }

pub skb_dequeue-IsQueue :
    (list x : ℕ) (xs : List ℕ) (s : Links)
    → IsQueue s list (x ∷ xs)
    → length xs < 4294967295
    → ((skb_dequeue list s).0 ≡ some x) × IsQueue (skb_dequeue list s).1 list xs
skb_dequeue-IsQueue list x xs s q small =
    rw (skb_dequeue_more list x s q.ring.0 (λ e. q.apart.0 (sym e)))
      (refl, taken-IsQueue list x xs s q small)

skb_dequeue_empty : (list : ℕ) (s : Links) → s.next list ≡ list → skb_dequeue list s ≡ (none, s)
unfolding skb_dequeue
skb_dequeue_empty list s e = let t : (s.next list == list) ≡ true = ground arith in rw t

-- On a queue that is not full, a buffer that is not on it and that `skb_queue_tail` puts on it is the
-- one that the next `skb_dequeue` takes, whatever has waited longer, and the queue is then as it was:
-- the queue is a stack.
pub skb_queue_tail-skb_dequeue :
    (list x : ℕ) (xs : List ℕ) (s : Links)
    → IsQueue s list xs
    → x ≢ list
    → NotIn x xs
    → length xs < 4294967295
    → ((skb_dequeue list (skb_queue_tail list x s)).0 ≡ some x)
      × IsQueue (skb_dequeue list (skb_queue_tail list x s)).1 list xs
skb_queue_tail-skb_dequeue list x xs s q ne out small =
    skb_dequeue-IsQueue list x xs (skb_queue_tail list x s)
      (skb_queue_tail-IsQueue list x xs s q ne out small) small

abbrev pub Purged : ℕ → List ℕ → Option (List ℕ × Links) → Type 0
Purged list xs none = ⊥
Purged list xs (some (freed, s)) = (freed ≡ xs) × IsQueue s list []

-- What a turn of the loop makes of its call of `skb_dequeue`.
abbrev turn : ℕ → ℕ → Option ℕ × Links → Option (List ℕ × Links)
turn fuel list p = elim p.0 [
  | none ↦ some ([], p.1)
  | some skb ↦ elim (skb_queue_purge fuel list p.1) [
    | none ↦ none
    | some (freed, s') ↦ some (skb ∷ freed, s')
  ]
]

purge_step :
    (fuel list x : ℕ) (s s' : Links)
    → skb_dequeue list s ≡ (some x, s')
    → skb_queue_purge (suc fuel) list s ≡ elim (skb_queue_purge fuel list s') [
      | none ↦ none
      | some (freed, s'') ↦ some (x ∷ freed, s'')
    ]
unfolding skb_queue_purge
purge_step fuel list x s s' e = ap (turn fuel list) e

purge_end :
    (fuel list : ℕ) (s : Links)
    → skb_dequeue list s ≡ (none, s)
    → skb_queue_purge (suc fuel) list s ≡ some ([], s)
unfolding skb_queue_purge
purge_end fuel list s e = ap (turn fuel list) e

Purged-more :
    (list x : ℕ) (xs : List ℕ) (r : Option (List ℕ × Links))
    → Purged list xs r
    → Purged list (x ∷ xs) (elim r [ none ↦ none | some (freed, s) ↦ some (x ∷ freed, s) ])
Purged-more list x xs none p = absurd p
Purged-more list x xs (some (freed, s)) p = (ap (λ ys. x ∷ ys) p.0, p.1)

-- On a queue of fewer than 2 ^ 32 buffers `skb_queue_purge` ends after one turn more than the queue
-- has buffers, has released each of them once, in the order of the queue, and leaves the queue empty.
pub skb_queue_purge_lem :
    (fuel list : ℕ) (xs : List ℕ) (s : Links)
    → IsQueue s list xs
    → length xs < fuel
    → length xs < 4294967296
    → Purged list xs (skb_queue_purge fuel list s)
skb_queue_purge_lem zero list xs s q enough small = absurd (omega arith)
skb_queue_purge_lem (suc fuel) list [] s q enough small =
    rw (purge_end fuel list s (skb_dequeue_empty list s q.ring.0)) (refl, q)
skb_queue_purge_lem (suc fuel) list (x ∷ xs) s q enough small =
    rw
      (purge_step fuel list x s (taken list x s)
        (skb_dequeue_more list x s q.ring.0 (λ e. q.apart.0 (sym e))))
      (Purged-more list x xs (skb_queue_purge fuel list (taken list x s)) (
        skb_queue_purge_lem fuel list xs (taken list x s)
          (taken-IsQueue list x xs s q (omega arith)) (omega arith) (omega arith)))
