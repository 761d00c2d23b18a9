-- ===== src/Tests/Net.antt =====
-- net/skbuff.c at concrete inputs.
use linuxab.Prelude.{◌%◌, ◌≡◌, refl, some, [], ◌∷◌, arith}
use linuxab.Net.Queue.{Links, skb_queue_head_init, skb_queue_tail, skb_dequeue, skb_queue_purge}
use linuxab.Net.Queue.Ring.{IsQueue}
use linuxab.Net.Queue.Order.{
  Purged, init-IsQueue, skb_queue_tail-IsQueue, skb_queue_tail-skb_dequeue, skb_queue_purge_lem,
}
use linuxab.Net.Skb.{Skb, Memory, skb_headroom, skb_copy, skb_clone}
use linuxab.Net.Skb.Window.{IsBuffer}
use linuxab.Net.Skb.Copies.{Copied, skb_copy-skb_clone}

abbrev nowhere : Links
nowhere = record { next = λ a. 0; prev = λ a. 0; owner = λ a. 0; qlen = λ a. 0 }

-- The queue at 1, with the buffer 10 and then 11 queued.
abbrev empty_queue : Links
empty_queue = skb_queue_head_init 1 nowhere

abbrev two_queued : Links
two_queued = skb_queue_tail 1 11 (skb_queue_tail 1 10 empty_queue)

two_queued-IsQueue : IsQueue two_queued 1 (11 ∷ 10 ∷ [])
two_queued-IsQueue =
    skb_queue_tail-IsQueue 1 11 (10 ∷ []) (skb_queue_tail 1 10 empty_queue)
      (skb_queue_tail-IsQueue 1 10 [] empty_queue (init-IsQueue 1 nowhere) (omega arith) tt
        (omega arith))
      (omega arith) (omega arith, tt) (omega arith)

skb_queue_tail-skb_dequeue_example :
    ((skb_dequeue 1 (skb_queue_tail 1 12 two_queued)).0 ≡ some 12)
    × IsQueue (skb_dequeue 1 (skb_queue_tail 1 12 two_queued)).1 1 (11 ∷ 10 ∷ [])
skb_queue_tail-skb_dequeue_example =
    skb_queue_tail-skb_dequeue 1 12 (11 ∷ 10 ∷ []) two_queued two_queued-IsQueue (omega arith)
      (omega arith, (omega arith, tt)) (omega arith)

skb_queue_purge_lem_example : Purged 1 (11 ∷ 10 ∷ []) (skb_queue_purge 3 1 two_queued)
skb_queue_purge_lem_example =
    skb_queue_purge_lem 3 1 (11 ∷ 10 ∷ []) two_queued two_queued-IsQueue (omega arith) (omega arith)

-- Eight bytes of data, sixteen bytes into a buffer of 64.
abbrev a_buffer : Skb
a_buffer = record {
  head = 4096;
  data_at = 4112;
  tail = 4120;
  limit = 4160;
  len = 8;
  truesize = 320;
  users = 1;
  dev = 3;
  protocol = 0;
  pkt_type = 0;
  priority = 0;
}

a_buffer-IsBuffer : IsBuffer a_buffer
a_buffer-IsBuffer = record {
  front = omega arith;
  back = omega arith;
  window = refl;
  small = omega arith;
}

abbrev bytes : Memory
bytes a = a % 256

skb_copy-skb_clone_example :
    Copied (skb_headroom a_buffer) 5 a_buffer bytes (skb_copy 200 8192 a_buffer bytes)
    × Copied 0 5 a_buffer bytes (skb_clone 200 8192 a_buffer bytes)
skb_copy-skb_clone_example =
    skb_copy-skb_clone 200 8192 5 a_buffer bytes (omega arith) a_buffer-IsBuffer (omega arith)
