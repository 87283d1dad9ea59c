-- ===== src/Net/Queue/Tests.antt =====
-- kernel/drivers/network/core/net_queue.cpp and skb.cpp on a concrete queue and pool.
use knit_os.Base.{
  ℕ, ◌+◌, ◌%◌, ◌^◌, ◌≡◌, ◌<◌, ◌⊎◌, refl, true, false, none, some, List, [], ◌∷◌, ◌++◌, replicate,
  length, All, get_elem?, set, arith,
}
use knit_os.Net.Queue.{NetQueue, net_queue_push, Skb, reset, skb_alloc, skb_free}
use knit_os.Net.Queue.Order.{IsQueue, queued, net_queue_push-queued, skb_alloc-fresh}

-- Two buffers across the end of the array.
abbrev queue : NetQueue
queue = record { slots = replicate 32 5; head = 31; tail = 1; drops = 0 }

queue-IsQueue : IsQueue queue
queue-IsQueue = record { room = refl; head_in = omega arith; tail_in = omega arith }

net_queue_push-queued_example :
    ((length (queued queue) < 31)
      × ((net_queue_push 9 queue).0 ≡ true)
      × IsQueue (net_queue_push 9 queue).1
      × (queued (net_queue_push 9 queue).1 ≡ queued queue ++ 9 ∷ []))
    ⊎ ((length (queued queue) ≡ 31)
        × (net_queue_push 9 queue ≡ (false, record queue { drops = (queue.drops + 1) % 2 ^ 32 })))
net_queue_push-queued_example =
    net_queue_push-queued 9 queue queue-IsQueue (λ e. absurd (omega arith))

abbrev pool : List Skb
pool = replicate 2 (record { bytes = []; len = 0; netif = 0; protocol = 0; in_use = false })

skb_alloc-fresh_example :
    ((skb_alloc pool ≡ (none, pool)) × All (λ (s : Skb). s.in_use ≡ true) pool)
    ⊎ ((i : ℕ) × (s : Skb) × (get_elem? pool i ≡ some s)
        × (s.in_use ≡ false)
        × (skb_alloc pool ≡ (some i, set pool i (reset true s)))
        × (get_elem? (skb_free i (skb_alloc pool).1) i ≡ some (reset false s)))
skb_alloc-fresh_example = skb_alloc-fresh pool
