-- ===== src/Net/Queue.antt =====
-- kernel/drivers/network/core/net_queue.cpp and skb.cpp: the queue of received packets and the pool
-- of buffers. A buffer is named by its index in the pool; 0 in a slot is the null pointer, so a slot
-- holds an index plus one.
pub mod Order
pub mod Tests
use mathlib.Core.Option
use knit_os.Base.{
  ℕ, zero, suc, ◌+◌, ◌%◌, ◌^◌, Bool, true, false, not, ◌||◌, Option, none, some, List, [], ◌∷◌,
  ◌++◌, map, take, drop, get_elem?, get_or, set, length, ltb, leb, ◌==◌, if◌then◌else◌, find_index,
}

pub record NetQueue : Type 0 where
  pub slots : List ℕ
  pub head : ℕ
  pub tail : ℕ
  pub drops : ℕ

abbrev pub queue_size : ℕ
queue_size = 32

pub net_queue_init : NetQueue → NetQueue
net_queue_init q = record q { head = 0; tail = 0; drops = 0; slots = map (λ s. 0) q.slots }

pub net_queue_push : ℕ → NetQueue → Bool × NetQueue
net_queue_push skb q =
    let next = (q.tail + 1) % queue_size in
    if skb == 0
    then (false, q)
    else if next == q.head
    then (false, record q { drops = (q.drops + 1) % 2 ^ 32 })
    else (true, record q { slots = set q.slots q.tail skb; tail = next })

pub net_queue_pop : NetQueue → Option ℕ × NetQueue
net_queue_pop q = if q.head == q.tail then (none, q) else (
  some (get_or q.slots q.head 0),
  record q { slots = set q.slots q.head 0; head = (q.head + 1) % queue_size },
)

pub net_queue_empty : NetQueue → Bool
net_queue_empty q = q.head == q.tail

pub record Skb : Type 0 where
  pub bytes : List ℕ
  pub len : ℕ
  pub netif : ℕ
  pub protocol : ℕ
  pub in_use : Bool

abbrev pub skb_data_size : ℕ
skb_data_size = 2048

abbrev pub reset : Bool → Skb → Skb
reset in_use s = record s { in_use = in_use; len = 0; netif = 0; protocol = 0 }

pub skb_pool_init : List Skb → List Skb
skb_pool_init pool = map (reset false) pool

pub skb_alloc : List Skb → Option ℕ × List Skb
skb_alloc pool = elim (find_index (λ s. not s.in_use) pool) [
  | none ↦ (none, pool)
  | some i ↦ elim (get_elem? pool i) [
    | none ↦ (none, pool)
    | some s ↦ (some i, set pool i (reset true s))
  ]
]

pub skb_free : ℕ → List Skb → List Skb
skb_free i pool = elim (get_elem? pool i) [ none ↦ pool | some s ↦ set pool i (reset false s) ]

-- `none` is -1.
pub skb_copy_from : List ℕ → Skb → Option Skb
skb_copy_from data_in s =
    if length data_in == 0 || ltb skb_data_size (length data_in)
    then none
    else some (record s { bytes = data_in ++ drop (length data_in) s.bytes; len = length data_in })
