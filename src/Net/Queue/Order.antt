-- ===== src/Net/Queue/Order.antt =====
-- The queue of packets is first in, first out, and the pool gives no buffer to two holders.
use knit_os.Base.{
  ℕ, zero, suc, ◌+◌, ◌-◌, ◌%◌, ◌^◌, ◌≡◌, ◌≤◌, ◌<◌, ◌≢◌, ◌∙◌, refl, ap, List, [], ◌∷◌, ◌++◌, true,
  false, not, none, some, get_elem?, get_or, set, arith, length, length-set, ◌==◌, find_index_cases,
  All, All-map, Bool-cases, ◌⊎◌, inl, inr, get_elem?-set_self, lt_of_get_elem?, ==_of_ne, eq_of_==,
  ne_of_==,
}
use knit_os.Base.{get_or-set_self, get_or-set_ne}
use knit_os.Net.Queue.{
  NetQueue, queue_size, net_queue_push, net_queue_pop, Skb, reset, skb_alloc, skb_free,
}

pub record IsQueue (q : NetQueue) : Type 0 where
  pub room : length q.slots ≡ queue_size
  pub head_in : q.head < queue_size
  pub tail_in : q.tail < queue_size

-- `n` slots from the index `t` on, going round at the end of the array.
unfoldable pub reading : List ℕ → ℕ → ℕ → List ℕ
reading slots t zero = []
reading slots t (suc n) = get_or slots t 0 ∷ reading slots ((t + 1) % queue_size) n

abbrev pub count : NetQueue → ℕ
count q = (q.tail + queue_size - q.head) % queue_size

-- The buffers in the queue, oldest first.
abbrev pub queued : NetQueue → List ℕ
queued q = reading q.slots q.head (count q)

length-reading : (slots : List ℕ) (t n : ℕ) → length (reading slots t n) ≡ n
unfolding reading
length-reading slots t zero = refl
length-reading slots t (suc n) = ap suc (length-reading slots ((t + 1) % queue_size) n)

reading_snoc :
    (slots : List ℕ) (t n i : ℕ)
    → t < queue_size
    → i ≡ (t + n) % queue_size
    → reading slots t (suc n) ≡ reading slots t n ++ get_or slots i 0 ∷ []
unfolding reading
reading_snoc slots t zero i h e = let e' : i ≡ t = omega arith in rw e'
reading_snoc slots t (suc n) i h e =
    ap (◌∷◌ (get_or slots t 0))
      (reading_snoc slots ((t + 1) % queue_size) n i (omega arith) (omega arith))

-- A write `d` slots on changes nothing that is read in front of it.
reading-set :
    (slots : List ℕ) (t n d i c : ℕ)
    → t < queue_size
    → n ≤ d
    → d < queue_size
    → i ≡ (t + d) % queue_size
    → reading (set slots i c) t n ≡ reading slots t n
unfolding reading
reading-set slots t zero d i c ht hn hd e = refl
reading-set slots t (suc n) d i c ht hn hd e = rw (
  get_or-set_ne slots i t c 0 (omega arith),
  reading-set slots ((t + 1) % queue_size) n (d - 1) i c (omega arith) (omega arith) (omega arith)
      (omega arith),
)

-- A push of a buffer puts it behind all others and is refused, and counted, exactly if 31 are queued.
pub net_queue_push-queued :
    (skb : ℕ) (q : NetQueue)
    → IsQueue q
    → skb ≢ 0
    → ((length (queued q) < 31)
        × ((net_queue_push skb q).0 ≡ true)
        × IsQueue (net_queue_push skb q).1
        × (queued (net_queue_push skb q).1 ≡ queued q ++ skb ∷ []))
      ⊎ ((length (queued q) ≡ 31)
          × (net_queue_push skb q ≡ (false, record q { drops = (q.drops + 1) % 2 ^ 32 })))
unfolding net_queue_push
net_queue_push-queued skb q v nz =
    let some_skb : (skb == 0) ≡ false = ==_of_ne skb 0 nz in
    let size = length-reading q.slots q.head (count q) in
    elim (Bool-cases ((q.tail + 1) % queue_size == q.head)) [
      | inl full ↦
          let e = eq_of_== ((q.tail + 1) % queue_size) q.head full in
          inr (omega (arith, v.tail_in, v.head_in), rw (some_skb, full, net_queue_push) refl)
      | inr free ↦
          let ne = ne_of_== ((q.tail + 1) % queue_size) q.head free in
          let more : ((q.tail + 1) % queue_size + queue_size - q.head) % queue_size
              ≡ suc (count q) =
            omega (arith, v.tail_in, v.head_in) in
          inl (
            omega (arith, v.tail_in, v.head_in),
            rw (some_skb, free, net_queue_push) refl,
            rw (some_skb, free, net_queue_push)
                (record {
                  room = length-set q.slots q.tail skb ∙ v.room;
                  head_in = v.head_in;
                  tail_in = omega arith;
                }),
            rw (some_skb, free, net_queue_push)
                (rw
                  (
                    more,
                    reading_snoc (set q.slots q.tail skb) q.head (count q) q.tail v.head_in
                        (omega (arith, v.tail_in, v.head_in)),
                    reading-set q.slots q.head (count q) (count q) q.tail skb v.head_in
                        (omega arith) (omega arith) (omega (arith, v.tail_in, v.head_in)),
                    get_or-set_self q.slots q.tail skb 0 (omega (arith, v.room, v.tail_in)),
                  )
                  refl),
          )
    ]

-- A pop takes the oldest buffer and leaves the others in order; it finds none exactly if none is
-- queued.
pub net_queue_pop-queued :
    (q : NetQueue)
    → IsQueue q
    → ((queued q ≡ []) × (net_queue_pop q ≡ (none, q)))
      ⊎ ((skb : ℕ) × ((net_queue_pop q).0 ≡ some skb)
          × (queued q ≡ skb ∷ queued (net_queue_pop q).1)
          × IsQueue (net_queue_pop q).1)
unfolding net_queue_pop reading
net_queue_pop-queued q v = elim (Bool-cases (q.head == q.tail)) [
  | inl empty ↦
      let e = eq_of_== q.head q.tail empty in
      let zero_left : count q ≡ 0 = omega (arith, v.tail_in) in
      inl (rw zero_left refl, rw (empty, net_queue_pop) refl)
  | inr some_left ↦
      let ne = ne_of_== q.head q.tail some_left in
      let n = (q.tail + queue_size - (q.head + 1) % queue_size) % queue_size in
      let more : count q ≡ suc n = omega (arith, v.tail_in, v.head_in) in
      inr (
        get_or q.slots q.head 0,
        rw (some_left, net_queue_pop) refl,
        rw (some_left, net_queue_pop)
            (rw
              (
                more,
                reading-set q.slots ((q.head + 1) % queue_size) n 31 q.head 0 (omega arith)
                    (omega arith) (omega arith) (omega (arith, v.head_in)),
              )
              refl),
        rw (some_left, net_queue_pop)
            (record {
              room = length-set q.slots q.head 0 ∙ v.room;
              head_in = omega arith;
              tail_in = v.tail_in;
            }),
      )
]

-- An allocation gives a buffer that nobody holds, marked as held and empty, and changes no other; it
-- fails only if all are held. Freeing it makes it free again.
pub skb_alloc-fresh :
    (pool : List Skb)
    → ((skb_alloc pool ≡ (none, pool)) × All (λ (s : Skb). s.in_use ≡ true) pool)
      ⊎ ((i : ℕ) × (s : Skb) × (get_elem? pool i ≡ some s)
          × (s.in_use ≡ false)
          × (skb_alloc pool ≡ (some i, set pool i (reset true s)))
          × (get_elem? (skb_free i (skb_alloc pool).1) i ≡ some (reset false s)))
unfolding skb_alloc skb_free
skb_alloc-fresh pool = elim (find_index_cases (λ (s : Skb). not s.in_use) pool) [
  | inl (e, taken) ↦ inl (
    rw (e, skb_alloc) refl,
    All-map (λ (s : Skb). not s.in_use ≡ false) (λ (s : Skb). s.in_use ≡ true) pool
        (λ s h. ground arith) taken,
  )
  | inr (i, s, e, at, free) ↦
      let here = get_elem?-set_self pool i (reset true s) (lt_of_get_elem? pool i at) in
      let alloc : skb_alloc pool ≡ (some i, set pool i (reset true s)) =
        rw (e, at, skb_alloc) refl in
      inr (
        i,
        s,
        at,
        ground arith,
        alloc,
        rw alloc (
            rw (here, skb_free)
              (get_elem?-set_self (set pool i (reset true s)) i (reset false s)
                (omega (arith, length-set pool i (reset true s), lt_of_get_elem? pool i at)))),
      )
]
