-- ===== src/Net/Ports/Ephemeral.antt =====
-- The choice of an ephemeral port by `net_ports_alloc_ephemeral`.
use knit_os.Base.{
  ℕ, zero, suc, ◌+◌, ◌-◌, ◌≤◌, ◌<◌, ◌≡◌, refl, ◌∙◌, List, Bool, false, inl, inr, arith, Bool-cases,
  ltb, ltb→lt,
}
use knit_os.Net.Tcp.{Connection}
use knit_os.Net.Ports.{
  Ports, net_ports_busy, next_port, alloc_port, ephemeral_count, net_ports_alloc_ephemeral,
}

-- The ports from 49152 on.
abbrev pub IsEphemeral : ℕ → Type 0
IsEphemeral p = (49152 ≤ p) × (p ≤ 65535)

next_below : (p : ℕ) → 49152 ≤ p → p < 65535 → next_port p ≡ suc p
next_below p low high = ground arith

next_port-IsEphemeral : (p : ℕ) → IsEphemeral p → IsEphemeral (next_port p)
next_port-IsEphemeral p (low, high) = ground arith

-- The port that is tried after `k` others.
ports_after : ℕ → ℕ → ℕ
ports_after zero p = p
ports_after (suc k) p = ports_after k (next_port p)

ports_after_add : (k m p : ℕ) → ports_after (k + m) p ≡ ports_after m (ports_after k p)
unfolding ports_after
ports_after_add zero m p = let empty : 0 + m ≡ m = omega arith in rw empty refl
ports_after_add (suc k) m p =
    let one_more : suc k + m ≡ suc (k + m) = omega arith in
    rw one_more (ports_after_add k m (next_port p))

-- Upwards, without a wrap.
climb : (k p : ℕ) → 49152 ≤ p → k + p ≤ 65535 → ports_after k p ≡ k + p
unfolding ports_after
climb zero p low high = omega arith
climb (suc k) p low high =
    let step = next_below p low (omega arith) in
    rw step (climb k (suc p) (omega arith) (omega arith) ∙ omega arith)

-- From the last port to the first.
around : (p : ℕ) → IsEphemeral p → ports_after (65536 - p) p ≡ 49152
unfolding ports_after
around p (low, high) =
    let split : 65536 - p ≡ (65535 - p) + 1 = omega arith in
    let last : ports_after (65535 - p) p ≡ 65535 =
      climb (65535 - p) p low (omega arith) ∙ omega arith in
    rw (split, ports_after_add (65535 - p) 1 p, last) refl

-- Every port is tried within one turn.
reached :
    (p q : ℕ)
    → IsEphemeral p
    → IsEphemeral q
    → (k : ℕ) × (k < ephemeral_count) × (ports_after k p ≡ q)
reached p q (low, high) (low_q, high_q) = elim (Bool-cases (ltb q p)) [
  | inr e ↦
      let above : p ≤ q = ground (arith, e) in
      (q - p, omega arith, climb (q - p) p low (omega arith) ∙ omega arith)
  | inl e ↦
      let below = ltb→lt q p e in
      (
        (65536 - p) + (q - 49152),
        omega arith,
        ports_after_add (65536 - p) (q - 49152) p
            ∙ rw (around p (low, high))
                (climb (q - 49152) 49152 (omega arith) (omega arith) ∙ omega arith),
      )
]

-- The loop stops at a port that is not in use, if it comes to one.
module _ (busy : ℕ → Bool) where
  alloc_port-finds :
      (left k p : ℕ)
      → k < left
      → IsEphemeral p
      → busy (ports_after k p) ≡ false
      → IsEphemeral (alloc_port busy left p).0 × (busy (alloc_port busy left p).0 ≡ false)
  unfolding ports_after alloc_port
  alloc_port-finds zero k p h range idle = absurd (omega arith)
  alloc_port-finds (suc left) zero p h range idle = rw (alloc_port, idle) (range, idle)
  alloc_port-finds (suc left) (suc k) p h range idle = elim (Bool-cases (busy p)) [
    | inr e ↦ rw (alloc_port, e) (range, e)
    | inl e ↦
        rw (alloc_port, e)
          (alloc_port-finds left k (next_port p) (omega arith) (next_port-IsEphemeral p range) idle)
  ]

  alloc_port-next : (left p : ℕ) → IsEphemeral p → IsEphemeral (alloc_port busy left p).1
  unfolding alloc_port
  alloc_port-next zero p range = range
  alloc_port-next (suc left) p range = elim (Bool-cases (busy p)) [
    | inr e ↦ rw (alloc_port, e) (next_port-IsEphemeral p range)
    | inl e ↦
        rw (alloc_port, e) (alloc_port-next left (next_port p) (next_port-IsEphemeral p range))
  ]

-- While `net_ports_busy` calls any port from 49152 to 65535 not busy, and the last search ended in that
-- range, `net_ports_alloc_ephemeral` gives a port of the range that it does not call busy, and the next
-- search starts in the range again.
pub net_ports_alloc_ephemeral-finds :
    (proto q : ℕ) (conns : List Connection) (r : Ports)
    → IsEphemeral r.ephemeral_next
    → IsEphemeral q
    → net_ports_busy proto q conns r.slots ≡ false
    → IsEphemeral (net_ports_alloc_ephemeral proto conns r).0
      × (net_ports_busy proto (net_ports_alloc_ephemeral proto conns r).0 conns r.slots ≡ false)
      × IsEphemeral (net_ports_alloc_ephemeral proto conns r).1.ephemeral_next
unfolding net_ports_alloc_ephemeral
net_ports_alloc_ephemeral-finds proto q conns r start range idle =
    let busy : ℕ → Bool = λ p. net_ports_busy proto p conns r.slots in
    let (k, near, there) = reached r.ephemeral_next q start range in
    let (inside, is_idle) =
      alloc_port-finds busy ephemeral_count k r.ephemeral_next near start (rw there idle) in
    (inside, is_idle, alloc_port-next busy ephemeral_count r.ephemeral_next start)
