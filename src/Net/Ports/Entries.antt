-- ===== src/Net/Ports/Entries.antt =====
-- What the entries of the registry say after a call.
use mathlib.Core.Option
use knit_os.Base.{
  ℕ, zero, suc, ◌≡◌, refl, List, [], ◌∷◌, Bool, true, false, Option, none, some, inl, inr,
  get_elem?, set, arith, Bool-cases, Option-cases, ◌==◌, find_index,
}
use knit_os.Net.Tcp.{Connection}
use knit_os.Net.Ports.{
  is_netport_listen, NetPortSlot, Ports, Binding, holds_port, is_some, net_ports_busy, slot_for,
  bound, is_taken, net_ports_register,
}

-- A search ends somewhere if the element that was written fits.
found_after_set :
    (p : NetPortSlot → Bool) (slots : List NetPortSlot) (i : ℕ) (s v : NetPortSlot)
    → get_elem? slots i ≡ some s
    → p v ≡ true
    → is_some (find_index p (set slots i v)) ≡ true
found_after_set p [] i s v at fits = absurd (cc)
found_after_set p (x ∷ xs) zero s v at fits = rw fits refl
found_after_set p (x ∷ xs) (suc i) s v at fits = elim (Bool-cases (p x)) [
  | inl e ↦ rw e refl
  | inr e ↦ rw e (some_suc (find_index p (set xs i v)) (found_after_set p xs i s v at fits))
]
  where
    some_suc : (o : Option ℕ) → is_some o ≡ true → is_some (Option.map suc o) ≡ true
    some_suc none e = e
    some_suc (some j) e = e

bound-holds :
    (our_ip : ℕ) (current : Option ℕ) (b : Binding)
    → is_netport_listen b.state ≡ true
    → holds_port b.proto b.local_port (bound our_ip current b) ≡ true
bound-holds our_ip current b l = ground (arith, l)

busy_of_held :
    (proto port : ℕ) (conns : List Connection) (slots : List NetPortSlot)
    → (port == 0) ≡ false
    → is_some (find_index (holds_port proto port) slots) ≡ true
    → net_ports_busy proto port conns slots ≡ true
unfolding net_ports_busy
busy_of_held proto port conns slots z held = rw (z, held) refl

-- A port that was registered as listening is busy, on every path of the call that succeeds.
pub net_ports_register-busy :
    (our_ip : ℕ) (current : Option ℕ) (b : Binding) (conns : List Connection) (r : Ports)
    → is_netport_listen b.state ≡ true
    → (net_ports_register our_ip current b conns r).0 ≡ true
    → net_ports_busy b.proto b.local_port conns
        (net_ports_register our_ip current b conns r).1.slots
      ≡ true
unfolding net_ports_register
net_ports_register-busy our_ip current b conns r l e = elim (Bool-cases (b.local_port == 0)) [
  | inl z ↦ absurd (let refused = rw (net_ports_register, z) at e in cc)
  | inr z ↦ elim (Option-cases (slot_for b r.slots)) [
    | inl f ↦ absurd (let refused = rw (net_ports_register, z, f) at e in cc)
    | inr (i, f) ↦ elim (Option-cases (get_elem? r.slots i)) [
      | inl g ↦ absurd (let refused = rw (net_ports_register, z, f, g) at e in cc)
      | inr (s, g) ↦ elim (Bool-cases (is_taken b conns r.slots s)) [
        | inl t ↦ absurd (let refused = rw (net_ports_register, z, f, g, t) at e in cc)
        | inr t ↦
            let holds = bound-holds our_ip current b l in
            rw (net_ports_register, z, f, g, t)
              (busy_of_held b.proto b.local_port conns _ z (
                found_after_set (holds_port b.proto b.local_port) r.slots i s
                  (bound our_ip current b) g holds))
      ]
    ]
  ]
]
