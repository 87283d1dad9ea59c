-- ===== src/Net/Tcp/Input/Leaves.antt =====
-- What the flags of a segment do not change: the bytes received and their number.
use knit_os.Base.{ℕ, ◌≡◌, ◌∙◌, refl, Bool, true, false, arith, Bool-cases, inl, inr}
use knit_os.Net.Tcp.{
  State, syn_sent, syn_received, established, Connection, flag_syn, flag_ack, has,
}
use knit_os.Net.Tcp.Slots.{tcp_ack_retransmit}
use knit_os.Net.Tcp.Input.{Incoming, promoted, fin_acked, acked, on_ack, on_syn, on_control}

-- The states in which the connection takes data, now or after the acknowledgment of its SYN.
abbrev pub takes_data : State → Bool
takes_data established = true
takes_data syn_received = true
takes_data s = false

abbrev pub is_syn_sent : State → Bool
is_syn_sent syn_sent = true
is_syn_sent s = false

-- A step that leaves the bytes, their number and the own next number, and lets no state take data that did not.
pub record Leaves (c d : Connection) : Type 0 where
  pub rx : d.rx ≡ c.rx
  pub next : d.recv_seq ≡ c.recv_seq
  pub sends : d.send_seq ≡ c.send_seq
  pub takes : takes_data d.state ≡ true → takes_data c.state ≡ true
  pub begun : is_syn_sent c.state ≡ false → is_syn_sent d.state ≡ false

Leaves-refl : (c : Connection) → Leaves c c
Leaves-refl c = record { rx = refl; next = refl; sends = refl; takes = λ e. e; begun = λ e. e }

Leaves-trans : (c d e : Connection) → Leaves c d → Leaves d e → Leaves c e
Leaves-trans c d e k l = record {
  rx = l.rx ∙ k.rx;
  next = l.next ∙ k.next;
  sends = l.sends ∙ k.sends;
  takes = λ x. k.takes (l.takes x);
  begun = λ x. l.begun (k.begun x);
}

promoted-Leaves : (c : Connection) (s : State) → c.state ≡ s → Leaves c (promoted c)
promoted-Leaves c s e = record {
  rx = ground arith;
  next = ground arith;
  sends = ground arith;
  takes = λ x. ground arith;
  begun = λ x. ground arith;
}

fin_acked-Leaves : (ack : ℕ) (c : Connection) (s : State) → c.state ≡ s → Leaves c (fin_acked ack c)
fin_acked-Leaves ack c s e = record {
  rx = ground arith;
  next = ground arith;
  sends = ground arith;
  takes = λ x. ground arith;
  begun = λ x. ground arith;
}

acked-Leaves : (ack : ℕ) (c : Connection) → Leaves c (acked ack c)
unfolding tcp_ack_retransmit
acked-Leaves ack c = record {
  rx = ground arith;
  next = ground arith;
  sends = ground arith;
  takes = λ e. ground arith;
  begun = λ e. ground arith;
}

on_ack-Leaves : (m : Incoming) (c : Connection) → Leaves c (on_ack m c)
unfolding on_ack
on_ack-Leaves m c =
    let p = promoted c in
    let q = fin_acked m.ack p in
    let k =
      Leaves-trans c p q (promoted-Leaves c c.state refl) (fin_acked-Leaves m.ack p p.state refl) in
    let l = Leaves-trans c q (acked m.ack q) k (acked-Leaves m.ack q) in
    record { rx = l.rx; next = l.next; sends = l.sends; takes = l.takes; begun = l.begun }

on_syn-Leaves :
    (m : Incoming) (c : Connection) (s : State)
    → c.state ≡ s
    → is_syn_sent c.state ≡ false
    → Leaves c (on_syn m c).0
unfolding on_syn
on_syn-Leaves m c s e b = record {
  rx = ground arith;
  next = ground arith;
  sends = ground arith;
  takes = λ x. ground arith;
  begun = λ x. ground arith;
}

pub on_control-Leaves :
    (m : Incoming) (c : Connection) → is_syn_sent c.state ≡ false → Leaves c (on_control m c).0
on_control-Leaves m c b = elim (Bool-cases (has m.flags flag_syn)) [
  | inl syn ↦ rw syn (on_syn-Leaves m c c.state refl b)
  | inr plain ↦ elim (Bool-cases (has m.flags flag_ack)) [
    | inl ack ↦ rw (plain, ack) (on_ack-Leaves m c)
    | inr none_set ↦ rw (plain, none_set) (Leaves-refl c)
  ]
]
