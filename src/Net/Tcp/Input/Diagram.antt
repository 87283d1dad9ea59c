-- ===== src/Net/Tcp/Input/Diagram.antt =====
-- The states that a segment takes a connection through.
use knit_os.Base.{ℕ, ◌≡◌, refl, [], true, false, arith, ◌==◌, Bool-cases, ◌⊎◌, inl, inr}
use knit_os.Net.Tcp.{
  State, closed, syn_sent, syn_received, established, fin_wait_1, fin_wait_2, close_wait,
  Connection, flag_fin, flag_syn, flag_rst, flag_ack, has,
}
use knit_os.Net.Tcp.Slots.{tcp_connection_close, tcp_ack_retransmit}
use knit_os.Net.Tcp.Input.{
  Incoming, promoted, fin_acked, acked, on_ack, on_syn, on_data, on_fin, on_control, on_segment,
}

-- The edges of the state diagram that a segment with these flags allows.
pub data Edge (flags : ℕ) : State → State → Type 0 where
  syn_answered : has flags flag_syn ≡ true → Edge flags syn_sent established
  syn_acked : has flags flag_ack ≡ true → Edge flags syn_received established
  fin_acked_by : has flags flag_ack ≡ true → Edge flags fin_wait_1 fin_wait_2
  peer_done : has flags flag_fin ≡ true → Edge flags established close_wait
  both_done : has flags flag_fin ≡ true → Edge flags fin_wait_2 closed

pub data Walk (flags : ℕ) : State → State → Type 0 where
  stay : {s : State} → Walk flags s s
  move : {s t u : State} → Edge flags s t → Walk flags t u → Walk flags s u

Walk-append : {flags : ℕ} {s t u : State} → Walk flags s t → Walk flags t u → Walk flags s u
Walk-append stay v = v
Walk-append (move e w) v = move e (Walk-append w v)

stay_at : {flags : ℕ} {s t : State} → t ≡ s → Walk flags s t
stay_at e = rw e stay

acked-state : (ack : ℕ) (c : Connection) → (acked ack c).state ≡ c.state
unfolding tcp_ack_retransmit
acked-state ack c = ground arith

on_data-state : (m : Incoming) (c : Connection) → (on_data m c).0.state ≡ c.state
unfolding on_data
on_data-state m c = ground arith

on_fin-Walk :
    (m : Incoming) (c : Connection) (s : State) → c.state ≡ s → Walk m.flags s (on_fin m c).0.state
unfolding on_fin tcp_connection_close
on_fin-Walk m c established e = elim (Bool-cases (has m.flags flag_fin)) [
  | inl h ↦ rw (h, e, on_fin) (move (peer_done h) stay)
  | inr h ↦ rw (h, e, on_fin) stay
]
on_fin-Walk m c fin_wait_2 e = elim (Bool-cases (has m.flags flag_fin)) [
  | inl h ↦ rw (h, e, on_fin) (move (both_done h) stay)
  | inr h ↦ rw (h, e, on_fin) stay
]
on_fin-Walk m c s e = elim (Bool-cases (has m.flags flag_fin)) [
  | inl h ↦ rw (h, e, on_fin) (stay_at e)
  | inr h ↦ rw (h, on_fin) (stay_at e)
]

promoted-Walk :
    (m : Incoming) (c : Connection) (s : State)
    → c.state ≡ s
    → has m.flags flag_ack ≡ true
    → Walk m.flags s (promoted c).state
promoted-Walk m c syn_received e h = rw e (move (syn_acked h) stay)
promoted-Walk m c s e h = rw e stay

fin_acked-Walk :
    (m : Incoming) (c : Connection) (s : State)
    → c.state ≡ s
    → has m.flags flag_ack ≡ true
    → Walk m.flags s (fin_acked m.ack c).state
fin_acked-Walk m c fin_wait_1 e h = elim (Bool-cases (m.ack == c.send_seq)) [
  | inl now ↦ rw (e, now) (move (fin_acked_by h) stay)
  | inr other ↦ rw (e, other) stay
]
fin_acked-Walk m c s e h = rw e stay

on_syn-Walk :
    (m : Incoming) (c : Connection) (s : State)
    → c.state ≡ s
    → has m.flags flag_syn ≡ true
    → Walk m.flags s (on_syn m c).0.state
unfolding on_syn
on_syn-Walk m c syn_sent e h = rw (e, on_syn) (move (syn_answered h) stay)
on_syn-Walk m c s e h = rw (e, on_syn) (stay_at e)

on_ack-Walk :
    (m : Incoming) (c : Connection)
    → has m.flags flag_ack ≡ true
    → Walk m.flags c.state (on_ack m c).state
unfolding on_ack
on_ack-Walk m c h = rw (acked-state m.ack (fin_acked m.ack (promoted c))) (
    Walk-append (promoted-Walk m c c.state refl h)
      (fin_acked-Walk m (promoted c) (promoted c).state refl h))

on_control-Walk : (m : Incoming) (c : Connection) → Walk m.flags c.state (on_control m c).0.state
on_control-Walk m c = elim (Bool-cases (has m.flags flag_syn)) [
  | inl syn ↦ rw syn (on_syn-Walk m c c.state refl syn)
  | inr plain ↦ elim (Bool-cases (has m.flags flag_ack)) [
    | inl ack ↦ rw (plain, ack) (on_ack-Walk m c ack)
    | inr none_set ↦ rw (plain, none_set) stay
  ]
]

-- A segment moves its connection along the edges of the state diagram that its flags allow, and a
-- reset closes the connection and frees its slot, with no answer.
pub on_segment-Walk :
    (m : Incoming) (c : Connection)
    → ((has m.flags flag_rst ≡ true)
        × (on_segment m c ≡ (record c { state = closed; valid = false }, [])))
      ⊎ ((has m.flags flag_rst ≡ false) × Walk m.flags c.state (on_segment m c).0.state)
unfolding on_segment tcp_connection_close
on_segment-Walk m c = elim (Bool-cases (has m.flags flag_rst)) [
  | inl reset ↦ inl (reset, rw (reset, on_segment, tcp_connection_close) refl)
  | inr plain ↦
      let d = (on_control m c).0 in
      let e = (on_data m d).0 in
      inr (
        plain,
        rw (plain, on_segment)
            (Walk-append (on_control-Walk m c) (on_fin-Walk m e d.state (on_data-state m d))),
      )
]
