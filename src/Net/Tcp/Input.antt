-- ===== src/Net/Tcp/Input.antt =====
-- `tcp_handle_packet` of kernel/drivers/network/protocols/tcp.cpp, from where the header is decoded
-- and the checksum is verified. Each part of the handler gives the connection and the packets sent.
pub mod Diagram
pub mod Leaves
pub mod Delivery
pub mod Acceptance
pub mod Opening
pub mod Sending
use knit_os.Base.{
  ℕ, ◌+◌, ◌-◌, ◌*◌, ◌/◌, ◌%◌, ◌^◌, Bool, true, false, not, ◌&&◌, ◌||◌, Option, none, some, List, [],
  ◌∷◌, ◌++◌, get_elem?, set, length, ltb, leb, ◌==◌, if◌then◌else◌,
}
use knit_os.Net.Tcp.{
  State, closed, listen, syn_sent, syn_received, established, fin_wait_1, fin_wait_2, close_wait,
  closing, time_wait, last_ack, Connection, Packet, rx_size, flag_fin, flag_syn, flag_rst, flag_ack,
  has, add32, sub32,
}
use knit_os.Net.Tcp.Slots.{
  Table, is_established, tcp_connection_find, tcp_connection_find_listen, tcp_connection_create,
  tcp_connection_close, tcp_ack_retransmit,
}

-- A decoded segment that came in.
pub record Incoming : Type 0 where
  pub src_ip : ℕ
  pub src_port : ℕ
  pub dest_port : ℕ
  pub seq : ℕ
  pub ack : ℕ
  pub flags : ℕ
  pub window : ℕ
  pub payload : List ℕ

-- The answer to a segment, with the numbers of the connection.
abbrev pub answer : ℕ → Incoming → Connection → Packet
answer flags m c = record {
  dest_ip = m.src_ip;
  src_port = m.dest_port;
  dest_port = m.src_port;
  seq = c.send_seq;
  ack = c.recv_seq;
  flags = flags;
  window = c.recv_window;
  payload = [];
}

-- The congestion window after an acknowledgment of that many bytes.
abbrev pub grown : ℕ → Connection → Connection
grown n c =
    if c.in_slow_start
    then (let w = add32 c.cwnd n in record c { cwnd = w; in_slow_start = not (leb c.ssthresh w) })
    else record c { cwnd = add32 c.cwnd (n * n % 2 ^ 32 / c.cwnd + 1) }

abbrev pub promoted : Connection → Connection
promoted c = elim c.state [
  | syn_received ↦ record c { state = established; pending_accept = true }
  | _ ↦ c
]

abbrev pub fin_acked : ℕ → Connection → Connection
fin_acked ack c = elim c.state [
  | fin_wait_1 ↦ if ack == c.send_seq then record c { state = fin_wait_2 } else c
  | _ ↦ c
]

-- `if (ack_num > conn->send_una)`.
abbrev pub acked : ℕ → Connection → Connection
acked ack c =
    if ltb c.send_una ack
    then grown (ack - c.send_una) (tcp_ack_retransmit ack (record c { send_una = ack }))
    else c

-- The branch for ACK without SYN.
pub on_ack : Incoming → Connection → Connection
on_ack m c = record (acked m.ack (fin_acked m.ack (promoted c))) { send_window = m.window }

-- The branch for SYN of a connection that the segment belongs to.
pub on_syn : Incoming → Connection → Connection × List Packet
on_syn m c = elim c.state [
  | syn_sent ↦
      let d = record c { state = established; recv_seq = add32 m.seq 1 } in
      (d, answer flag_ack m d ∷ [])
  | _ ↦ (c, [])
]

pub on_data : Incoming → Connection → Connection × List Packet
on_data m c =
    if ltb 0 (length m.payload)
      && is_established c.state
      && m.seq == c.recv_seq
      && leb (length c.rx + length m.payload) rx_size
    then (let d = record c {
      rx = c.rx ++ m.payload;
      recv_seq = add32 c.recv_seq (length m.payload);
      recv_window = rx_size - (length c.rx + length m.payload);
    } in
        (d, answer flag_ack m d ∷ []))
    else (c, [])

pub on_fin : Incoming → Connection → Connection × List Packet
on_fin m c =
    if has m.flags flag_fin
    then elim c.state [
      | established ↦
          let d = record c { state = close_wait; recv_seq = add32 c.recv_seq 1 } in
          (d, answer flag_ack m d ∷ [])
      | fin_wait_2 ↦
          let d = record c { recv_seq = add32 c.recv_seq 1 } in
          (tcp_connection_close d, answer flag_ack m d ∷ [])
      | _ ↦ (c, [])
    ]
    else (c, [])

abbrev pub on_control : Incoming → Connection → Connection × List Packet
on_control m c =
    if has m.flags flag_syn
    then on_syn m c
    else if has m.flags flag_ack
    then (on_ack m c, [])
    else (c, [])

-- The handler on the connection that the segment belongs to.
pub on_segment : Incoming → Connection → Connection × List Packet
on_segment m c =
    if has m.flags flag_rst
    then (tcp_connection_close c, [])
    else let (d, out) = on_control m c in
      let (e, out') = on_data m d in let (f, out'') = on_fin m e in (f, out ++ out' ++ out'')

-- A SYN for a port that listens opens a connection, answers, and counts the SYN.
abbrev pub accepted : Incoming → Connection → Connection × List Packet
accepted m c =
    let d = record c { state = syn_received; recv_seq = add32 m.seq 1 } in
    (record d { send_seq = add32 d.send_seq 1 }, answer (flag_syn + flag_ack) m d ∷ [])

-- `if (new_conn)`, after `tcp_connection_create`.
pub opening : Incoming → Option ℕ × Table → Table × List Packet
opening m (none, t) = (t, [])
opening m (some i, t) = elim (get_elem? t.slots i) [
  | none ↦ (t, [])
  | some c ↦ let (d, out) = accepted m c in (record t { slots = set t.slots i d }, out)
]

pub on_stranger : ℕ → ℕ → Incoming → Table → Table × List Packet
unfolding opening
on_stranger now our_ip m t =
    if has m.flags flag_rst || not (has m.flags flag_syn)
    then (t, [])
    else elim (tcp_connection_find_listen m.dest_port t.slots) [
      | none ↦ (t, [])
      | some _ ↦ opening m (tcp_connection_create now our_ip m.dest_port m.src_ip m.src_port t)
    ]

pub tcp_handle_packet : ℕ → ℕ → Incoming → Table → Table × List Packet
tcp_handle_packet now our_ip m t =
    elim (tcp_connection_find our_ip m.dest_port m.src_ip m.src_port t.slots) [
      | none ↦ on_stranger now our_ip m t
      | some i ↦ elim (get_elem? t.slots i) [
        | none ↦ (t, [])
        | some c ↦ let (d, out) = on_segment m c in (record t { slots = set t.slots i d }, out)
      ]
    ]
