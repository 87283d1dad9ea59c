-- ===== src/Net/Tcp/Output.antt =====
-- `tcp_send` and `tcp_send_data` of kernel/drivers/network/protocols/tcp.cpp. What `ip_output` does
-- with a packet is not seen here: its result is not used by `tcp_send_data`.
pub mod Pieces
pub mod Lifetime
use mathlib.Core.Option
use knit_os.Base.{
  ℕ, zero, suc, ◌+◌, ◌-◌, ◌%◌, ◌^◌, Bool, true, false, not, ◌||◌, Option, none, some, List, [], ◌∷◌,
  ◌++◌, take, drop, length, ltb, ◌==◌, if◌then◌else◌, min,
}
use knit_os.Net.Tcp.{Connection, Packet, max_payload, flag_ack, flag_psh, add32, sub32}
use knit_os.Net.Tcp.Slots.{tcp_connection_send, tcp_add_retransmit}
use knit_os.Net.Tcp.Input.{grown}

-- The packet that `tcp_send` hands to the IP layer, if it is not too large.
abbrev pub tcp_send : Packet → List Packet
tcp_send p = if ltb max_payload (length p.payload) then [] else p ∷ []

-- `a > b ? b : a`.
abbrev pub at_most : ℕ → ℕ → ℕ
at_most a b = if ltb b a then b else a

-- The bytes of a window that are not in flight.
abbrev pub available : Connection → ℕ → ℕ
available c window = sub32 window (sub32 c.send_seq c.send_una)

-- `to_send` for so many bytes to go; `none` where a full window breaks the loop.
pub to_send : Connection → ℕ → Option ℕ
to_send c left =
    if available c c.send_window == 0
    then none
    else if available c c.cwnd == 0
    then none
    else some
        (at_most (at_most (at_most left c.mss) (available c c.send_window)) (available c c.cwnd))

abbrev pub data_packet : Connection → List ℕ → Packet
data_packet c bytes = record {
  dest_ip = c.dest_ip;
  src_port = c.src_port;
  dest_port = c.dest_port;
  seq = c.send_seq;
  ack = c.recv_seq;
  flags = flag_ack + flag_psh;
  window = c.recv_window;
  payload = bytes;
}

-- The connection after a round that sent these bytes.
abbrev pub sent : ℕ → List ℕ → Connection → Connection
sent now bytes c =
    let d = tcp_add_retransmit now c.send_seq bytes c in
    grown (length bytes) (record d { send_seq = add32 d.send_seq (length bytes) })

-- The loop of `tcp_send_data` on the bytes that are left: how many more it sends, the connection and
-- the packets. Each round sends a byte at least, so their number is fuel enough.
pub send_from : ℕ → ℕ → List ℕ → Connection → ℕ × Connection × List Packet
send_from zero now left c = (0, c, [])
send_from (suc fuel) now left c = elim (length left == 0) [
  | true ↦ (0, c, [])
  | false ↦ elim (to_send c (length left)) [
    | none ↦ (0, c, [])
    | some n ↦
        let (k, d, out) = send_from fuel now (drop n left) (sent now (take n left) c) in
        (n + k, d, tcp_send (data_packet c (take n left)) ++ out)
  ]
]

-- The rest of `tcp_send_data` after `tcp_connection_send`.
pub send_kept : ℕ → List ℕ → Option ℕ × Connection → Option ℕ × Connection × List Packet
send_kept now bytes (none, c) = (none, c, [])
send_kept now bytes (some _, c) =
    let (k, d, out) = send_from (length bytes) now bytes c in (some k, d, out)

-- `none` is -1.
pub tcp_send_data : ℕ → List ℕ → Connection → Option ℕ × Connection × List Packet
unfolding send_kept
tcp_send_data now bytes c = send_kept now bytes (tcp_connection_send bytes c)
