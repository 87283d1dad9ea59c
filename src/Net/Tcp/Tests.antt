-- ===== src/Net/Tcp/Tests.antt =====
-- kernel/drivers/network/protocols/tcp.cpp on concrete connections.
use knit_os.Base.{
  ℕ, zero, suc, ◌+◌, ◌≡◌, ◌≤◌, ◌<◌, ◌⊎◌, refl, true, false, none, some, List, [], ◌∷◌, ◌++◌, length,
  take, All, arith,
}
use knit_os.Net.Tcp.{tx_size}
use knit_os.Net.Tcp.{closed, listen, established, Connection, Packet, flag_rst, has, add32}
use knit_os.Net.Tcp.Slots.{Table, tcp_connection_find, tcp_connection_find_listen}
use knit_os.Net.Tcp.Input.{Incoming, on_segment, tcp_handle_packet}
use knit_os.Net.Tcp.Input.Diagram.{Walk, on_segment-Walk}
use knit_os.Net.Tcp.Input.Leaves.{takes_data}
use knit_os.Net.Tcp.Input.Delivery.{Event, comes, asks, happen, IsCut, happen-in_order}
use knit_os.Net.Tcp.Input.Acceptance.{IsAcknowledged, on_segment-accepts}
use knit_os.Net.Tcp.Input.Opening.{Opens, tcp_handle_packet-Opens}
use knit_os.Net.Tcp.Output.{tcp_send_data}
use knit_os.Net.Tcp.Format.{send_bytes}
use knit_os.Net.Tcp.Wire.{tcp_decode, incoming, tcp_decode-send_bytes}
use knit_os.Net.Tcp.Format.RoundTrip.{IsPacket}
use knit_os.Net.Tcp.Output.Lifetime.{sends, comes as comes_in, life, life-bound}
use knit_os.Net.Tcp.Output.Pieces.{Pieces, IsFull, tcp_send_data-Pieces}

abbrev conn : Connection
conn = record {
  src_ip = 10;
  src_port = 80;
  dest_ip = 20;
  dest_port = 5000;
  state = established;
  send_seq = 1001;
  send_una = 1001;
  recv_seq = 700;
  send_window = 4096;
  recv_window = 4096;
  mss = 1460;
  rx = [];
  tx = [];
  queue = [];
  cwnd = 1;
  ssthresh = 65535;
  in_slow_start = true;
  last_activity = 0;
  pending_accept = false;
  valid = true;
}

abbrev stream : List ℕ
stream = 1 ∷ 2 ∷ 3 ∷ []

-- The second and third byte of the stream, and the first.
abbrev late : Incoming
late = record {
  src_ip = 20;
  src_port = 5000;
  dest_port = 80;
  seq = 701;
  ack = 1001;
  flags = 16;
  window = 4096;
  payload = 2 ∷ 3 ∷ [];
}

abbrev early : Incoming
early = record {
  src_ip = 20;
  src_port = 5000;
  dest_port = 80;
  seq = 700;
  ack = 1001;
  flags = 16;
  window = 4096;
  payload = 1 ∷ [];
}

on_segment-Walk_example :
    ((has early.flags flag_rst ≡ true)
      × (on_segment early conn ≡ (record conn { state = closed; valid = false }, [])))
    ⊎ ((has early.flags flag_rst ≡ false)
        × Walk early.flags conn.state (on_segment early conn).0.state)
on_segment-Walk_example = on_segment-Walk early conn

abbrev events : List Event
events = comes late ∷ comes early ∷ asks 1 ∷ comes late ∷ []

early-IsCut : IsCut stream 700 early
early-IsCut zero e h = refl
early-IsCut (suc k) e h = absurd (omega arith)

late-IsCut : IsCut stream 700 late
late-IsCut zero e h = absurd (omega arith)
late-IsCut (suc zero) e h = refl
late-IsCut (suc (suc k)) e h = absurd (omega arith)

happen-in_order_example :
    (k : ℕ) × ((happen events conn).0 ++ (happen events conn).1.rx ≡ take k stream)
    × (takes_data (happen events conn).1.state ≡ true
        → (happen events conn).1.recv_seq ≡ add32 700 k)
happen-in_order_example =
    happen-in_order stream 700 events conn (late-IsCut, (early-IsCut, (tt, (late-IsCut, tt)))) refl
      refl refl

on_segment-accepts_example :
    ((on_segment early conn).0.rx ≡ conn.rx ++ early.payload)
    × ((on_segment early conn).0.recv_seq ≡ add32 conn.recv_seq (length early.payload))
    × IsAcknowledged early conn (on_segment early conn).1
on_segment-accepts_example =
    on_segment-accepts early conn refl refl refl refl refl (omega arith) (omega arith)

-- A host that listens on the port 80 and has a free slot.
abbrev host : Table
host = record {
  slots =
      record conn { state = listen; dest_ip = 0; dest_port = 0 }
      ∷ record conn { valid = false }
      ∷ [];
  next_isn = 1000;
}

abbrev syn : Incoming
syn = record {
  src_ip = 30;
  src_port = 6000;
  dest_port = 80;
  seq = 42;
  ack = 0;
  flags = 2;
  window = 4096;
  payload = [];
}

no_connection : tcp_connection_find 10 80 30 6000 host.slots ≡ none
unfolding tcp_connection_find
no_connection = refl

port_listens : tcp_connection_find_listen 80 host.slots ≡ some 0
unfolding tcp_connection_find_listen
port_listens = refl

tcp_handle_packet-Opens_example :
    ((tcp_handle_packet 0 10 syn host ≡ (host, []))
      × All (λ (c : Connection). c.valid ≡ true) host.slots)
    ⊎ Opens 0 10 syn host (tcp_handle_packet 0 10 syn host).0 (tcp_handle_packet 0 10 syn host).1
tcp_handle_packet-Opens_example =
    tcp_handle_packet-Opens 0 10 syn host {l = 0} refl refl no_connection port_listens

tcp_send_data-Pieces_example :
    (k : ℕ) × ((tcp_send_data 0 stream conn).0 ≡ some k)
    × (k ≤ length stream)
    × Pieces conn.send_seq (take k stream) (tcp_send_data 0 stream conn).2
    × ((tcp_send_data 0 stream conn).1.send_seq ≡ add32 conn.send_seq k)
    × (k < length stream → IsFull (tcp_send_data 0 stream conn).1)
tcp_send_data-Pieces_example =
    tcp_send_data-Pieces 0 stream conn refl (omega arith) (omega arith) (omega arith) (omega arith)

abbrev packet : Packet
packet = record {
  dest_ip = 20;
  src_port = 80;
  dest_port = 5000;
  seq = 1001;
  ack = 700;
  flags = 24;
  window = 4096;
  payload = stream;
}

packet-IsPacket : IsPacket packet
packet-IsPacket = record {
  src_port_fits = omega arith;
  dest_port_fits = omega arith;
  seq_fits = omega arith;
  ack_fits = omega arith;
  flags_fit = omega arith;
  window_fits = omega arith;
}

tcp_decode-send_bytes_example :
    (bs : List ℕ) × (send_bytes 10 packet ≡ some bs)
    × (tcp_decode packet.dest_ip 10 packet.dest_ip bs ≡ some (incoming 10 packet))
tcp_decode-send_bytes_example =
    tcp_decode-send_bytes 10 packet packet-IsPacket (omega arith, (omega arith, (omega arith, tt)))
      (omega arith)

life-bound_example :
    (life (sends 0 stream ∷ comes_in early ∷ sends 9 stream ∷ []) conn).0 + length conn.tx ≤ tx_size
life-bound_example =
    life-bound (sends 0 stream ∷ comes_in early ∷ sends 9 stream ∷ []) conn (omega arith)
