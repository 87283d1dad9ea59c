-- ===== src/Net/Tcp/Slots.antt =====
-- kernel/drivers/network/protocols/tcp_connection.cpp: the connection table and one connection's
-- buffers. A pointer into the table is an index; `now` is `timer_ms()`.
use knit_os.Base.{
  ℕ, ◌+◌, ◌-◌, ◌*◌, Bool, true, false, not, ◌&&◌, Option, none, some, List, [], ◌∷◌, ◌++◌, map,
  get_elem?, set, take, drop, length, ltb, leb, ◌==◌, if◌then◌else◌, find_index,
}
use knit_os.Net.Tcp.{
  State, closed, listen, syn_sent, established, Segment, Connection, Packet, rx_size, tx_size,
  max_retransmit, rto_initial, rto_max, max_payload, flag_ack, add32,
}

abbrev pub is_established : State → Bool
is_established established = true
is_established s = false

abbrev pub is_listen : State → Bool
is_listen listen = true
is_listen s = false

-- The fields that both ways to open a connection set alike.
abbrev prepared : ℕ → Connection → Connection
prepared now c = record c {
  send_window = rx_size;
  recv_window = rx_size;
  mss = 1460;
  rx = [];
  tx = [];
  queue = [];
  cwnd = 1;
  ssthresh = 65535;
  in_slow_start = true;
  last_activity = now;
  pending_accept = false;
  valid = true;
}

abbrev pub connecting : ℕ → ℕ → ℕ → ℕ → ℕ → ℕ → Connection → Connection
connecting now isn src_ip src_port dest_ip dest_port c = record (prepared now c) {
  src_ip = src_ip;
  src_port = src_port;
  dest_ip = dest_ip;
  dest_port = dest_port;
  state = syn_sent;
  send_seq = isn;
  send_una = isn;
  recv_seq = 0;
}

abbrev pub listening : ℕ → ℕ → ℕ → Connection → Connection
listening now src_ip port c = record (prepared now c) {
  src_ip = src_ip;
  src_port = port;
  dest_ip = 0;
  dest_port = 0;
  state = listen;
  send_seq = 0;
  send_una = 0;
  recv_seq = 0;
}

-- The table and `tcp_next_isn`.
pub record Table : Type 0 where
  pub slots : List Connection
  pub next_isn : ℕ

pub tcp_connection_init : Table → Table
tcp_connection_init t = record t {
  slots =
      map
        (λ (c : Connection). record c {
          valid = false;
          state = closed;
          rx = [];
          tx = [];
          queue = [];
        })
        t.slots;
}

abbrev pub unused : Connection → Bool
unused c = not c.valid

unfoldable pub tcp_connection_create : ℕ → ℕ → ℕ → ℕ → ℕ → Table → Option ℕ × Table
tcp_connection_create now src_ip src_port dest_ip dest_port t = elim (find_index unused t.slots) [
  | none ↦ (none, t)
  | some i ↦ elim (get_elem? t.slots i) [
    | none ↦ (none, t)
    | some c ↦ (
      some i,
      record {
        slots = set t.slots i (connecting now t.next_isn src_ip src_port dest_ip dest_port c);
        next_isn = add32 t.next_isn 1;
      },
    )
  ]
]

abbrev pub is_between : ℕ → ℕ → ℕ → ℕ → Connection → Bool
is_between src_ip src_port dest_ip dest_port c =
    c.valid
    && c.src_ip == src_ip
    && c.src_port == src_port
    && c.dest_ip == dest_ip
    && c.dest_port == dest_port

unfoldable pub tcp_connection_find : ℕ → ℕ → ℕ → ℕ → List Connection → Option ℕ
tcp_connection_find src_ip src_port dest_ip dest_port =
    find_index (is_between src_ip src_port dest_ip dest_port)

abbrev pub listens_on : ℕ → Connection → Bool
listens_on port c = c.valid && is_listen c.state && c.src_port == port

unfoldable pub tcp_connection_find_listen : ℕ → List Connection → Option ℕ
tcp_connection_find_listen port = find_index (listens_on port)

pub tcp_connection_alloc_listen : ℕ → ℕ → ℕ → Table → Option ℕ × Table
tcp_connection_alloc_listen now src_ip port t = elim (find_index unused t.slots) [
  | none ↦ (none, t)
  | some i ↦ elim (get_elem? t.slots i) [
    | none ↦ (none, t)
    | some c ↦ (some i, record t { slots = set t.slots i (listening now src_ip port c) })
  ]
]

abbrev pub is_pending : ℕ → Connection → Bool
is_pending port c =
    c.valid
    && is_established c.state
    && c.src_port == port
    && not (c.dest_ip == 0)
    && c.pending_accept

-- The loop at the index `i`, which passes over the listening connection.
pub pending_from : ℕ → ℕ → ℕ → List Connection → Option ℕ
pending_from i port skipped [] = none
pending_from i port skipped (c ∷ cs) =
    let rest = pending_from (i + 1) port skipped cs in
    if i == skipped then rest else if is_pending port c then some i else rest

pub tcp_connection_accept_pending : ℕ → ℕ → List Connection → Option ℕ
tcp_connection_accept_pending port listen_conn cs = pending_from 0 port listen_conn cs

-- `none` is -1.
unfoldable pub tcp_connection_send : List ℕ → Connection → Option ℕ × Connection
tcp_connection_send bytes c =
    if not (is_established c.state)
    then (none, c)
    else if ltb (tx_size - length c.tx) (length bytes)
    then (none, c)
    else (some (length bytes), record c { tx = c.tx ++ bytes })

unfoldable pub tcp_connection_receive : ℕ → Connection → List ℕ × Connection
tcp_connection_receive max_len c =
    if length c.rx == 0
    then ([], c)
    else let n = if ltb (length c.rx) max_len then length c.rx else max_len in
      (take n c.rx, record c { rx = drop n c.rx })

unfoldable pub tcp_connection_close : Connection → Connection
tcp_connection_close c = record c { state = closed; valid = false }

-- Data that is too long for the slot is not copied.
unfoldable pub tcp_add_retransmit : ℕ → ℕ → List ℕ → Connection → Connection
tcp_add_retransmit now seq bytes c = if leb max_retransmit (length c.queue) then c else record c {
  queue =
      c.queue
      ++ record {
        seq = seq;
        len = length bytes;
        timeout = add32 now rto_initial;
        rto = rto_initial;
        retries = 0;
        bytes = if leb (length bytes) max_payload then bytes else [];
      }
        ∷ [];
}

-- `ack_num <= seq + len` keeps a segment.
abbrev pub kept : ℕ → Segment → Bool
kept ack s = leb ack (add32 s.seq s.len)

pub kept_segments : ℕ → List Segment → List Segment
kept_segments ack [] = []
kept_segments ack (s ∷ ss) =
    let rest = kept_segments ack ss in if kept ack s then s ∷ rest else rest

unfoldable pub tcp_ack_retransmit : ℕ → Connection → Connection
tcp_ack_retransmit ack c = record c { queue = kept_segments ack c.queue }

abbrev pub resent : ℕ → Segment → Segment
resent now s =
    let rto = if ltb rto_max (s.rto * 2) then rto_max else s.rto * 2 in
    record s { retries = s.retries + 1; rto = rto; timeout = add32 now rto }

abbrev pub resend : Connection → Segment → Packet
resend c s = record {
  dest_ip = c.dest_ip;
  src_port = c.src_port;
  dest_port = c.dest_port;
  seq = s.seq;
  ack = c.recv_seq;
  flags = flag_ack;
  window = c.recv_window;
  payload = s.bytes;
}

-- The inner loop of `tcp_process_timers`, on the segments from here on. A connection that runs out
-- of retries is closed, and the loop goes on.
pub retransmit : ℕ → Connection → List Segment → Bool × List Segment × List Packet
retransmit now c [] = (false, [], [])
retransmit now c (s ∷ ss) =
    let (gave_up, rest, out) = retransmit now c ss in
    if leb s.timeout now
    then if ltb s.retries max_retransmit
      then (gave_up, resent now s ∷ rest, if leb s.len max_payload then resend c s ∷ out else out)
      else (true, s ∷ rest, out)
    else (gave_up, s ∷ rest, out)

pub timed : ℕ → Connection → Connection × List Packet
unfolding tcp_connection_close
timed now c =
    let (gave_up, queue, out) = retransmit now c c.queue in
    let d = record c { queue = queue } in (if gave_up then tcp_connection_close d else d, out)

pub tcp_process_timers : ℕ → List Connection → List Connection × List Packet
tcp_process_timers now [] = ([], [])
tcp_process_timers now (c ∷ cs) =
    let (ds, later) = tcp_process_timers now cs in
    let (d, out) = timed now c in if c.valid then (d ∷ ds, out ++ later) else (c ∷ ds, later)
