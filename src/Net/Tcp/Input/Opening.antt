-- ===== src/Net/Tcp/Input/Opening.antt =====
-- A SYN for a port that listens.
use knit_os.Base.{
  ℕ, ◌+◌, ◌≡◌, ◌≢◌, refl, List, [], ◌∷◌, true, false, Option, none, some, get_elem?, set, arith,
  find_index, find_index_cases, All, All-map, ◌⊎◌, inl, inr, get_elem?-set_self, lt_of_get_elem?,
  ==_self,
}
use knit_os.Base.{first_fit, first_fit-set_miss, first_fit-set_hit, set-set}
use knit_os.Net.Tcp.{
  Connection, Packet, syn_received, flag_syn, flag_ack, flag_rst, rx_size, has, add32,
}
use knit_os.Net.Tcp.Slots.{
  Table, unused, connecting, is_between, tcp_connection_find, tcp_connection_find_listen,
  tcp_connection_create,
}
use knit_os.Net.Tcp.Input.{opening, Incoming, accepted, on_stranger, tcp_handle_packet}

-- The connection between two ends.
abbrev pub between : ℕ → ℕ → ℕ → ℕ → List Connection → Option Connection
between src_ip src_port dest_ip dest_port cs =
    first_fit (is_between src_ip src_port dest_ip dest_port) cs

-- The connection that a SYN opens in the slot `c`.
abbrev pub half_open : ℕ → ℕ → ℕ → Incoming → Connection → Connection
half_open now isn our_ip m c =
    (accepted m (connecting now isn our_ip m.dest_port m.src_ip m.src_port c)).0

module _ (now our_ip : ℕ) (m : Incoming) (t : Table) where
  -- What the handler does with a SYN of a stranger, if a slot is free.
  pub record Opens (u : Table) (out : List Packet) : Type 0 where
    pub conn : Connection
    pub opened : between our_ip m.dest_port m.src_ip m.src_port u.slots ≡ some conn
    pub state : conn.state ≡ syn_received
    pub expects : conn.recv_seq ≡ add32 m.seq 1
    pub unanswered : conn.send_una ≡ t.next_isn
    pub counted : conn.send_seq ≡ add32 t.next_isn 1
    pub is_empty : (conn.rx ≡ []) × (conn.tx ≡ []) × (conn.queue ≡ [])
    pub answers :
        out
        ≡ record {
          dest_ip = m.src_ip;
          src_port = m.dest_port;
          dest_port = m.src_port;
          seq = t.next_isn;
          ack = add32 m.seq 1;
          flags = flag_syn + flag_ack;
          window = rx_size;
          payload = [];
        }
          ∷ []
    pub number : u.next_isn ≡ add32 t.next_isn 1
    pub others :
        (src_port dest_ip dest_port : ℕ)
        → (src_port ≢ m.dest_port) ⊎ ((dest_ip ≢ m.src_ip) ⊎ (dest_port ≢ m.src_port))
        → between our_ip src_port dest_ip dest_port u.slots
          ≡ between our_ip src_port dest_ip dest_port t.slots

  set-Opens :
      (i : ℕ) (c : Connection)
      → get_elem? t.slots i ≡ some c
      → c.valid ≡ false
      → tcp_connection_find our_ip m.dest_port m.src_ip m.src_port t.slots ≡ none
      → Opens
          (record {
            slots = set t.slots i (half_open now t.next_isn our_ip m c);
            next_isn = add32 t.next_isn 1;
          })
          (accepted m (connecting now t.next_isn our_ip m.dest_port m.src_ip m.src_port c)).1
  unfolding tcp_connection_find
  set-Opens i c at free new = record {
    conn = half_open now t.next_isn our_ip m c;
    opened =
        first_fit-set_hit (is_between our_ip m.dest_port m.src_ip m.src_port) t.slots i c
          (half_open now t.next_isn our_ip m c) at (inr new)
          (rw (==_self our_ip, ==_self m.dest_port, ==_self m.src_ip, ==_self m.src_port) refl);
    state = refl;
    expects = refl;
    unanswered = refl;
    counted = refl;
    is_empty = (refl, refl, refl);
    answers = refl;
    number = refl;
    others = λ sp di dp other.
        first_fit-set_miss (is_between our_ip sp di dp) t.slots i c
          (half_open now t.next_isn our_ip m c) at (rw free refl) (ground arith);
  }

  create_full :
      find_index unused t.slots ≡ none
      → tcp_connection_create now our_ip m.dest_port m.src_ip m.src_port t ≡ (none, t)
  unfolding tcp_connection_create
  create_full e = rw (e, tcp_connection_create) refl

  create_free :
      (i : ℕ) (c : Connection)
      → find_index unused t.slots ≡ some i
      → get_elem? t.slots i ≡ some c
      → tcp_connection_create now our_ip m.dest_port m.src_ip m.src_port t ≡ (
        some i,
        record {
          slots =
              set t.slots i (connecting now t.next_isn our_ip m.dest_port m.src_ip m.src_port c);
          next_isn = add32 t.next_isn 1;
        },
      )
  unfolding tcp_connection_create
  create_free i c e at = rw (e, at, tcp_connection_create) refl

  -- A SYN for a port that listens, from an end that has no connection with it, opens one in a free
  -- slot: empty, in SYN_RECEIVED, with the next initial number as its first, and waiting for the byte
  -- after the SYN. The answer is one packet with SYN and ACK, that number, and the byte after the SYN
  -- as the acknowledged one. Every other connection of the host is as it was. If no slot is free,
  -- nothing changes and nothing is sent.
  pub tcp_handle_packet-Opens :
      {l : ℕ}
      → has m.flags flag_rst ≡ false
      → has m.flags flag_syn ≡ true
      → tcp_connection_find our_ip m.dest_port m.src_ip m.src_port t.slots ≡ none
      → tcp_connection_find_listen m.dest_port t.slots ≡ some l
      → ((tcp_handle_packet now our_ip m t ≡ (t, []))
          × All (λ (c : Connection). c.valid ≡ true) t.slots)
        ⊎ Opens (tcp_handle_packet now our_ip m t).0 (tcp_handle_packet now our_ip m t).1
  unfolding tcp_handle_packet on_stranger opening
  tcp_handle_packet-Opens no_rst syn new listens = elim (find_index_cases unused t.slots) [
    | inl (e, taken) ↦ inl (
      rw (new, no_rst, syn, listens, create_full e, tcp_handle_packet, on_stranger) refl,
      All-map (λ (c : Connection). unused c ≡ false) (λ (c : Connection). c.valid ≡ true) t.slots
          (λ c v. ground arith) taken,
    )
    | inr (i, c, e, at, free) ↦
        let first : Connection =
          connecting now t.next_isn our_ip m.dest_port m.src_ip m.src_port c in
        let back = get_elem?-set_self t.slots i first (lt_of_get_elem? t.slots i at) in
        inr (
          rw
            (
              new,
              no_rst,
              syn,
              listens,
              create_free i c e at,
              tcp_handle_packet,
              on_stranger,
              opening,
            )
            (rw (back, set-set t.slots i first (half_open now t.next_isn our_ip m c))
              (set-Opens i c at (ground arith) new)))
  ]
