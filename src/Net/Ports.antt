-- ===== src/Net/Ports.antt =====
-- kernel/drivers/network/core/net_ports.cpp: the registry of ports in use. A descriptor or a process
-- below 0 is `none`, a string is its bytes before the NUL, and `conns` are the slots of the table of
-- TCP connections. `our_ip` is what `ip_get_our_ip` returns, `current` what `sched_current_id` does.
pub mod Ephemeral
pub mod Entries
pub mod Print
pub mod Tests
use mathlib.Core.Option
use knit_os.Base.{
  ℕ, zero, suc, ◌+◌, ◌-◌, ◌%◌, ◌^◌, List, [], ◌∷◌, Bool, true, false, not, ◌&&◌, ◌||◌, Option, none,
  some, get_elem?, set, map, take, length, ltb, ◌==◌, if◌then◌else◌, find_index, modify,
}
use knit_os.Net.Tcp.{
  Connection, State, closed, listen, syn_sent, syn_received, established, fin_wait_1, fin_wait_2,
  close_wait, closing, time_wait, last_ack,
}
use knit_os.Net.Tcp.Slots.{tcp_connection_find_listen}

pub data NetPortState : Type 0 where
  netport_closed : NetPortState
  netport_listen : NetPortState
  netport_syn_sent : NetPortState
  netport_established : NetPortState
  netport_time_wait : NetPortState
  netport_other : NetPortState

abbrev pub is_netport_listen : NetPortState → Bool
is_netport_listen netport_listen = true
is_netport_listen netport_closed = false
is_netport_listen netport_syn_sent = false
is_netport_listen netport_established = false
is_netport_listen netport_time_wait = false
is_netport_listen netport_other = false

abbrev pub is_netport_closed : NetPortState → Bool
is_netport_closed netport_closed = true
is_netport_closed netport_listen = false
is_netport_closed netport_syn_sent = false
is_netport_closed netport_established = false
is_netport_closed netport_time_wait = false
is_netport_closed netport_other = false

abbrev pub net_proto_tcp : ℕ
net_proto_tcp = 6

abbrev pub net_proto_udp : ℕ
net_proto_udp = 17

abbrev pub net_owner_max : ℕ
net_owner_max = 24

pub record NetPortSlot : Type 0 where
  pub used : Bool
  pub proto : ℕ
  pub state : NetPortState
  pub local_port : ℕ
  pub remote_port : ℕ
  pub local_ip : ℕ
  pub remote_ip : ℕ
  pub sock_fd : Option ℕ
  pub pid : ℕ
  pub owner : List ℕ

pub record Ports : Type 0 where
  pub slots : List NetPortSlot
  pub ephemeral_next : ℕ

abbrev pub np_copy_owner : Option (List ℕ) → List ℕ
np_copy_owner none = b'?' ∷ []
np_copy_owner (some src) = take (net_owner_max - 1) src

abbrev pub np_same_listen : ℕ → ℕ → NetPortSlot → Bool
np_same_listen proto port s =
    s.used && s.proto == proto && s.local_port == port && is_netport_listen s.state

pub net_ports_init : Ports → Ports
net_ports_init r = record {
  slots = map (λ (s : NetPortSlot). record s { used = false }) r.slots;
  ephemeral_next = 49152;
}

-- What the loop of `net_ports_busy` tests of a slot.
abbrev pub holds_port : ℕ → ℕ → NetPortSlot → Bool
holds_port proto port s =
    s.used
    && s.proto == proto
    && (s.local_port == port && is_netport_listen s.state
        || s.local_port == port && s.remote_port == 0 && not (is_netport_closed s.state))

abbrev pub is_some : Option ℕ → Bool
is_some none = false
is_some (some i) = true

unfoldable pub net_ports_busy : ℕ → ℕ → List Connection → List NetPortSlot → Bool
net_ports_busy proto port conns slots =
    if port == 0
    then false
    else is_some (find_index (holds_port proto port) slots)
      || proto == net_proto_tcp && is_some (tcp_connection_find_listen port conns)

abbrev pub first_ephemeral : ℕ
first_ephemeral = 49152

-- `g_ephemeral_next++` of a `uint16_t`, and the test behind it.
abbrev pub next_port : ℕ → ℕ
next_port p = let q = (p + 1) % 2 ^ 16 in if ltb q first_ephemeral then first_ephemeral else q

-- The loop with `left` rounds to go: the port, or 0, and the next one to try.
unfoldable pub alloc_port : (ℕ → Bool) → ℕ → ℕ → ℕ × ℕ
alloc_port busy zero p = (0, p)
alloc_port busy (suc left) p = elim (busy p) [
  | true ↦ alloc_port busy left (next_port p)
  | false ↦ (p, next_port p)
]

abbrev pub ephemeral_count : ℕ
ephemeral_count = 16384

unfoldable pub net_ports_alloc_ephemeral : ℕ → List Connection → Ports → ℕ × Ports
net_ports_alloc_ephemeral proto conns r =
    let (port, next) =
      alloc_port (λ p. net_ports_busy proto p conns r.slots) ephemeral_count r.ephemeral_next in
    (port, record r { ephemeral_next = next })

abbrev pub np_find_free : List NetPortSlot → Option ℕ
np_find_free = find_index (λ s. not s.used)

-- Equality of descriptors, where every one below 0 is -1.
abbrev pub same_fd : Option ℕ → Option ℕ → Bool
same_fd none none = true
same_fd none (some b) = false
same_fd (some a) none = false
same_fd (some a) (some b) = a == b

abbrev pub np_find_sock : Option ℕ → List NetPortSlot → Option ℕ
np_find_sock none slots = none
np_find_sock (some fd) slots = find_index (λ s. s.used && same_fd s.sock_fd (some fd)) slots

abbrev pub np_find_listen : ℕ → ℕ → List NetPortSlot → Option ℕ
np_find_listen proto port = find_index (np_same_listen proto port)

-- What `net_ports_register` is given.
pub record Binding : Type 0 where
  pub proto : ℕ
  pub state : NetPortState
  pub local_ip : ℕ
  pub local_port : ℕ
  pub remote_ip : ℕ
  pub remote_port : ℕ
  pub sock_fd : Option ℕ
  pub pid : Option ℕ
  pub owner : Option (List ℕ)

abbrev pub same_tuple : Binding → NetPortSlot → Bool
same_tuple b s =
    s.used
    && s.proto == b.proto
    && s.local_port == b.local_port
    && s.remote_port == b.remote_port
    && s.remote_ip == b.remote_ip

-- `if (!s) s = …`.
abbrev pub or_else : Option ℕ → Option ℕ → Option ℕ
or_else none o = o
or_else (some i) o = some i

-- The slot that `net_ports_register` takes.
abbrev pub slot_for : Binding → List NetPortSlot → Option ℕ
slot_for b slots =
    or_else
      (or_else
        (or_else (np_find_sock b.sock_fd slots)
          (if is_netport_listen b.state then np_find_listen b.proto b.local_port slots else none))
        (find_index (same_tuple b) slots))
      (np_find_free slots)

abbrev pub or_zero : Option ℕ → ℕ
or_zero none = 0
or_zero (some i) = i

abbrev pub or_current : Option ℕ → Option ℕ → ℕ
or_current current none = or_zero current
or_current current (some pid) = pid

abbrev pub bound : ℕ → Option ℕ → Binding → NetPortSlot
bound our_ip current b = record {
  used = true;
  proto = b.proto;
  state = b.state;
  local_port = b.local_port;
  remote_port = b.remote_port;
  local_ip = if b.local_ip == 0 then our_ip else b.local_ip;
  remote_ip = b.remote_ip;
  sock_fd = b.sock_fd;
  pid = or_current current b.pid;
  owner = np_copy_owner b.owner;
}

-- Another holds the port that is to be listened on.
abbrev pub is_taken : Binding → List Connection → List NetPortSlot → NetPortSlot → Bool
is_taken b conns slots s =
    is_netport_listen b.state
    && net_ports_busy b.proto b.local_port conns slots
    && not (np_same_listen b.proto b.local_port s)
    && not (same_fd s.sock_fd b.sock_fd)

unfoldable pub net_ports_register : ℕ → Option ℕ → Binding → List Connection → Ports → Bool × Ports
net_ports_register our_ip current b conns r =
    if b.local_port == 0 then (false, r) else elim (slot_for b r.slots) [
      | none ↦ (false, r)
      | some i ↦ elim (get_elem? r.slots i) [
        | none ↦ (false, r)
        | some s ↦
            if is_taken b conns r.slots s
            then (false, r)
            else (true, record r { slots = set r.slots i (bound our_ip current b) })
      ]
    ]

-- A field is compared only if the argument is not 0, and set only then.
abbrev pub matches : ℕ → ℕ → Bool
matches given field = given == 0 || field == given

abbrev pub given_or : ℕ → ℕ → ℕ
given_or given field = if given == 0 then field else given

unfoldable pub net_ports_set_state : ℕ → ℕ → ℕ → ℕ → NetPortState → Ports → Ports
net_ports_set_state proto local_port remote_ip remote_port state r =
    elim (find_index
      (λ s.
        s.used
        && s.proto == proto
        && s.local_port == local_port
        && matches remote_port s.remote_port
        && matches remote_ip s.remote_ip)
      r.slots) [
        | none ↦ r
        | some i ↦ record r {
          slots = modify r.slots i (λ s. record s {
            state = state;
            remote_ip = given_or remote_ip s.remote_ip;
            remote_port = given_or remote_port s.remote_port;
          });
        }
      ]

abbrev pub released_if : (NetPortSlot → Bool) → NetPortSlot → NetPortSlot
released_if p s = if p s then record s { used = false } else s

unfoldable pub net_ports_release_sock : Option ℕ → Ports → Ports
net_ports_release_sock none r = r
net_ports_release_sock (some fd) r = record r {
  slots = map (released_if (λ s. s.used && same_fd s.sock_fd (some fd))) r.slots;
}

unfoldable pub net_ports_release_listen : ℕ → ℕ → Ports → Ports
net_ports_release_listen proto port r = record r {
  slots = map (released_if (np_same_listen proto port)) r.slots;
}

-- The owner, at most `owner_cap` bytes with the NUL, and the process.
unfoldable pub net_ports_lookup_owner : ℕ → ℕ → ℕ → List NetPortSlot → Option (List ℕ × ℕ)
net_ports_lookup_owner proto local_port owner_cap slots =
    elim (find_index (λ s. s.used && s.proto == proto && s.local_port == local_port) slots) [
      | none ↦ none
      | some i ↦ elim (get_elem? slots i) [
        | none ↦ none
        | some s ↦ some (take (owner_cap - 1) s.owner, s.pid)
      ]
    ]

abbrev pub np_map_tcp_state : State → NetPortState
np_map_tcp_state listen = netport_listen
np_map_tcp_state syn_sent = netport_syn_sent
np_map_tcp_state established = netport_established
np_map_tcp_state time_wait = netport_time_wait
np_map_tcp_state closed = netport_closed
np_map_tcp_state syn_received = netport_other
np_map_tcp_state fin_wait_1 = netport_other
np_map_tcp_state fin_wait_2 = netport_other
np_map_tcp_state close_wait = netport_other
np_map_tcp_state closing = netport_other
np_map_tcp_state last_ack = netport_other
