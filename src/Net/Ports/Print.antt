-- ===== src/Net/Ports/Print.antt =====
-- kernel/drivers/network/core/net_ports.cpp: the connections of TCP in the registry, and its print.
pub mod Fits
use mathlib.Core.Option
use knit_os.Base.{
  ℕ, zero, suc, ◌+◌, ◌-◌, ◌/◌, ◌%◌, ◌^◌, List, [], ◌∷◌, ◌++◌, Bool, true, false, not, ◌&&◌, ◌||◌,
  Option, none, some, length, ltb, ◌==◌, if◌then◌else◌, find_index,
}
use knit_os.Net.Tcp.{Connection}
use knit_os.Net.Ports.{
  NetPortState, netport_closed, netport_listen, netport_syn_sent, netport_established,
  netport_time_wait, netport_other, is_netport_listen, is_netport_closed, net_proto_tcp,
  net_proto_udp, net_owner_max, NetPortSlot, Ports, np_copy_owner, is_some, np_find_listen, Binding,
  or_zero, net_ports_register, net_ports_set_state, net_ports_lookup_owner, np_map_tcp_state,
}

abbrev np_has_tcp_tuple : ℕ → ℕ → ℕ → List NetPortSlot → Bool
np_has_tcp_tuple local_port remote_ip remote_port slots = is_some (
    find_index
      (λ s.
        s.used
        && s.proto == net_proto_tcp
        && s.local_port == local_port
        && (s.remote_port == remote_port && s.remote_ip == remote_ip))
      slots)

abbrev kernel_owner : List ℕ
kernel_owner = b'k' ∷ b'e' ∷ b'r' ∷ b'n' ∷ b'e' ∷ b'l' ∷ []

abbrev owner_or_kernel : Option ℕ → Option (List ℕ × ℕ) → List ℕ × ℕ
owner_or_kernel current none = (kernel_owner, or_zero current)
owner_or_kernel current (some found) = found

-- What `np_sync_one` registers for a connection.
abbrev tcp_binding : NetPortState → List ℕ × ℕ → Connection → Binding
tcp_binding st found conn = record {
  proto = net_proto_tcp;
  state = st;
  local_ip = conn.src_ip;
  local_port = conn.src_port;
  remote_ip = if is_netport_listen st then 0 else conn.dest_ip;
  remote_port = if is_netport_listen st then 0 else conn.dest_port;
  sock_fd = none;
  pid = some found.1;
  owner = some found.0;
}

unfoldable pub np_sync_one : ℕ → Option ℕ → List Connection → Connection → Ports → Ports
np_sync_one our_ip current conns conn r =
    let st = np_map_tcp_state conn.state in
    let found =
      owner_or_kernel current
        (net_ports_lookup_owner net_proto_tcp conn.src_port net_owner_max r.slots) in
    let registered = (net_ports_register our_ip current (tcp_binding st found conn) conns r).1 in
    if not conn.valid || is_netport_closed st
    then r
    else if is_netport_listen st
    then (if is_some (np_find_listen net_proto_tcp conn.src_port r.slots) then r else registered)
    else if np_has_tcp_tuple conn.src_port conn.dest_ip conn.dest_port r.slots
    then net_ports_set_state net_proto_tcp conn.src_port conn.dest_ip conn.dest_port st r
    else registered

-- The loop over the connections of the table `conns`, with those to go.
unfoldable pub sync_all : ℕ → Option ℕ → List Connection → List Connection → Ports → Ports
sync_all our_ip current conns [] r = r
sync_all our_ip current conns (c ∷ cs) r =
    sync_all our_ip current conns cs (if c.valid then np_sync_one our_ip current conns c r else r)

unfoldable pub net_ports_sync_tcp : ℕ → Option ℕ → List Connection → Ports → Ports
net_ports_sync_tcp our_ip current conns r = sync_all our_ip current conns conns r

abbrev pub net_port_state_str : NetPortState → List ℕ
net_port_state_str netport_listen = b'L' ∷ b'I' ∷ b'S' ∷ b'T' ∷ b'E' ∷ b'N' ∷ []
net_port_state_str netport_syn_sent = b'S' ∷ b'Y' ∷ b'N' ∷ b'_' ∷ b'S' ∷ b'E' ∷ b'N' ∷ b'T' ∷ []
net_port_state_str netport_established =
    b'E' ∷ b'S' ∷ b'T' ∷ b'A' ∷ b'B' ∷ b'L' ∷ b'I' ∷ b'S' ∷ b'H' ∷ b'E' ∷ b'D' ∷ []
net_port_state_str netport_time_wait =
    b'T' ∷ b'I' ∷ b'M' ∷ b'E' ∷ b'_' ∷ b'W' ∷ b'A' ∷ b'I' ∷ b'T' ∷ []
net_port_state_str netport_other = b'O' ∷ b'T' ∷ b'H' ∷ b'E' ∷ b'R' ∷ []
net_port_state_str netport_closed = b'C' ∷ b'L' ∷ b'O' ∷ b'S' ∷ b'E' ∷ b'D' ∷ []

abbrev pub net_port_proto_str : ℕ → List ℕ
net_port_proto_str proto =
    if proto == net_proto_tcp
    then b't' ∷ b'c' ∷ b'p' ∷ []
    else if proto == net_proto_udp
    then b'u' ∷ b'd' ∷ b'p' ∷ []
    else b'?' ∷ []

-- The bytes in the buffer before and after a character.
abbrev pub np_fmt_putc : ℕ → List ℕ → ℕ → List ℕ
np_fmt_putc size out c = if ltb (length out + 1) size then out ++ c ∷ [] else out

unfoldable pub np_fmt_puts : ℕ → List ℕ → List ℕ → List ℕ
np_fmt_puts size out [] = out
np_fmt_puts size out (c ∷ cs) = np_fmt_puts size (np_fmt_putc size out c) cs

-- The digits, at most `left`, put before those that are there.
unfoldable pub digits : ℕ → ℕ → List ℕ → List ℕ
digits zero v later = later
digits (suc left) v later =
    let more = digits left (v / 10) ((b'0' + v % 10) ∷ later) in if v == 0 then later else more

unfoldable pub np_fmt_u32 : ℕ → List ℕ → ℕ → List ℕ
np_fmt_u32 size out v =
    if v == 0 then np_fmt_putc size out b'0' else np_fmt_puts size out (digits 11 v [])

unfoldable pub np_fmt_ip : ℕ → List ℕ → ℕ → List ℕ
np_fmt_ip size out ip =
    let out = np_fmt_putc size (np_fmt_u32 size out (ip / 2 ^ 24 % 256)) b'.' in
    let out = np_fmt_putc size (np_fmt_u32 size out (ip / 2 ^ 16 % 256)) b'.' in
    let out = np_fmt_putc size (np_fmt_u32 size out (ip / 2 ^ 8 % 256)) b'.' in
    np_fmt_u32 size out (ip % 256)

abbrev no_remote : List ℕ
no_remote = b'0' ∷ b'.' ∷ b'0' ∷ b'.' ∷ b'0' ∷ b'.' ∷ b'0' ∷ b':' ∷ b'*' ∷ []

abbrev pid_label : List ℕ
pid_label = b' ' ∷ b'p' ∷ b'i' ∷ b'd' ∷ b'=' ∷ []

unfoldable pub np_fmt_remote : ℕ → List ℕ → NetPortSlot → List ℕ
np_fmt_remote size out info =
    if info.remote_ip == 0 && info.remote_port == 0
    then np_fmt_puts size out no_remote
    else np_fmt_u32 size (np_fmt_putc size (np_fmt_ip size out info.remote_ip) b':')
        info.remote_port

unfoldable pub np_fmt_one : ℕ → List ℕ → NetPortSlot → List ℕ
np_fmt_one size out info =
    let out = np_fmt_puts size out (net_port_proto_str info.proto) in
    let out = np_fmt_ip size (np_fmt_putc size out b' ') info.local_ip in
    let out = np_fmt_u32 size (np_fmt_putc size out b':') info.local_port in
    let out = np_fmt_remote size (np_fmt_puts size out (b' ' ∷ [])) info in
    let out = np_fmt_puts size out (b' ' ∷ []) in
    let out = np_fmt_puts size (np_fmt_puts size out (net_port_state_str info.state)) pid_label in
    let out = np_fmt_puts size (np_fmt_u32 size out (info.pid % 2 ^ 32)) (b' ' ∷ []) in
    np_fmt_putc size (np_fmt_puts size out (np_copy_owner (some info.owner))) b'\n'

-- The loop of `net_ports_foreach` with `np_fmt_one`.
unfoldable pub fmt_all : ℕ → List ℕ → List NetPortSlot → List ℕ
fmt_all size out [] = out
fmt_all size out (s ∷ ss) = fmt_all size (if s.used then np_fmt_one size out s else out) ss

abbrev heading : List ℕ
heading =
    b'#' ∷ b' ' ∷ b'p' ∷ b'r' ∷ b'o' ∷ b't' ∷ b'o' ∷ b' ' ∷ b'l' ∷ b'o' ∷ b'c' ∷ b'a' ∷ b'l' ∷ b' '
    ∷ b'r' ∷ b'e' ∷ b'm' ∷ b'o' ∷ b't' ∷ b'e' ∷ b' ' ∷ b's' ∷ b't' ∷ b'a' ∷ b't' ∷ b'e' ∷ b' '
    ∷ b'p' ∷ b'i' ∷ b'd' ∷ b' ' ∷ b'p' ∷ b'r' ∷ b'o' ∷ b'c' ∷ b'e' ∷ b's' ∷ b's' ∷ b'\n' ∷ []

-- The bytes before the NUL, whose number is the result, and the registry.
unfoldable pub net_ports_format_table : ℕ → ℕ → Option ℕ → List Connection → Ports → List ℕ × Ports
net_ports_format_table size our_ip current conns r =
    let out = np_fmt_puts size [] heading in
    let synced = net_ports_sync_tcp our_ip current conns r in
    if size == 0 then ([], r) else (fmt_all size out synced.slots, synced)
