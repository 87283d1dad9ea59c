-- ===== src/Net/Ports/Tests.antt =====
-- The registry of ports on a small table.
use knit_os.Base.{◌≡◌, ◌<◌, refl, [], ◌∷◌, false, none, some, replicate, length, arith}
use knit_os.Net.Ports.{
  netport_closed, netport_listen, NetPortSlot, Ports, Binding, net_ports_busy, net_proto_udp,
  net_ports_alloc_ephemeral, alloc_port, net_ports_register, net_ports_release_sock,
  net_ports_lookup_owner,
}
use knit_os.Net.Ports.Ephemeral.{IsEphemeral, net_ports_alloc_ephemeral-finds}
use knit_os.Net.Ports.Print.{
  net_ports_format_table, fmt_all, np_fmt_puts, np_fmt_u32, np_fmt_ip, np_fmt_remote, np_fmt_one,
  net_ports_sync_tcp, sync_all, digits,
}
use knit_os.Net.Ports.Print.Fits.{net_ports_format_table-fits}

abbrev unset : NetPortSlot
unset = record {
  used = false;
  proto = 0;
  state = netport_closed;
  local_port = 0;
  remote_port = 0;
  local_ip = 0;
  remote_ip = 0;
  sock_fd = none;
  pid = 0;
  owner = [];
}

abbrev empty_ports : Ports
empty_ports = record { slots = replicate 2 unset; ephemeral_next = 65535 }

abbrev web : Binding
web = record {
  proto = net_proto_udp;
  state = netport_listen;
  local_ip = 0;
  local_port = 65535;
  remote_ip = 0;
  remote_port = 0;
  sock_fd = some 3;
  pid = none;
  owner = some (b'w' ∷ []);
}

abbrev with_web : Ports
with_web = (net_ports_register 7 (some 9) web [] empty_ports).1

-- The last port is in use, so the first is next.
wraps : (net_ports_alloc_ephemeral net_proto_udp [] with_web).0 ≡ 49152
unfolding net_ports_alloc_ephemeral alloc_port net_ports_busy net_ports_register
wraps = refl

owned : net_ports_lookup_owner net_proto_udp 65535 24 with_web.slots ≡ some (b'w' ∷ [], 9)
unfolding net_ports_lookup_owner net_ports_register net_ports_busy
owned = refl

released_again :
    net_ports_busy net_proto_udp 65535 [] (net_ports_release_sock (some 3) with_web).slots ≡ false
unfolding net_ports_release_sock net_ports_busy net_ports_register
released_again = refl

-- A second socket cannot listen on the port.
abbrev rival : Binding
rival = record web { sock_fd = some 4 }

keeps_owner :
    net_ports_lookup_owner net_proto_udp 65535 24
      (net_ports_register 7 (some 9) rival [] with_web).1.slots
    ≡ some (b'w' ∷ [], 9)
unfolding net_ports_lookup_owner net_ports_register net_ports_busy
keeps_owner = refl

net_ports_alloc_ephemeral-finds_example :
    IsEphemeral (net_ports_alloc_ephemeral net_proto_udp [] with_web).0
    × (net_ports_busy net_proto_udp
          (net_ports_alloc_ephemeral net_proto_udp [] with_web).0
          []
          with_web.slots
        ≡ false)
    × IsEphemeral (net_ports_alloc_ephemeral net_proto_udp [] with_web).1.ephemeral_next
unfolding net_ports_busy net_ports_register
net_ports_alloc_ephemeral-finds_example =
    net_ports_alloc_ephemeral-finds net_proto_udp 50000 [] with_web (omega arith, omega arith)
      (omega arith, omega arith) refl

-- Nine bytes of the heading and the NUL.
cut_short : length (net_ports_format_table 10 7 none [] with_web).0 ≡ 9
unfolding net_ports_format_table fmt_all np_fmt_puts np_fmt_u32 np_fmt_ip np_fmt_remote np_fmt_one
    net_ports_sync_tcp sync_all net_ports_register net_ports_busy digits
cut_short = refl

net_ports_format_table-fits_example : length (net_ports_format_table 10 7 none [] with_web).0 < 10
net_ports_format_table-fits_example =
    net_ports_format_table-fits 10 7 none [] with_web (omega arith)
