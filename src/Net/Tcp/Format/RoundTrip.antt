-- ===== src/Net/Tcp/Format/RoundTrip.antt =====
-- What `tcp_create_packet` writes is what `tcp_parse_header` reads.
use knit_os.Base.{ℕ, ◌+◌, ◌*◌, ◌/◌, ◌%◌, ◌^◌, ◌≡◌, ◌<◌, refl, false, some, arith, length, ltb}
use knit_os.Net.Tcp.{Packet}
use knit_os.Net.Tcp.Format.{Header, segment_with, tcp_parse_header}

-- Every field fits its width.
pub record IsPacket (p : Packet) : Type 0 where
  pub src_port_fits : p.src_port < 2 ^ 16
  pub dest_port_fits : p.dest_port < 2 ^ 16
  pub seq_fits : p.seq < 2 ^ 32
  pub ack_fits : p.ack < 2 ^ 32
  pub flags_fit : p.flags < 2 ^ 8
  pub window_fits : p.window < 2 ^ 16

-- The header of a packet with that checksum.
abbrev pub header_of : ℕ → Packet → Header
header_of c p = record {
  src_port = p.src_port;
  dest_port = p.dest_port;
  seq_num = p.seq;
  ack_num = p.ack;
  data_offset = 80;
  flags = p.flags;
  window = p.window;
  checksum = c;
  urgent_ptr = 0;
}

whole16 : (v : ℕ) → v < 2 ^ 16 → v / 256 % 256 * 256 + v % 256 ≡ v
whole16 v h = omega arith

whole32 :
    (v : ℕ)
    → v < 2 ^ 32
    → (v / 65536 / 256 % 256 * 256 + v / 65536 % 256) * 65536 + (v / 256 % 256 * 256 + v % 256) ≡ v
whole32 v h = omega arith

-- A segment reads back as the packet that it was made of, whatever its checksum.
pub tcp_parse_header-segment_with :
    (c : ℕ) (p : Packet)
    → c < 2 ^ 16
    → IsPacket p
    → tcp_parse_header (segment_with c p) ≡ some (header_of c p, p.payload)
unfolding tcp_parse_header
tcp_parse_header-segment_with c p small v =
    let long : ltb (length (segment_with c p)) 20 ≡ false = ground arith in
    rw
      (
        long,
        whole16 p.src_port v.src_port_fits,
        whole16 p.dest_port v.dest_port_fits,
        whole16 p.window v.window_fits,
        whole16 c small,
        whole32 p.seq v.seq_fits,
        whole32 p.ack v.ack_fits,
        tcp_parse_header,
      )
      refl
