-- ===== src/Net/Tcp/Wire.antt =====
-- The beginning of `tcp_handle_packet` of kernel/drivers/network/protocols/tcp.cpp: from the bytes
-- that the IP layer hands up to a decoded segment, and what a segment that was sent decodes to.
use knit_os.Base.{
  ℕ, ◌+◌, ◌*◌, ◌/◌, ◌≡◌, ◌≤◌, ◌<◌, List, [], not, ◌&&◌, ◌||◌, Option, none, some, arith, take,
  length, ltb, ◌==◌, if◌then◌else◌, All, take_all, ==_self,
}
use knit_os.Net.Tcp.{Packet, max_payload}
use knit_os.Net.Tcp.Format.{
  Header, header_size, segment_with, tcp_parse_header, tcp_checksum, send_bytes,
}
use knit_os.Net.Tcp.Format.RoundTrip.{IsPacket, tcp_parse_header-segment_with}
use knit_os.Net.Tcp.Format.Checksum.{tcp_checksum-send_bytes}
use knit_os.Net.Tcp.Slots.{Table}
use knit_os.Net.Tcp.Input.{Incoming, tcp_handle_packet}

-- The tests after the header was read: the address, the length of the header, the checksum unless it
-- is 0.
pub checked : ℕ → ℕ → ℕ → List ℕ → Header × List ℕ → Option Incoming
checked our_ip src_ip dest_ip bs (h, payload) =
    let hdr_len = h.data_offset / 16 * 4 in
    let sum = tcp_checksum src_ip dest_ip (take (hdr_len + length payload) bs) in
    if not (dest_ip == our_ip)
      || ltb hdr_len header_size
      || (not (h.checksum == 0) && not (sum == 0))
    then none
    else some (record {
      src_ip = src_ip;
      src_port = h.src_port;
      dest_port = h.dest_port;
      seq = h.seq_num;
      ack = h.ack_num;
      flags = h.flags;
      window = h.window;
      payload = payload;
    })

pub tcp_decode : ℕ → ℕ → ℕ → List ℕ → Option Incoming
unfolding checked
tcp_decode our_ip src_ip dest_ip bs = elim (tcp_parse_header bs) [
  | none ↦ none
  | some r ↦ checked our_ip src_ip dest_ip bs r
]

-- `tcp_handle_packet` as the IP layer calls it.
pub tcp_receive : ℕ → ℕ → ℕ → ℕ → List ℕ → Table → Table × List Packet
tcp_receive now our_ip src_ip dest_ip bs t = elim (tcp_decode our_ip src_ip dest_ip bs) [
  | none ↦ (t, [])
  | some m ↦ tcp_handle_packet now our_ip m t
]

-- The packet as its receiver should see it.
abbrev pub incoming : ℕ → Packet → Incoming
incoming src_ip p = record {
  src_ip = src_ip;
  src_port = p.src_port;
  dest_port = p.dest_port;
  seq = p.seq;
  ack = p.ack;
  flags = p.flags;
  window = p.window;
  payload = p.payload;
}

-- The bytes that `tcp_send` makes of a packet whose fields fit their widths and whose payload is not
-- too large pass all tests of the host they are for, and decode there to the packet: its ports,
-- numbers, flags, window and payload.
pub tcp_decode-send_bytes :
    (our_ip : ℕ) (p : Packet)
    → IsPacket p
    → All (λ b. b < 256) p.payload
    → length p.payload ≤ max_payload
    → (bs : List ℕ) × (send_bytes our_ip p ≡ some bs)
      × (tcp_decode p.dest_ip our_ip p.dest_ip bs ≡ some (incoming our_ip p))
unfolding tcp_decode checked
tcp_decode-send_bytes our_ip p v bytes small =
    let (c, fits, made, good) = tcp_checksum-send_bytes our_ip p bytes v.flags_fit small in
    let whole : take (20 + length p.payload) (segment_with c p) ≡ segment_with c p =
      take_all (20 + length p.payload) (segment_with c p) (omega arith) in
    (
      segment_with c p,
      made,
      rw
          (
            tcp_parse_header-segment_with c p fits v,
            ==_self p.dest_ip,
            whole,
            good,
            tcp_decode,
            checked,
          )
          (ground arith),
    )
