-- ===== src/Net/Tcp/Format.antt =====
-- `tcp_create_packet`, `tcp_parse_header`, `tcp_checksum` and `tcp_send` of
-- kernel/drivers/network/protocols/tcp.cpp, on the bytes of a segment. `htons` and `htonl` put the
-- high byte of a field first.
pub mod RoundTrip
pub mod Checksum
use mathlib.Core.Option
use knit_os.Base.{
  ℕ, zero, suc, ◌+◌, ◌-◌, ◌*◌, ◌/◌, ◌%◌, ◌^◌, Bool, true, false, ◌||◌, Option, none, some, List, [],
  ◌∷◌, ◌++◌, take, drop, get_or, length, ltb, ◌==◌, if◌then◌else◌,
}
use knit_os.Net.Tcp.{Packet, max_payload}

abbrev pub header_size : ℕ
header_size = 20

pub record Header : Type 0 where
  pub src_port : ℕ
  pub dest_port : ℕ
  pub seq_num : ℕ
  pub ack_num : ℕ
  pub data_offset : ℕ
  pub flags : ℕ
  pub window : ℕ
  pub checksum : ℕ
  pub urgent_ptr : ℕ

-- A field of 8, 16 or 32 bits in network order, in front of what follows it.
abbrev pub be16 : ℕ → List ℕ → List ℕ
be16 v bs = v / 256 % 256 ∷ v % 256 ∷ bs

abbrev pub be32 : ℕ → List ℕ → List ℕ
be32 v bs = be16 (v / 65536) (be16 v bs)

-- A segment with this checksum field.
abbrev pub segment_with : ℕ → Packet → List ℕ
segment_with checksum p = be16 p.src_port (
    be16 p.dest_port (
      be32 p.seq (
        be32 p.ack
          (header_size / 4 * 16 ∷ p.flags ∷ be16 p.window (be16 checksum (be16 0 p.payload))))))

-- The bytes that a return of their number has written; `none` is -1.
pub tcp_create_packet : ℕ → Packet → Option (List ℕ)
tcp_create_packet buffer_size p =
    if ltb buffer_size (header_size + length p.payload) then none else some (segment_with 0 p)

abbrev pub read16 : List ℕ → ℕ → ℕ
read16 bs i = get_or bs i 0 * 256 + get_or bs (i + 1) 0

abbrev pub read32 : List ℕ → ℕ → ℕ
read32 bs i = read16 bs i * 65536 + read16 bs (i + 2)

-- The header with its fields in host order, and the payload; `none` is -1.
pub tcp_parse_header : List ℕ → Option (Header × List ℕ)
tcp_parse_header bs =
    if ltb (length bs) header_size
    then none
    else (let offset = get_or bs 12 0 / 16 * 4 in
        if ltb offset header_size || ltb (length bs) offset
        then none
        else some (
          record {
            src_port = read16 bs 0;
            dest_port = read16 bs 2;
            seq_num = read32 bs 4;
            ack_num = read32 bs 8;
            data_offset = get_or bs 12 0;
            flags = get_or bs 13 0;
            window = read16 bs 14;
            checksum = read16 bs 16;
            urgent_ptr = read16 bs 18;
          },
          drop offset bs,
        ))

-- The sum of the 16-bit words, an odd last byte being a high one.
pub word_sum : List ℕ → ℕ
word_sum [] = 0
word_sum (a ∷ []) = a * 256
word_sum (a ∷ b ∷ bs) = a * 256 + b + word_sum bs

-- `while (sum >> 16) sum = (sum & 0xFFFF) + (sum >> 16);` Two rounds are enough for 32 bits.
pub fold_carries : ℕ → ℕ → ℕ
fold_carries zero sum = sum
fold_carries (suc fuel) sum =
    let folded = fold_carries fuel (sum % 65536 + sum / 65536) in
    if sum / 65536 == 0 then sum else folded

abbrev pub pseudo_header : ℕ → ℕ → ℕ → List ℕ
pseudo_header src_ip dest_ip tcp_len =
    be32 src_ip (be32 dest_ip (0 ∷ 6 ∷ be16 (tcp_len % 65536) []))

pub tcp_checksum : ℕ → ℕ → List ℕ → ℕ
tcp_checksum src_ip dest_ip segment =
    let sum =
      (word_sum (pseudo_header src_ip dest_ip (length segment)) + word_sum segment) % 2 ^ 32 in
    65535 - fold_carries 2 sum % 65536

-- The bytes that `tcp_send` gives to `ip_output`; `none` is -1.
pub send_bytes : ℕ → Packet → Option (List ℕ)
send_bytes our_ip p =
    if ltb max_payload (length p.payload)
    then none
    else Option.map (λ bs. segment_with (tcp_checksum our_ip p.dest_ip bs) p)
        (tcp_create_packet (header_size + max_payload) p)
