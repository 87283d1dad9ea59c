-- ===== src/Net/Tcp/Input/Acceptance.antt =====
-- When a segment's data is taken.
use knit_os.Base.{
  ◌+◌, ◌-◌, ◌≡◌, ◌≤◌, ◌<◌, ◌∙◌, refl, sym, ap, List, [], ◌∷◌, ◌++◌, true, false, ◌&&◌, arith,
  length, ltb, leb, ◌==◌,
}
use knit_os.Net.Tcp.{
  Connection, Packet, rx_size, flag_fin, flag_syn, flag_rst, flag_ack, has, add32,
}
use knit_os.Net.Tcp.Slots.{is_established, tcp_ack_retransmit}
use knit_os.Net.Tcp.Input.{answer, Incoming, on_ack, on_data, on_fin, on_control, on_segment}
use knit_os.Net.Tcp.Input.Leaves.{on_control-Leaves}

abbrev taken : Incoming → Connection → Connection
taken m c = record c {
  rx = c.rx ++ m.payload;
  recv_seq = add32 c.recv_seq (length m.payload);
  recv_window = rx_size - (length c.rx + length m.payload);
}

on_data-taken :
    (m : Incoming) (c : Connection)
    → is_established c.state ≡ true
    → m.seq ≡ c.recv_seq
    → 0 < length m.payload
    → length c.rx + length m.payload ≤ rx_size
    → on_data m c ≡ (taken m c, answer flag_ack m (taken m c) ∷ [])
unfolding on_data
on_data-taken m c open_state in_order some_data fits =
    let go : (ltb 0 (length m.payload)
          && is_established c.state
          && m.seq == c.recv_seq
          && leb (length c.rx + length m.payload) rx_size)
        ≡ true =
      ground arith in
    rw (go, on_data) refl

on_fin-plain : (m : Incoming) (c : Connection) → has m.flags flag_fin ≡ false → on_fin m c ≡ (c, [])
unfolding on_fin
on_fin-plain m c h = rw (h, on_fin) refl

on_control-plain :
    (m : Incoming) (c : Connection) → has m.flags flag_syn ≡ false → (on_control m c).1 ≡ []
on_control-plain m c h = ground arith

on_ack-established :
    (m : Incoming) (c : Connection)
    → is_established c.state ≡ true
    → is_established (on_ack m c).state ≡ true
unfolding on_ack tcp_ack_retransmit
on_ack-established m c h = ground arith

on_control-established :
    (m : Incoming) (c : Connection)
    → has m.flags flag_syn ≡ false
    → is_established c.state ≡ true
    → is_established (on_control m c).0.state ≡ true
on_control-established m c no_syn h = ground (arith, on_ack-established m c h)

-- One packet goes back to the sender, without data: an ACK for all bytes up to the end of the segment,
-- with the space that is left in the buffer as the window.
abbrev pub IsAcknowledged : Incoming → Connection → List Packet → Type 0
IsAcknowledged m c out =
    out
    ≡ record {
      dest_ip = m.src_ip;
      src_port = m.dest_port;
      dest_port = m.src_port;
      seq = c.send_seq;
      ack = add32 c.recv_seq (length m.payload);
      flags = flag_ack;
      window = rx_size - (length c.rx + length m.payload);
      payload = [];
    }
      ∷ []

-- A segment with data that is next in order and fits into the buffer of an established connection,
-- with no other flag than ACK or PSH, is taken whole and acknowledged by one packet, an ACK of the
-- byte after it with the connection's own next number and the space that is left in the buffer.
pub on_segment-accepts :
    (m : Incoming) (c : Connection)
    → has m.flags flag_rst ≡ false
    → has m.flags flag_syn ≡ false
    → has m.flags flag_fin ≡ false
    → is_established c.state ≡ true
    → m.seq ≡ c.recv_seq
    → 0 < length m.payload
    → length c.rx + length m.payload ≤ rx_size
    → ((on_segment m c).0.rx ≡ c.rx ++ m.payload)
      × ((on_segment m c).0.recv_seq ≡ add32 c.recv_seq (length m.payload))
      × IsAcknowledged m c (on_segment m c).1
unfolding on_segment
on_segment-accepts m c no_rst no_syn no_fin open_state in_order some_data fits =
    let d = (on_control m c).0 in
    let l = on_control-Leaves m c (ground arith) in
    let open_too = on_control-established m c no_syn open_state in
    let data_eq = on_data-taken m d open_too (in_order ∙ sym l.next) some_data (rw l.rx fits) in
    let all_eq : on_segment m c ≡ (taken m d, answer flag_ack m (taken m d) ∷ []) =
      rw (no_rst, on_segment)
        (rw (data_eq, on_control-plain m c no_syn, on_fin-plain m (taken m d) no_fin) refl) in
    rw all_eq (
      ap (λ x. x ++ m.payload) l.rx,
      ap (λ x. add32 x (length m.payload)) l.next,
      rw (l.rx, l.next, l.sends) refl,
    )
