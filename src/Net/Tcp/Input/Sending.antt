-- ===== src/Net/Tcp/Input/Sending.antt =====
-- A segment that comes in leaves the transmit buffer.
use knit_os.Base.{◌≡◌, ◌∙◌, refl, arith, Bool-cases, inl, inr}
use knit_os.Net.Tcp.{Connection, flag_rst, has}
use knit_os.Net.Tcp.Slots.{tcp_connection_close, tcp_ack_retransmit}
use knit_os.Net.Tcp.Input.{Incoming, on_ack, on_syn, on_data, on_fin, on_control, on_segment}

on_ack-tx : (m : Incoming) (c : Connection) → (on_ack m c).tx ≡ c.tx
unfolding on_ack tcp_ack_retransmit
on_ack-tx m c = ground arith

on_syn-tx : (m : Incoming) (c : Connection) → (on_syn m c).0.tx ≡ c.tx
unfolding on_syn
on_syn-tx m c = ground arith

on_control-tx : (m : Incoming) (c : Connection) → (on_control m c).0.tx ≡ c.tx
on_control-tx m c = ground (arith, on_ack-tx m c, on_syn-tx m c)

on_data-tx : (m : Incoming) (c : Connection) → (on_data m c).0.tx ≡ c.tx
unfolding on_data
on_data-tx m c = ground arith

on_fin-tx : (m : Incoming) (c : Connection) → (on_fin m c).0.tx ≡ c.tx
unfolding on_fin tcp_connection_close
on_fin-tx m c = ground arith

pub on_segment-tx : (m : Incoming) (c : Connection) → (on_segment m c).0.tx ≡ c.tx
unfolding on_segment tcp_connection_close
on_segment-tx m c = elim (Bool-cases (has m.flags flag_rst)) [
  | inl reset ↦ rw (reset, on_segment) refl
  | inr plain ↦
      let d = (on_control m c).0 in
      rw (plain, on_segment) (on_fin-tx m (on_data m d).0 ∙ on_data-tx m d ∙ on_control-tx m c)
]
