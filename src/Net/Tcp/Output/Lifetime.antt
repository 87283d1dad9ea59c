-- ===== src/Net/Tcp/Output/Lifetime.antt =====
-- How much a connection can send in its life.
use knit_os.Base.{
  ℕ, zero, suc, ◌+◌, ◌≡◌, ◌≤◌, ◌<◌, ◌∙◌, refl, List, [], ◌∷◌, ◌++◌, Option, none, some, arith, take,
  drop, length, length-append, ◌==◌, Bool-cases, Option-cases, ◌⊎◌, inl, inr,
}
use knit_os.Net.Tcp.{Connection, tx_size}
use knit_os.Net.Tcp.Slots.{tcp_connection_send, tcp_add_retransmit}
use knit_os.Net.Tcp.Input.{Incoming, on_segment}
use knit_os.Base.{length-drop}
use knit_os.Net.Tcp.Input.Sending.{on_segment-tx}
use knit_os.Net.Tcp.Output.{to_send, sent, send_from, send_kept, tcp_send_data}

-- What happens to a connection: its owner sends bytes at a time, or a segment comes in.
pub data Use : Type 0 where
  sends : ℕ → List ℕ → Use
  comes : Incoming → Use

abbrev pub returned : Option ℕ → ℕ
returned none = 0
returned (some k) = k

-- The sum of the counts that `tcp_send_data` returned, and the connection.
pub life : List Use → Connection → ℕ × Connection
life [] c = (0, c)
life (sends now bytes ∷ us) c =
    let (result, d, out) = tcp_send_data now bytes c in
    let (total, e) = life us d in (returned result + total, e)
life (comes m ∷ us) c = life us (on_segment m c).0

to_send-le : (c : Connection) (left n : ℕ) → to_send c left ≡ some n → n ≤ left
unfolding to_send
to_send-le c left n e = ground arith

sent-tx : (now : ℕ) (bytes : List ℕ) (c : Connection) → (sent now bytes c).tx ≡ c.tx
unfolding tcp_add_retransmit
sent-tx now bytes c = ground arith

-- The loop sends no more than it has, and leaves the buffer.
send_from-tx :
    (fuel now : ℕ) (left : List ℕ) (c : Connection)
    → let (k, d, out) = send_from fuel now left c in (k ≤ length left) × (d.tx ≡ c.tx)
unfolding send_from
send_from-tx zero now left c = (omega arith, refl)
send_from-tx (suc fuel) now left c = elim (Bool-cases (length left == 0)) [
  | inl empty ↦ rw (empty, send_from) (omega arith, refl)
  | inr some_left ↦ elim (Option-cases (to_send c (length left))) [
    | inl full ↦ rw (some_left, full, send_from) (omega arith, refl)
    | inr (n, e) ↦
        let rest = send_from-tx fuel now (drop n left) (sent now (take n left) c) in
        rw (some_left, e, send_from)
          (
            omega (arith, rest.0, to_send-le c (length left) n e, length-drop n left),
            rest.1 ∙ sent-tx now (take n left) c,
          )
  ]
]

tcp_connection_send_cases :
    (bytes : List ℕ) (c : Connection)
    → (tcp_connection_send bytes c ≡ (none, c))
      ⊎ ((tcp_connection_send bytes c ≡ (some (length bytes), record c { tx = c.tx ++ bytes }))
          × (length c.tx + length bytes ≤ tx_size ⊎ tx_size < length c.tx))
unfolding tcp_connection_send
tcp_connection_send_cases bytes c = ground arith

tcp_send_data-tx :
    (now : ℕ) (bytes : List ℕ) (c : Connection)
    → length c.tx ≤ tx_size
    → let (result, d, out) = tcp_send_data now bytes c in
      (returned result + length c.tx ≤ length d.tx) × (length d.tx ≤ tx_size)
unfolding tcp_send_data send_kept
tcp_send_data-tx now bytes c h = elim (tcp_connection_send_cases bytes c) [
  | inl e ↦ rw (e, tcp_send_data) (omega arith, h)
  | inr (e, fits) ↦
      let d : Connection = record c { tx = c.tx ++ bytes } in
      let (le, same) = send_from-tx (length bytes) now bytes d in
      rw (e, tcp_send_data, send_kept)
        (rw same
          (omega (arith, length-append c.tx bytes), ground (arith, length-append c.tx bytes)))
]

-- The counts that all calls of `tcp_send_data` on one connection return, whatever comes in between
-- them, add up to at most the size of the transmit buffer, less what is in it at first: the buffer is
-- never emptied.
pub life-bound :
    (us : List Use) (c : Connection) → length c.tx ≤ tx_size → (life us c).0 + length c.tx ≤ tx_size
unfolding life
life-bound [] c h = omega arith
life-bound (sends now bytes ∷ us) c h =
    let (grows, fits) = tcp_send_data-tx now bytes c h in
    omega (arith, life-bound us (tcp_send_data now bytes c).1 fits)
life-bound (comes m ∷ us) c h =
    rw (on_segment-tx m c) at (life-bound us (on_segment m c).0 (rw (on_segment-tx m c) h))
