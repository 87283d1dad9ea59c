-- ===== src/Net/Tcp/Output/Pieces.antt =====
-- What `tcp_send_data` puts on the wire.
use knit_os.Base.{
  ℕ, zero, suc, ◌+◌, ◌-◌, ◌^◌, ◌≡◌, ◌≤◌, ◌<◌, refl, List, [], ◌∷◌, ◌++◌, true, false, none, some,
  arith, take, drop, length, length-take, ltb, ◌==◌, Bool-cases, Option-cases, ◌⊎◌, inl, inr,
  eq_of_==,
}
use knit_os.Base.{take_two, length-drop}
use knit_os.Net.Tcp.{Connection, Packet, tx_size, max_payload, add32, sub32}
use knit_os.Net.Tcp.Slots.{is_established, tcp_connection_send, tcp_add_retransmit}
use knit_os.Net.Tcp.Output.{tcp_send, to_send, data_packet, sent, send_from, tcp_send_data}

-- The packets carry the bytes in order, each with the number of its first byte, the first being `seq`.
abbrev pub Pieces : ℕ → List ℕ → List Packet → Type 0
Pieces seq bytes [] = bytes ≡ []
Pieces seq bytes (p ∷ ps) =
    (p.seq ≡ seq)
    × (length p.payload ≤ max_payload)
    × (rest : List ℕ) × (bytes ≡ p.payload ++ rest)
    × Pieces (add32 seq (length p.payload)) rest ps

sent-send_seq :
    (now : ℕ) (bytes : List ℕ) (c : Connection)
    → (sent now bytes c).send_seq ≡ add32 c.send_seq (length bytes)
unfolding tcp_add_retransmit
sent-send_seq now bytes c = ground arith

sent-mss : (now : ℕ) (bytes : List ℕ) (c : Connection) → (sent now bytes c).mss ≡ c.mss
unfolding tcp_add_retransmit
sent-mss now bytes c = ground arith

to_send-some :
    (c : Connection) (left n : ℕ)
    → to_send c left ≡ some n
    → 0 < left
    → 0 < c.mss
    → (0 < n) × (n ≤ left) × (n ≤ c.mss)
unfolding to_send
to_send-some c left n e l m = ground arith

-- As many bytes are in flight, modulo 2^32, as the peer's window or the congestion window has.
abbrev pub IsFull : Connection → Type 0
IsFull c =
    (sub32 c.send_window (sub32 c.send_seq c.send_una) ≡ 0)
    ⊎ (sub32 c.cwnd (sub32 c.send_seq c.send_una) ≡ 0)

to_send-none : (c : Connection) (left : ℕ) → to_send c left ≡ none → IsFull c
unfolding to_send
to_send-none c left e = elim (Bool-cases (sub32 c.send_window (sub32 c.send_seq c.send_una) == 0)) [
  | inl full ↦ inl (eq_of_== _ _ full)
  | inr room ↦ elim (Bool-cases (sub32 c.cwnd (sub32 c.send_seq c.send_una) == 0)) [
    | inl full ↦ inr (eq_of_== _ _ full)
    | inr free ↦ absurd (let sends = rw (room, free, to_send) at e in cc)
  ]
]

-- What the loop leaves when it stops.
record Sends (c : Connection) (left : List ℕ) (k : ℕ) (d : Connection) (out : List Packet)
    : Type 0 where
  within : k ≤ length left
  next : d.send_seq ≡ add32 c.send_seq k
  pieces : Pieces c.send_seq (take k left) out
  stops : k < length left → IsFull d

Sends-round :
    (n k : ℕ) (left : List ℕ) (c e d : Connection) (out : List Packet)
    → n ≤ length left
    → n ≤ max_payload
    → e.send_seq ≡ add32 c.send_seq n
    → Sends e (drop n left) k d out
    → Sends c left (n + k) d (tcp_send (data_packet c (take n left)) ++ out)
Sends-round n k left c e d out le small next r =
    let size : length (take n left) ≡ n = omega (arith, length-take n left) in
    let left_size = length-drop n left in
    let fits : ltb max_payload (length (take n left)) ≡ false = ground arith in
    record {
      within = omega (arith, r.within);
      next = omega (arith, r.next);
      pieces = rw fits (
        refl,
        omega arith,
        take k (drop n left),
        take_two n k (n + k) left refl,
        rw (size, ← next) r.pieces,
      );
      stops = λ h. r.stops (omega arith);
    }

send_from-Sends :
    (fuel now : ℕ) (left : List ℕ) (c : Connection)
    → length left ≤ fuel
    → c.send_seq < 2 ^ 32
    → 0 < c.mss
    → c.mss ≤ max_payload
    → let (k, d, out) = send_from fuel now left c in Sends c left k d out
unfolding send_from
send_from-Sends zero now left c f s m m' = record {
  within = omega arith;
  next = omega arith;
  pieces = refl;
  stops = λ h. absurd (omega arith);
}
send_from-Sends (suc fuel) now left c f s m m' = elim (Bool-cases (length left == 0)) [
  | inl empty ↦
      rw (empty, send_from)
        (record {
          within = omega arith;
          next = omega arith;
          pieces = refl;
          stops = λ h. absurd (ground arith);
        })
  | inr some_left ↦ elim (Option-cases (to_send c (length left))) [
    | inl full ↦
        rw (some_left, full, send_from)
          (record {
            within = omega arith;
            next = omega arith;
            pieces = refl;
            stops = λ h. to_send-none c (length left) full;
          })
    | inr (n, e) ↦
        let (pos, le, le') = to_send-some c (length left) n e (ground arith) m in
        let rest =
          send_from-Sends fuel now (drop n left) (sent now (take n left) c)
            (omega (arith, length-drop n left)) (omega (arith, sent-send_seq now (take n left) c))
            (rw (sent-mss now (take n left) c) m) (rw (sent-mss now (take n left) c) m') in
        let size : length (take n left) ≡ n = omega (arith, length-take n left) in
        let (k, d, out) = send_from fuel now (drop n left) (sent now (take n left) c) in
        rw (some_left, e, send_from)
          (Sends-round n k left c (sent now (take n left) c) d out le (omega arith)
            (rw (sent-send_seq now (take n left) c, size) refl) rest)
  ]
]

abbrev filled : List ℕ → Connection → Connection
filled bytes c = record c { tx = c.tx ++ bytes }

send_fits :
    (bytes : List ℕ) (c : Connection)
    → is_established c.state ≡ true
    → length c.tx + length bytes ≤ tx_size
    → tcp_connection_send bytes c ≡ (some (length bytes), filled bytes c)
unfolding tcp_connection_send
send_fits bytes c open_state room =
    let fits : ltb (tx_size - length c.tx) (length bytes) ≡ false = ground arith in
    rw (open_state, fits, tcp_connection_send) refl

-- `tcp_send_data` on an established connection whose transmit buffer has room for the bytes returns
-- how many it sent: a beginning of them went out in order, in packets that carry the number of their
-- first byte and are not too large, the next number moved on by as many, and if bytes are left, as
-- many bytes are in flight, modulo 2^32, as the peer's window or the congestion window has.
pub tcp_send_data-Pieces :
    (now : ℕ) (bytes : List ℕ) (c : Connection)
    → is_established c.state ≡ true
    → length c.tx + length bytes ≤ tx_size
    → c.send_seq < 2 ^ 32
    → 0 < c.mss
    → c.mss ≤ max_payload
    → let (result, d, out) = tcp_send_data now bytes c in
      (k : ℕ) × (result ≡ some k)
      × (k ≤ length bytes)
      × Pieces c.send_seq (take k bytes) out
      × (d.send_seq ≡ add32 c.send_seq k)
      × (k < length bytes → IsFull d)
unfolding tcp_send_data
tcp_send_data-Pieces now bytes c open_state room s m m' =
    let r = send_from-Sends (length bytes) now bytes (filled bytes c) (omega arith) s m m' in
    rw (send_fits bytes c open_state room, tcp_send_data)
      (
        (send_from (length bytes) now bytes (filled bytes c)).0,
        refl,
        r.within,
        r.pieces,
        r.next,
        r.stops,
      )
