-- ===== src/Net/Tcp/Input/Delivery.antt =====
-- The bytes that a connection hands to its reader.
use knit_os.Base.{
  ℕ, ◌+◌, ◌≡◌, ◌≤◌, ◌∙◌, refl, sym, ap, List, [], ◌∷◌, ◌++◌, true, false, ◌&&◌, arith, take, drop,
  append_assoc, append-nil, length, length-append, length-take, length-drop, take_two,
  take-append-drop, ltb, leb, ◌==◌, if◌then◌else◌, All, Bool-cases, inl, inr,
}
use knit_os.Net.Tcp.{State, Connection, rx_size, flag_rst, has, add32}
use knit_os.Net.Tcp.Slots.{is_established, tcp_connection_close, tcp_connection_receive}
use knit_os.Net.Tcp.Input.{Incoming, on_data, on_fin, on_control, on_segment}
use knit_os.Net.Tcp.Input.Leaves.{takes_data, is_syn_sent, Leaves, on_control-Leaves}

-- What happens to a connection: a segment for it comes in, or its reader asks for bytes.
pub data Event : Type 0 where
  comes : Incoming → Event
  asks : ℕ → Event

-- The bytes that the reader has got, and the connection.
unfoldable pub happen : List Event → Connection → List ℕ × Connection
happen [] c = ([], c)
happen (comes m ∷ es) c = happen es (on_segment m c).0
happen (asks n ∷ es) c =
    let (got, d) = tcp_connection_receive n c in let (later, e) = happen es d in (got ++ later, e)

takes_of_established : (s : State) → is_established s ≡ true → takes_data s ≡ true
takes_of_established s e = ground arith

module _ (stream : List ℕ) (base : ℕ) where
  -- The segment was cut from the stream, whose first byte has the number `base`.
  abbrev pub IsCut : Incoming → Type 0
  IsCut m =
      (k : ℕ)
      → m.seq ≡ add32 base k
      → k ≤ length stream
      → m.payload ≡ take (length m.payload) (drop k stream)

  abbrev pub AreCut : Event → Type 0
  AreCut (comes m) = IsCut m
  AreCut (asks n) = Unit {0}

  -- Of the stream, `n` bytes have arrived: the last of them wait for the reader, who has the others.
  pub record HasGot (got : List ℕ) (n : ℕ) (c : Connection) : Type 0 where
    pub bytes : got ++ c.rx ≡ take n stream
    pub within : n ≤ length stream
    pub room : length c.rx ≤ rx_size
    pub next : takes_data c.state ≡ true → c.recv_seq ≡ add32 base n
    pub begun : is_syn_sent c.state ≡ false

  HasGot-Leaves :
      (got : List ℕ) (n : ℕ) (c d : Connection) → HasGot got n c → Leaves c d → HasGot got n d
  HasGot-Leaves got n c d h l = record {
    bytes = ap (λ x. got ++ x) l.rx ∙ h.bytes;
    within = h.within;
    room = rw l.rx h.room;
    next = λ e. l.next ∙ h.next (l.takes e);
    begun = l.begun h.begun;
  }

  on_data-HasGot :
      (m : Incoming) (got : List ℕ) (n : ℕ) (c : Connection)
      → IsCut m
      → HasGot got n c
      → (k : ℕ) × HasGot got k (on_data m c).0
  unfolding on_data
  on_data-HasGot m got n c cut h =
      elim (Bool-cases (
        ltb 0 (length m.payload)
        && is_established c.state
        && m.seq == c.recv_seq
        && leb (length c.rx + length m.payload) rx_size)) [
          | inr other ↦ rw (other, on_data) (n, h)
          | inl taken ↦
              let in_order : m.payload ≡ take (length m.payload) (drop n stream) =
                cut n (ground (arith, takes_of_established c.state, h.next)) h.within in
              let fits : n + length m.payload ≤ length stream = omega (
                arith,
                ap length in_order,
                length-take (length m.payload) (drop n stream),
                length-drop n stream,
              ) in
              rw (taken, on_data)
                (
                  n + length m.payload,
                  record {
                    bytes =
                        sym (append_assoc got c.rx m.payload)
                        ∙ ap (λ x. x ++ m.payload) h.bytes
                        ∙ ap (λ x. take n stream ++ x) in_order
                        ∙ sym (take_two n (length m.payload) (n + length m.payload) stream refl);
                    within = fits;
                    room = ground (arith, length-append c.rx m.payload);
                    next = λ e. omega (arith, h.next (takes_of_established c.state (ground arith)));
                    begun = h.begun;
                  },
                )
        ]

  on_fin-HasGot :
      (m : Incoming) (got : List ℕ) (n : ℕ) (c : Connection)
      → HasGot got n c
      → HasGot got n (on_fin m c).0
  unfolding on_fin tcp_connection_close
  on_fin-HasGot m got n c h = record {
    bytes = ground (arith, h.bytes);
    within = h.within;
    room = ground (arith, h.room);
    next = λ e. ground (arith, h.next);
    begun = ground (arith, h.begun);
  }

  on_segment-HasGot :
      (m : Incoming) (got : List ℕ) (n : ℕ) (c : Connection)
      → IsCut m
      → HasGot got n c
      → (k : ℕ) × HasGot got k (on_segment m c).0
  unfolding on_segment tcp_connection_close
  on_segment-HasGot m got n c cut h = elim (Bool-cases (has m.flags flag_rst)) [
    | inl reset ↦
        rw (reset, on_segment)
          (
            n,
            record {
              bytes = h.bytes;
              within = h.within;
              room = h.room;
              next = λ e. absurd (cc);
              begun = refl;
            },
          )
    | inr plain ↦
        let d = (on_control m c).0 in
        let (k, h') =
          on_data-HasGot m got n d cut
            (HasGot-Leaves got n c d h (on_control-Leaves m c h.begun)) in
        rw (plain, on_segment) (k, on_fin-HasGot m got k (on_data m d).0 h')
  ]

  receive-HasGot :
      (want : ℕ) (got : List ℕ) (n : ℕ) (c : Connection)
      → HasGot got n c
      → HasGot (got ++ (tcp_connection_receive want c).0) n (tcp_connection_receive want c).1
  unfolding tcp_connection_receive
  receive-HasGot want got n c h = elim (Bool-cases (length c.rx == 0)) [
    | inl empty ↦ rw (empty, tcp_connection_receive) (rw (append-nil got) h)
    | inr some_wait ↦
        let k = if ltb (length c.rx) want then length c.rx else want in
        rw (some_wait, tcp_connection_receive)
          (record {
            bytes =
                append_assoc got (take k c.rx) (drop k c.rx)
                ∙ ap (λ x. got ++ x) (take-append-drop k c.rx)
                ∙ h.bytes;
            within = h.within;
            room = omega (arith, h.room, length-drop k c.rx);
            next = h.next;
            begun = h.begun;
          })
  ]

  happen-HasGot :
      (es : List Event) (got : List ℕ) (n : ℕ) (c : Connection)
      → All AreCut es
      → HasGot got n c
      → (k : ℕ) × HasGot (got ++ (happen es c).0) k (happen es c).1
  unfolding happen
  happen-HasGot [] got n c cut h = (n, rw (append-nil got) h)
  happen-HasGot (comes m ∷ es) got n c cut h =
      let (k, h') = on_segment-HasGot m got n c cut.0 h in
      happen-HasGot es got k (on_segment m c).0 cut.1 h'
  happen-HasGot (asks want ∷ es) got n c cut h =
      let (k, h') =
        happen-HasGot es (got ++ (tcp_connection_receive want c).0) n
          (tcp_connection_receive want c).1 cut.1 (receive-HasGot want got n c h) in
      (
        k,
        rw
            (← append_assoc got (tcp_connection_receive want c).0
              (happen es (tcp_connection_receive want c).1).0)
            h',
      )

  -- However segments cut from a stream come to an open connection that waits for its first byte,
  -- lost, repeated, out of order or with any flags, and whenever its reader asks: the bytes that the
  -- reader gets and those that still wait for it are together a beginning of the stream, and while
  -- the connection still takes data, the number it expects next is that of the first missing byte.
  pub happen-in_order :
      (es : List Event) (c : Connection)
      → All AreCut es
      → takes_data c.state ≡ true
      → c.rx ≡ []
      → c.recv_seq ≡ add32 base 0
      → (k : ℕ) × ((happen es c).0 ++ (happen es c).1.rx ≡ take k stream)
        × (takes_data (happen es c).1.state ≡ true → (happen es c).1.recv_seq ≡ add32 base k)
  happen-in_order es c cut open_state empty first =
      let start : HasGot [] 0 c = record {
        bytes = empty;
        within = omega arith;
        room = rw empty (omega arith);
        next = λ _. first;
        begun = ground arith;
      } in
      let (k, h) = happen-HasGot es [] 0 c cut start in (k, h.bytes, h.next)
