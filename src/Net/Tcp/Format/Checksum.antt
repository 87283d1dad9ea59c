-- ===== src/Net/Tcp/Format/Checksum.antt =====
-- A segment that is sent passes the test of its receiver.
use knit_os.Base.{
  ℕ, ◌+◌, ◌-◌, ◌*◌, ◌/◌, ◌%◌, ◌^◌, ◌≡◌, ◌≤◌, ◌<◌, ◌∙◌, refl, List, [], ◌∷◌, false, some, arith,
  length, ltb, ◌==◌, All, Bool-cases, inl, inr,
}
use knit_os.Net.Tcp.{Packet, max_payload}
use knit_os.Net.Tcp.Format.{
  header_size, segment_with, tcp_create_packet, word_sum, fold_carries, pseudo_header, tcp_checksum,
  send_bytes,
}

-- The folded sum is the sum modulo 65535, and 0 only for 0.
record Folded (s f : ℕ) : Type 0 where
  times : ℕ
  residue : s ≡ f + 65535 * times
  small : f < 65536
  positive : 0 < s → 0 < f

fold_carries-Folded : (s : ℕ) → s < 2 ^ 32 → Folded s (fold_carries 2 s)
unfolding fold_carries
fold_carries-Folded s h = elim (Bool-cases (s / 65536 == 0)) [
  | inl one ↦
      rw (one, fold_carries)
        (record { times = 0; residue = omega arith; small = ground arith; positive = λ p. p })
  | inr two ↦
      let t = s % 65536 + s / 65536 in
      elim (Bool-cases (t / 65536 == 0)) [
        | inl one ↦
            rw (two, one, fold_carries)
              (record {
                times = s / 65536;
                residue = omega arith;
                small = ground arith;
                positive = λ p. omega arith;
              })
        | inr more ↦
            rw (two, more, fold_carries)
              (record {
                times = s / 65536 + t / 65536;
                residue = omega arith;
                small = ground arith;
                positive = λ p. omega arith;
              })
      ]
]

word_sum-bound : (bs : List ℕ) → All (λ b. b < 256) bs → word_sum bs ≤ 65535 * length bs
unfolding word_sum
word_sum-bound [] v = omega arith
word_sum-bound (a ∷ []) v = omega (arith, v.0)
word_sum-bound (a ∷ b ∷ bs) v = omega (arith, v.0, v.1.0, word_sum-bound bs v.1.1)

-- The checksum field adds its value.
word_sum-segment_with :
    (c : ℕ) (p : Packet) → c < 65536 → word_sum (segment_with c p) ≡ word_sum (segment_with 0 p) + c
unfolding word_sum
word_sum-segment_with c p h = omega arith

-- The sum over a segment and its pseudo header, before it is cut to 32 bits.
abbrev total : ℕ → ℕ → List ℕ → ℕ
total src_ip dest_ip bs = word_sum (pseudo_header src_ip dest_ip (length bs)) + word_sum bs

-- A segment whose field makes up for the sum of the rest sums up to nothing.
checks_out :
    (s f c t g : ℕ) → Folded s f → c ≡ 65535 - f → t ≡ s + c → Folded t g → 0 < s → 65535 - g ≡ 0
checks_out s f c t g k e e' l p =
    omega (arith, k.residue, k.small, k.positive p, l.residue, l.small, l.positive (omega arith))

checksum_of_total :
    (src_ip dest_ip : ℕ) (bs : List ℕ)
    → total src_ip dest_ip bs < 2 ^ 32
    → tcp_checksum src_ip dest_ip bs ≡ 65535 - fold_carries 2 (total src_ip dest_ip bs)
unfolding tcp_checksum
checksum_of_total src_ip dest_ip bs h =
    let same : total src_ip dest_ip bs % 2 ^ 32 ≡ total src_ip dest_ip bs = omega arith in
    let k = fold_carries-Folded (total src_ip dest_ip bs) h in rw same (omega (arith, k.small))

total-segment_with :
    (src_ip dest_ip c : ℕ) (p : Packet)
    → c < 65536
    → total src_ip dest_ip (segment_with c p) ≡ total src_ip dest_ip (segment_with 0 p) + c
total-segment_with src_ip dest_ip c p h = omega (arith, word_sum-segment_with c p h)

pseudo_sum-bound : (src_ip dest_ip n : ℕ) → word_sum (pseudo_header src_ip dest_ip n) ≤ 65535 * 6
unfolding word_sum
pseudo_sum-bound src_ip dest_ip n = omega arith

segment_sum-bound :
    (p : Packet)
    → All (λ b. b < 256) p.payload
    → p.flags < 256
    → length p.payload ≤ max_payload
    → (0 < word_sum (segment_with 0 p)) × (word_sum (segment_with 0 p) ≤ 65535 * 2000)
unfolding word_sum
segment_sum-bound p bytes flags small =
    let bound = word_sum-bound p.payload bytes in (omega arith, omega (arith, bound))

-- The segment that `tcp_send` makes of a packet of bytes, with the checksum that it computes.
pub tcp_checksum-send_bytes :
    (our_ip : ℕ) (p : Packet)
    → All (λ b. b < 256) p.payload
    → p.flags < 256
    → length p.payload ≤ max_payload
    → (c : ℕ) × (c < 2 ^ 16)
      × (send_bytes our_ip p ≡ some (segment_with c p))
      × (tcp_checksum our_ip p.dest_ip (segment_with c p) ≡ 0)
unfolding send_bytes tcp_create_packet
tcp_checksum-send_bytes our_ip p bytes flags small =
    let fits : ltb max_payload (length p.payload) ≡ false = ground arith in
    let room : ltb (header_size + max_payload) (header_size + length p.payload) ≡ false =
      ground arith in
    (c, omega (arith, c_eq), rw (fits, room, send_bytes, tcp_create_packet) refl, verified)
  where
    c : ℕ
    c = tcp_checksum our_ip p.dest_ip (segment_with 0 p)

    s : ℕ
    s = total our_ip p.dest_ip (segment_with 0 p)

    t : ℕ
    t = total our_ip p.dest_ip (segment_with c p)

    s_fits : s + 65535 < 2 ^ 32
    s_fits = omega (
      arith,
      pseudo_sum-bound our_ip p.dest_ip (length (segment_with 0 p)),
      (segment_sum-bound p bytes flags small).1,
    )

    s_positive : 0 < s
    s_positive = omega (arith, (segment_sum-bound p bytes flags small).0)

    c_eq : c ≡ 65535 - fold_carries 2 s
    c_eq = checksum_of_total our_ip p.dest_ip (segment_with 0 p) (omega (arith, s_fits))

    t_eq : t ≡ s + c
    t_eq = total-segment_with our_ip p.dest_ip c p (omega (arith, c_eq))

    t_fits : t < 2 ^ 32
    t_fits = omega (arith, t_eq, s_fits, c_eq)

    verified : tcp_checksum our_ip p.dest_ip (segment_with c p) ≡ 0
    verified =
        checksum_of_total our_ip p.dest_ip (segment_with c p) t_fits
        ∙ checks_out s (fold_carries 2 s) c t (fold_carries 2 t)
            (fold_carries-Folded s (omega (arith, s_fits))) c_eq t_eq (fold_carries-Folded t t_fits)
            s_positive
