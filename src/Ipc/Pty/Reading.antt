-- ===== src/Ipc/Pty/Reading.antt =====
-- What the two sides of a pty read, and what the slave writes.
use knit_os.Base.{
  ℕ, zero, suc, ◌≡◌, ◌<◌, ◌≢◌, ◌∙◌, refl, sym, ap, List, [], ◌∷◌, ◌++◌, true, false, none, some,
  arith, take, drop, append_assoc, append-nil, length, length-append, eq_of_==, ◌==◌, if◌then◌else◌,
  Bool-cases, ◌⊎◌, inl, inr,
}
use knit_os.Ipc.Ring.{Ring, IsRing, ring_size, ring_push, ring_pop, push_all}
use knit_os.Ipc.Ring.Contents.{
  contents, ring_pop_cases, length-contents, push_all-IsRing, contents-push_all,
}
use knit_os.Ipc.Pty.{
  Pty, slave_write, drain, master_read_nb, returned, Schedule, slave_idle, pop_input, read_loop,
}
use knit_os.Ipc.Pty.Terminal.{IsPty}

-- `drain` reads the oldest bytes, as many as it may or as there are.
drain_lem :
    (n : ℕ) (out : List ℕ) (r : Ring)
    → IsRing r
    → (q : Ring) × (drain n out r ≡ (out ++ take n (contents r), q))
      × (contents q ≡ drop n (contents r))
      × IsRing q
unfolding drain
drain_lem zero out r v = (r, ap (λ z. (z, r)) (sym (append-nil out)), refl, v)
drain_lem (suc n) out r v = elim (ring_pop_cases r v) [
  | inl (e, h) ↦ (r, rw (e, h, drain, append-nil), rw h, v)
  | inr (c, q, e, h, w) ↦
      let (q', e', h', w') = drain_lem n (out ++ c ∷ []) q w in
      (
        q',
        rw (e, h, drain) (e' ∙ ap (λ z. (z, q')) (append_assoc out (c ∷ []) (take n (contents q)))),
        rw h h',
        w',
      )
]

-- The non-blocking read of the master takes the oldest bytes of the output, as many as it wants or
-- as there are, and leaves the others and the rest of the pty.
pub master_read_nb-takes :
    (n : ℕ) (p : Pty)
    → IsPty p
    → (q : Ring) × (master_read_nb n p ≡ (take n (contents p.output), record p { output = q }))
      × (contents q ≡ drop n (contents p.output))
      × IsPty (record p { output = q })
unfolding master_read_nb
master_read_nb-takes n p v =
    let (q, e, h, w) = drain_lem n [] p.output v.output_ok in
    (
      q,
      rw e,
      h,
      record { input_ok = v.input_ok; output_ok = w; line_room = v.line_room; line_in = v.line_in },
    )

-- What the slave writes reaches the master with a carriage return in front of each line feed.
abbrev pub crlf : List ℕ → List ℕ
crlf [] = []
crlf (c ∷ cs) = (if c == 10 then 13 ∷ 10 ∷ crlf cs else c ∷ crlf cs)

slave_write_push :
    (cs : List ℕ) (p : Pty) → slave_write p cs ≡ record p { output = push_all p.output (crlf cs) }
unfolding slave_write push_all
slave_write_push [] p = refl
slave_write_push (c ∷ cs) p = elim (Bool-cases (c == 10)) [
  | inl lf ↦
      rw (lf, eq_of_== _ _ lf)
        (slave_write_push cs (record p { output = ring_push (ring_push p.output 13) 10 }))
  | inr other ↦ rw other (slave_write_push cs (record p { output = ring_push p.output c }))
]

-- `pty_slave_write` appends its bytes to the output, each line feed as a carriage return and a line
-- feed, as far as they fit, and changes nothing else.
pub slave_write-output :
    (cs : List ℕ) (p : Pty)
    → IsPty p
    → (q : Ring) × (slave_write p cs ≡ record p { output = q })
      × (contents q ≡ take ring_size (contents p.output ++ crlf cs))
      × IsPty (record p { output = q })
slave_write-output cs p v = (
  push_all p.output (crlf cs),
  slave_write_push cs p,
  contents-push_all p.output (crlf cs) v.output_ok,
  record {
    input_ok = v.input_ok;
    output_ok = push_all-IsRing p.output (crlf cs) v.output_ok;
    line_room = v.line_room;
    line_in = v.line_in;
  },
)

slave_reading :
    (n : ℕ) (sched : Schedule) (out : List ℕ) (p : Pty)
    → IsRing p.input
    → (contents p.input ≢ []) ⊎ (0 < length out)
    → (q : Ring) × (read_loop pop_input slave_idle n sched out p
        ≡ returned (out ++ take n (contents p.input)) (record p { input = q }))
      × (contents q ≡ drop n (contents p.input))
      × IsRing q
unfolding read_loop
slave_reading zero sched out p v h = (p.input, rw append-nil, refl, v)
slave_reading (suc n) sched out p v h = elim (ring_pop_cases p.input v) [
  | inl (e, none_held) ↦ (
    p.input,
    rw none_held (nothing sched out e (elim h [ inl ne ↦ absurd (ne none_held) | inr l ↦ l ])),
    rw none_held,
    v,
  )
  | inr (c, q, e, held, w) ↦
      let (q', e', rest, w') =
        slave_reading n sched (out ++ c ∷ []) (record p { input = q }) w
          (inr (omega (arith, length-append out (c ∷ [])))) in
      (
        q',
        rw held (
            step sched c q e
            ∙ e'
            ∙ ap (λ z. returned z (record p { input = q' }))
                (append_assoc out (c ∷ []) (take n (contents q)))),
        rw held rest,
        w',
      )
]
  where
    nothing :
        (sched : Schedule) (out : List ℕ)
        → ring_pop p.input ≡ none
        → 0 < length out
        → read_loop pop_input slave_idle (suc n) sched out p ≡ returned (out ++ []) p
    nothing [] out e l = rw append-nil (ground arith)
    nothing (f ∷ s) out e l = rw append-nil (ground arith)

    step :
        (sched : Schedule) (c : ℕ) (q : Ring)
        → ring_pop p.input ≡ some (c, q)
        → read_loop pop_input slave_idle (suc n) sched out p
          ≡ read_loop pop_input slave_idle n sched (out ++ c ∷ []) (record p { input = q })
    step [] c q e = rw (e, read_loop)
    step (f ∷ s) c q e = rw (e, read_loop)

-- A read of the slave that finds input takes the oldest bytes, as many as it wants or as there are,
-- whatever the schedule: it does not sleep, and an end of file that waits is kept.
pub slave_read-takes :
    (n : ℕ) (sched : Schedule) (p : Pty)
    → IsPty p
    → contents p.input ≢ []
    → (q : Ring) × (read_loop pop_input slave_idle n sched [] p
        ≡ returned (take n (contents p.input)) (record p { input = q }))
      × (contents q ≡ drop n (contents p.input))
      × IsPty (record p { input = q })
slave_read-takes n sched p v h =
    let (q, e, rest, w) = slave_reading n sched [] p v.input_ok (inl h) in
    (
      q,
      e,
      rest,
      record {
        input_ok = w;
        output_ok = v.output_ok;
        line_room = v.line_room;
        line_in = v.line_in;
      },
    )

no_byte : (r : Ring) → IsRing r → contents r ≡ [] → (ring_pop r ≡ none) × (r.count ≡ 0)
no_byte r v e = elim (ring_pop_cases r v) [
  | inl (none_there, _) ↦ (none_there, omega (arith, length-contents r, ap length e))
  | inr (c, q, _, held, _) ↦ absurd (ground arith)
]

-- On an empty input a pending end of file ends the read with no byte, once: the flag is taken.
pub slave_read-eof :
    (n : ℕ) (sched : Schedule) (p : Pty)
    → IsPty p
    → contents p.input ≡ []
    → p.eof ≡ true
    → read_loop pop_input slave_idle (suc n) sched [] p ≡ returned [] (record p { eof = false })
unfolding read_loop
slave_read-eof n [] p v e eof = ground (arith, no_byte p.input v.input_ok e)
slave_read-eof n (f ∷ sched) p v e eof = ground (arith, no_byte p.input v.input_ok e)
