-- ===== src/Ipc/Pipe/Transfer.antt =====
-- What goes through a pipe: bytes in order, none lost, and when a call returns.
use knit_os.Base.{
  ℕ, zero, suc, ◌+◌, ◌≡◌, ◌≤◌, ◌<◌, ◌≢◌, ◌∙◌, refl, sym, ap, List, [], ◌∷◌, ◌++◌, none, some, arith,
  take, drop, append_assoc, append-nil, length, length-append, ◌==◌, Bool-cases, ◌⊎◌, inl, inr,
  ==_of_ne, eq_of_==,
}
use knit_os.Ipc.Ring.{IsRing, ring_size, put, first, advance}
use knit_os.Ipc.Ring.Contents.{
  contents, contents_of_empty, count-put, put-IsRing, contents-put, advance-IsRing,
  contents-advance,
}
use knit_os.Ipc.Pipe.{
  Pipe, returned, blocked, Schedule, read_loop, write_loop, pipe_at, pipe_read, pipe_write,
}

abbrev pub held : Pipe → List ℕ
held p = contents p.ring

abbrev pub pulled : Pipe → Pipe
pulled p = record p { ring = advance p.ring }

abbrev pub pushed : Pipe → ℕ → Pipe
pushed p c = record p { ring = put p.ring c }

pub read_byte :
    (n : ℕ) (sched : Schedule) (out : List ℕ) (p : Pipe)
    → p.ring.count ≢ 0
    → read_loop (suc n) sched out p ≡ read_loop n sched (out ++ first p.ring ∷ []) (pulled p)
unfolding read_loop
read_byte n [] out p h = rw (==_of_ne p.ring.count 0 h, read_loop)
read_byte n (f ∷ sched) out p h = rw (==_of_ne p.ring.count 0 h, read_loop)

pub read_stop :
    (n : ℕ) (sched : Schedule) (out : List ℕ) (p : Pipe)
    → p.ring.count ≡ 0
    → 0 < length out
    → read_loop (suc n) sched out p ≡ returned out p
unfolding read_loop
read_stop n [] out p h o = ground arith
read_stop n (f ∷ sched) out p h o = ground arith

pub read_last :
    (n : ℕ) (sched : Schedule) (p : Pipe)
    → p.ring.count ≡ 0
    → p.writers ≡ 0
    → read_loop (suc n) sched [] p ≡ returned [] p
unfolding read_loop
read_last n [] p h w = ground arith
read_last n (f ∷ sched) p h w = ground arith

pub read_waits :
    (n : ℕ) (f : Pipe → Pipe) (sched : Schedule) (p : Pipe)
    → p.ring.count ≡ 0
    → p.writers ≢ 0
    → (read_loop (suc n) (f ∷ sched) [] p ≡ read_loop (suc n) sched [] (f p))
      × (read_loop (suc n) [] [] p ≡ blocked p)
unfolding read_loop
read_waits n f sched p h w = (ground arith, ground arith)

pub write_refused :
    (c : ℕ) (cs : List ℕ) (sched : Schedule) (i : ℕ) (p : Pipe)
    → p.readers ≡ 0
    → write_loop (c ∷ cs) sched i p ≡ returned none p
unfolding write_loop
write_refused c cs [] i p r = ground arith
write_refused c cs (f ∷ sched) i p r = ground arith

pub write_waits :
    (c : ℕ) (cs : List ℕ) (f : Pipe → Pipe) (sched : Schedule) (i : ℕ) (p : Pipe)
    → p.readers ≢ 0
    → p.ring.count ≡ ring_size
    → (write_loop (c ∷ cs) (f ∷ sched) i p ≡ write_loop (c ∷ cs) sched i (f p))
      × (write_loop (c ∷ cs) [] i p ≡ blocked p)
unfolding write_loop
write_waits c cs f sched i p r h = (ground arith, ground arith)

pub write_byte :
    (c : ℕ) (cs : List ℕ) (sched : Schedule) (i : ℕ) (p : Pipe)
    → p.readers ≢ 0
    → p.ring.count ≢ ring_size
    → write_loop (c ∷ cs) sched i p ≡ write_loop cs sched (i + 1) (pushed p c)
unfolding write_loop
write_byte c cs [] i p r h =
    rw (==_of_ne p.readers 0 r, ==_of_ne p.ring.count ring_size h, write_loop)
write_byte c cs (f ∷ sched) i p r h =
    rw (==_of_ne p.readers 0 r, ==_of_ne p.ring.count ring_size h, write_loop)

pub held-pulled : (p : Pipe) → p.ring.count ≢ 0 → held p ≡ first p.ring ∷ held (pulled p)
held-pulled p h = contents-advance p.ring h

-- A read that finds bytes takes the oldest ones, as many as it wants or as there are, and does not
-- wait.
pub read_held :
    (n : ℕ) (sched : Schedule) (out : List ℕ) (p : Pipe)
    → IsRing p.ring
    → (0 < p.ring.count) ⊎ (0 < length out)
    → (q : Pipe) × (read_loop n sched out p ≡ returned (out ++ take n (held p)) q)
      × (held q ≡ drop n (held p))
      × IsRing q.ring
read_held zero sched out p v h = (p, unfold read_loop in rw append-nil, refl, v)
read_held (suc n) sched out p v h = elim (Bool-cases (p.ring.count == 0)) [
  | inl empty ↦
      let none_held : held p ≡ [] = contents_of_empty p.ring (eq_of_== _ _ empty) in
      (
        p,
        rw (none_held, append-nil) (read_stop n sched out p (eq_of_== _ _ empty) (ground arith)),
        rw none_held,
        v,
      )
  | inr some_held ↦
      let ne : p.ring.count ≢ 0 = ground arith in
      let (q, e, rest, w) =
        read_held n sched (out ++ first p.ring ∷ []) (pulled p) (advance-IsRing p.ring v ne)
          (inr (omega (arith, length-append out (first p.ring ∷ [])))) in
      (
        q,
        rw (held-pulled p ne)
            (read_byte n sched out p ne ∙ e ∙ ap (λ z. returned z q) (append_assoc out _ _)),
        rw (held-pulled p ne) rest,
        w,
      )
]

-- A write that fits goes behind the bytes that the pipe holds, and does not wait.
write_fits :
    (cs : List ℕ) (sched : Schedule) (i : ℕ) (p : Pipe)
    → IsRing p.ring
    → p.readers ≢ 0
    → p.ring.count + length cs ≤ ring_size
    → (q : Pipe) × (write_loop cs sched i p ≡ returned (some (i + length cs)) q)
      × (held q ≡ held p ++ cs)
      × IsRing q.ring
      × (q.readers ≡ p.readers)
      × (q.writers ≡ p.writers)
write_fits [] sched i p v r h =
    let e : i + length {A = ℕ} [] ≡ i = omega arith in
    (p, rw e (unfold write_loop in refl), sym (append-nil _), v, refl, refl)
write_fits (c ∷ cs) sched i p v r h =
    let (q, e, h', w, same_r, same_w) =
      write_fits cs sched (i + 1) (pushed p c) (put-IsRing p.ring c v (omega arith)) r
        (omega (arith, count-put p.ring c)) in
    let next : i + 1 + length cs ≡ i + length (c ∷ cs) = omega arith in
    (
      q,
      write_byte c cs sched i p r (omega arith) ∙ rw (← next) e,
      h'
          ∙ ap (λ z. z ++ cs) (contents-put p.ring c v (omega arith))
          ∙ append_assoc (held p) (c ∷ []) cs,
      w,
      same_r,
      same_w,
    )

-- A read of a valid pipe that holds bytes returns the oldest ones, as many as it wants or as there
-- are, whatever the schedule, and leaves the others in order.
pub pipe_read-takes :
    (t : List Pipe) (idx n : ℕ) (sched : Schedule) {p : Pipe}
    → pipe_at t idx ≡ some p
    → IsRing p.ring
    → 0 < p.ring.count
    → (q : Pipe) × (pipe_read t idx n sched ≡ some (returned (take n (held p)) q))
      × (held q ≡ drop n (held p))
      × IsRing q.ring
unfolding pipe_read
pipe_read-takes t idx n sched {p} at v h =
    let (q, e, rest, w) = read_held n sched [] p v (inl h) in (q, rw (at, e), rest, w)

-- A write that fits into a valid pipe with a reader returns its length, whatever the schedule, and
-- puts its bytes behind those that the pipe holds.
pub pipe_write-appends :
    (t : List Pipe) (idx : ℕ) (cs : List ℕ) (sched : Schedule) {p : Pipe}
    → pipe_at t idx ≡ some p
    → IsRing p.ring
    → p.readers ≢ 0
    → p.ring.count + length cs ≤ ring_size
    → (q : Pipe) × (pipe_write t idx cs sched ≡ some (returned (some (length cs)) q))
      × (held q ≡ held p ++ cs)
      × IsRing q.ring
      × (q.readers ≡ p.readers)
      × (q.writers ≡ p.writers)
unfolding pipe_write
pipe_write-appends t idx cs sched {p} at v r h =
    let (q, e, after, w, same_r, same_w) = write_fits cs sched 0 p v r h in
    let z : 0 + length cs ≡ length cs = omega arith in (q, rw (at, e, z), after, w, same_r, same_w)

read_grows :
    (n : ℕ) (sched : Schedule) (out got : List ℕ) (p q : Pipe)
    → 0 < length out
    → read_loop n sched out p ≡ returned got q
    → 0 < length got
unfolding read_loop
read_grows zero sched out got p q h e = ground arith
read_grows (suc n) [] out got p q h e = ground (
  arith,
  length-append out (first p.ring ∷ []),
  read_grows n [] (out ++ first p.ring ∷ []) got (pulled p) q,
)
read_grows (suc n) (f ∷ sched) out got p q h e = ground (
  arith,
  length-append out (first p.ring ∷ []),
  read_grows n (f ∷ sched) (out ++ first p.ring ∷ []) got (pulled p) q,
)

-- A read of at least one byte returns none only when the pipe is empty and its writers are gone.
pub read_end :
    (n : ℕ) (sched : Schedule) (p q : Pipe)
    → read_loop (suc n) sched [] p ≡ returned [] q
    → (q.ring.count ≡ 0) × (q.writers ≡ 0)
unfolding read_loop
read_end n [] p q e = ground (arith, read_grows n [] (first p.ring ∷ []) [] (pulled p) q)
read_end n (f ∷ sched) p q e =
    ground (
      arith,
      read_grows n (f ∷ sched) (first p.ring ∷ []) [] (pulled p) q,
      read_end n sched (f p) q,
    )
