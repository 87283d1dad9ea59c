-- ===== src/Ipc/Pipe/Streams.antt =====
-- What goes through a pipe while its reader or its writer waits for other tasks. A schedule is
-- described by what each of its turns leaves behind.
use knit_os.Base.{
  ℕ, zero, suc, ◌+◌, ◌≡◌, ◌≢◌, ◌≤◌, ◌<◌, ◌∙◌, refl, sym, ap, List, [], ◌∷◌, ◌++◌, Option, none,
  some, arith, take, drop, append_assoc, append-nil, length, ◌==◌, Bool-cases, inl, inr, eq_of_==,
  Pointwise,
}
use knit_os.Ipc.Ring.{IsRing, ring_size}
use knit_os.Ipc.Ring.Contents.{put-IsRing, contents-put, length-contents}
use knit_os.Ipc.Pipe.{Pipe, Outcome, returned, blocked, Schedule, read_loop, write_loop}
use knit_os.Ipc.Pipe.Transfer.{
  read_held, read_last, read_waits, write_byte, write_refused, write_waits, held, pushed,
}

-- What a reader that waits finds after a turn: the bytes, and the number of write ends.
abbrev pub Left : Type 0
Left = List ℕ × ℕ

-- The other tasks leave this in a pipe that was empty.
abbrev pub Fills : (Pipe → Pipe) → Left → Type 0
Fills f (xs, w) =
    (p : Pipe)
    → IsRing p.ring
    → held p ≡ []
    → IsRing (f p).ring × (held (f p) ≡ xs) × ((f p).writers ≡ w)

-- What a read of `n` bytes gives, and what stays in the pipe: it takes the first bytes that are
-- there, gives none when there are no bytes and no write ends, and otherwise looks again after the
-- next turn. `none` is a read that still waits.
pub first_bytes : ℕ → List Left → Option (List ℕ × List ℕ)
first_bytes n [] = none
first_bytes n ((x ∷ xs, w) ∷ later) = some (take n (x ∷ xs), drop n (x ∷ xs))
first_bytes n (([], zero) ∷ later) = some ([], [])
first_bytes n (([], suc w) ∷ later) = first_bytes n later

abbrev pub seen : Outcome (List ℕ) → Option (List ℕ × List ℕ)
seen (returned got q) = some (got, held q)
seen (blocked q) = none

pub count_of_held : (p : Pipe) (xs : List ℕ) → held p ≡ xs → p.ring.count ≡ length xs
count_of_held p xs e = sym (length-contents p.ring) ∙ ap length e

read_first :
    (n : ℕ) (sched : Schedule) (later : List Left) (p : Pipe) (xs : List ℕ) (w : ℕ)
    → IsRing p.ring
    → held p ≡ xs
    → p.writers ≡ w
    → Pointwise Fills sched later
    → seen (read_loop (suc n) sched [] p) ≡ first_bytes (suc n) ((xs, w) ∷ later)
unfolding first_bytes
read_first n sched later p (x ∷ xs) w v h e ok =
    let (q, back, rest, _) =
      read_held (suc n) sched [] p v (inl (omega (arith, count_of_held p (x ∷ xs) h))) in
    rw back (rw (rest, h) refl)
read_first n sched later p [] zero v h e ok =
    rw (read_last n sched p (count_of_held p [] h) e, h) refl
read_first n [] [] p [] (suc w) v h e ok =
    rw (read_waits n (λ q. q) [] p (count_of_held p [] h) (omega arith)).1 refl
read_first n [] (l ∷ later) p [] (suc w) v h e ok = absurd ok
read_first n (f ∷ sched) [] p [] (suc w) v h e ok = absurd ok
read_first n (f ∷ sched) ((ys, u) ∷ later) p [] (suc w) v h e ok =
    let (v', filled, ends) = ok.0 p v h in
    (ap seen (read_waits n f sched p (count_of_held p [] h) (omega arith)).0
      ∙ read_first n sched later (f p) ys u v' filled ends ok.1)

-- Whatever other tasks leave in the empty pipe at each turn, a read of at least one byte gives the
-- first bytes that are there, now or after a turn, as many as it wants or as there are, in order, and
-- leaves exactly the others; it gives none only when it finds no bytes and no write ends, and waits
-- otherwise.
pub read_loop-first_bytes :
    (n : ℕ) (sched : Schedule) (later : List Left) (p : Pipe)
    → IsRing p.ring
    → Pointwise Fills sched later
    → seen (read_loop (suc n) sched [] p) ≡ first_bytes (suc n) ((held p, p.writers) ∷ later)
read_loop-first_bytes n sched later p v ok =
    read_first n sched later p (held p) p.writers v refl refl ok

-- The other tasks take the `k` oldest bytes of a pipe that was full.
abbrev pub Drains : (Pipe → Pipe) → ℕ → Type 0
Drains f k =
    (k ≤ ring_size)
    × ((p : Pipe)
        → IsRing p.ring
        → p.ring.count ≡ ring_size
        → IsRing (f p).ring × (held (f p) ≡ drop k (held p)))

abbrev pub total : List ℕ → ℕ
total [] = 0
total (k ∷ ks) = k + total ks

-- The pipe holds what was there and then the first `n` bytes of `cs`, without those that the first `j`
-- turns took.
abbrev pub HoldsAfter : List ℕ → List ℕ → List ℕ → ℕ → ℕ → Pipe → Type 0
HoldsAfter old cs ks n j q =
    IsRing q.ring × (j ≤ length ks) × (held q ≡ drop (total (take j ks)) (old ++ take n cs))

-- The outcome of a write of `cs` behind `i` bytes, to a pipe that held `old`.
abbrev pub WriteStream : List ℕ → List ℕ → List ℕ → ℕ → Outcome (Option ℕ) → Type 0
WriteStream old cs ks i (returned (some k) q) =
    (k ≡ i + length cs) × ((j : ℕ) × HoldsAfter old cs ks (length cs) j q)
WriteStream old cs ks i (returned none q) =
    (q.readers ≡ 0) × ((n : ℕ) × (j : ℕ) × (n < length cs) × HoldsAfter old cs ks n j q)
WriteStream old cs ks i (blocked q) =
    (q.ring.count ≡ ring_size) × ((n : ℕ) × (n < length cs) × HoldsAfter old cs ks n (length ks) q)

drop_two :
    (k n : ℕ) (old xs : List ℕ)
    → k ≤ length old
    → drop n (drop k old ++ xs) ≡ drop (k + n) (old ++ xs)
drop_two zero n old xs h = let same : 0 + n ≡ n = omega arith in rw same refl
drop_two (suc k) n [] xs h = absurd (omega arith)
drop_two (suc k) n (x ∷ old) xs h =
    let same : suc k + n ≡ suc (k + n) = omega arith in rw same (drop_two k n old xs (omega arith))

HoldsAfter-turn :
    (k n j : ℕ) (old cs ks : List ℕ) (q : Pipe)
    → k ≤ length old
    → HoldsAfter (drop k old) cs ks n j q
    → HoldsAfter old cs (k ∷ ks) n (suc j) q
HoldsAfter-turn k n j old cs ks q h (v, le, e) =
    (v, omega arith, e ∙ drop_two k (total (take j ks)) old (take n cs) h)

HoldsAfter-byte :
    (c n j : ℕ) (old cs ks : List ℕ) (q : Pipe)
    → HoldsAfter (old ++ c ∷ []) cs ks n j q
    → HoldsAfter old (c ∷ cs) ks (suc n) j q
HoldsAfter-byte c n j old cs ks q (v, le, e) =
    (v, le, e ∙ ap (drop (total (take j ks))) (append_assoc old (c ∷ []) (take n cs)))

WriteStream-turn :
    (k i : ℕ) (old cs ks : List ℕ) (o : Outcome (Option ℕ))
    → k ≤ length old
    → WriteStream (drop k old) cs ks i o
    → WriteStream old cs (k ∷ ks) i o
WriteStream-turn k i old cs ks (returned (some m) q) h (m_at, (j, r)) =
    (m_at, (suc j, HoldsAfter-turn k (length cs) j old cs ks q h r))
WriteStream-turn k i old cs ks (returned none q) h (gone, (n, j, lt, r)) =
    (gone, (n, suc j, lt, HoldsAfter-turn k n j old cs ks q h r))
WriteStream-turn k i old cs ks (blocked q) h (full, (n, lt, r)) =
    (full, (n, lt, HoldsAfter-turn k n (length ks) old cs ks q h r))

WriteStream-byte :
    (c i : ℕ) (old cs ks : List ℕ) (o : Outcome (Option ℕ))
    → WriteStream (old ++ c ∷ []) cs ks (i + 1) o
    → WriteStream old (c ∷ cs) ks i o
WriteStream-byte c i old cs ks (returned (some m) q) (m_at, (j, r)) =
    (omega arith, (j, HoldsAfter-byte c (length cs) j old cs ks q r))
WriteStream-byte c i old cs ks (returned none q) (gone, (n, j, lt, r)) =
    (gone, (suc n, j, omega arith, HoldsAfter-byte c n j old cs ks q r))
WriteStream-byte c i old cs ks (blocked q) (full, (n, lt, r)) =
    (full, (suc n, omega arith, HoldsAfter-byte c n (length ks) old cs ks q r))

-- A round of the loop: the readers are gone, or a byte goes in, or the call waits.
write_round :
    (c : ℕ) (cs ks : List ℕ) (sched : Schedule) (i : ℕ) (p : Pipe)
    → IsRing p.ring
    → (IsRing (pushed p c).ring
        → WriteStream (held (pushed p c)) cs ks (i + 1) (write_loop cs sched (i + 1) (pushed p c)))
    → (p.readers ≢ 0
        → p.ring.count ≡ ring_size
        → WriteStream (held p) (c ∷ cs) ks i (write_loop (c ∷ cs) sched i p))
    → WriteStream (held p) (c ∷ cs) ks i (write_loop (c ∷ cs) sched i p)
write_round c cs ks sched i p v byte waits = elim (Bool-cases (p.readers == 0)) [
  | inl gone ↦
      let e = eq_of_== _ _ gone in
      rw (write_refused c cs sched i p e)
        (e, (0, 0, omega arith, (v, omega arith, sym (append-nil (held p)))))
  | inr there ↦ elim (Bool-cases (p.ring.count == ring_size)) [
    | inl full ↦ waits (ground arith) (eq_of_== _ _ full)
    | inr room ↦
        let ne : p.ring.count ≢ ring_size = ground arith in
        let below : p.ring.count < ring_size = omega (arith, v.count_in) in
        rw (write_byte c cs sched i p (ground arith) ne) (
          WriteStream-byte c i (held p) cs ks _
            (rw (contents-put p.ring c v below) at (byte (put-IsRing p.ring c v below))))
  ]
]

-- While other tasks only read from the pipe when it is full, the `k` oldest bytes at each turn, a
-- write that returns a count has put all its bytes in order behind what the pipe held, and returns
-- their number; it fails only when the readers are gone, and waits only while the pipe is full, with a
-- first part of its bytes there. No byte is lost: what the pipe holds afterwards is all of that
-- without what the turns took.
pub write_loop-WriteStream :
    (cs : List ℕ) (sched : Schedule) (ks : List ℕ) (i : ℕ) (p : Pipe)
    → IsRing p.ring
    → Pointwise Drains sched ks
    → WriteStream (held p) cs ks i (write_loop cs sched i p)
write_loop-WriteStream [] sched ks i p v ok =
    unfold write_loop in (omega arith, (0, (v, omega arith, sym (append-nil (held p)))))
write_loop-WriteStream (c ∷ cs) [] [] i p v ok =
    write_round c cs [] [] i p v (λ v'. write_loop-WriteStream cs [] [] (i + 1) (pushed p c) v' ok)
      λ r e.
        rw (write_waits c cs (λ q. q) [] i p r e).1
          (e, (0, omega arith, (v, omega arith, sym (append-nil (held p)))))
write_loop-WriteStream (c ∷ cs) [] (k ∷ ks) i p v ok = absurd ok
write_loop-WriteStream (c ∷ cs) (f ∷ sched) [] i p v ok = absurd ok
write_loop-WriteStream (c ∷ cs) (f ∷ sched) (k ∷ ks) i p v ok =
    write_round c cs (k ∷ ks) (f ∷ sched) i p v
      (λ v'. write_loop-WriteStream cs (f ∷ sched) (k ∷ ks) (i + 1) (pushed p c) v' ok)
      λ r e.
        let (v', taken) = ok.0.1 p v e in
        rw (write_waits c cs f sched i p r e).0 (
          WriteStream-turn k i (held p) (c ∷ cs) ks _
            (omega (arith, ok.0.0, length-contents p.ring))
            (rw taken at (write_loop-WriteStream (c ∷ cs) sched ks i (f p) v' ok.1)))
