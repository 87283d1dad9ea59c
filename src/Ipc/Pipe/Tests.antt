-- ===== src/Ipc/Pipe/Tests.antt =====
-- kernel/pipe.cpp on concrete pipes.
use knit_os.Base.{
  ℕ, ◌≡◌, ◌≢◌, ◌<◌, ◌∙◌, ap, refl, true, false, some, List, [], ◌∷◌, ◌++◌, replicate,
  length-replicate, take, drop, All, arith,
}
use knit_os.Ipc.Ring.{ring_size, IsRing, put}
use knit_os.Ipc.Ring.Contents.{put-IsRing, contents-put, advance-IsRing}
use knit_os.Ipc.Pipe.{Pipe, returned, read_loop, write_loop, pipe_at, pipe_read, pipe_write}
use knit_os.Ipc.Pipe.Transfer.{
  held, pushed, pulled, held-pulled, pipe_read-takes, pipe_write-appends,
}
use knit_os.Ipc.Pipe.Streams.{
  Fills, first_bytes, seen, count_of_held, read_loop-first_bytes, Drains, WriteStream,
  write_loop-WriteStream,
}
use knit_os.Ipc.Pipe.Lifetime.{IsSound}

-- A pipe with both ends open that holds three bytes across the end of its buffer.
abbrev wrapped : Pipe
wrapped = record {
  used = true;
  ring = record { buf = replicate ring_size 7; head = 1; tail = 4094; count = 3 };
  readers = 1;
  writers = 1;
}

abbrev idle : Pipe
idle = record wrapped { used = false; readers = 0; writers = 0 }

abbrev table : List Pipe
table = idle ∷ wrapped ∷ idle ∷ []

wrapped-IsRing : IsRing wrapped.ring
wrapped-IsRing = record {
  room = length-replicate {A = ℕ} ring_size 7;
  tail_in = omega arith;
  count_in = omega arith;
  head_at = refl;
}

wrapped_at : pipe_at table 1 ≡ some wrapped
unfolding pipe_at
wrapped_at = refl

pipe_read-takes_example :
    (q : Pipe) × (pipe_read table 1 2 [] ≡ some (returned (take 2 (held wrapped)) q))
    × (held q ≡ drop 2 (held wrapped))
    × IsRing q.ring
pipe_read-takes_example =
    pipe_read-takes table 1 2 [] {p = wrapped} wrapped_at wrapped-IsRing (omega arith)

pipe_write-appends_example :
    (q : Pipe) × (pipe_write table 1 (65 ∷ 66 ∷ []) [] ≡ some (returned (some 2) q))
    × (held q ≡ held wrapped ++ 65 ∷ 66 ∷ [])
    × IsRing q.ring
    × (q.readers ≡ wrapped.readers)
    × (q.writers ≡ wrapped.writers)
pipe_write-appends_example =
    pipe_write-appends table 1 (65 ∷ 66 ∷ []) [] {p = wrapped} wrapped_at wrapped-IsRing
      (λ e. absurd (omega arith)) (omega arith)

abbrev drained : Pipe
drained = record wrapped {
  ring = record { buf = replicate ring_size 7; head = 9; tail = 9; count = 0 };
}

drained-IsRing : IsRing drained.ring
drained-IsRing = record {
  room = length-replicate {A = ℕ} ring_size 7;
  tail_in = omega arith;
  count_in = omega arith;
  head_at = refl;
}

-- A turn without a write, and one that writes two bytes.
abbrev rests : Pipe → Pipe
rests p = record p { writers = 1 }

abbrev writes : Pipe → Pipe
writes p = pushed (pushed (record p { writers = 1 }) 9) 8

rests-Fills : Fills rests ([], 1)
rests-Fills p v h = (v, h, refl)

writes-Fills : Fills writes (9 ∷ 8 ∷ [], 1)
writes-Fills p v h =
    let empty : p.ring.count ≡ 0 = count_of_held p [] h in
    let room : p.ring.count < ring_size = omega arith in
    let v' = put-IsRing p.ring 9 v room in
    let one = contents-put p.ring 9 v room ∙ ap (λ z. z ++ 9 ∷ []) h in
    let room' : (put p.ring 9).count < ring_size =
      omega (arith, count_of_held (pushed p 9) (9 ∷ []) one) in
    (
      put-IsRing (put p.ring 9) 8 v' room',
      contents-put (put p.ring 9) 8 v' room' ∙ ap (λ z. z ++ 8 ∷ []) one,
      refl,
    )

read_loop-first_bytes_example :
    seen (read_loop 2 (rests ∷ writes ∷ []) [] drained)
    ≡ first_bytes 2 ((held drained, 1) ∷ ([], 1) ∷ (9 ∷ 8 ∷ [], 1) ∷ [])
read_loop-first_bytes_example =
    read_loop-first_bytes 1 (rests ∷ writes ∷ []) (([], 1) ∷ (9 ∷ 8 ∷ [], 1) ∷ []) drained
      drained-IsRing (rests-Fills, (writes-Fills, tt))

abbrev packed : Pipe
packed = record wrapped {
  ring = record { buf = replicate ring_size 7; head = 9; tail = 9; count = ring_size };
}

packed-IsRing : IsRing packed.ring
packed-IsRing = record {
  room = length-replicate {A = ℕ} ring_size 7;
  tail_in = omega arith;
  count_in = omega arith;
  head_at = refl;
}

pulled-Drains : Drains pulled 1
pulled-Drains = (
  omega arith,
  λ p v full.
      let some_held : p.ring.count ≢ 0 = λ e. absurd (omega arith) in
      (advance-IsRing p.ring v some_held, rw (held-pulled p some_held) refl),
)

-- Two bytes for a full pipe of which another task takes one byte: the second byte waits.
write_loop-WriteStream_example :
    WriteStream
      (held packed)
      (65 ∷ 66 ∷ [])
      (1 ∷ [])
      0
      (write_loop (65 ∷ 66 ∷ []) (pulled ∷ []) 0 packed)
write_loop-WriteStream_example =
    write_loop-WriteStream (65 ∷ 66 ∷ []) (pulled ∷ []) (1 ∷ []) 0 packed packed-IsRing
      (pulled-Drains, tt)

table-IsSound : All IsSound table
table-IsSound = (
  (wrapped-IsRing, λ e. absurd (cc)),
  ((wrapped-IsRing, λ _. omega arith), ((wrapped-IsRing, λ e. absurd (cc)), tt)),
)
