-- ===== src/Ipc/Pty/Discipline.antt =====
-- The line discipline of `pty_master_write`, against an abstract terminal with unbounded queues.
use knit_os.Base.{ℕ, ◌≡◌, ◌∙◌, ap, List, [], ◌∷◌, ◌++◌, true, false, arith, take}
use knit_os.Ipc.Ring.{ring_size}
use knit_os.Ipc.Ring.Contents.{contents, push_all-IsRing, contents-push_all}
use knit_os.Ipc.Pty.{Pty, type_byte, type_all, master_write}
use knit_os.Ipc.Pty.Terminal.{IsPty, typed, typed_all, clip, view, Refines, clip-typed_all}
use knit_os.Ipc.Pty.Keys.{type_byte-Refines, same_contents}

type_all-Refines :
    (p : Pty) (cs : List ℕ) → IsPty p → Refines (type_all p cs) (typed_all (view p) cs)
unfolding type_all typed_all
type_all-Refines p [] v =
    (v, rw (same_contents p.input v.input_ok, same_contents p.output v.output_ok))
type_all-Refines p (c ∷ cs) v =
    let (w, e) = type_byte-Refines p c v in
    let (w', e') = type_all-Refines (type_byte p c) cs w in
    (w', e' ∙ ap (λ z. clip (typed_all z cs)) e ∙ clip-typed_all (typed (view p) c) cs)

master_write_of_cooked : (p : Pty) (cs : List ℕ) → p.raw ≡ false → master_write p cs ≡ type_all p cs
unfolding master_write
master_write_of_cooked p cs r = ground arith

-- In canonical mode `pty_master_write` is the line discipline of the abstract terminal, up to the
-- bytes that do not fit in the two rings: after any bytes typed, the line, what the slave will read,
-- what the master will read and the two flags are those of the terminal.
pub master_write-cooked :
    (p : Pty) (cs : List ℕ)
    → IsPty p
    → p.raw ≡ false
    → IsPty (master_write p cs) × (view (master_write p cs) ≡ clip (typed_all (view p) cs))
master_write-cooked p cs v r = rw (master_write_of_cooked p cs r) (type_all-Refines p cs v)

-- In raw mode the bytes go to the slave as they are, as far as they fit, and nothing else changes.
pub master_write-raw :
    (p : Pty) (cs : List ℕ)
    → IsPty p
    → p.raw ≡ true
    → IsPty (master_write p cs)
      × (view (master_write p cs)
          ≡ record (view p) { input = take ring_size (contents p.input ++ cs) })
unfolding master_write
master_write-raw p cs v r = rw r (
  record {
    input_ok = push_all-IsRing p.input cs v.input_ok;
    output_ok = v.output_ok;
    line_room = v.line_room;
    line_in = v.line_in;
  },
  rw (contents-push_all p.input cs v.input_ok),
)
