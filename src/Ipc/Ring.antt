-- ===== src/Ipc/Ring.antt =====
-- The ring that kernel/pipe.cpp and kernel/pty.cpp keep in `buf`, `head`, `tail` and `count`.
pub mod Contents
use knit_os.Base.{
  ℕ, ◌+◌, ◌-◌, ◌%◌, ◌≡◌, ◌≤◌, ◌<◌, List, [], ◌∷◌, Bool, Option, none, some, length, get_or, set,
  leb, ◌==◌, if◌then◌else◌,
}

pub record Ring : Type 0 where
  pub buf : List ℕ
  pub head : ℕ
  pub tail : ℕ
  pub count : ℕ

-- KPIPE_BUF and KPTY_BUF.
abbrev pub ring_size : ℕ
ring_size = 4096

-- `buf[head] = c; head = (head + 1) % SIZE; count++;`
pub put : Ring → ℕ → Ring
put r c = record r {
  buf = set r.buf r.head c;
  head = (r.head + 1) % ring_size;
  count = (r.count + 1) % 4294967296;
}

-- `out = buf[tail]; tail = (tail + 1) % SIZE; count--;`
pub first : Ring → ℕ
first r = get_or r.buf r.tail 0

pub advance : Ring → Ring
advance r = record r { tail = (r.tail + 1) % ring_size; count = r.count - 1 }

pub ring_push : Ring → ℕ → Ring
unfolding put
ring_push r c = if leb ring_size r.count then r else put r c

pub ring_pop : Ring → Option (ℕ × Ring)
unfolding first advance
ring_pop r = if r.count == 0 then none else some (first r, advance r)

unfoldable pub push_all : Ring → List ℕ → Ring
push_all r [] = r
push_all r (c ∷ cs) = push_all (ring_push r c) cs

-- No index leaves the buffer, and `head` is where the stored bytes end.
pub record IsRing (r : Ring) : Type 0 where
  pub room : length r.buf ≡ ring_size
  pub tail_in : r.tail < ring_size
  pub count_in : r.count ≤ ring_size
  pub head_at : r.head ≡ (r.tail + r.count) % ring_size
