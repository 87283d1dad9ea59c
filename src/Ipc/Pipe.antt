-- ===== src/Ipc/Pipe.antt =====
-- kernel/pipe.cpp. An index is the 32-bit pattern of the `int`: a negative one is out of range.
-- `sched_yield` lets other tasks run: what they do to the pipe meanwhile is the next entry of a
-- schedule, and a call whose schedule ends while it still waits is `blocked`.
pub mod Transfer
pub mod Streams
pub mod Lifetime
pub mod Tests
use mathlib.Core.Option
use knit_os.Base.{
  ℕ, zero, suc, ◌+◌, ◌-◌, ◌≡◌, List, [], ◌∷◌, ◌++◌, Bool, true, false, not, ◌&&◌, Option, none,
  some, get_elem?, set, length, ltb, leb, ◌==◌, if◌then◌else◌, find_index,
}
use knit_os.Ipc.Ring.{Ring, ring_size, put, first, advance}

pub record Pipe : Type 0 where
  pub used : Bool
  pub ring : Ring
  pub readers : ℕ
  pub writers : ℕ

abbrev pub pipe_max : ℕ
pipe_max = 8

pub data Outcome {ℓ} (A : Type ℓ) : Type ℓ where
  returned : A → Pipe → Outcome A
  blocked : Pipe → Outcome A

abbrev pub Schedule : Type 0
Schedule = List (Pipe → Pipe)

-- The bytes read so far, and those still wanted.
pub read_loop : ℕ → Schedule → List ℕ → Pipe → Outcome (List ℕ)
read_loop zero sched out p = returned out p
read_loop (suc n) [] out p = elim (p.ring.count == 0) [
  | true ↦
      if ltb 0 (length out)
      then returned out p
      else if p.writers == 0
      then returned out p
      else blocked p
  | false ↦ read_loop n [] (out ++ first p.ring ∷ []) (record p { ring = advance p.ring })
]
read_loop (suc n) (others ∷ sched) out p = elim (p.ring.count == 0) [
  | true ↦
      let again = read_loop (suc n) sched out (others p) in
      if ltb 0 (length out)
      then returned out p
      else if p.writers == 0
      then returned out p
      else again
  | false ↦
      read_loop n (others ∷ sched) (out ++ first p.ring ∷ []) (record p { ring = advance p.ring })
]

-- The count written so far, and the bytes still to go; `none` is -1.
pub write_loop : List ℕ → Schedule → ℕ → Pipe → Outcome (Option ℕ)
write_loop [] sched i p = returned (some i) p
write_loop (c ∷ cs) [] i p = elim (p.readers == 0) [
  | true ↦ returned none p
  | false ↦ elim (p.ring.count == ring_size) [
    | true ↦ blocked p
    | false ↦ write_loop cs [] (i + 1) (record p { ring = put p.ring c })
  ]
]
write_loop (c ∷ cs) (others ∷ sched) i p = elim (p.readers == 0) [
  | true ↦ returned none p
  | false ↦ elim (p.ring.count == ring_size) [
    | true ↦ write_loop (c ∷ cs) sched i (others p)
    | false ↦ write_loop cs (others ∷ sched) (i + 1) (record p { ring = put p.ring c })
  ]
]

-- The pipe at an index that passes the guard of each call.
pub pipe_at : List Pipe → ℕ → Option Pipe
pipe_at t idx = elim (get_elem? t idx) [ none ↦ none | some p ↦ if p.used then some p else none ]

abbrev pub created : Pipe → Pipe
created p = record p {
  used = true;
  ring = record (p.ring) { head = 0; tail = 0; count = 0 };
  readers = 1;
  writers = 1;
}

pub pipe_create : List Pipe → Option ℕ × List Pipe
pipe_create t = elim (find_index (λ p. not p.used) t) [
  | none ↦ (none, t)
  | some i ↦ elim (get_elem? t i) [ none ↦ (none, t) | some p ↦ (some i, set t i (created p)) ]
]

-- `none` where the call returns -1 at once.
pub pipe_read : List Pipe → ℕ → ℕ → Schedule → Option (Outcome (List ℕ))
pipe_read t idx n sched = Option.map (read_loop n sched []) (pipe_at t idx)

pub pipe_write : List Pipe → ℕ → List ℕ → Schedule → Option (Outcome (Option ℕ))
pipe_write t idx cs sched = Option.map (write_loop cs sched 0) (pipe_at t idx)

abbrev pub dropped : ℕ → ℕ
dropped n = if ltb 0 n then n - 1 else n

abbrev pub retired : Pipe → Pipe
retired p = if p.readers == 0 && p.writers == 0 then record p { used = false } else p

abbrev pub end_closed : Bool → Pipe → Pipe
end_closed true p = retired (record p { writers = dropped p.writers })
end_closed false p = retired (record p { readers = dropped p.readers })

abbrev pub end_added : Bool → Pipe → Pipe
end_added true p = record p { writers = p.writers + 1 }
end_added false p = record p { readers = p.readers + 1 }

-- The guard of a call, and the write back to the slot.
abbrev pub at_slot : List Pipe → ℕ → (Pipe → Pipe) → List Pipe
at_slot t idx f = elim (pipe_at t idx) [ none ↦ t | some p ↦ set t idx (f p) ]

pub pipe_close : List Pipe → ℕ → Bool → List Pipe
pipe_close t idx write_end = at_slot t idx (end_closed write_end)

pub pipe_ref : List Pipe → ℕ → Bool → List Pipe
pipe_ref t idx write_end = at_slot t idx (end_added write_end)
