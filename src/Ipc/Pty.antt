-- ===== src/Ipc/Pty.antt =====
-- kernel/pty.cpp. An index is the 32-bit pattern of the `int`: a negative one is out of range.
-- `task_sleep_ms` lets other tasks run: what they do to the pty meanwhile is the next entry of a
-- schedule, and a call whose schedule ends while it still waits is `asleep`.
pub mod Terminal
pub mod Keys
pub mod Discipline
pub mod Reading
pub mod Tests
use mathlib.Core.Option
use knit_os.Base.{
  ℕ, zero, suc, ◌+◌, ◌-◌, List, [], ◌∷◌, ◌++◌, Bool, true, false, not, ◌&&◌, ◌||◌, Option, none,
  some, get_elem?, set, take, length, ltb, leb, ◌==◌, if◌then◌else◌, find_index,
}
use knit_os.Ipc.Ring.{Ring, ring_size, ring_push, ring_pop, push_all}

pub record Pty : Type 0 where
  pub used : Bool
  pub input : Ring
  pub output : Ring
  pub line : List ℕ
  pub line_len : ℕ
  pub master_refs : ℕ
  pub slave_refs : ℕ
  pub sigint : Bool
  pub eof : Bool
  pub raw : Bool

abbrev pub pty_max : ℕ
pty_max = 8

abbrev emptied : Ring → Ring
emptied r = record r { head = 0; tail = 0; count = 0 }

abbrev pub opened : Pty → Pty
opened p = record p {
  used = true;
  input = emptied p.input;
  output = emptied p.output;
  line_len = 0;
  master_refs = 0;
  slave_refs = 0;
  sigint = false;
  eof = false;
  raw = false;
}

pub pty_create : List Pty → Option ℕ × List Pty
pty_create t = elim (find_index (λ p. not p.used) t) [
  | none ↦ (none, t)
  | some i ↦ elim (get_elem? t i) [ none ↦ (none, t) | some p ↦ (some i, set t i (opened p)) ]
]

-- The pty at an index that passes the guard of each call.
pub pty_at : List Pty → ℕ → Option Pty
pty_at t idx = elim (get_elem? t idx) [ none ↦ none | some p ↦ if p.used then some p else none ]

-- The guard of a call, and the write back to the slot.
abbrev pub at_slot : List Pty → ℕ → (Pty → Pty) → List Pty
at_slot t idx f = elim (pty_at t idx) [ none ↦ t | some p ↦ set t idx (f p) ]

abbrev pub referred : Bool → Pty → Pty
referred true p = record p { master_refs = p.master_refs + 1 }
referred false p = record p { slave_refs = p.slave_refs + 1 }

pub pty_ref : List Pty → ℕ → Bool → List Pty
pty_ref t idx master = at_slot t idx (referred master)

abbrev pub dropped : ℕ → ℕ
dropped n = if ltb 0 n then n - 1 else n

abbrev pub retired : Pty → Pty
retired p = if p.master_refs == 0 && p.slave_refs == 0 then record p { used = false } else p

abbrev pub unreferred : Bool → Pty → Pty
unreferred true p = retired (record p { master_refs = dropped p.master_refs })
unreferred false p = retired (record p { slave_refs = dropped p.slave_refs })

pub pty_unref : List Pty → ℕ → Bool → List Pty
pty_unref t idx master = at_slot t idx (unreferred master)

pub pty_echo : Pty → List ℕ → Pty
pty_echo p s = record p { output = push_all p.output s }

-- The loop that feeds the line to the slave.
pub feed_line : Pty → Pty
feed_line p = record p { input = push_all p.input (take p.line_len p.line) }

pub type_newline : Pty → Pty
type_newline p =
    let p = feed_line (pty_echo p (13 ∷ 10 ∷ [])) in
    record p { input = ring_push p.input 10; line_len = 0 }

pub type_erase : Pty → Pty
type_erase p =
    if ltb 0 p.line_len
    then pty_echo (record p { line_len = p.line_len - 1 }) (8 ∷ 32 ∷ 8 ∷ [])
    else p

pub type_interrupt : Pty → Pty
type_interrupt p = record p { sigint = true; input = ring_push p.input 3; line_len = 0 }

pub type_end : Pty → Pty
type_end p = let p = feed_line p in record p { line_len = 0; eof = true }

pub type_plain : Pty → ℕ → Pty
type_plain p c =
    let p =
      (if ltb p.line_len ring_size
        then record p { line = set p.line p.line_len c; line_len = p.line_len + 1 }
        else p) in
    record p { output = ring_push p.output c }

-- One byte of `pty_master_write` in canonical mode.
pub type_byte : Pty → ℕ → Pty
type_byte p c =
    if c == 13 || c == 10
    then type_newline p
    else if c == 127 || c == 8
    then type_erase p
    else if c == 3
    then type_interrupt p
    else if c == 4
    then type_end p
    else type_plain p c

pub type_all : Pty → List ℕ → Pty
type_all p [] = p
type_all p (c ∷ cs) = type_all (type_byte p c) cs

pub master_write : Pty → List ℕ → Pty
master_write p cs = if p.raw then record p { input = push_all p.input cs } else type_all p cs

-- `none` is -1.
pub pty_master_write : List Pty → ℕ → List ℕ → Option ℕ × List Pty
pty_master_write t idx cs =
    (Option.map (λ _. length cs) (pty_at t idx), at_slot t idx (λ p. master_write p cs))

pub slave_write : Pty → List ℕ → Pty
slave_write p [] = p
slave_write p (c ∷ cs) =
    let crlf = (if c == 10 then ring_push p.output 13 else p.output) in
    slave_write (record p { output = ring_push crlf c }) cs

pub pty_slave_write : List Pty → ℕ → List ℕ → Option ℕ × List Pty
pty_slave_write t idx cs =
    (Option.map (λ _. length cs) (pty_at t idx), at_slot t idx (λ p. slave_write p cs))

-- The loop of `pty_master_read_nb`: at most `n` bytes behind those read so far.
pub drain : ℕ → List ℕ → Ring → List ℕ × Ring
drain zero out r = (out, r)
drain (suc n) out r = elim (ring_pop r) [
  | none ↦ (out, r)
  | some (c, r') ↦ drain n (out ++ c ∷ []) r'
]

pub master_read_nb : ℕ → Pty → List ℕ × Pty
master_read_nb n p = let (got, r) = drain n [] p.output in (got, record p { output = r })

pub data Outcome : Type 0 where
  returned : List ℕ → Pty → Outcome
  asleep : Pty → Outcome

abbrev pub Schedule : Type 0
Schedule = List (Pty → Pty)

-- What a loop does when the ring has no byte for it.
abbrev pub Idle : Type 0
Idle = List ℕ → Pty → Option Outcome

-- `if (i > 0) break; if (slave_refs == 0) break;`
abbrev pub master_idle : Idle
master_idle out p =
    if ltb 0 (length out)
    then some (returned out p)
    else if p.slave_refs == 0
    then some (returned out p)
    else none

-- `if (i > 0) break; if (in_count == 0 && eof) { eof = 0; break; } if (master_refs == 0) break;`
abbrev pub slave_idle : Idle
slave_idle out p =
    if ltb 0 (length out)
    then some (returned out p)
    else if p.input.count == 0 && p.eof
    then some (returned out (record p { eof = false }))
    else if p.master_refs == 0
    then some (returned out p)
    else none

-- `if (ring_pop(...)) { i++; continue; }` on the output and on the input.
abbrev pub pop_output : Pty → Option (ℕ × Pty)
pop_output p = Option.map (λ (x : ℕ × Ring). (x.0, record p { output = x.1 })) (ring_pop p.output)

abbrev pub pop_input : Pty → Option (ℕ × Pty)
pop_input p = Option.map (λ (x : ℕ × Ring). (x.0, record p { input = x.1 })) (ring_pop p.input)

-- The loop that `pty_master_read` and `pty_slave_read` share, over what differs in them.
pub read_loop : (Pty → Option (ℕ × Pty)) → Idle → ℕ → Schedule → List ℕ → Pty → Outcome
read_loop pop idle zero sched out p = returned out p
read_loop pop idle (suc n) [] out p = elim (pop p) [
  | some (c, p') ↦ read_loop pop idle n [] (out ++ c ∷ []) p'
  | none ↦ elim (idle out p) [ some o ↦ o | none ↦ asleep p ]
]
read_loop pop idle (suc n) (others ∷ sched) out p = elim (pop p) [
  | some (c, p') ↦ read_loop pop idle n (others ∷ sched) (out ++ c ∷ []) p'
  | none ↦ elim (idle out p) [ some o ↦ o | none ↦ read_loop pop idle (suc n) sched out (others p) ]
]

-- `none` is -1.
pub pty_master_read : List Pty → ℕ → ℕ → Schedule → Option Outcome
pty_master_read t idx n sched =
    Option.map (read_loop pop_output master_idle n sched []) (pty_at t idx)

pub pty_master_read_nb : List Pty → ℕ → ℕ → Option (List ℕ × Pty)
pty_master_read_nb t idx n = Option.map (master_read_nb n) (pty_at t idx)

pub pty_slave_read : List Pty → ℕ → ℕ → Schedule → Option Outcome
pty_slave_read t idx n sched = Option.map (read_loop pop_input slave_idle n sched []) (pty_at t idx)

pub pty_take_signal : List Pty → ℕ → Bool × List Pty
pty_take_signal t idx = (
  elim (pty_at t idx) [ none ↦ false | some p ↦ p.sigint ],
  at_slot t idx (λ p. record p { sigint = false }),
)

pub pty_set_raw : List Pty → ℕ → Bool → List Pty
pty_set_raw t idx raw = at_slot t idx (λ p. record p { raw = raw })
