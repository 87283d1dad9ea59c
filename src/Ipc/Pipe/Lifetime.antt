-- ===== src/Ipc/Pipe/Lifetime.antt =====
-- The table of pipes: creation, and the reference counts of the two ends.
use knit_os.Base.{
  ℕ, ◌+◌, ◌≡◌, ◌≤◌, ◌<◌, refl, List, [], Bool, true, false, not, ◌&&◌, none, some, get_elem?, set,
  arith, ◌==◌, if◌then◌else◌, find_index, find_index_cases, All, All-get, All-set, All-map,
  Bool-cases, Option-cases, ◌↔◌, ◌⊎◌, inl, inr, get_elem?-set_self, lt_of_get_elem?,
}
use knit_os.Ipc.Ring.{IsRing}
use knit_os.Ipc.Ring.Contents.{contents, contents_of_empty}
use knit_os.Ipc.Pipe.{
  Pipe, pipe_at, created, pipe_create, dropped, retired, end_closed, end_added, at_slot, pipe_close,
  pipe_ref,
}

-- A slot's ring is in order, and a pipe in use has an open end.
abbrev pub IsSound : Pipe → Type 0
IsSound p = IsRing p.ring × (p.used ≡ true → 0 < p.readers + p.writers)

created-IsSound : (p : Pipe) → IsSound p → IsSound (created p)
created-IsSound p v = (omega arith, λ _. omega arith)

retired-IsSound : (p : Pipe) → IsRing p.ring → IsSound (retired p)
retired-IsSound p v = elim (Bool-cases (p.readers == 0 && p.writers == 0)) [
  | inl closed ↦ rw closed (v, λ e. absurd (cc))
  | inr open_end ↦ rw open_end (v, λ e. ground arith)
]

made :
    (t : List Pipe) (i : ℕ) (p : Pipe)
    → find_index (λ p. not p.used) t ≡ some i
    → get_elem? t i ≡ some p
    → pipe_create t ≡ (some i, set t i (created p))
unfolding pipe_create
made t i p e at = ground arith

-- `pipe_create` hands out a slot that was not in use, with an empty pipe that has one reader and one
-- writer, and touches no other slot; it fails only if all are in use.
pub pipe_create-fresh :
    (t : List Pipe)
    → ((pipe_create t ≡ (none, t)) × All (λ p. p.used ≡ true) t)
      ⊎ ((i : ℕ) × (p : Pipe) × (pipe_create t ≡ (some i, set t i (created p)))
          × (get_elem? t i ≡ some p)
          × (p.used ≡ false)
          × (pipe_at (pipe_create t).1 i ≡ some (created p))
          × (contents (created p).ring ≡ []))
unfolding pipe_create pipe_at
pipe_create-fresh t = elim (find_index_cases (λ p. not p.used) t) [
  | inl (e, all_used) ↦ inl (rw (e, pipe_create), All-map _ _ t (λ p h. ground arith) all_used)
  | inr (i, p, e, at, free) ↦ inr (
    i,
    p,
    made t i p e at,
    at,
    ground arith,
    rw (made t i p e at, get_elem?-set_self t i (created p) (lt_of_get_elem? t i at), pipe_at),
    contents_of_empty (created p).ring refl,
  )
]

pipe_at_get :
    (t : List Pipe) (idx : ℕ) {p : Pipe}
    → pipe_at t idx ≡ some p
    → (get_elem? t idx ≡ some p) × (p.used ≡ true)
unfolding pipe_at
pipe_at_get t idx e = ground arith

at_set :
    (t : List Pipe) (idx : ℕ) {p : Pipe}
    → pipe_at t idx ≡ some p
    → (q : Pipe) → pipe_at (set t idx q) idx ≡ (if q.used then some q else none)
unfolding pipe_at
at_set t idx e q =
    rw (get_elem?-set_self t idx q (lt_of_get_elem? t idx (pipe_at_get t idx e).0), pipe_at)

pub pipe_create-IsSound : (t : List Pipe) → All IsSound t → All IsSound (pipe_create t).1
pipe_create-IsSound t v = elim (pipe_create-fresh t) [
  | inl (e, _) ↦ rw e v
  | inr (i, p, e, at, _, _, _) ↦
      rw e (All-set IsSound t i (created p) (created-IsSound p (All-get IsSound t i v at)) v)
]

at_slot_open :
    (t : List Pipe) (idx : ℕ) (f : Pipe → Pipe) {p : Pipe}
    → pipe_at t idx ≡ some p
    → at_slot t idx f ≡ set t idx (f p)
at_slot_open t idx f e = ground arith

at_slot_shut :
    (t : List Pipe) (idx : ℕ) (f : Pipe → Pipe) → pipe_at t idx ≡ none → at_slot t idx f ≡ t
at_slot_shut t idx f e = ground arith

-- Each call on an open slot writes one pipe back into it.
set_at-IsSound :
    (t : List Pipe) (idx : ℕ) (f : Pipe → Pipe)
    → ((p : Pipe) → IsSound p → p.used ≡ true → IsSound (f p))
    → All IsSound t
    → All IsSound (at_slot t idx f)
set_at-IsSound t idx f keep v = elim (Option-cases (pipe_at t idx)) [
  | inl e ↦ rw (at_slot_shut t idx f e) v
  | inr (p, e) ↦ rw (at_slot_open t idx f e) (
      All-set IsSound t idx (f p)
        (keep p (All-get IsSound t idx v (pipe_at_get t idx e).0) (pipe_at_get t idx e).1) v)
]

-- Closing an end keeps the table sound: a slot in use has an open end.
pub pipe_close-IsSound :
    (t : List Pipe) (idx : ℕ) (write_end : Bool)
    → All IsSound t
    → All IsSound (pipe_close t idx write_end)
unfolding pipe_close
pipe_close-IsSound t idx true =
    set_at-IsSound t idx (end_closed true)
      (λ p v u. retired-IsSound (record p { writers = dropped p.writers }) v.0)
pipe_close-IsSound t idx false =
    set_at-IsSound t idx (end_closed false)
      (λ p v u. retired-IsSound (record p { readers = dropped p.readers }) v.0)

at_slot-at :
    (t : List Pipe) (idx : ℕ) (f : Pipe → Pipe) {p : Pipe}
    → pipe_at t idx ≡ some p
    → pipe_at (at_slot t idx f) idx ≡ (if (f p).used then some (f p) else none)
at_slot-at t idx f {p} e = rw (at_slot_open t idx f e) (at_set t idx e (f p))

-- A pipe is given up exactly when the end that is closed was the last one open.
pub pipe_close-releases :
    (t : List Pipe) (idx : ℕ) {p : Pipe}
    → pipe_at t idx ≡ some p
    → ((pipe_at (pipe_close t idx true) idx ≡ none) ↔ ((p.readers ≡ 0) × (p.writers ≤ 1)))
      × ((pipe_at (pipe_close t idx false) idx ≡ none) ↔ ((p.writers ≡ 0) × (p.readers ≤ 1)))
unfolding pipe_close
pipe_close-releases t idx {p} e =
    rw (at_slot-at t idx (end_closed true) e, at_slot-at t idx (end_closed false) e)
      (
        (ground (arith, open_now), ground (arith, open_now)),
        (ground (arith, open_now), ground (arith, open_now)),
      )
  where
    open_now : p.used ≡ true
    open_now = (pipe_at_get t idx e).1

pub pipe_ref-IsSound :
    (t : List Pipe) (idx : ℕ) (write_end : Bool)
    → All IsSound t
    → All IsSound (pipe_ref t idx write_end)
unfolding pipe_ref
pipe_ref-IsSound t idx true =
    set_at-IsSound t idx (end_added true) (λ p v u. (v.0, λ _. omega arith))
pipe_ref-IsSound t idx false =
    set_at-IsSound t idx (end_added false) (λ p v u. (v.0, λ _. omega arith))
