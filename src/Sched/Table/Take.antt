-- ===== src/Sched/Table/Take.antt =====
-- What `task_alloc_slot` gives: a slot that is not in use, unless every task of the table lives.
use mathlib.Core.Option.{some-injective}
use knit_os.Base.{
  ℕ, zero, suc, ◌+◌, ◌≡◌, ◌≤◌, ◌<◌, refl, sym, ap, ◌∙◌, true, false, not, ◌||◌, Option, none, some,
  inl, inr, get_elem?, arith, Bool-cases, ◌==◌, eq_of_==, ne_of_==, holds_at_cases, holds_at_get,
  if◌then◌else◌,
}
use knit_os.Memory.Heap.{Heap, free}
use knit_os.Sched.{
  Task, TaskState, unused, ready, running, blocked, zombie, System, task_max, is_unused, is_zombie,
}
use knit_os.Sched.Table.{task_slot_clear, zombie_at, unused_at, alloc_from, task_alloc_slot}
use knit_os.Sched.Table.Stacks.{clear-heap}
use knit_os.Sched.Table.Alloc.{IsDistinct, clear-Touches, clear-IsDistinct}
use knit_os.Sched.Kill.Descendants.{is_live}

-- A step that leaves every task that lives, the counters and the current task.
pub record Frames (s s' : System) : Type 0 where
  pub keeps :
      (j : ℕ) (t : Task)
      → get_elem? s.tasks j ≡ some t
      → is_live t ≡ true
      → get_elem? s'.tasks j ≡ some t
  pub next_id : s'.next_id ≡ s.next_id
  pub current : s'.current ≡ s.current
  pub distinct : IsDistinct s'.tasks

-- The heap once the stack of a dead task is given back; a slot that is not in use has none.
abbrev pub without : Task → Heap → Heap
without t h = if is_zombie t.state then free t.stack h else h

-- The slot `k` is not a living task's, and the heap is `h` once its stack is given back.
abbrev pub Vacates : System → ℕ → Heap → Type 0
Vacates s k h =
    (t : Task) × (get_elem? s.tasks k ≡ some t) × (is_live t ≡ false) × (h ≡ without t s.world.heap)

-- The result from slot `i` on, with `left` slots to go.
abbrev pub Taken : ℕ → ℕ → System → Option ℕ × System → Type 0
Taken left i s (none, s') =
    (s' ≡ s)
    × ((j : ℕ) (t : Task) → i ≤ j → j < i + left → get_elem? s.tasks j ≡ some t → is_live t ≡ true)
Taken left i s (some k, s') =
    Frames s s' × (unused_at s'.tasks k ≡ true) × Vacates s k s'.world.heap

Taken-later :
    (left i : ℕ) (s : System) (r : Option ℕ × System)
    → ((t : Task) → get_elem? s.tasks i ≡ some t → is_live t ≡ true)
    → Taken left (i + 1) s r
    → Taken (suc left) i s r
Taken-later left i s (some k, s') here h = h
Taken-later left i s (none, s') here (same, rest) = (
  same,
  λ j t low high at. elim (Bool-cases (i == j)) [
    | inl e ↦ here t (let this = eq_of_== i j e in rw this at)
    | inr e ↦ let apart = ne_of_== i j e in rest j t (omega arith) (omega arith) at
  ],
)

live_of_other :
    (st : TaskState)
    → is_zombie st ≡ false
    → is_unused st ≡ false
    → not (is_unused st || is_zombie st) ≡ true
live_of_other st z u = rw (z, u) refl

zombie_used :
    (st : TaskState)
    → is_zombie st ≡ true
    → (not (is_unused st) ≡ true) × (not (is_unused st || is_zombie st) ≡ false)
zombie_used zombie e = (refl, refl)
zombie_used unused e = absurd (cc)
zombie_used ready e = absurd (cc)
zombie_used running e = absurd (cc)
zombie_used blocked e = absurd (cc)

Frames-same : (s : System) → IsDistinct s.tasks → Frames s s
Frames-same s d = record { keeps = λ j t at live. at; next_id = refl; current = refl; distinct = d }

-- A dead task's slot is emptied and taken.
take_dead :
    (s : System) (i : ℕ)
    → IsDistinct s.tasks
    → zombie_at s.tasks i ≡ true
    → Frames s (task_slot_clear i s)
      × (unused_at (task_slot_clear i s).tasks i ≡ true)
      × Vacates s i (task_slot_clear i s).world.heap
take_dead s i d z =
    let (t, at, dead) = holds_at_cases (λ (x : Task). is_zombie x.state) s.tasks i z in
    let (used, gone) = zombie_used t.state dead in
    let (m, free) = clear-Touches s i d at used in
    (
      record {
        keeps = λ j u at_u live. elim (Bool-cases (i == j)) [
          | inl e ↦ absurd (
              let this = eq_of_== i j e in
              let same : t.state ≡ u.state =
                ap (λ (x : Task). x.state) (some-injective t u (sym at ∙ rw this at_u)) in
              let dies : is_live u ≡ false = rw same at gone in cc)
          | inr e ↦ m.others j (ne_of_== i j e) ∙ at_u
        ];
        next_id = m.next_id;
        current = m.current;
        distinct = clear-IsDistinct s (task_slot_clear i s) i d m free;
      },
      free,
      (t, at, gone, clear-heap s i at ∙ rw (dead, without) refl),
    )

same_heap :
    (s : System) (i : ℕ)
    → unused_at s.tasks i ≡ true
    → zombie_at s.tasks i ≡ false
    → Vacates s i s.world.heap
same_heap s i vacant z =
    let (t, at, is_free) = holds_at_cases (λ (x : Task). is_unused x.state) s.tasks i vacant in
    let sound : is_zombie t.state ≡ false = sym (holds_at_get _ s.tasks i at) ∙ z in
    (t, at, rw is_free refl, rw (sound, without) refl)

alloc_from-Taken :
    (left i : ℕ) (s : System) → IsDistinct s.tasks → Taken left i s (alloc_from left i s)
unfolding alloc_from
alloc_from-Taken zero i s d = (refl, λ j t low high at. absurd (omega arith))
alloc_from-Taken (suc left) i s d = elim (Bool-cases (zombie_at s.tasks i)) [
  | inl z ↦
      let (f, free, old) = take_dead s i d z in rw (z, alloc_from) (rw free (rw z (f, free, old)))
  | inr z ↦ elim (Bool-cases (unused_at s.tasks i)) [
    | inl free ↦ rw (z, free, alloc_from) (rw z (Frames-same s d, free, same_heap s i free z))
    | inr used ↦
        rw (z, used, alloc_from)
          (rw z (
            Taken-later left i s (alloc_from left (i + 1) s)
              (λ t at.
                live_of_other t.state (sym (holds_at_get _ s.tasks i at) ∙ z)
                  (sym (holds_at_get _ s.tasks i at) ∙ used))
              (alloc_from-Taken left (i + 1) s d)))
  ]
]

-- Where no two tasks in use have one id, the slot that is handed out is not in use and no task that
-- lives has changed; there is none only if every task of the table lives, and then nothing changes.
pub task_alloc_slot-Taken :
    (s : System) → IsDistinct s.tasks → Taken task_max 0 s (task_alloc_slot s)
unfolding task_alloc_slot
task_alloc_slot-Taken = alloc_from-Taken task_max 0
