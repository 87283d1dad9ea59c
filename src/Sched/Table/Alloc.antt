-- ===== src/Sched/Table/Alloc.antt =====
-- `task_alloc_slot`: the slots of dead tasks are evacuated, and no task that lives is touched.
use knit_os.Base.{
  ℕ, ◌≡◌, ◌≢◌, ◌<◌, refl, sym, ap, ◌∙◌, List, Bool, true, not, ◌&&◌, some, inl, inr, get_elem?,
  length, arith, Bool-cases, ◌==◌, if◌then◌else◌, find_index, find_index_cases, get_elem?-modify_ne,
  holds_at-modify_self, lt_of_get_elem?, ==_self, All-get, Pointwise-length, get_of_lt,
  holds_at_get,
}
use knit_os.Sched.{Task, System, systemd, is_nonneg, is_unused}
use knit_os.Sched.Table.{
  is_task, cleanup_found, task_resources_cleanup, cleared, task_slot_clear, unused_at,
}
use knit_os.Sched.Kill.Fading.{Keep, cleanup-Keeps}

abbrev pub is_used : Task → Bool
is_used t = not (is_unused t.state)

-- No two tasks in use have one id.
abbrev pub IsDistinct : List Task → Type 0
IsDistinct ts =
    (i j : ℕ) (t u : Task)
    → get_elem? ts i ≡ some t
    → get_elem? ts j ≡ some u
    → is_used t ≡ true
    → is_used u ≡ true
    → t.id ≡ u.id
    → i ≡ j

-- A step that changes at most the slot `i`, and leaves the counters and the current task.
pub record Touches (i : ℕ) (s s' : System) : Type 0 where
  pub others : (j : ℕ) → i ≢ j → get_elem? s'.tasks j ≡ get_elem? s.tasks j
  pub next_id : s'.next_id ≡ s.next_id
  pub current : s'.current ≡ s.current

Touches-trans : {i : ℕ} {s s' s'' : System} → Touches i s s' → Touches i s' s'' → Touches i s s''
Touches-trans a b = record {
  others = λ j apart. b.others j apart ∙ a.others j apart;
  next_id = b.next_id ∙ a.next_id;
  current = b.current ∙ a.current;
}

-- A used task is found under its id.
find_own :
    (ts : List Task) (i : ℕ) {t : Task}
    → IsDistinct ts
    → get_elem? ts i ≡ some t
    → is_used t ≡ true
    → find_index (is_task t.id) ts ≡ some i
find_own ts i {t} distinct at used = elim (find_index_cases (is_task t.id) ts) [
  | inl (_, miss) ↦ absurd (let none_fits = All-get _ ts i miss at in ground (arith, ==_self t.id))
  | inr (j, u, e, at_u, fits) ↦
      let same : t.id ≡ u.id = ground arith in
      e ∙ ap some (sym (distinct i j t u at at_u used (ground arith) same))
]

cleanup-Touches :
    (s : System) (i : ℕ) {t : Task}
    → IsDistinct s.tasks
    → get_elem? s.tasks i ≡ some t
    → is_used t ≡ true
    → Touches i s (task_resources_cleanup t.id s)
unfolding task_resources_cleanup
cleanup-Touches s i {t} distinct at used = elim (Bool-cases (is_nonneg t.id)) [
  | inr e ↦
      rw (e, task_resources_cleanup)
        (record { others = λ j apart. refl; next_id = refl; current = refl })
  | inl e ↦
      rw (e, task_resources_cleanup, find_own s.tasks i distinct at used, cleanup_found, at)
        (record {
          others = λ j apart. get_elem?-modify_ne s.tasks i j _ apart;
          next_id = refl;
          current = refl;
        })
]

-- What stands before the writes of `task_slot_clear`.
abbrev evacuated : Task → System → System
evacuated t s =
    if not (is_unused t.state) && not (t.id == systemd) then task_resources_cleanup t.id s else s

evacuated-Touches :
    (s : System) (i : ℕ) {t : Task}
    → IsDistinct s.tasks
    → get_elem? s.tasks i ≡ some t
    → is_used t ≡ true
    → Touches i s (evacuated t s)
evacuated-Touches s i {t} distinct at used =
    elim (Bool-cases (not (is_unused t.state) && not (t.id == systemd))) [
      | inl e ↦ rw (e, evacuated) (cleanup-Touches s i distinct at used)
      | inr e ↦
          rw (e, evacuated) (record { others = λ j apart. refl; next_id = refl; current = refl })
    ]

evacuated-length : (t : Task) (s : System) → length (evacuated t s).tasks ≡ length s.tasks
evacuated-length t s = elim (Bool-cases (not (is_unused t.state) && not (t.id == systemd))) [
  | inl e ↦
      rw (e, evacuated)
        (sym (
          Pointwise-length Keep s.tasks (task_resources_cleanup t.id s).tasks
            (cleanup-Keeps t.id s).0))
  | inr e ↦ rw (e, evacuated) refl
]

pub clear-Touches :
    (s : System) (i : ℕ) {t : Task}
    → IsDistinct s.tasks
    → get_elem? s.tasks i ≡ some t
    → is_used t ≡ true
    → Touches i s (task_slot_clear i s) × (unused_at (task_slot_clear i s).tasks i ≡ true)
unfolding task_slot_clear
clear-Touches s i {t} distinct at used =
    let e = evacuated t s in
    let m = evacuated-Touches s i distinct at used in
    let inside : i < length e.tasks =
      omega (arith, evacuated-length t s, lt_of_get_elem? s.tasks i at) in
    let (x, at_x) = get_of_lt e.tasks i inside in
    rw (at, task_slot_clear)
      (
        record {
          others = λ j apart. get_elem?-modify_ne e.tasks i j cleared apart ∙ m.others j apart;
          next_id = m.next_id;
          current = m.current;
        },
        holds_at-modify_self _ e.tasks i cleared at_x,
      )

-- Fewer tasks in use are still distinct.
pub clear-IsDistinct :
    (s s' : System) (i : ℕ)
    → IsDistinct s.tasks
    → Touches i s s'
    → unused_at s'.tasks i ≡ true
    → IsDistinct s'.tasks
clear-IsDistinct s s' i distinct m gone j k t u at_j at_k used_t used_u same =
    distinct j k t u (sym (m.others j (apart j t at_j used_t)) ∙ at_j)
      (sym (m.others k (apart k u at_k used_u)) ∙ at_k) used_t used_u same
  where
    apart : (l : ℕ) (v : Task) → get_elem? s'.tasks l ≡ some v → is_used v ≡ true → i ≢ l
    apart l v at_l used_v here =
        let is_free : is_unused v.state ≡ true =
          sym (holds_at_get _ s'.tasks l at_l) ∙ rw here at gone in
        ground arith
