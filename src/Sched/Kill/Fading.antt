-- ===== src/Sched/Kill/Fading.antt =====
-- What every step of a kill keeps: the ids and parents of the table, and that a task once dead stays
-- so. The tasks that live on do so in the state they had.
use knit_os.Base.{
  ℕ, zero, suc, ◌+◌, ◌≡◌, refl, sym, ◌∙◌, Option, none, some, ◌⊎◌, inl, inr, get_elem?,
  Option-cases, Bool-cases, find_index, Pointwise, Pointwise-refl, Pointwise-modify,
  Pointwise-trans, Pointwise-weaken,
}
use knit_os.Sched.{
  Task, zombie, System, is_nonneg, record_call, with_world, update, close_sockets_of,
}
use knit_os.Sched.Table.{is_task, cleanup_found, task_resources_cleanup}
use knit_os.Sched.Kill.{
  ended, is_current, is_child, kill_child, visit, kill_loop, task_kill_children,
}

-- One task before and after: the same to the others, or dead.
abbrev pub Keep : Task → Task → Type 0
Keep t u = (t.id ≡ u.id) × (t.parent_pid ≡ u.parent_pid) × (t.state ≡ u.state)

abbrev pub Fade : Task → Task → Type 0
Fade t u =
    (t.id ≡ u.id) × (t.parent_pid ≡ u.parent_pid) × ((t.state ≡ u.state) ⊎ (u.state ≡ zombie))

Keep-refl : (t : Task) → Keep t t
Keep-refl t = (refl, refl, refl)

Fade-refl : (t : Task) → Fade t t
Fade-refl t = (refl, refl, inl refl)

Fade-trans : (t u v : Task) → Fade t u → Fade u v → Fade t v
Fade-trans t u v (i, p, s) (j, q, inr z) = (i ∙ j, p ∙ q, inr z)
Fade-trans t u v (i, p, inl s) (j, q, inl r) = (i ∙ j, p ∙ q, inl (s ∙ r))
Fade-trans t u v (i, p, inr z) (j, q, inl r) = (i ∙ j, p ∙ q, inr (sym r ∙ z))

Keep-Fade : (t u : Task) → Keep t u → Fade t u
Keep-Fade t u (i, p, s) = (i, p, inl s)

-- A step of the whole table that only lets tasks die and leaves the current one.
pub record Mows (s s' : System) : Type 0 where
  pub fades : Pointwise Fade s.tasks s'.tasks
  pub stays : s'.current ≡ s.current

pub Mows-refl : (s : System) → Mows s s
Mows-refl s = record { fades = Pointwise-refl Fade Fade-refl s.tasks; stays = refl }

pub Mows-trans : {s s' s'' : System} → Mows s s' → Mows s' s'' → Mows s s''
Mows-trans {s} {s'} {s''} a b = record {
  fades = Pointwise-trans Fade Fade-trans s.tasks s'.tasks s''.tasks a.fades b.fades;
  stays = b.stays ∙ a.stays;
}

found-Keeps :
    (o : Option ℕ) (s : System)
    → Pointwise Keep s.tasks (cleanup_found o s).tasks × ((cleanup_found o s).current ≡ s.current)
found-Keeps none s = (Pointwise-refl Keep Keep-refl s.tasks, refl)
found-Keeps (some i) s = elim (Option-cases (get_elem? s.tasks i)) [
  | inl e ↦ rw (e, cleanup_found) (Pointwise-refl Keep Keep-refl s.tasks, refl)
  | inr (t, e) ↦
      rw (e, cleanup_found)
        (Pointwise-modify Keep Keep-refl s.tasks i _ (λ t. (refl, refl, refl)), refl)
]

-- Giving the resources back leaves all that a kill looks at.
pub cleanup-Keeps :
    (pid : ℕ) (s : System)
    → Pointwise Keep s.tasks (task_resources_cleanup pid s).tasks
      × ((task_resources_cleanup pid s).current ≡ s.current)
unfolding task_resources_cleanup
cleanup-Keeps pid s = elim (Bool-cases (is_nonneg pid)) [
  | inl e ↦
      rw (e, task_resources_cleanup)
        (found-Keeps (find_index (is_task pid) s.tasks)
          (with_world (record_call (close_sockets_of pid)) s))
  | inr e ↦ rw (e, task_resources_cleanup) (Pointwise-refl Keep Keep-refl s.tasks, refl)
]

pub cleanup-Mows : (pid : ℕ) (s : System) → Mows s (task_resources_cleanup pid s)
cleanup-Mows pid s =
    let (keeps, stays) = cleanup-Keeps pid s in
    record { fades = Pointwise-weaken Keep Fade Keep-Fade s.tasks _ keeps; stays = stays }

pub ended-Mows : (i : ℕ) (s : System) → Mows s (update i ended s)
ended-Mows i s = record {
  fades = Pointwise-modify Fade Fade-refl s.tasks i ended (λ t. (refl, refl, inr refl));
  stays = refl;
}

module _ (deeper : ℕ → System → System) (mows : (q : ℕ) (s : System) → Mows s (deeper q s)) where
  kill_child-Mows : (i : ℕ) (c : Task) (s : System) → Mows s (kill_child deeper i c s)
  kill_child-Mows i c s = elim (Bool-cases (is_current (deeper c.id s).current i)) [
    | inl e ↦ rw (e, kill_child) (mows c.id s)
    | inr e ↦
        rw (e, kill_child)
          (Mows-trans (mows c.id s) (
            Mows-trans (cleanup-Mows c.id (deeper c.id s))
              (ended-Mows i (task_resources_cleanup c.id (deeper c.id s)))))
  ]

  pub visit-Mows : (pid i : ℕ) (s : System) → Mows s (visit deeper pid i s)
  visit-Mows pid i s = elim (Option-cases (get_elem? s.tasks i)) [
    | inl e ↦ rw (e, visit) (Mows-refl s)
    | inr (c, e) ↦ elim (Bool-cases (is_child pid c)) [
      | inl k ↦ rw (e, visit, k) (kill_child-Mows i c s)
      | inr k ↦ rw (e, visit, k) (Mows-refl s)
    ]
  ]

  pub kill_loop-Mows : (left i pid : ℕ) (s : System) → Mows s (kill_loop deeper left i pid s)
  unfolding kill_loop
  kill_loop-Mows zero i pid s = Mows-refl s
  kill_loop-Mows (suc left) i pid s =
      Mows-trans (visit-Mows pid i s) (kill_loop-Mows left (i + 1) pid (visit deeper pid i s))

pub kill_children-Mows : (depth pid : ℕ) (s : System) → Mows s (task_kill_children depth pid s)
unfolding task_kill_children
kill_children-Mows zero pid s = Mows-refl s
kill_children-Mows (suc depth) pid s =
    kill_loop-Mows (task_kill_children depth) (kill_children-Mows depth) 32 0 pid s
