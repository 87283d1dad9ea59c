-- ===== src/Sched/Kill/Target.antt =====
-- `task_kill` on another task than the current one.
use mathlib.Core.Option.{some-injective}
use knit_os.Base.{
  ℕ, ◌≡◌, ◌≤◌, refl, sym, ◌∙◌, List, true, false, ◌||◌, some, ◌⊎◌, inl, inr, get_elem?, length,
  arith, Bool-cases, ◌==◌, eq_of_==, ne_of_==, Pointwise-both, Pointwise-get, find_index_cases,
  holds_at-modify_self, get_of_lt, Pointwise-length, lt_of_get_elem?,
}
use knit_os.Sched.{Task, System, ok, is_nonneg, is_zombie, task_max, systemd}
use knit_os.Sched.Table.{is_task, task_find_by_id, task_resources_cleanup, zombie_at}
use knit_os.Sched.Kill.{ended, is_current, kill_at, task_kill_children, task_kill}
use knit_os.Sched.Kill.Fading.{Fade, Mows, Mows-trans, cleanup-Mows, kill_children-Mows}
use knit_os.Sched.Kill.Descendants.{
  is_live, Descends, NoChild, Buries, Spares, NoChild-later, Buries-trans,
}
use knit_os.Sched.Kill.Ranked.{Ranked, above_bound}
use knit_os.Sched.Kill.Rounds.{Reaches, end_child, end_child-Mows, end_child-Buries, other_lives}
use knit_os.Sched.Kill.Reach.{kill_children-Reaches}

found_task :
    (id : ℕ) (ts : List Task) {i : ℕ} {t : Task}
    → task_find_by_id id ts ≡ some i
    → get_elem? ts i ≡ some t
    → (is_nonneg id ≡ true) × (t.id ≡ id)
unfolding task_find_by_id
found_task id ts {i} {t} e at = elim (Bool-cases (is_nonneg id)) [
  | inr neg ↦ absurd (let nothing = rw (neg, task_find_by_id) at e in cc)
  | inl low ↦ elim (find_index_cases (is_task id) ts) [
    | inl (miss, _) ↦ absurd (ground (arith, low, miss, e))
    | inr (j, u, hit, at_j, fits) ↦
        let same : j ≡ i = ground (arith, low, hit, e) in
        let here : get_elem? ts i ≡ some u = rw same at at_j in
        let task : u ≡ t = some-injective u t (sym here ∙ at) in
        let named : u.id ≡ id = ground (arith, fits) in (low, rw task at named)
  ]
]

module _ (id : ℕ) (s : System) {i : ℕ} {t : Task} (start : s.is_started ≡ true)
    (found : task_find_by_id id s.tasks ≡ some i) (at : get_elem? s.tasks i ≡ some t)
    (open_to : (t.id == systemd || t.is_idle) ≡ false) (alive : is_zombie t.state ≡ false)
    (other : is_current s.current i ≡ false) where
  mown : System
  mown = task_kill_children task_max id s

  mown-Mows : Mows s mown
  unfolding mown
  mown-Mows = kill_children-Mows task_max id s

  kill_at-end : kill_at id i t s ≡ end_child i id mown
  unfolding mown
  kill_at-end =
      let stays = (Mows-trans mown-Mows (cleanup-Mows id mown)).stays in
      let still : is_current (task_resources_cleanup id mown).current i ≡ false = rw stays other in
      rw (still, kill_at) refl

  task_kill-end : task_kill id s ≡ (ok tt, end_child i id mown)
  unfolding task_kill
  task_kill-end = rw⁻¹ kill_at-end (simp (found, at, open_to, alive, start))

  mown_named :
      (x : Task) → get_elem? mown.tasks i ≡ some x → (x.id ≡ id) × (x.parent_pid ≡ t.parent_pid)
  mown_named x after =
      let f : Fade t x = Pointwise-both Fade s.tasks mown.tasks i mown-Mows.fades at after in
      (sym f.0 ∙ (found_task id s.tasks found at).1, sym f.1)

  mown-Reaches : Ranked s.tasks → length s.tasks ≤ task_max → Reaches id s mown
  unfolding mown
  mown-Reaches ranked size =
      kill_children-Reaches task_max id s (found_task id s.tasks found at).0 ranked size
        (omega (arith, above_bound id s.tasks))

  target_dies : zombie_at (end_child i id mown).tasks i ≡ true
  target_dies =
      let cleaned = (task_resources_cleanup id mown).tasks in
      let same =
        Pointwise-length Fade s.tasks cleaned (Mows-trans mown-Mows (cleanup-Mows id mown)).fades in
      let (x, e) = get_of_lt cleaned i (omega (arith, same, lt_of_get_elem? s.tasks i at)) in
      holds_at-modify_self _ cleaned i ended e

  -- While every living task has an id that is no error code and above that of its parent, as ids given
  -- out in order have, and the table has at most 32 tasks, killing a task that is neither protected
  -- nor dead nor the current one succeeds. The task is dead; neither it nor any task that died with it
  -- has a living child, but for the current task; and only the task and its descendants died.
  pub task_kill-Reaches :
      Ranked s.tasks
      → length s.tasks ≤ task_max
      → ((task_kill id s).0 ≡ ok tt)
        × (zombie_at (task_kill id s).1.tasks i ≡ true)
        × NoChild id (task_kill id s).1
        × Buries s (task_kill id s).1
        × ((j : ℕ) (u v : Task)
            → get_elem? s.tasks j ≡ some u
            → get_elem? (task_kill id s).1.tasks j ≡ some v
            → is_live u ≡ true
            → is_live v ≡ false
            → (j ≡ i) ⊎ Descends s.tasks id j)
  task_kill-Reaches ranked size =
      let done = mown-Reaches ranked size in
      let last = end_child-Mows mown i t.parent_pid id mown_named in
      rw task_kill-end (
        refl,
        target_dies,
        NoChild-later id mown (end_child i id mown) last done.childless,
        Buries-trans s mown (end_child i id mown) mown-Mows last done.buries
            (end_child-Buries mown i t.parent_pid id mown_named done.childless),
        died done.spares,
      )
    where
      died :
          Spares id s mown
          → (j : ℕ) (u v : Task) → get_elem? s.tasks j ≡ some u
          → get_elem? (end_child i id mown).tasks j ≡ some v
          → is_live u ≡ true
          → is_live v ≡ false
          → (j ≡ i) ⊎ Descends s.tasks id j
      died spares j u v before after live dead =
          let (x, mid, f) =
            Pointwise-get Fade mown.tasks (end_child i id mown).tasks j
              (end_child-Mows mown i t.parent_pid id mown_named).fades after in
          elim (Bool-cases (i == j)) [
            | inl e ↦ inl (sym (eq_of_== i j e))
            | inr e ↦ elim (Bool-cases (is_live x)) [
              | inl lives ↦ absurd (
                  other_lives mown i t.parent_pid id mown_named j x v (ne_of_== i j e) mid after
                    lives dead)
              | inr gone ↦ inr (spares j u x before mid live gone)
            ]
          ]
