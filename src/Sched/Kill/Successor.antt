-- ===== src/Sched/Kill/Successor.antt =====
-- Which task runs after `task_exit`, and that the one that called it is dead.
use knit_os.Base.{
  ℕ, ◌+◌, ◌≡◌, ◌≢◌, ◌<◌, refl, sym, ap, ◌∙◌, List, Bool, true, false, Option, none, some, inl, inr,
  get_elem?, modify, length, arith, Bool-cases, Option-cases, ◌==◌, eq_of_==, ne_of_==, find_index,
  Pointwise-length, holds_at, holds_at_get, holds_at_cases, holds_at-modify_self,
  holds_at-modify_ne, holds_at-modify_same, get_of_lt, length-modify, lt_of_get_elem?,
}
use knit_os.Sched.{
  Fd, Task, TaskState, running, System, is_ready, is_running, is_nonneg, systemd, update, task_max,
  with_world, record_call, close_sockets_of,
}
use knit_os.Sched.Switch.{ready_at, idle_at, running_at, started, sched_pick_next}
use knit_os.Sched.Pick.{runs_at, NoneBefore, IsNearest, IsNext, sched_pick_next-IsNext}
use knit_os.Sched.Yield.{OneRuns, ready_of_next}
use knit_os.Sched.Table.{is_task, left_of, cleanup_found, zombie_at, task_resources_cleanup}
use knit_os.Sched.Kill.{ended, revived, exit_to, task_exit}
use knit_os.Sched.Kill.Fading.{Keep}
use knit_os.Sched.Kill.Exit.{given_back, given_back-Keep, given_back-current, task_exit-OneRuns}

-- What holds of the tasks whatever is released of them.
module _ (p : Task → Bool) (same : (fds : List Fd) (t : Task) → p (left_of fds t) ≡ p t) where
  found-same :
      (o : Option ℕ) (s : System) (j : ℕ)
      → holds_at p (cleanup_found o s).tasks j ≡ holds_at p s.tasks j
  found-same none s j = refl
  found-same (some i) s j = elim (Option-cases (get_elem? s.tasks i)) [
    | inl e ↦ rw (e, cleanup_found) refl
    | inr (t, e) ↦ rw (e, cleanup_found) (holds_at-modify_same p s.tasks i j _ (same _))
  ]

  cleanup-same :
      (pid : ℕ) (s : System) (j : ℕ)
      → holds_at p (task_resources_cleanup pid s).tasks j ≡ holds_at p s.tasks j
  unfolding task_resources_cleanup
  cleanup-same pid s j = elim (Bool-cases (is_nonneg pid)) [
    | inl e ↦
        rw (e, task_resources_cleanup)
          (found-same (find_index (is_task pid) s.tasks)
            (with_world (record_call (close_sockets_of pid)) s) j)
    | inr e ↦ rw (e, task_resources_cleanup) refl
  ]

  given_back-same :
      (t : Task) (s : System) (j : ℕ) → holds_at p (given_back t s).tasks j ≡ holds_at p s.tasks j
  given_back-same t s j = elim (Bool-cases (t.id == systemd)) [
    | inl e ↦ rw (e, given_back) refl
    | inr e ↦ rw (e, given_back) (cleanup-same t.id s j)
  ]

-- A choice looks only at who is ready and who is idle.
module _ (ts us : List Task) (start : ℕ) (readies : (j : ℕ) → ready_at ts j ≡ ready_at us j)
    (idles : (j : ℕ) → idle_at ts j ≡ idle_at us j) where
  runs : (j : ℕ) → runs_at ts j ≡ runs_at us j
  runs j = rw (readies j, idles j) refl

  NoneBefore-same :
      (f g : ℕ → Bool) (n : ℕ) → ((j : ℕ) → f j ≡ g j) → NoneBefore f start n → NoneBefore g start n
  NoneBefore-same f g n same h m low high = sym (same _) ∙ h m low high

  IsNearest-same :
      (f g : ℕ → Bool) (i n : ℕ)
      → ((j : ℕ) → f j ≡ g j)
      → IsNearest f start i n
      → IsNearest g start i n
  IsNearest-same f g i n same h = record {
    low = h.low;
    high = h.high;
    here = h.here;
    fit = sym (same i) ∙ h.fit;
    first = NoneBefore-same f g n same h.first;
  }

  IsNext-same : (o : Option ℕ) → IsNext ts start o → IsNext us start o
  IsNext-same none h = NoneBefore-same (ready_at ts) (ready_at us) (task_max + 1) readies h
  IsNext-same (some i) (inl (n, near)) =
      inl (n, IsNearest-same (runs_at ts) (runs_at us) i n runs near)
  IsNext-same (some i) (inr (quiet, n, near)) = inr (
    NoneBefore-same (runs_at ts) (runs_at us) (task_max + 1) runs quiet,
    n,
    IsNearest-same (ready_at ts) (ready_at us) i n readies near,
  )

running_not_ready : (st : TaskState) → is_running st ≡ true → is_ready st ≡ false
running_not_ready running e = refl
running_not_ready st e = ground arith

-- The task that ends was running, so nobody becomes ready or stops being so.
readies_then :
    (s : System) (ts : List Task) (i j : ℕ)
    → running_at s.tasks i ≡ true
    → i < length ts
    → ((k : ℕ) → ready_at ts k ≡ ready_at s.tasks k)
    → ready_at (modify ts i ended) j ≡ ready_at s.tasks j
readies_then s ts i j run inside same = elim (Bool-cases (i == j)) [
  | inr e ↦ holds_at-modify_ne _ ts i j ended (ne_of_== i j e) ∙ same j
  | inl e ↦
      let (t, at) = get_of_lt ts i inside in
      let (u, before, runs) = holds_at_cases (λ (x : Task). is_running x.state) s.tasks i run in
      let quiet : ready_at s.tasks i ≡ false =
        holds_at_get _ s.tasks i before ∙ running_not_ready u.state runs in
      let gone : ready_at (modify ts i ended) i ≡ false = holds_at-modify_self _ ts i ended at in
      rw⁻¹ (eq_of_== i j e) (gone ∙ sym quiet)
]

-- The first task of the table, if there is no other.
abbrev pub or_first : Option ℕ → ℕ
or_first none = 0
or_first (some k) = k

exit_to-current :
    (o : Option ℕ) (s : System)
    → 0 < length s.tasks
    → ((next : ℕ) → o ≡ some next → ready_at s.tasks next ≡ true)
    → (exit_to o s).current ≡ some (or_first o)
exit_to-current (some next) s some_task can =
    let (n, at, _) = holds_at_cases _ s.tasks next (can next refl) in rw (at, exit_to) refl
exit_to-current none s some_task can =
    let (n, at) =
      get_of_lt (modify s.tasks 0 revived) 0 (rw (length-modify s.tasks 0 revived) some_task) in
    rw (at, exit_to) refl

exit_to-zombie :
    (o : Option ℕ) (s : System) (i : ℕ)
    → or_first o ≢ i
    → zombie_at (exit_to o s).tasks i ≡ zombie_at s.tasks i
exit_to-zombie (some next) s i apart = elim (Option-cases (get_elem? s.tasks next)) [
  | inl e ↦ rw (e, exit_to) refl
  | inr (n, e) ↦ rw (e, exit_to) (holds_at-modify_ne _ s.tasks next i started apart)
]
exit_to-zombie none s i apart = elim (Option-cases (get_elem? (modify s.tasks 0 revived) 0)) [
  | inl e ↦ rw (e, exit_to) (holds_at-modify_ne _ s.tasks 0 i revived apart)
  | inr (n, e) ↦
      rw (e, exit_to)
        (holds_at-modify_ne _ (modify s.tasks 0 revived) 0 i started apart
          ∙ holds_at-modify_ne _ s.tasks 0 i revived apart)
]

-- The current task `i` of `s` has made way for another.
pub record HandsOver (s : System) (i : ℕ) (s' : System) : Type 0 where
  pub one : OneRuns s'
  pub chosen : Option ℕ
  pub next : IsNext s.tasks i chosen
  pub current : s'.current ≡ some (or_first chosen)
  pub dead : or_first chosen ≢ i → zombie_at s'.tasks i ≡ true

exit_state :
    (s : System) {i : ℕ} {t : Task}
    → s.current ≡ some i
    → get_elem? s.tasks i ≡ some t
    → let s' = update i ended (given_back t s) in task_exit s ≡ exit_to (sched_pick_next s') s'
unfolding task_exit
exit_state s {i} {t} cur at = simp (cur, at, task_exit)

-- After the current task has exited, exactly one task runs, and it is the current one: the nearest
-- task behind the one that exited that can run, if there is none the nearest ready one, and if none
-- is ready the first of the table. The task that exited is a zombie, unless it is the first one and
-- has to run again.
pub task_exit-HandsOver :
    (s : System) {i : ℕ} → OneRuns s → s.current ≡ some i → HandsOver s i (task_exit s)
task_exit-HandsOver s {i} one cur =
    let run = (one i).1 cur in
    let (t, at, _) = holds_at_cases (λ (x : Task). is_running x.state) s.tasks i run in
    let g = given_back t s in
    let s' = update i ended g in
    let inside : i < length g.tasks = omega (
      arith,
      Pointwise-length Keep s.tasks g.tasks (given_back-Keep t s),
      lt_of_get_elem? s.tasks i at,
    ) in
    let some_task : 0 < length s'.tasks = omega (arith, length-modify g.tasks i ended) in
    let next = sched_pick_next-IsNext s' (given_back-current t s ∙ cur) in
    let can : (k : ℕ) → sched_pick_next s' ≡ some k → ready_at s'.tasks k ≡ true =
      λ k o. ready_of_next s'.tasks i k (rw o at next) in
    let (x, here) = get_of_lt g.tasks i inside in
    let state = exit_state s cur at in
    let readies = given_back-same (λ t. is_ready t.state) (λ fds t. refl) t s in
    let idles = given_back-same (λ t. t.is_idle) (λ fds t. refl) t s in
    record {
      one = task_exit-OneRuns s one cur;
      chosen = sched_pick_next s';
      next =
          IsNext-same s'.tasks s.tasks i (λ j. readies_then s g.tasks i j run inside readies)
            (λ j. holds_at-modify_same _ g.tasks i j ended (λ t. refl) ∙ idles j)
            (sched_pick_next s') next;
      current = ap (λ z. z.current) state ∙ exit_to-current (sched_pick_next s') s' some_task can;
      dead = λ apart.
          ap (λ z. zombie_at z.tasks i) state
          ∙ exit_to-zombie (sched_pick_next s') s' i apart
          ∙ holds_at-modify_self _ g.tasks i ended here;
    }
