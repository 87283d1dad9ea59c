-- ===== src/Sched/Kill/Exit.antt =====
-- That one task runs after `task_exit`.
use mathlib.Core.Option.{some-injective}
use knit_os.Base.{
  ℕ, ◌≡◌, ◌<◌, refl, sym, ap, ◌∙◌, List, true, false, ◌||◌, Option, none, some, inl, inr, get_elem?,
  modify, length, arith, Bool-cases, ◌==◌, eq_of_==, ne_of_==, if◌then◌else◌, Pointwise,
  Pointwise-get, Pointwise-length, holds_at_cases, holds_at_get, holds_at-modify_self,
  holds_at-modify_ne, holds_at-modify_same, Pointwise-refl, get_of_lt, length-modify,
  lt_of_get_elem?,
}
use knit_os.Sched.{
  Task, TaskState, unused, ready, running, blocked, zombie, System, is_running, is_zombie,
  is_unused, systemd, update,
}
use knit_os.Sched.Switch.{running_at, ready_at, started, sched_pick_next}
use knit_os.Sched.Pick.{sched_pick_next-IsNext}
use knit_os.Sched.Yield.{OneRuns, start-running, ready_of_next}
use knit_os.Sched.Table.{task_resources_cleanup}
use knit_os.Sched.Kill.{ended, enter, revived, exit_to, task_exit}
use knit_os.Sched.Kill.Fading.{Keep, cleanup-Keeps}

running_before :
    (ts us : List Task) (i : ℕ)
    → Pointwise Keep ts us
    → running_at us i ≡ true
    → running_at ts i ≡ true
running_before ts us i f r =
    let (u, after, runs) = holds_at_cases _ us i r in
    let (t, before, keep) = Pointwise-get Keep ts us i f after in
    holds_at_get _ ts i before ∙ ap is_running keep.2 ∙ runs

-- The state after the resources of the current task were given back.
abbrev pub given_back : Task → System → System
given_back t s = if t.id == systemd then s else task_resources_cleanup t.id s

pub given_back-Keep : (t : Task) (s : System) → Pointwise Keep s.tasks (given_back t s).tasks
given_back-Keep t s = elim (Bool-cases (t.id == systemd)) [
  | inl e ↦ rw (e, given_back) (Pointwise-refl Keep (λ x. (refl, refl, refl)) s.tasks)
  | inr e ↦ rw (e, given_back) (cleanup-Keeps t.id s).0
]

pub given_back-current : (t : Task) (s : System) → (given_back t s).current ≡ s.current
given_back-current t s = elim (Bool-cases (t.id == systemd)) [
  | inl e ↦ rw (e, given_back) refl
  | inr e ↦ rw (e, given_back) (cleanup-Keeps t.id s).1
]

-- Once the task that ran has ended, none runs.
none_runs :
    (s : System) (ts : List Task) {i : ℕ}
    → OneRuns s
    → s.current ≡ some i
    → Pointwise Keep s.tasks ts
    → i < length ts
    → (j : ℕ) → running_at (modify ts i ended) j ≡ false
none_runs s ts {i} one cur f inside j = elim (Bool-cases (i == j)) [
  | inl e ↦
      let (x, at) = get_of_lt ts i inside in
      rw⁻¹ (eq_of_== i j e) (holds_at-modify_self _ ts i ended at)
  | inr e ↦ elim (Bool-cases (running_at (modify ts i ended) j)) [
    | inr quiet ↦ quiet
    | inl r ↦ absurd (
        let apart = ne_of_== i j e in
        let before =
          running_before s.tasks ts j f (sym (holds_at-modify_ne _ ts i j ended apart) ∙ r) in
        let same : some i ≡ some j = sym cur ∙ (one j).0 before in apart (some-injective i j same))
  ]
]

not_running : (st : TaskState) → (is_zombie st || is_unused st) ≡ true → is_running st ≡ false
not_running zombie e = refl
not_running unused e = refl
not_running ready e = refl
not_running running e = absurd (cc)
not_running blocked e = refl

revived-running : (t : Task) → is_running (revived t).state ≡ is_running t.state
revived-running t = elim (Bool-cases (is_zombie t.state || is_unused t.state)) [
  | inl e ↦ rw (e, revived) (sym (not_running t.state e))
  | inr e ↦ rw (e, revived) refl
]

enter-OneRuns :
    (next : ℕ) (n : Task) (s : System)
    → get_elem? s.tasks next ≡ some n
    → ((i : ℕ) → running_at s.tasks i ≡ false)
    → OneRuns (enter next n s)
enter-OneRuns next n s at quiet = start-running s.tasks next started at refl quiet

exit_to-OneRuns :
    (o : Option ℕ) (s : System)
    → 0 < length s.tasks
    → ((next : ℕ) → o ≡ some next → ready_at s.tasks next ≡ true)
    → ((i : ℕ) → running_at s.tasks i ≡ false)
    → OneRuns (exit_to o s)
exit_to-OneRuns (some next) s some_task can quiet =
    let (n, at, _) = holds_at_cases _ s.tasks next (can next refl) in
    rw (at, exit_to) (enter-OneRuns next n s at quiet)
exit_to-OneRuns none s some_task can quiet =
    let s' = update 0 revived s in
    let (n, at) = get_of_lt s'.tasks 0 (rw (length-modify s.tasks 0 revived) some_task) in
    rw (at, exit_to)
      (enter-OneRuns 0 n s' at
        (λ i. holds_at-modify_same _ s.tasks 0 i revived revived-running ∙ quiet i))

-- After the current task has exited, exactly one task runs, and it is the current one.
pub task_exit-OneRuns :
    (s : System) {i : ℕ} → OneRuns s → s.current ≡ some i → OneRuns (task_exit s)
unfolding task_exit
task_exit-OneRuns s {i} one cur =
    let (t, at, _) = holds_at_cases (λ (x : Task). is_running x.state) s.tasks i ((one i).1 cur) in
    let g = given_back t s in
    let s' = update i ended g in
    let keeps = given_back-Keep t s in
    let inside : i < length g.tasks =
      omega (arith, Pointwise-length Keep s.tasks g.tasks keeps, lt_of_get_elem? s.tasks i at) in
    let next = sched_pick_next-IsNext s' (given_back-current t s ∙ cur) in
    let quiet = none_runs s g.tasks one cur keeps inside in
    rw (cur, at, task_exit)
      (exit_to-OneRuns (sched_pick_next s') s' (omega (arith, length-modify g.tasks i ended))
        (λ k o. ready_of_next s'.tasks i k (rw o at next)) quiet)
