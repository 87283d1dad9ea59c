-- ===== src/Sched/Yield.antt =====
-- `sched_yield`: one task runs, and a ready task gets its turn.
use knit_os.Base.{
  ℕ, ◌≡◌, refl, sym, ◌∙◌, List, Bool, true, false, not, ◌&&◌, Option, none, some, ◌↔◌, inl, inr,
  arith, Bool-cases, Option-cases, ◌==◌, eq_of_==, ne_of_==, if◌then◌else◌, get_elem?, modify,
  holds_at, holds_at_cases, holds_at-modify_self, holds_at-modify_ne, holds_at-modify_keep,
  holds_at-map, holds_at-map_keep,
}
use knit_os.Sched.{
  Task, TaskState, unused, ready, running, blocked, zombie, System, is_ready, is_running,
  is_blocked, update,
}
use knit_os.Sched.Switch.{
  ready_at, running_at, started, switched, sched_switch_to, sleeps_until, awake, wake_if, preempted,
  resumed, go_on, sched_wake_sleepers, sched_pick_next, sched_yield,
}
use knit_os.Sched.Pick.{runs_at, IsNext, sched_pick_next-IsNext}

-- The task that runs is the current one, and no other.
abbrev pub OneRuns : System → Type 0
OneRuns s = (i : ℕ) → (running_at s.tasks i ≡ true) ↔ (s.current ≡ some i)

blocked_apart :
    (st : TaskState) → is_blocked st ≡ true → (is_running st ≡ false) × (is_ready st ≡ false)
blocked_apart blocked e = (refl, refl)
blocked_apart unused e = absurd (cc)
blocked_apart ready e = absurd (cc)
blocked_apart running e = absurd (cc)
blocked_apart zombie e = absurd (cc)

ready_not_running : (st : TaskState) → is_ready st ≡ true → is_running st ≡ false
ready_not_running ready e = refl
ready_not_running unused e = refl
ready_not_running running e = absurd (cc)
ready_not_running blocked e = refl
ready_not_running zombie e = refl

sleeper_blocked : (now : ℕ) (t : Task) → sleeps_until now t ≡ true → is_blocked t.state ≡ true
sleeper_blocked now t e = ground arith

-- One test for both conditions.
abbrev pub can_run : Task → Bool
can_run t = is_ready t.state && not t.is_idle

pub runs_at-can_run : (ts : List Task) (i : ℕ) → runs_at ts i ≡ holds_at can_run ts i
runs_at-can_run ts i = elim (Option-cases (get_elem? ts i)) [
  | inl e ↦ rw (e, holds_at) refl
  | inr (t, e) ↦ rw (e, holds_at) refl
]

module _ (now : ℕ) where
  -- Waking neither starts nor stops a task.
  wake-running :
      (ts : List Task) (i : ℕ) → running_at (wake_if (sleeps_until now) ts) i ≡ running_at ts i
  wake-running ts i = holds_at-map _ _ _ ts i same
    where
      same :
          (t : Task)
          → is_running (if sleeps_until now t then awake t else t).state ≡ is_running t.state
      same t = elim (Bool-cases (sleeps_until now t)) [
        | inl e ↦ rw e (sym (blocked_apart t.state (sleeper_blocked now t e)).0)
        | inr e ↦ rw e refl
      ]

  pub wake-runs :
      (ts : List Task) (i : ℕ)
      → runs_at ts i ≡ true
      → runs_at (wake_if (sleeps_until now) ts) i ≡ true
  wake-runs ts i h =
      rw (runs_at-can_run (wake_if (sleeps_until now) ts) i)
        (holds_at-map_keep can_run _ ts i keep (sym (runs_at-can_run ts i) ∙ h))
    where
      keep :
          (t : Task) → can_run t ≡ true → can_run (if sleeps_until now t then awake t else t) ≡ true
      keep t c = elim (Bool-cases (sleeps_until now t)) [
        | inl e ↦
            absurd (let b = (blocked_apart t.state (sleeper_blocked now t e)).1 in ground arith)
        | inr e ↦ rw e c
      ]

preempted-keeps : (t : Task) → can_run t ≡ true → can_run (preempted t) ≡ true
preempted-keeps t c = let r = ready_not_running t.state (ground arith) in rw r c

pub preempt-runs :
    (ts : List Task) (prev i : ℕ)
    → runs_at ts i ≡ true
    → runs_at (modify ts prev preempted) i ≡ true
preempt-runs ts prev i h = rw (runs_at-can_run (modify ts prev preempted) i) (
    holds_at-modify_keep can_run ts prev i preempted preempted-keeps
      (sym (runs_at-can_run ts i) ∙ h))

-- After the current task has been put back, none is running.
preempt-quiet :
    {prev : ℕ} (ts : List Task)
    → ((i : ℕ) → (running_at ts i ≡ true) ↔ (some prev ≡ some i))
    → (i : ℕ) → running_at (modify ts prev preempted) i ≡ false
preempt-quiet {prev} ts one i = elim (Bool-cases (prev == i)) [
  | inl e ↦ rw⁻¹ (eq_of_== prev i e) (
      let (t, at, runs) = holds_at_cases _ ts prev ((one prev).1 refl) in
      holds_at-modify_self _ ts prev preempted at ∙ stopped t runs)
  | inr ne ↦
      let apart = ne_of_== prev i ne in
      holds_at-modify_ne _ ts prev i preempted apart ∙ elim (Bool-cases (running_at ts i)) [
        | inl r ↦ absurd (let same = (one i).0 r in ground arith)
        | inr r ↦ r
      ]
]
  where
    stopped : (t : Task) → is_running t.state ≡ true → is_running (preempted t).state ≡ false
    stopped t runs = rw runs refl

-- Starting one task while none runs.
pub start-running :
    (ts : List Task) (next : ℕ) (f : Task → Task) {n : Task}
    → get_elem? ts next ≡ some n
    → is_running (f n).state ≡ true
    → ((i : ℕ) → running_at ts i ≡ false)
    → (i : ℕ) → (running_at (modify ts next f) i ≡ true) ↔ (some next ≡ some i)
start-running ts next f at runs quiet i = elim (Bool-cases (next == i)) [
  | inl e ↦ rw⁻¹ (eq_of_== next i e) (λ _. refl, λ _. holds_at-modify_self _ ts next f at ∙ runs)
  | inr ne ↦
      let apart = ne_of_== next i ne in
      (
        λ r. absurd (let still = sym r ∙ holds_at-modify_ne _ ts next i f apart ∙ quiet i in cc),
        λ e. absurd (ground arith),
      )
]

resumed-runs : (t : Task) → is_ready t.state ≡ true → is_running (resumed t).state ≡ true
resumed-runs t r = rw r refl

pub switch_to_other :
    (s : System) (prev next : ℕ) {p n : Task}
    → s.current ≡ some prev
    → (next == prev) ≡ false
    → get_elem? s.tasks prev ≡ some p
    → get_elem? s.tasks next ≡ some n
    → sched_switch_to next s ≡ switched next p n s
unfolding sched_switch_to
switch_to_other s prev next cur other at at_n =
    rw (cur, sched_switch_to) (ground (arith, other, at, at_n))

go_on-OneRuns :
    (prev : ℕ) (o : Option ℕ) (s : System)
    → s.current ≡ some prev
    → ready_at s.tasks prev ≡ true
    → ((i : ℕ) → running_at s.tasks i ≡ false)
    → ((next : ℕ) → o ≡ some next → ready_at s.tasks next ≡ true)
    → OneRuns (go_on prev o s)
go_on-OneRuns prev none s cur back quiet can =
    let (t, at, r) = holds_at_cases _ s.tasks prev back in
    rw cur (start-running s.tasks prev resumed at (resumed-runs t r) quiet)
go_on-OneRuns prev (some next) s cur back quiet can =
    let (t, at, r) = holds_at_cases _ s.tasks prev back in
    let (n, at_n, _) = holds_at_cases _ s.tasks next (can next refl) in
    elim (Bool-cases (next == prev)) [
      | inl e ↦ rw (e, go_on, cur) (start-running s.tasks prev resumed at (resumed-runs t r) quiet)
      | inr e ↦
          rw (e, go_on, switch_to_other s prev next cur e at at_n)
            (start-running s.tasks next started at_n refl quiet)
    ]

pub ready_of_next : (ts : List Task) (start i : ℕ) → IsNext ts start (some i) → ready_at ts i ≡ true
ready_of_next ts start i (inl (n, near)) = let f = near.fit in ground arith
ready_of_next ts start i (inr (_, n, near)) = near.fit

-- The state in which `sched_yield` chooses.
abbrev pub put_back : ℕ → ℕ → System → System
put_back now prev s = update prev preempted (sched_wake_sleepers now s)

pub yield_go_on :
    (now : ℕ) (s : System) {prev : ℕ}
    → s.is_started ≡ true
    → s.current ≡ some prev
    → sched_yield now s ≡ go_on prev (sched_pick_next (put_back now prev s)) (put_back now prev s)
unfolding sched_yield
yield_go_on now s e c = ground (arith, e, c)

module _ (now : ℕ) (s : System) {prev : ℕ} (c : s.current ≡ some prev) where
  pub put_back-current : (put_back now prev s).current ≡ some prev
  unfolding sched_wake_sleepers
  put_back-current = c

  put_back-quiet : OneRuns s → (i : ℕ) → running_at (put_back now prev s).tasks i ≡ false
  unfolding sched_wake_sleepers
  put_back-quiet one =
      preempt-quiet (wake_if (sleeps_until now) s.tasks)
        λ i. rw (wake-running now s.tasks i) (rw c at one i)

  put_back-ready : OneRuns s → ready_at (put_back now prev s).tasks prev ≡ true
  unfolding sched_wake_sleepers
  put_back-ready one =
      let (t, at, runs) =
        holds_at_cases (λ (t : Task). is_running t.state) (wake_if (sleeps_until now) s.tasks) prev
          (rw (wake-running now s.tasks prev) ((one prev).1 c)) in
      holds_at-modify_self _ (wake_if (sleeps_until now) s.tasks) prev preempted at ∙ back t runs
    where
      back : (t : Task) → is_running t.state ≡ true → is_ready (preempted t).state ≡ true
      back t runs = rw runs refl

-- Yielding keeps that the current task runs and no other.
pub sched_yield-OneRuns : (now : ℕ) (s : System) → OneRuns s → OneRuns (sched_yield now s)
unfolding sched_yield
sched_yield-OneRuns now s one = elim (Bool-cases s.is_started) [
  | inr e ↦ rw (e, sched_yield) one
  | inl e ↦ elim (Option-cases s.current) [
    | inl c ↦ rw (sched_yield, e, c) one
    | inr (prev, c) ↦
        let t = put_back now prev s in
        let next = sched_pick_next-IsNext t (put_back-current now s c) in
        rw (yield_go_on now s e c) (
          go_on-OneRuns prev (sched_pick_next t) t (put_back-current now s c)
            (put_back-ready now s c one) (put_back-quiet now s c one)
            (λ i o. ready_of_next t.tasks prev i (rw o at next)))
  ]
]
