-- ===== src/Sched/Fair.antt =====
-- The turn of a ready task under `sched_yield`.
use knit_os.Base.{
  ℕ, suc, ◌-◌, ◌≤◌, ◌<◌, ◌≡◌, ◌≢◌, refl, sym, ◌∙◌, List, [], ◌∷◌, true, Option, none, some, inl,
  inr, arith, Bool-cases, ◌==◌, ltb, ltb→lt, ap, length-map, length-modify, get_of_lt, eq_of_==,
  ne_of_==, ==_of_ne, modify, length, take, holds_at_cases, holds_at-modify_ne,
}
use knit_os.Sched.{Task, System, task_max}
use knit_os.Sched.Switch.{
  ready_at, started, switched, sleeps_until, wake_if, preempted, go_on, sched_wake_sleepers,
  sched_pick_next, sched_yield,
}
use knit_os.Sched.Pick.{runs_at, around, IsNext, sched_pick_next-IsNext}
use knit_os.Sched.Yield.{
  can_run, runs_at-can_run, wake-runs, preempt-runs, put_back, put_back-current, yield_go_on,
  switch_to_other,
}

-- The nearest candidate is no farther than one that is known.
next_near :
    (ts : List Task) (start d : ℕ) (o : Option ℕ)
    → 1 ≤ d
    → d ≤ task_max
    → runs_at ts (around start d) ≡ true
    → IsNext ts start o
    → (n : ℕ) × (1 ≤ n)
      × (n ≤ d)
      × (o ≡ some (around start n))
      × (runs_at ts (around start n) ≡ true)
next_near ts start d none low high can none_ready =
    absurd (let miss = none_ready d low (omega arith) in ground arith)
next_near ts start d (some i) low high can (inr (quiet, _, _)) =
    absurd (let miss = quiet d low (omega arith) in ground arith)
next_near ts start d (some i) low high can (inl (n, near)) = elim (Bool-cases (ltb d n)) [
  | inl far ↦ absurd (let miss = near.first d low (ltb→lt d n far) in ground arith)
  | inr close ↦ (n, near.low, ground arith, ap some near.here, rw near.here at near.fit)
]

-- A switch starts the next task and leaves the others as they are.
switch-runs :
    (ts : List Task) (next i : ℕ)
    → next ≢ i
    → runs_at ts i ≡ true
    → runs_at (modify ts next started) i ≡ true
switch-runs ts next i apart h =
    rw (runs_at-can_run (modify ts next started) i)
      (holds_at-modify_ne can_run ts next i started apart ∙ sym (runs_at-can_run ts i) ∙ h)

-- `go_on` with another task than the one that yields.
go_on_other :
    (s : System) (prev next : ℕ)
    → s.current ≡ some prev
    → next ≢ prev
    → prev < length s.tasks
    → ready_at s.tasks next ≡ true
    → (p n : Task) × (go_on prev (some next) s ≡ switched next p n s)
go_on_other s prev next c apart inside r =
    let (p, at) = get_of_lt s.tasks prev inside in
    let (n, at_n, _) = holds_at_cases _ s.tasks next r in
    let other = ==_of_ne next prev apart in
    (p, n, rw (other, go_on) (switch_to_other s prev next c other at at_n))

module _ (now : ℕ) (s : System) {start : ℕ} (d : ℕ) (e : s.is_started ≡ true)
    (c : s.current ≡ some start) (inside : start < length s.tasks)
    (size : length s.tasks ≤ task_max) (low : 1 ≤ d) (high : d < task_max)
    (can : runs_at s.tasks (around start d) ≡ true) where
  still_can : runs_at (put_back now start s).tasks (around start d) ≡ true
  unfolding sched_wake_sleepers
  still_can =
      preempt-runs (wake_if (sleeps_until now) s.tasks) start (around start d)
        (wake-runs now s.tasks (around start d) can)

  put_back-length : length (put_back now start s).tasks ≡ length s.tasks
  unfolding sched_wake_sleepers
  put_back-length =
      length-modify (wake_if (sleeps_until now) s.tasks) start preempted ∙ length-map _ s.tasks

  put_back-started : (put_back now start s).is_started ≡ true
  unfolding sched_wake_sleepers
  put_back-started = e

  -- A task that could run when the current one yields is next, or it can run still and the one that
  -- is next stands nearer before it.
  pub yield_near :
      (n : ℕ) × (1 ≤ n)
      × (n ≤ d)
      × ((sched_yield now s).current ≡ some (around start n))
      × ((sched_yield now s).is_started ≡ true)
      × (length (sched_yield now s).tasks ≡ length s.tasks)
      × (n < d → runs_at (sched_yield now s).tasks (around start d) ≡ true)
  yield_near =
      let t = put_back now start s in
      let c' = put_back-current now s c in
      let (n, one, near, o, fit) =
        next_near t.tasks start d (sched_pick_next t) low (omega arith) still_can
          (sched_pick_next-IsNext t c') in
      let (p, q, g) =
        go_on_other t start (around start n) c' (omega arith) (rw put_back-length inside)
          (ground arith) in
      rw (yield_go_on now s e c, o, g)
        (
          n,
          one,
          near,
          refl,
          put_back-started,
          length-modify t.tasks (around start n) started ∙ put_back-length,
          λ closer. switch-runs t.tasks (around start n) (around start d) (omega arith) still_can,
        )

-- Yields at these times, one after the other.
abbrev pub yields : List ℕ → System → System
yields [] s = s
yields (now ∷ times) s = yields times (sched_yield now s)

-- A ready task that stands `d` steps behind the current one, and is not an idle task, has become the
-- current one within `d` yields, in a table of 32 tasks.
pub sched_yield-reaches :
    (times : List ℕ) (s : System) {start : ℕ} (d : ℕ)
    → s.is_started ≡ true
    → s.current ≡ some start
    → start < task_max
    → length s.tasks ≡ task_max
    → 1 ≤ d
    → d < task_max
    → d ≤ length times
    → runs_at s.tasks (around start d) ≡ true
    → (n : ℕ) × (1 ≤ n) × (n ≤ d) × ((yields (take n times) s).current ≡ some (around start d))
sched_yield-reaches [] s d e c inside size low high enough can = absurd (omega arith)
sched_yield-reaches (now ∷ times) s {start} d e c inside size low high enough can =
    let (n, one, near, c', e', size', rest) =
      yield_near now s d e c (omega arith) (omega arith) low high can in
    elim (Bool-cases (n == d)) [
      | inl same ↦ (1, omega arith, low, rw (eq_of_== n d same) at c')
      | inr ne ↦
          let apart = ne_of_== n d ne in
          let there : around (around start n) (d - n) ≡ around start d = omega arith in
          let (k, k_low, k_high, got) =
            sched_yield-reaches times (sched_yield now s) (d - n) e' c' (omega arith) (omega arith)
              (omega arith) (omega arith) (omega arith) (rw there (rest (omega arith))) in
          (suc k, omega arith, omega arith, got ∙ ap some there)
    ]
