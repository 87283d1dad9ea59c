-- ===== src/Sched/Pick.antt =====
-- What `sched_pick_next` chooses: round robin after the current task, the idle task last.
use knit_os.Base.{
  ℕ, zero, suc, ◌+◌, ◌%◌, ◌≤◌, ◌<◌, ◌≡◌, refl, List, Bool, true, false, not, ◌&&◌, Option, none,
  some, ◌⊎◌, inl, inr, arith, Bool-cases, ◌==◌, eq_of_==, ne_of_==,
}
use knit_os.Sched.{Task, System, task_max}
use knit_os.Sched.Switch.{ready_at, idle_at, first_idle, pick_from, sched_pick_next}

-- A ready task that is not the idle one.
abbrev pub runs_at : List Task → ℕ → Bool
runs_at ts i = ready_at ts i && not (idle_at ts i)

-- The `n`-th index behind `start`, around the table.
abbrev pub around : ℕ → ℕ → ℕ
around start n = (start + n) % task_max

-- No task within fewer than `n` steps fits.
abbrev pub NoneBefore : (ℕ → Bool) → ℕ → ℕ → Type 0
NoneBefore fits start n = (m : ℕ) → 1 ≤ m → m < n → fits (around start m) ≡ false

-- The task at `i` fits and is the nearest one behind `start` that does, `n` steps away.
pub record IsNearest (fits : ℕ → Bool) (start i n : ℕ) : Type 0 where
  pub low : 1 ≤ n
  pub high : n ≤ task_max
  pub here : i ≡ around start n
  pub fit : fits i ≡ true
  pub first : NoneBefore fits start n

-- The nearest task that can run; if there is none, the nearest ready one; nothing if none is ready.
abbrev pub IsNext : List Task → ℕ → Option ℕ → Type 0
IsNext ts start none = NoneBefore (ready_at ts) start (task_max + 1)
IsNext ts start (some i) =
    ((n : ℕ) × IsNearest (runs_at ts) start i n)
    ⊎ (NoneBefore (runs_at ts) start (task_max + 1) × (n : ℕ) × IsNearest (ready_at ts) start i n)

module _ (ts : List Task) (start : ℕ) where
  -- What the loop knows when it comes to round `n`.
  Seen : ℕ → Option ℕ → Type 0
  Seen n none = NoneBefore (ready_at ts) start n
  Seen n (some j) =
      NoneBefore (runs_at ts) start n × (k : ℕ) × (k < n) × IsNearest (ready_at ts) start j k

  step :
      (fits : ℕ → Bool) (n : ℕ)
      → NoneBefore fits start n
      → fits (around start n) ≡ false
      → NoneBefore fits start (n + 1)
  step fits n seen miss m low high = elim (Bool-cases (m == n)) [
    | inl e ↦ rw (eq_of_== m n e) miss
    | inr ne ↦ seen m low (let other = ne_of_== m n ne in omega arith)
  ]

  never_runs : (i : ℕ) → ready_at ts i ≡ false → runs_at ts i ≡ false
  never_runs i e = ground arith

  none_runs : (n : ℕ) → NoneBefore (ready_at ts) start n → NoneBefore (runs_at ts) start n
  none_runs n seen m low high = never_runs (around start m) (seen m low high)

  Seen-runs : (n : ℕ) (idle : Option ℕ) → Seen n idle → NoneBefore (runs_at ts) start n
  unfolding Seen
  Seen-runs n none seen = none_runs n seen
  Seen-runs n (some j) seen = seen.0

  -- A round that meets no ready task.
  Seen-skip :
      (n : ℕ) (idle : Option ℕ)
      → Seen n idle
      → ready_at ts (around start n) ≡ false
      → Seen (n + 1) idle
  unfolding Seen
  Seen-skip n none seen e = step (ready_at ts) n seen e
  Seen-skip n (some j) (quiet, k, below, near) e =
      (step (runs_at ts) n quiet (never_runs (around start n) e), k, omega arith, near)

  -- A round that meets an idle task that is ready.
  Seen-idle :
      (n : ℕ) (idle : Option ℕ)
      → 1 ≤ n
      → n ≤ task_max
      → Seen n idle
      → ready_at ts (around start n) ≡ true
      → idle_at ts (around start n) ≡ true
      → Seen (n + 1) (first_idle idle (around start n))
  unfolding Seen
  Seen-idle n none low high seen r e = (
    step (runs_at ts) n (none_runs n seen) (ground arith),
    n,
    omega arith,
    record { low = low; high = high; here = refl; fit = r; first = seen },
  )
  Seen-idle n (some j) low high (quiet, k, below, near) r e =
      (step (runs_at ts) n quiet (ground arith), k, omega arith, near)

  pick_from-IsNext :
      (left n : ℕ) (idle : Option ℕ)
      → left + n ≡ task_max + 1
      → 1 ≤ n
      → Seen n idle
      → IsNext ts start (pick_from left n start idle ts)
  unfolding pick_from Seen
  pick_from-IsNext zero n none total low seen = λ m one below. seen m one (omega arith)
  pick_from-IsNext zero n (some j) total low (quiet, k, below, near) =
      inr (λ m one below. quiet m one (omega arith), k, near)
  pick_from-IsNext (suc left) n idle total low seen =
      elim (Bool-cases (ready_at ts (around start n))) [
        | inl r ↦ elim (Bool-cases (idle_at ts (around start n))) [
          | inl e ↦
              rw (r, e, pick_from)
                (pick_from-IsNext left (n + 1) (first_idle idle (around start n)) (omega arith)
                  (omega arith) (Seen-idle n idle low (omega arith) seen r e))
          | inr e ↦
              rw (r, e, pick_from)
                (inl (
                  n,
                  record {
                    low = low;
                    high = omega arith;
                    here = refl;
                    fit = ground arith;
                    first = Seen-runs n idle seen;
                  },
                ))
        ]
        | inr r ↦
            rw (r, pick_from)
              (pick_from-IsNext left (n + 1) idle (omega arith) (omega arith)
                (Seen-skip n idle seen r))
      ]

-- The scheduler takes the next ready task behind the current one, around the table, that is not an
-- idle task; an idle task only if no other is ready; and nothing only if no task is ready.
pub sched_pick_next-IsNext :
    (s : System) {start : ℕ} → s.current ≡ some start → IsNext s.tasks start (sched_pick_next s)
unfolding sched_pick_next Seen
sched_pick_next-IsNext s {start} e = rw e (
    pick_from-IsNext s.tasks start task_max 1 none (omega arith) (omega arith)
      (λ m low high. absurd (omega arith)))
