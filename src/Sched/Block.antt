-- ===== src/Sched/Block.antt =====
-- Blocking in kernel/sched/task.cpp: `task_block_timeout` and `task_sleep_ms`. While a task blocks,
-- others run: the next entry of a schedule is what they do until control comes back, or what the
-- interrupts do while the processor halts, and the time after it. A call whose schedule ends while it
-- still waits is `asleep`.
use knit_os.Base.{
  ℕ, ◌+◌, ◌%◌, List, [], ◌∷◌, Bool, true, false, not, ◌&&◌, Option, none, some, holds_at, ◌==◌,
  if◌then◌else◌,
}
use knit_os.Sched.{
  Task, blocked, WaitReason, wait_none, wait_sleep, System, task_slice_ticks, is_blocked, update,
}
use knit_os.Sched.Switch.{
  sched_pick_next, sched_switch_to, sched_wake_sleepers, sched_yield, is_due, resumed,
}

pub data Outcome : Type 0 where
  returned asleep : System → Outcome

abbrev pub Schedule : Type 0
Schedule = List (ℕ × (System → System))

abbrev pub reason_of : WaitReason → WaitReason
reason_of wait_none = wait_sleep
reason_of r = r

abbrev pub suspended : WaitReason → ℕ → Task → Task
suspended reason deadline t = record t {
  wait_reason = reason_of reason;
  wake_ms = if deadline == 0 then 1 else deadline;
  state = blocked;
}

-- After the loop.
abbrev pub wake_up : ℕ → System → System
wake_up i s = record (update i (λ t. record (resumed t) { wait_reason = wait_none }) s) {
  slice_left = task_slice_ticks;
  need_resched = false;
}

-- One round of the loop: a switch, or a halt and a look for sleepers.
abbrev pub let_run : Option ℕ → ℕ → (System → System) → System → System
let_run none now others s = sched_wake_sleepers now (others s)
let_run (some next) now others s = others (sched_switch_to next s)

abbrev pub blocked_at : List Task → ℕ → Bool
blocked_at = holds_at (λ t. is_blocked t.state)

unfoldable pub block_loop : ℕ → Schedule → System → Outcome
block_loop i [] s = if blocked_at s.tasks i then asleep s else returned (wake_up i s)
block_loop i (x ∷ sched) s = elim (blocked_at s.tasks i) [
  | false ↦ returned (wake_up i s)
  | true ↦ block_loop i sched (let_run (sched_pick_next s) (x.0) (x.1) s)
]

-- Before the scheduler runs the call only waits.
unfoldable pub task_block_timeout : WaitReason → ℕ → ℕ → Schedule → System → Outcome
task_block_timeout reason deadline now sched s =
    if s.is_started
    then elim (s.current) [
      | none ↦ returned s
      | some i ↦
          if not (deadline == 0) && is_due now deadline
          then returned s
          else block_loop i sched (update i (suspended reason deadline) s)
    ]
    else returned s

unfoldable pub task_sleep_ms : ℕ → ℕ → Schedule → System → Outcome
task_sleep_ms ms now sched s =
    if ms == 0
    then returned (sched_yield now s)
    else task_block_timeout wait_sleep ((now + ms) % 4294967296) now sched s
