-- ===== src/Sched/Kill.antt =====
-- The end of a task in kernel/sched/task.cpp: `task_kill`, `task_exit` and `task_wait_child`.
pub mod Fading
pub mod Descendants
pub mod Ranked
pub mod Rounds
pub mod Reach
pub mod Target
pub mod Exit
pub mod Successor
use knit_os.Base.{
  ℕ, zero, suc, ◌+◌, ◌-◌, List, [], ◌∷◌, Bool, true, false, not, ◌&&◌, ◌||◌, Option, none, some,
  get_elem?, modify, ◌==◌, ltb, if◌then◌else◌,
}
use knit_os.Sched.{
  Task, TaskState, unused, ready, running, zombie, World, System, Result, ok, error, wait_none,
  task_max, task_slice_ticks, systemd, minus_one, inc, is_nonneg, is_unused, is_zombie, with_world,
  update, current_task, record_call, load_cr3,
}
use knit_os.Sched.Switch.{cr3_of, started, enter_stack, sched_pick_next}
use knit_os.Sched.Table.{task_find_by_id, task_resources_cleanup, task_slot_clear}

abbrev pub ended : Task → Task
ended t = record t { state = zombie; entry = 0; wake_ms = 0; wait_reason = wait_none }

abbrev pub is_current : Option ℕ → ℕ → Bool
is_current none i = false
is_current (some c) i = c == i

-- One child that `task_kill_children` finds; `deeper` is the recursive call.
abbrev pub kill_child : (ℕ → System → System) → ℕ → Task → System → System
kill_child deeper i c s =
    let s = deeper c.id s in
    if is_current s.current i then s else update i ended (task_resources_cleanup c.id s)

abbrev pub is_child : ℕ → Task → Bool
is_child pid c = not (is_unused c.state || is_zombie c.state) && c.parent_pid == pid

-- One round of the loop of `task_kill_children`.
abbrev pub visit : (ℕ → System → System) → ℕ → ℕ → System → System
visit deeper pid i s = elim (get_elem? s.tasks i) [
  | none ↦ s
  | some c ↦ if is_child pid c then kill_child deeper i c s else s
]

-- The loop of `task_kill_children` at index `i`, with `left` slots to go.
unfoldable pub kill_loop : (ℕ → System → System) → ℕ → ℕ → ℕ → System → System
kill_loop deeper zero i pid s = s
kill_loop deeper (suc left) i pid s = kill_loop deeper left (i + 1) pid (visit deeper pid i s)

-- The depth of the recursion is bounded by the number of tasks.
unfoldable pub task_kill_children : ℕ → ℕ → System → System
task_kill_children zero pid s = s
task_kill_children (suc depth) pid s = kill_loop (task_kill_children depth) task_max 0 pid s

-- `next->state = TASK_RUNNING` and what follows, up to the switch.
abbrev pub enter : ℕ → Task → System → System
enter next n s = record s {
  tasks = modify s.tasks next started;
  current = some next;
  slice_left = task_slice_ticks;
  world = enter_stack n (record_call (load_cr3 (cr3_of s.world n)) s.world);
}

-- With no task ready, the first one is made ready if it is not in use.
abbrev pub revived : Task → Task
revived t = if is_zombie t.state || is_unused t.state then record t { state = ready } else t

abbrev pub exit_to : Option ℕ → System → System
exit_to none s =
    let s = update 0 revived s in elim (get_elem? s.tasks 0) [ none ↦ s | some n ↦ enter 0 n s ]
exit_to (some next) s = elim (get_elem? s.tasks next) [ none ↦ s | some n ↦ enter next n s ]

-- Without a current task the call halts for good, which is left out.
unfoldable pub task_exit : System → System
task_exit s = elim (s.current) [
  | none ↦ s
  | some i ↦ elim (get_elem? s.tasks i) [
    | none ↦ s
    | some t ↦
        let s = update i ended (if t.id == systemd then s else task_resources_cleanup t.id s) in
        exit_to (sched_pick_next s) s
  ]
]

-- A task that is neither protected nor dead, with its descendants. For the current task the call ends
-- in `task_exit` and does not return.
abbrev pub kill_at : ℕ → ℕ → Task → System → System
kill_at id i t s =
    let s = task_resources_cleanup id (task_kill_children task_max id s) in
    if is_current s.current i then task_exit s else update i ended s

unfoldable pub task_kill : ℕ → System → Result (Unit {0}) × System
task_kill id s =
    if s.is_started
    then elim (task_find_by_id id s.tasks) [
      | none ↦ (error 1, s)
      | some i ↦ elim (get_elem? s.tasks i) [
        | none ↦ (error 1, s)
        | some t ↦
            if t.id == systemd || t.is_idle
            then (error 2, s)
            else if is_zombie t.state
            then (ok tt, s)
            else (ok tt, kill_at id i t s)
      ]
    ]
    else (error 1, s)

unfoldable pub task_get_state : ℕ → System → TaskState
task_get_state id s = elim (task_find_by_id id s.tasks) [
  | none ↦ unused
  | some i ↦ elim (get_elem? s.tasks i) [ none ↦ unused | some t ↦ t.state ]
]

-- One look of `task_wait_child` through the table from index `i`: whether there is such a child, and
-- the first one that has ended.
unfoldable pub find_child : ℕ → ℕ → ℕ → ℕ → Bool → List Task → Bool × Option (ℕ × ℕ)
find_child parent pid zero i found ts = (found, none)
find_child parent pid (suc left) i found ts = elim (get_elem? ts i) [
  | none ↦ find_child parent pid left (i + 1) found ts
  | some c ↦
      elim (not (is_unused c.state)
        && c.parent_pid == parent
        && (not (is_nonneg pid) || c.id == pid)) [
          | false ↦ find_child parent pid left (i + 1) found ts
          | true ↦ elim (is_zombie c.state) [
            | true ↦ (true, some (i, c.id))
            | false ↦ find_child parent pid left (i + 1) true ts
          ]
        ]
]

pub data WaitResult : Type 0 where
  reaped : ℕ → System → WaitResult
  no_child : System → WaitResult
  waiting : System → WaitResult

-- The result of one look; with a child that lives on the call blocks.
abbrev pub look_result : ℕ → Bool × Option (ℕ × ℕ) → System → WaitResult → WaitResult
look_result pid (found, some (i, id)) s wait = reaped id (task_slot_clear i s)
look_result pid (found, none) s wait = if is_nonneg pid && not found then no_child s else wait

-- The loop of `task_wait_child`. `task_block_timeout` lets other tasks run: what they do meanwhile is
-- the next entry of the schedule, and a call whose schedule ends while it still waits is `waiting`.
unfoldable pub wait_loop : ℕ → ℕ → List (System → System) → System → WaitResult
wait_loop parent pid [] s =
    look_result pid (find_child parent pid task_max 0 false s.tasks) s (waiting s)
wait_loop parent pid (others ∷ sched) s =
    look_result pid (find_child parent pid task_max 0 false s.tasks) s
      (wait_loop parent pid sched (others s))

unfoldable pub task_wait_child : ℕ → List (System → System) → System → WaitResult
task_wait_child pid sched s =
    if s.is_started
    then elim (current_task s) [ none ↦ no_child s | some t ↦ wait_loop t.id pid sched s ]
    else no_child s
