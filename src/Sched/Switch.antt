-- ===== src/Sched/Switch.antt =====
-- The choice of the next task and the switch to it in kernel/sched/task.cpp, the timer's tick, the
-- sleepers, and blocking. `now` is `timer_ms()`. The registers that `sched_switch` exchanges are not
-- part of the state: a switch ends in the state in which the next task goes on.
use knit_os.Base.{
  ℕ, zero, suc, ◌+◌, ◌-◌, ◌%◌, List, [], ◌∷◌, map, Bool, true, false, not, ◌&&◌, Option, none, some,
  get_elem?, modify, holds_at, ltb, ◌==◌, if◌then◌else◌,
}
use knit_os.Sched.{
  Task, ready, running, wait_none, wait_net, World, System, load_cr3, set_user_esp0, task_max,
  task_slice_ticks, inc, is_ready, is_running, is_blocked, record_call, update,
}

abbrev pub ready_at : List Task → ℕ → Bool
ready_at = holds_at (λ t. is_ready t.state)

abbrev pub idle_at : List Task → ℕ → Bool
idle_at = holds_at (λ t. t.is_idle)

abbrev pub first_idle : Option ℕ → ℕ → Option ℕ
first_idle none i = some i
first_idle (some j) i = some j

-- The loop of `sched_pick_next` at round `n`, with `left` rounds to go and the idle task found so far.
unfoldable pub pick_from : ℕ → ℕ → ℕ → Option ℕ → List Task → Option ℕ
pick_from zero n start idle ts = idle
pick_from (suc left) n start idle ts =
    let i = (start + n) % task_max in
    elim (ready_at ts i) [
      | false ↦ pick_from left (n + 1) start idle ts
      | true ↦ elim (idle_at ts i) [
        | true ↦ pick_from left (n + 1) start (first_idle idle i) ts
        | false ↦ some i
      ]
    ]

unfoldable pub sched_pick_next : System → Option ℕ
sched_pick_next s = elim (s.current) [
  | none ↦ none
  | some start ↦ pick_from task_max 1 start none s.tasks
]

-- `t->cr3 ? t->cr3 : paging_kernel_cr3()`.
abbrev pub cr3_of : World → Task → ℕ
cr3_of w t = if t.cr3 == 0 then w.kernel_cr3 else t.cr3

abbrev pub started : Task → Task
started t = record t { state = running; runs = inc t.runs }

-- `if (next->is_user && next->kstack_top) paging_set_user_esp0(next->kstack_top);`
abbrev pub enter_stack : Task → World → World
enter_stack t w =
    if t.is_user && not (t.kstack_top == 0) then record_call (set_user_esp0 t.kstack_top) w else w

abbrev pub switched : ℕ → Task → Task → System → System
switched next p n s = record s {
  tasks = modify s.tasks next started;
  current = some next;
  yield_count = inc s.yield_count;
  slice_left = task_slice_ticks;
  need_resched = false;
  world = enter_stack n (
      if cr3_of s.world n == cr3_of s.world p
      then s.world
      else record_call (load_cr3 (cr3_of s.world n)) s.world);
}

unfoldable pub sched_switch_to : ℕ → System → System
sched_switch_to next s = elim (s.current) [
  | none ↦ s
  | some prev ↦ if next == prev then s else elim (get_elem? s.tasks prev) [
    | none ↦ s
    | some p ↦ elim (get_elem? s.tasks next) [ none ↦ s | some n ↦ switched next p n s ]
  ]
]

-- `(int32_t)(now - deadline) >= 0`.
abbrev pub is_due : ℕ → ℕ → Bool
is_due now deadline = ltb ((now + (4294967296 - deadline)) % 4294967296) 2147483648

abbrev pub sleeps_until : ℕ → Task → Bool
sleeps_until now t = is_blocked t.state && not (t.wake_ms == 0) && is_due now t.wake_ms

abbrev pub awake : Task → Task
awake t = record t { wake_ms = 0; wait_reason = wait_none; state = ready }

-- A loop over the table that wakes the tasks that fit, and how many fit.
abbrev pub wake_if : (Task → Bool) → List Task → List Task
wake_if p = map (λ (t : Task). if p t then awake t else t)

abbrev pub count_if : (Task → Bool) → List Task → ℕ
count_if p [] = 0
count_if p (t ∷ ts) = if p t then suc (count_if p ts) else count_if p ts

unfoldable pub sched_wake_sleepers : ℕ → System → System
sched_wake_sleepers now s = record s {
  tasks = wake_if (sleeps_until now) s.tasks;
  wake_count = (s.wake_count + count_if (sleeps_until now) s.tasks) % 4294967296;
}

abbrev pub waits_for_net : Task → Bool
waits_for_net t = is_blocked t.state && (elim (t.wait_reason) [ wait_net ↦ true | _ ↦ false ])

unfoldable pub sched_wake_net : System → System
sched_wake_net s =
    if s.is_started
    then record s {
      tasks = wake_if waits_for_net s.tasks;
      net_wake_count = (s.net_wake_count + count_if waits_for_net s.tasks) % 4294967296;
      wake_count = (s.wake_count + count_if waits_for_net s.tasks) % 4294967296;
    }
    else s

abbrev pub preempted : Task → Task
preempted t = if is_running t.state then record t { state = ready } else t

abbrev pub resumed : Task → Task
resumed t = if is_ready t.state then record t { state = running } else t

-- `if (!next || next == prev) { … } sched_switch_to(next);`
abbrev pub go_on : ℕ → Option ℕ → System → System
go_on prev none s = record (update prev resumed s) { need_resched = false }
go_on prev (some next) s =
    if next == prev
    then record (update prev resumed s) { need_resched = false }
    else sched_switch_to next s

unfoldable pub sched_yield : ℕ → System → System
sched_yield now s =
    if s.is_started
    then elim (s.current) [
      | none ↦ s
      | some prev ↦
          let s = update prev preempted (sched_wake_sleepers now s) in
          go_on prev (sched_pick_next s) s
    ]
    else s

abbrev pub ticked : Task → Task
ticked t = if is_running t.state then record t { cpu_ticks = inc t.cpu_ticks } else t

-- `g_current->cpu_ticks++`, if it runs.
abbrev pub credited : System → System
credited s = elim (s.current) [ none ↦ s | some i ↦ update i ticked s ]

-- The slice's count after a tick, and whether it has run out.
abbrev pub slice_ticked : System → System
slice_ticked s =
    let left = s.slice_left - 1 in
    if left == 0
    then record s { slice_left = task_slice_ticks; need_resched = true }
    else record s { slice_left = left }

unfoldable pub sched_on_tick : ℕ → System → System
sched_on_tick now s =
    if s.is_started then slice_ticked (sched_wake_sleepers now (credited s)) else s

abbrev pub running_at : List Task → ℕ → Bool
running_at = holds_at (λ t. is_running t.state)

unfoldable pub sched_maybe_preempt : ℕ → System → System
sched_maybe_preempt now s =
    if s.is_started && s.need_resched
    then elim (s.current) [
      | none ↦ s
      | some i ↦ if running_at s.tasks i then sched_yield now s else s
    ]
    else s
