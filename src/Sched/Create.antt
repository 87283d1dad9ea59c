-- ===== src/Sched/Create.antt =====
-- New tasks of the kernel in kernel/sched/task.cpp: `task_create` and `task_fork`, with `sched_init`.
-- `cloned` is the result of `paging_clone_dir`; `none` as a name is a null pointer.
pub mod Birth
use knit_os.Base.{
  ℕ, zero, suc, ◌+◌, ◌-◌, List, [], ◌∷◌, map, Bool, true, false, not, ◌&&◌, ◌||◌, Option, none,
  some, get_elem?, modify, ◌==◌, if◌then◌else◌,
}
use knit_os.Memory.Heap.{Heap, malloc}
use knit_os.Sched.{
  Task, unused, ready, running, World, System, Result, ok, error, wait_none, task_stack_size,
  task_slice_ticks, task_cwd_max, minus_one, inc, with_world, update, current_task,
}
use knit_os.Sched.Strings.{task_copy_str, task_copy_name}
use knit_os.Sched.Fds.{task_fds_clear}
use knit_os.Sched.Table.{root_dir, task_alloc_slot, task_setup_stack}

-- `malloc(TASK_STACK_SIZE)` for a new task's stack.
abbrev pub stack_alloc : System → Option ℕ × System
stack_alloc s =
    let (p, heap) = malloc task_stack_size s.world.heap in
    (p, with_world (λ w. record w { heap = heap }) s)

-- The fields that every way to make a task sets alike.
abbrev pub begun : ℕ → ℕ → ℕ → ℕ → Task → Task
begun id stack entry arg t = record t {
  id = id;
  state = ready;
  esp = stack + task_stack_size - 20;
  stack = some stack;
  entry = entry;
  arg = arg;
  runs = 0;
  wake_ms = 0;
  wait_reason = wait_none;
  is_idle = false;
}

-- The new task in its slot: `g_next_id++`, the fields and the stack.
abbrev pub install : ℕ → ℕ → (Task → Task) → System → System
install i stack f s =
    with_world (task_setup_stack stack) (update i f (record s { next_id = inc s.next_id }))

abbrev pub or_name : List ℕ → Option (List ℕ) → Option (List ℕ)
or_name d none = some d
or_name d (some n) = some n

abbrev pub id_of : Option Task → ℕ
id_of none = minus_one
id_of (some t) = t.id

abbrev pub uid_of : Option Task → ℕ
uid_of none = 0
uid_of (some t) = t.uid

abbrev pub cwd_of : Option Task → List ℕ
cwd_of none = root_dir
cwd_of (some t) = task_copy_str task_cwd_max (some t.cwd)

abbrev kthread : List ℕ
kthread = b'k' ∷ b't' ∷ b'h' ∷ b'r' ∷ b'e' ∷ b'a' ∷ b'd' ∷ []

abbrev child : List ℕ
child = b'c' ∷ b'h' ∷ b'i' ∷ b'l' ∷ b'd' ∷ []

abbrev pub created_task : Option Task → ℕ → ℕ → ℕ → ℕ → Option (List ℕ) → Task → Task
created_task cur id stack entry arg name t = task_fds_clear (record (begun id stack entry arg t) {
  parent_pid = id_of cur;
  cr3 = 0;
  is_user = false;
  uid = uid_of cur;
  name = task_copy_name (or_name kthread name);
  cwd = cwd_of cur;
})

-- From the slot on, where `make` fills in the task on its stack.
abbrev pub create_in : (ℕ → ℕ → Task → Task) → Option ℕ × System → Result ℕ × System
create_in make (none, s) = (error 1, s)
create_in make (some i, s) =
    let (stack, s) = stack_alloc s in
    elim stack [ none ↦ (error 1, s) | some p ↦ (ok s.next_id, install i p (make s.next_id p) s) ]

unfoldable pub task_create : ℕ → ℕ → Option (List ℕ) → System → Result ℕ × System
task_create entry arg name s =
    if not s.is_started || entry == 0
    then (error 1, s)
    else let slot = task_alloc_slot s in
      create_in (λ id p. created_task (current_task slot.1) id p entry arg name) slot

abbrev pub forked_task : Task → ℕ → ℕ → ℕ → ℕ → ℕ → Option (List ℕ) → Task → Task
forked_task cur cloned id stack entry arg name t = record (begun id stack entry arg t) {
  parent_pid = cur.id;
  cr3 = if cur.cr3 == 0 then 0 else cloned;
  is_user = cur.is_user;
  uid = cur.uid;
  name = task_copy_name (or_name child name);
  cwd = task_copy_str task_cwd_max (some cur.cwd);
  fds = cur.fds;
}

unfoldable pub task_fork : ℕ → ℕ → ℕ → Option (List ℕ) → System → Result ℕ × System
task_fork cloned entry arg name s =
    if not s.is_started || entry == 0 then (error 1, s) else elim (s.current) [
      | none ↦ (error 1, s)
      | some i ↦
          let slot = task_alloc_slot s in
          elim (get_elem? slot.1.tasks i) [
            | none ↦ (error 1, slot.1)
            | some cur ↦ create_in (λ id p. forked_task cur cloned id p entry arg name) slot
          ]
    ]

-- The first loop of `sched_init`.
abbrev pub reset : Task → Task
reset t = task_fds_clear (record t {
  state = unused;
  stack = none;
  stack_slot = minus_one;
  cwd = root_dir;
  parent_pid = minus_one;
  cr3 = 0;
  is_user = false;
  is_idle = false;
})

abbrev systemd_name : List ℕ
systemd_name = b's' ∷ b'y' ∷ b's' ∷ b't' ∷ b'e' ∷ b'm' ∷ b'd' ∷ []

abbrev pub boot_task : Task → Task
boot_task t = task_fds_clear (record t {
  id = 0;
  state = running;
  esp = 0;
  stack = none;
  entry = 0;
  arg = 0;
  name = task_copy_name (some systemd_name);
  runs = 0;
  wake_ms = 0;
  wait_reason = wait_none;
  is_idle = false;
  parent_pid = minus_one;
  cwd = root_dir;
  cr3 = 0;
  is_user = false;
  uid = 0;
})

unfoldable pub sched_init : System → System
sched_init s = record s {
  tasks = modify (map reset s.tasks) 0 boot_task;
  current = some 0;
  next_id = 1;
  yield_count = 0;
  wake_count = 0;
  net_wake_count = 0;
  need_resched = false;
  slice_left = task_slice_ticks;
  is_started = true;
}
