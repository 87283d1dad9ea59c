-- ===== src/Sched/Table.antt =====
-- The table of tasks in kernel/sched/task.cpp: how a slot is found, emptied and taken, and what a
-- task gives back.
pub mod Cleanup
pub mod Alloc
pub mod Stacks
pub mod Take
use knit_os.Base.{
  ℕ, zero, suc, ◌+◌, ◌-◌, ◌/◌, ◌%◌, ◌^◌, List, [], ◌∷◌, Bool, true, false, not, ◌&&◌, Option, none,
  some, get_elem?, modify, holds_at, ltb, ◌==◌, if◌then◌else◌, find_index,
}
use knit_os.Memory.Heap.{free, store_range}
use knit_os.Sched.{
  Task, unused, Fd, World, System, close_sockets_of, free_dir, wait_none, task_max, task_stack_size,
  systemd, minus_one, is_nonneg, is_unused, is_zombie, record_call, with_world, update,
}
use knit_os.Sched.Fds.{close_fds, task_fds_clear}
use knit_os.Sched.Slots.{user_stack_slot_release}

abbrev pub root_dir : List ℕ
root_dir = b'/' ∷ []

abbrev pub is_task : ℕ → Task → Bool
is_task id t = not (is_unused t.state) && t.id == id

unfoldable pub task_find_by_id : ℕ → List Task → Option ℕ
task_find_by_id id ts = if is_nonneg id then find_index (is_task id) ts else none

-- `cr3` and `stack_slot` go back if they are set.
abbrev pub freed_dir : ℕ → World → World
freed_dir cr3 w = if cr3 == 0 then w else record_call (free_dir cr3) w

abbrev pub freed_slot : ℕ → List ℕ → List ℕ
freed_slot slot refs = if is_nonneg slot then user_stack_slot_release slot refs else refs

-- What is left of a task that has shut its descriptors.
abbrev pub left_of : List Fd → Task → Task
left_of fds t = record t {
  fds = fds;
  cr3 = 0;
  stack_slot = if is_nonneg t.stack_slot then minus_one else t.stack_slot;
}

-- What `task_resources_cleanup` does with the task that it finds, the descriptors first.
abbrev pub given_up : ℕ → Task → List Fd × World → System → System
given_up i t (fds, w) s = record s {
  tasks = modify s.tasks i (left_of fds);
  slot_refs = freed_slot t.stack_slot s.slot_refs;
  world = freed_dir t.cr3 w;
}

abbrev pub cleanup_at : ℕ → Task → System → System
cleanup_at i t s = given_up i t (close_fds t.fds s.world) s

-- The task, if there is one.
abbrev pub cleanup_found : Option ℕ → System → System
cleanup_found none s = s
cleanup_found (some i) s = elim (get_elem? s.tasks i) [ none ↦ s | some t ↦ cleanup_at i t s ]

unfoldable pub task_resources_cleanup : ℕ → System → System
task_resources_cleanup pid s =
    if is_nonneg pid
    then cleanup_found (find_index (is_task pid) s.tasks)
        (with_world (record_call (close_sockets_of pid)) s)
    else s

abbrev pub cleared : Task → Task
cleared t = task_fds_clear (record t {
  stack = none;
  state = unused;
  id = 0;
  esp = 0;
  entry = 0;
  arg = 0;
  name = [];
  runs = 0;
  cpu_ticks = 0;
  wake_ms = 0;
  wait_reason = wait_none;
  is_idle = false;
  parent_pid = minus_one;
  cwd = root_dir;
  cr3 = 0;
  is_user = false;
  uid = 0;
  stack_slot = minus_one;
})

-- `free` of a null pointer does nothing, as does the guard before it.
abbrev pub free_stack : Option ℕ → World → World
free_stack stack w = record w { heap = free stack w.heap }

unfoldable pub task_slot_clear : ℕ → System → System
task_slot_clear i s = elim (get_elem? s.tasks i) [
  | none ↦ s
  | some t ↦ update i cleared (
      with_world (free_stack t.stack) (
        if not (is_unused t.state) && not (t.id == systemd)
        then task_resources_cleanup t.id s
        else s))
]

abbrev pub zombie_at : List Task → ℕ → Bool
zombie_at = holds_at (λ t. is_zombie t.state)

abbrev pub unused_at : List Task → ℕ → Bool
unused_at = holds_at (λ t. is_unused t.state)

-- The loop of `task_alloc_slot` at index `i`, with `left` slots to go.
unfoldable pub alloc_from : ℕ → ℕ → System → Option ℕ × System
alloc_from zero i s = (none, s)
alloc_from (suc left) i s =
    let s = (if zombie_at s.tasks i then task_slot_clear i s else s) in
    elim (unused_at s.tasks i) [ true ↦ (some i, s) | false ↦ alloc_from left (i + 1) s ]

unfoldable pub task_alloc_slot : System → Option ℕ × System
task_alloc_slot = alloc_from task_max 0

-- Byte `i` of a 32-bit word in memory.
abbrev byte_of : ℕ → ℕ → ℕ
byte_of v i = v / 256 ^ i % 256

-- The five words at the top of a new stack: four zeros below the address of `task_trampoline`.
abbrev pub task_setup_stack : ℕ → World → World
task_setup_stack stack w = record w {
  heap = record (w.heap) {
    mem =
        store_range (stack + task_stack_size - 20) 20
          (λ i. if ltb i 16 then 0 else byte_of w.trampoline (i - 16)) w.heap.mem;
  };
}
