-- ===== src/Sched/Queries.antt =====
-- The small calls of kernel/sched/task.cpp on the table of tasks, and `task_exec`. `dir` is the result
-- of `paging_create_identity_dir`, and `program` what the entry point does until it returns.
use knit_os.Base.{
  ℕ, List, Bool, true, false, not, ◌&&◌, ◌||◌, Option, none, some, get_elem?, ◌==◌, if◌then◌else◌,
  find_index,
}
use knit_os.Sched.{
  Task, System, Result, ok, error, load_cr3, systemd, minus_one, is_nonneg, is_unused, is_zombie,
  record_call, with_world, update,
}
use knit_os.Sched.Strings.{task_copy_name}
use knit_os.Sched.Switch.{count_if}
use knit_os.Sched.Table.{is_task, task_find_by_id}
use knit_os.Sched.Create.{id_of}
use knit_os.Sched.Kill.{is_current, task_exit}

pub sched_current_id : System → ℕ
sched_current_id s =
    if s.is_started
    then elim (s.current) [ none ↦ minus_one | some i ↦ id_of (get_elem? s.tasks i) ]
    else minus_one

pub sched_task_count : System → ℕ
sched_task_count s = count_if (λ t. not (is_unused t.state)) s.tasks

pub task_alive : ℕ → System → Bool
task_alive pid s =
    if is_nonneg pid
    then elim (find_index (is_task pid) s.tasks) [
      | none ↦ false
      | some i ↦ elim (get_elem? s.tasks i) [ none ↦ false | some t ↦ not (is_zombie t.state) ]
    ]
    else false

pub task_set_idle : ℕ → System → Result (Unit {0}) × System
task_set_idle id s =
    if s.is_started
    then elim (task_find_by_id id s.tasks) [
      | none ↦ (error 1, s)
      | some i ↦ (ok tt, update i (λ t. record t { is_idle = true }) s)
    ]
    else (error 1, s)

pub task_enable_aspace : ℕ → ℕ → System → Result (Unit {0}) × System
task_enable_aspace id dir s =
    if s.is_started
    then elim (task_find_by_id id s.tasks) [
      | none ↦ (error 1, s)
      | some i ↦ elim (get_elem? s.tasks i) [
        | none ↦ (error 1, s)
        | some t ↦ if not (t.cr3 == 0) || dir == 0 then (error 1, s) else (
          ok tt,
          with_world (λ w. if is_current s.current i then record_call (load_cr3 dir) w else w)
              (update i (λ t. record t { cr3 = dir }) s),
        )
      ]
    ]
    else (error 1, s)

abbrev renamed : Option (List ℕ) → Task → Task
renamed none t = t
renamed (some n) t = record t { name = task_copy_name (some n) }

-- On success the call does not return: the program runs, and the task exits.
pub task_exec : (System → System) → ℕ → ℕ → Option (List ℕ) → System → Result (Unit {0}) × System
task_exec program entry arg name s =
    if s.is_started && not (entry == 0)
    then elim (s.current) [
      | none ↦ (error 1, s)
      | some i ↦ elim (get_elem? s.tasks i) [
        | none ↦ (error 1, s)
        | some t ↦ if t.id == systemd || t.is_idle then (error 2, s) else (
          ok tt,
          task_exit
              (program (update i (λ t. renamed name (record t { entry = entry; arg = arg })) s)),
        )
      ]
    ]
    else (error 1, s)
