-- ===== src/Sched/Identity.antt =====
-- The user and group of a task and its working directory in kernel/sched/task.cpp. `none` as a result
-- is -1; `is_dir` is what `vfs_stat` says of a path.
pub mod Rights
use knit_os.Base.{
  ℕ, zero, suc, ◌+◌, ◌-◌, List, [], ◌∷◌, ◌++◌, Bool, true, false, not, ◌&&◌, ◌||◌, Option, none,
  some, get_elem?, modify, take, length, get_or, ◌==◌, ltb, if◌then◌else◌, find_index,
}
use knit_os.Sched.{Task, System, task_cwd_max, is_unused, update, current_task}
use knit_os.Sched.Strings.{task_copy_str}
use knit_os.Sched.Table.{root_dir, is_task, task_find_by_id}

abbrev pub of_current : ℕ → (Task → ℕ) → System → ℕ
of_current d f s = elim (current_task s) [ none ↦ d | some t ↦ f t ]

abbrev pub task_getuid : System → ℕ
task_getuid = of_current 0 (λ t. t.uid)

abbrev pub task_getgid : System → ℕ
task_getgid = of_current 0 (λ t. t.gid)

-- A write to the current task, if it is there and allowed.
unfoldable pub set_current : (Task → Bool) → (Task → Task) → System → Option System
set_current allowed f s = elim (s.current) [
  | none ↦ none
  | some i ↦ elim (get_elem? s.tasks i) [
    | none ↦ none
    | some t ↦ if allowed t then some (update i f s) else none
  ]
]

unfoldable pub task_setuid : ℕ → System → Option System
task_setuid uid = set_current (λ t. t.uid == 0 || t.uid == uid) (λ t. record t { uid = uid })

unfoldable pub task_setuid_force : ℕ → System → Option System
task_setuid_force uid = set_current (λ t. true) (λ t. record t { uid = uid })

unfoldable pub task_setgid : ℕ → System → Option System
task_setgid gid = set_current (λ t. t.uid == 0 || t.gid == gid) (λ t. record t { gid = gid })

unfoldable pub task_setgid_force : ℕ → System → Option System
task_setgid_force gid = set_current (λ t. true) (λ t. record t { gid = gid })

unfoldable pub task_setuid_pid : ℕ → ℕ → System → Option System
task_setuid_pid pid uid s = elim (current_task s) [
  | none ↦ none
  | some cur ↦
      if cur.uid == 0
      then elim (task_find_by_id pid s.tasks) [
        | none ↦ none
        | some i ↦ some (update i (λ t. record t { uid = uid }) s)
      ]
      else none
]

abbrev pub ends_in_slash : List ℕ → Bool
ends_in_slash [] = false
ends_in_slash (c ∷ []) = c == b'/'
ends_in_slash (c ∷ d ∷ cs) = ends_in_slash (d ∷ cs)

-- The separator, where the directory so far does not end in one and there is room for it.
abbrev pub with_slash : List ℕ → List ℕ
with_slash abs =
    if ltb 0 (length abs) && not (ends_in_slash abs) && ltb (length abs + 1) task_cwd_max
    then abs ++ b'/' ∷ []
    else abs

-- The path from the root that `task_chdir` makes of its argument, cut to the buffer.
abbrev pub absolute : List ℕ → List ℕ → List ℕ
absolute cwd path =
    if get_or path 0 0 == b'/'
    then task_copy_str task_cwd_max (some path)
    else let abs = with_slash (take (task_cwd_max - 1) cwd) in
      abs ++ take (task_cwd_max - 1 - length abs) path

unfoldable pub task_chdir : (List ℕ → Bool) → List ℕ → System → Option System
task_chdir is_dir [] s = none
task_chdir is_dir (c ∷ path) s = elim (current_task s) [
  | none ↦ none
  | some cur ↦
      let abs = absolute cur.cwd (c ∷ path) in
      set_current (λ _. is_dir abs) (λ t. record t { cwd = task_copy_str task_cwd_max (some abs) })
        s
]

abbrev pub task_getcwd : System → List ℕ
task_getcwd s = elim (current_task s) [ none ↦ root_dir | some t ↦ t.cwd ]

unfoldable pub task_getcwd_pid : ℕ → ℕ → System → Option (List ℕ)
task_getcwd_pid pid cap s = if ltb cap 2 then none else elim (find_index (is_task pid) s.tasks) [
  | none ↦ none
  | some i ↦ elim (get_elem? s.tasks i) [
    | none ↦ none
    | some t ↦ some (task_copy_str cap (some t.cwd))
  ]
]
