-- ===== src/Sched/Strings.antt =====
-- The copies of names and paths in kernel/sched/task.cpp; `none` is a null pointer.
use knit_os.Base.{ℕ, ◌-◌, List, [], ◌∷◌, Option, none, some, take}
use knit_os.Sched.{task_name_max}

-- `while (src[i] && i + 1 < cap) dst[i] = src[i]`, and the NUL.
abbrev pub task_copy_str : ℕ → Option (List ℕ) → List ℕ
task_copy_str cap none = []
task_copy_str cap (some src) = take (cap - 1) src

abbrev pub task_copy_name : Option (List ℕ) → List ℕ
task_copy_name none = b'?' ∷ []
task_copy_name (some src) = take (task_name_max - 1) src
