-- ===== src/Sched.antt =====
-- kernel/sched/task.h and the static state of kernel/sched/task.cpp. An `int` is its 32-bit
-- pattern, so -1 is `minus_one`; a pointer to a task is its index in `g_tasks`; a C string is the
-- list of its bytes before the NUL. The calls that leave the scheduler act on a `World`: the heap,
-- the pipes and the ptys are the models of Memory and Ipc, calls of other parts are recorded.
pub mod Strings
pub mod Fds
pub mod Slots
pub mod Switch
pub mod Pick
pub mod Yield
pub mod Fair
pub mod Table
pub mod Create
pub mod Spawn
pub mod Kill
pub mod Identity
pub mod Block
pub mod Slice
pub mod Queries
pub mod Tests
use knit_os.Base.{
  ℕ, zero, suc, ◌+◌, ◌*◌, ◌%◌, ◌^◌, Bool, true, false, not, ◌&&◌, Option, none, some, List, [], ◌∷◌,
  ◌++◌, get_elem?, ltb, ◌==◌, modify,
}
use knit_os.Memory.Heap.{Heap}
use knit_os.Ipc.Pipe.{Pipe}
use knit_os.Ipc.Pty.{Pty}

abbrev pub task_max : ℕ
task_max = 32

abbrev pub task_fd_max : ℕ
task_fd_max = 16

abbrev pub task_stack_size : ℕ
task_stack_size = 16384

abbrev pub task_name_max : ℕ
task_name_max = 16

abbrev pub task_cwd_max : ℕ
task_cwd_max = 128

abbrev pub task_slice_ticks : ℕ
task_slice_ticks = 4

-- The process id of `systemd`.
abbrev pub systemd : ℕ
systemd = 0

abbrev pub minus_one : ℕ
minus_one = 4294967295

abbrev pub is_nonneg : ℕ → Bool
is_nonneg n = ltb n 2147483648

-- `x++` on 32 bits.
abbrev pub inc : ℕ → ℕ
inc n = (n + 1) % 4294967296

pub data FdType : Type 0 where
  fd_none fd_sock fd_file fd_pipe_r fd_pipe_w fd_pty_m fd_pty_s : FdType

pub record Fd : Type 0 where
  pub kind : FdType
  pub handle : ℕ
  pub path : List ℕ

pub data TaskState : Type 0 where
  unused ready running blocked zombie : TaskState

pub data WaitReason : Type 0 where
  wait_none wait_sleep wait_net : WaitReason

-- `entry` and `arg` are machine words; `stack` is a block of the heap.
pub record Task : Type 0 where
  pub id : ℕ
  pub state : TaskState
  pub esp : ℕ
  pub stack : Option ℕ
  pub entry : ℕ
  pub arg : ℕ
  pub name : List ℕ
  pub runs : ℕ
  pub cpu_ticks : ℕ
  pub wake_ms : ℕ
  pub wait_reason : WaitReason
  pub is_idle : Bool
  pub parent_pid : ℕ
  pub cwd : List ℕ
  pub fds : List Fd
  pub cr3 : ℕ
  pub is_user : Bool
  pub user_entry : ℕ
  pub user_stack : ℕ
  pub stack_slot : ℕ
  pub kstack_top : ℕ
  pub uid : ℕ
  pub gid : ℕ

-- The calls of parts that are not modelled, in the order in which they are made.
pub data Call : Type 0 where
  close_sockets_of : ℕ → Call
  close_socket : ℕ → Call
  release_file : ℕ → Call
  free_dir : ℕ → Call
  load_cr3 : ℕ → Call
  set_user_esp0 : ℕ → Call
  mark_user_pde : ℕ → ℕ → Call
  privatize_user_pde : ℕ → ℕ → Call

pub record World : Type 0 where
  pub heap : Heap
  pub pipes : List Pipe
  pub ptys : List Pty
  pub memory : ℕ → ℕ
  pub calls : List Call
  pub trampoline : ℕ
  pub kernel_cr3 : ℕ

pub record System : Type 0 where
  pub tasks : List Task
  pub current : Option ℕ
  pub is_started : Bool
  pub next_id : ℕ
  pub yield_count : ℕ
  pub need_resched : Bool
  pub slice_left : ℕ
  pub wake_count : ℕ
  pub net_wake_count : ℕ
  pub slot_refs : List ℕ
  pub slot_next : ℕ
  pub world : World

-- A negative result is its magnitude.
pub data Result {ℓ} (A : Type ℓ) : Type ℓ where
  ok : A → Result A
  error : ℕ → Result A

abbrev pub is_unused : TaskState → Bool
is_unused unused = true
is_unused s = false

abbrev pub is_ready : TaskState → Bool
is_ready ready = true
is_ready s = false

abbrev pub is_running : TaskState → Bool
is_running running = true
is_running s = false

abbrev pub is_blocked : TaskState → Bool
is_blocked blocked = true
is_blocked s = false

abbrev pub is_zombie : TaskState → Bool
is_zombie zombie = true
is_zombie s = false

abbrev pub record_call : Call → World → World
record_call c w = record w { calls = w.calls ++ c ∷ [] }

abbrev pub with_world : (World → World) → System → System
with_world f s = record s { world = f s.world }

-- A write through a pointer to a task.
abbrev pub update : ℕ → (Task → Task) → System → System
update i f s = record s { tasks = modify s.tasks i f }

-- `g_current`, if it is set.
abbrev pub current_task : System → Option Task
current_task s = elim s.current [ none ↦ none | some i ↦ get_elem? s.tasks i ]
