-- ===== src/Sched/Fds.antt =====
-- The descriptors of kernel/sched/task.cpp: `task_fd_*`, `task_attach_pty_slave` and the copy that a
-- fork makes, over the pipes and ptys that they refer to.
use knit_os.Base.{
  ℕ, List, [], ◌∷◌, Bool, true, false, not, ◌&&◌, ◌||◌, Option, none, some, get_elem?, set,
  replicate, leb, ◌==◌, if◌then◌else◌, find_index,
}
use knit_os.Ipc.Pipe.{pipe_close, pipe_ref}
use knit_os.Ipc.Pty.{pty_ref, pty_unref}
use knit_os.Sched.{
  FdType, fd_none, fd_sock, fd_file, fd_pipe_r, fd_pipe_w, fd_pty_m, fd_pty_s, Fd, Task, World,
  System, Result, ok, error, close_socket, release_file, task_fd_max, minus_one, is_nonneg,
  is_unused, record_call, with_world, update,
}
use knit_os.Sched.Strings.{task_copy_str}

abbrev pub is_none : FdType → Bool
is_none fd_none = true
is_none k = false

abbrev pub no_fd : Fd
no_fd = record { kind = fd_none; handle = minus_one; path = [] }

abbrev pub task_fds_clear : Task → Task
task_fds_clear t = record t { fds = replicate task_fd_max no_fd }

-- The release of what a descriptor refers to, without the sockets.
unfoldable pub release : Fd → World → World
release fd w = elim (fd.kind) [
  | fd_file ↦ if is_nonneg fd.handle then record_call (release_file fd.handle) w else w
  | fd_pipe_r ↦ record w { pipes = pipe_close w.pipes fd.handle false }
  | fd_pipe_w ↦ record w { pipes = pipe_close w.pipes fd.handle true }
  | fd_pty_m ↦ record w { ptys = pty_unref w.ptys fd.handle true }
  | fd_pty_s ↦ record w { ptys = pty_unref w.ptys fd.handle false }
  | _ ↦ w
]

-- One more reference to what a descriptor refers to.
unfoldable pub refer : Fd → World → World
refer fd w = elim (fd.kind) [
  | fd_pipe_r ↦ record w { pipes = pipe_ref w.pipes fd.handle false }
  | fd_pipe_w ↦ record w { pipes = pipe_ref w.pipes fd.handle true }
  | fd_pty_m ↦ record w { ptys = pty_ref w.ptys fd.handle true }
  | fd_pty_s ↦ record w { ptys = pty_ref w.ptys fd.handle false }
  | _ ↦ w
]

-- A write to the descriptor `fd` of the task `i`.
abbrev pub put_fd : ℕ → ℕ → Fd → System → System
put_fd i fd e = update i (λ t. record t { fds = set t.fds fd e })

unfoldable pub task_fd_alloc : FdType → ℕ → Option (List ℕ) → System → Result ℕ × System
task_fd_alloc kind handle path s = elim (s.current) [
  | none ↦ (error 1, s)
  | some i ↦ elim (get_elem? s.tasks i) [
    | none ↦ (error 1, s)
    | some t ↦ elim (find_index (λ e. is_none e.kind) t.fds) [
      | none ↦ (error 1, s)
      | some fd ↦ (
        ok fd,
        put_fd i fd (record { kind = kind; handle = handle; path = task_copy_str 64 path }) s,
      )
    ]
  ]
]

-- `socket_close` for a socket, the release for all else.
unfoldable pub close_entry : Fd → World → World
close_entry e w = elim (e.kind) [
  | fd_sock ↦ if is_nonneg e.handle then record_call (close_socket e.handle) w else w
  | _ ↦ release e w
]

-- The entry of the current task at a descriptor, past the guards of `task_fd_close` and
-- `task_fd_get`, with the task's index.
unfoldable pub open_fd : ℕ → System → Option (ℕ × Fd)
open_fd fd s = elim (s.current) [
  | none ↦ none
  | some i ↦ elim (get_elem? s.tasks i) [
    | none ↦ none
    | some t ↦ if leb task_fd_max fd then none else elim (get_elem? t.fds fd) [
      | none ↦ none
      | some e ↦ if is_none e.kind then none else some (i, e)
    ]
  ]
]

unfoldable pub task_fd_close : ℕ → System → Result (Unit {0}) × System
task_fd_close fd s = elim (open_fd fd s) [
  | none ↦ (error 1, s)
  | some ie ↦ (ok tt, put_fd (ie.0) fd no_fd (with_world (close_entry (ie.1)) s))
]

unfoldable pub task_fd_get : ℕ → System → Result (FdType × ℕ)
task_fd_get fd s = elim (open_fd fd s) [ none ↦ error 1 | some ie ↦ ok (ie.1.kind, ie.1.handle) ]

-- What `task_fd_close_all` leaves of an entry: the handle only of a pipe or a pty.
abbrev pub shut : Fd → Fd
shut e = elim (e.kind) [
  | fd_sock ↦ record {
    kind = fd_none;
    handle = if is_nonneg e.handle then minus_one else e.handle;
    path = [];
  }
  | fd_file ↦ record {
    kind = fd_none;
    handle = if is_nonneg e.handle then minus_one else e.handle;
    path = [];
  }
  | _ ↦ record { kind = fd_none; handle = e.handle; path = [] }
]

-- The loop of `task_fd_close_all`.
unfoldable pub close_fds : List Fd → World → List Fd × World
close_fds [] w = ([], w)
close_fds (e ∷ es) w = let (es', w') = close_fds es (release e w) in (shut e ∷ es', w')

abbrev can_dup : FdType → Bool
can_dup fd_none = false
can_dup fd_sock = false
can_dup fd_file = false
can_dup k = true

-- The old entry of `newfd` goes: a socket without being closed, all else by `task_fd_close`.
unfoldable pub vacate : ℕ → ℕ → System → System
vacate i newfd s = elim (open_fd newfd s) [
  | none ↦ s
  | some ie ↦ put_fd i newfd no_fd (with_world (release (ie.1)) s)
]

-- The entry of `oldfd` is copied from its place, after `newfd` has been closed.
unfoldable pub task_fd_dup2 : ℕ → ℕ → System → Result ℕ × System
task_fd_dup2 oldfd newfd s = elim (s.current) [
  | none ↦ (error 1, s)
  | some _ ↦
      if leb task_fd_max oldfd || leb task_fd_max newfd
      then (error 1, s)
      else if oldfd == newfd
      then (ok newfd, s)
      else elim (open_fd oldfd s) [
        | none ↦ (error 1, s)
        | some ie ↦
            if can_dup ie.1.kind
            then (
              ok newfd,
              put_fd (ie.0) newfd (ie.1) (vacate (ie.0) newfd (with_world (refer (ie.1)) s)),
            )
            else (error 1, s)
      ]
]

-- The loop over the descriptors 0, 1 and 2 in `task_attach_pty_slave`.
abbrev pub attach : ℕ → ℕ → List ℕ → System → System
attach pty i [] s = s
attach pty i (f ∷ fs) s = attach pty i fs (
    put_fd i f (record { kind = fd_pty_s; handle = pty; path = [] })
      (with_world (refer (record { kind = fd_pty_s; handle = pty; path = [] })) s))

unfoldable pub task_attach_pty_slave : ℕ → ℕ → System → Result (Unit {0}) × System
task_attach_pty_slave pid pty s =
    elim (find_index (λ t. not (is_unused t.state) && t.id == pid) s.tasks) [
      | none ↦ (error 1, s)
      | some i ↦ (ok tt, attach pty i (0 ∷ 1 ∷ 2 ∷ []) s)
    ]
