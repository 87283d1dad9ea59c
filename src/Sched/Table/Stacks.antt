-- ===== src/Sched/Table/Stacks.antt =====
-- What `task_slot_clear` does to the heap: it gives back the stack of the task and nothing else.
use knit_os.Base.{
  ℕ, ◌≡◌, refl, ap, ◌∙◌, List, [], ◌∷◌, not, ◌&&◌, Option, none, some, inl, inr, get_elem?,
  Bool-cases, Option-cases, ◌==◌, find_index,
}
use knit_os.Memory.Heap.{free}
use knit_os.Sched.{
  FdType, fd_none, fd_sock, fd_file, fd_pipe_r, fd_pipe_w, fd_pty_m, fd_pty_s, Fd, Task, World,
  System, systemd, is_nonneg, is_unused, record_call, with_world, close_sockets_of,
}
use knit_os.Sched.Fds.{release, close_fds}
use knit_os.Sched.Table.{is_task, freed_dir, cleanup_found, task_resources_cleanup, task_slot_clear}

release-heap :
    (k : FdType) (h : ℕ) (p : List ℕ) (w : World)
    → (release (record { kind = k; handle = h; path = p }) w).heap ≡ w.heap
unfolding release
release-heap fd_none h p w = refl
release-heap fd_sock h p w = refl
release-heap fd_file h p w = elim (Bool-cases (is_nonneg h)) [
  | inl e ↦ rw e refl
  | inr e ↦ rw e refl
]
release-heap fd_pipe_r h p w = refl
release-heap fd_pipe_w h p w = refl
release-heap fd_pty_m h p w = refl
release-heap fd_pty_s h p w = refl

close_fds-heap : (es : List Fd) (w : World) → (close_fds es w).1.heap ≡ w.heap
unfolding close_fds
close_fds-heap [] w = refl
close_fds-heap (e ∷ es) w = close_fds-heap es (release e w) ∙ release-heap e.kind e.handle e.path w

freed_dir-heap : (cr3 : ℕ) (w : World) → (freed_dir cr3 w).heap ≡ w.heap
freed_dir-heap cr3 w = elim (Bool-cases (cr3 == 0)) [ inl e ↦ rw e refl | inr e ↦ rw e refl ]

found-heap : (o : Option ℕ) (s : System) → (cleanup_found o s).world.heap ≡ s.world.heap
found-heap none s = refl
found-heap (some i) s = elim (Option-cases (get_elem? s.tasks i)) [
  | inl e ↦ rw (e, cleanup_found) refl
  | inr (t, e) ↦
      rw (e, cleanup_found)
        (freed_dir-heap t.cr3 (close_fds t.fds s.world).1 ∙ close_fds-heap t.fds s.world)
]

cleanup-heap : (pid : ℕ) (s : System) → (task_resources_cleanup pid s).world.heap ≡ s.world.heap
unfolding task_resources_cleanup
cleanup-heap pid s = elim (Bool-cases (is_nonneg pid)) [
  | inl e ↦
      rw (e, task_resources_cleanup)
        (found-heap (find_index (is_task pid) s.tasks)
          (with_world (record_call (close_sockets_of pid)) s))
  | inr e ↦ rw (e, task_resources_cleanup) refl
]

pub clear-heap :
    (s : System) (i : ℕ) {t : Task}
    → get_elem? s.tasks i ≡ some t
    → (task_slot_clear i s).world.heap ≡ free t.stack s.world.heap
unfolding task_slot_clear
clear-heap s i {t} at = elim (Bool-cases (not (is_unused t.state) && not (t.id == systemd))) [
  | inl e ↦ rw (at, e, task_slot_clear) (ap (free t.stack) (cleanup-heap t.id s))
  | inr e ↦ rw (at, e, task_slot_clear) refl
]
