-- ===== src/Sched/Table/Cleanup.antt =====
-- `task_resources_cleanup` a second time: `task_kill`, `task_exit` and the reuse of a slot all call it
-- for the same task.
use knit_os.Base.{
  ℕ, ◌≡◌, refl, sym, ap, ◌∙◌, List, [], ◌∷◌, true, false, none, some, ◌⊎◌, inl, inr, get_elem?,
  arith, find_index, find_index_cases, get_elem?-modify_self, All, modify_same,
  find_index-modify_same,
}
use knit_os.Sched.{
  Fd, FdType, fd_none, fd_sock, fd_file, fd_pipe_r, fd_pipe_w, fd_pty_m, fd_pty_s, Task, World,
  System, close_sockets_of, is_nonneg, record_call, with_world,
}
use knit_os.Sched.Fds.{release, shut, close_fds}
use knit_os.Sched.Table.{
  is_task, freed_dir, freed_slot, left_of, given_up, cleanup_at, cleanup_found,
  task_resources_cleanup,
}

-- A descriptor that is shut refers to nothing.
abbrev IsShut : Fd → Type 0
IsShut e = (e.kind ≡ fd_none) × (e.path ≡ [])

shut_of :
    (k : FdType) (h : ℕ) (p : List ℕ) → IsShut (shut (record { kind = k; handle = h; path = p }))
shut_of fd_none h p = (refl, refl)
shut_of fd_sock h p = (refl, refl)
shut_of fd_file h p = (refl, refl)
shut_of fd_pipe_r h p = (refl, refl)
shut_of fd_pipe_w h p = (refl, refl)
shut_of fd_pty_m h p = (refl, refl)
shut_of fd_pty_s h p = (refl, refl)

release_nothing : (e : Fd) (w : World) → IsShut e → release e w ≡ w
unfolding release
release_nothing e w (k, p) = rw (k, release) refl

shut_fields :
    (h : ℕ) (p : List ℕ)
    → p ≡ []
    → shut (record { kind = fd_none; handle = h; path = p })
      ≡ record { kind = fd_none; handle = h; path = p }
shut_fields h p e = λ i. record { kind = fd_none; handle = h; path = sym e i }

shut_again : (e : Fd) → IsShut e → shut e ≡ e
shut_again e (k, p) = rw k (shut_fields e.handle e.path p)

abbrev AllShut : List Fd → Type 0
AllShut = All IsShut

close_fds-AllShut : (es : List Fd) (w : World) → AllShut (close_fds es w).0
unfolding close_fds
close_fds-AllShut [] w = tt
close_fds-AllShut (e ∷ es) w = (shut_of e.kind e.handle e.path, close_fds-AllShut es (release e w))

close_fds_again : (es : List Fd) (w : World) → AllShut es → close_fds es w ≡ (es, w)
unfolding close_fds
close_fds_again [] w h = refl
close_fds_again (e ∷ es) w (h, hs) =
    rw (release_nothing e w h, close_fds_again es w hs, shut_again e h) refl

-- A task that has nothing to give back.
record IsBare (t : Task) : Type 0 where
  fds : AllShut t.fds
  cr3 : t.cr3 ≡ 0
  slot : is_nonneg t.stack_slot ≡ false

left_of-IsBare : (t : Task) (w : World) → IsBare (left_of (close_fds t.fds w).0 t)
left_of-IsBare t w = record { fds = close_fds-AllShut t.fds w; cr3 = refl; slot = ground arith }

left_of_bare : (t : Task) → IsBare t → left_of t.fds t ≡ t
left_of_bare t b = rw b.slot (λ i. record t { cr3 = sym b.cr3 i })

-- A cleanup of such a task changes nothing.
bare_again :
    (i : ℕ) (t : Task) (s : System) → IsBare t → get_elem? s.tasks i ≡ some t → cleanup_at i t s ≡ s
bare_again i t s b at = ap (λ r. given_up i t r s) (close_fds_again t.fds s.world b.fds) ∙ λ k.
    record s {
      tasks = modify_same s.tasks i (left_of t.fds) at (left_of_bare t b) k;
      slot_refs = kept_slot k;
      world = kept_dir k;
    }
  where
    kept_slot : freed_slot t.stack_slot s.slot_refs ≡ s.slot_refs
    kept_slot = rw b.slot refl

    kept_dir : freed_dir t.cr3 s.world ≡ s.world
    kept_dir = rw b.cr3 refl

-- After a cleanup the task is found where it was, and bare.
found_again :
    (pid i : ℕ) (t : Task) (s : System)
    → find_index (is_task pid) s.tasks ≡ some i
    → get_elem? s.tasks i ≡ some t
    → (find_index (is_task pid) (cleanup_at i t s).tasks ≡ some i)
      × (get_elem? (cleanup_at i t s).tasks i ≡ some (left_of (close_fds t.fds s.world).0 t))
found_again pid i t s e at = (
  find_index-modify_same (is_task pid) s.tasks i _ (λ x. refl) ∙ e,
  get_elem?-modify_self s.tasks i _ at,
)

abbrev pub closing : ℕ → System → System
closing pid = with_world (record_call (close_sockets_of pid))

-- The search fails, or finds a bare task.
abbrev IsSettled : ℕ → System → Type 0
IsSettled pid s =
    (find_index (is_task pid) s.tasks ≡ none)
    ⊎ ((i : ℕ) × (t : Task) × (find_index (is_task pid) s.tasks ≡ some i)
        × (get_elem? s.tasks i ≡ some t)
        × IsBare t)

found-IsSettled :
    (pid : ℕ) (s : System) → IsSettled pid (cleanup_found (find_index (is_task pid) s.tasks) s)
found-IsSettled pid s = elim (find_index_cases (is_task pid) s.tasks) [
  | inl (e, _) ↦ rw (e, cleanup_found) (inl e)
  | inr (i, t, e, at, _) ↦
      let (e', at') = found_again pid i t s e at in
      let once : cleanup_found (some i) s ≡ cleanup_at i t s = rw (at, cleanup_found) refl in
      rw e (
        rw once (inr (i, left_of (close_fds t.fds s.world).0 t, e', at', left_of-IsBare t s.world)))
]

settled_again :
    (pid : ℕ) (s : System)
    → IsSettled pid s
    → cleanup_found (find_index (is_task pid) s.tasks) (closing pid s) ≡ closing pid s
settled_again pid s (inl e) = rw e refl
settled_again pid s (inr (i, t, e, at, bare)) =
    let once : cleanup_found (some i) (closing pid s) ≡ cleanup_at i t (closing pid s) =
      rw (at, cleanup_found) refl in
    rw e (once ∙ bare_again i t (closing pid s) bare at)

-- Giving back the resources of a task a second time only closes its sockets again: no pipe, pty,
-- file, page directory or stack slot is given back twice.
pub cleanup_twice :
    (pid : ℕ) (s : System)
    → is_nonneg pid ≡ true
    → task_resources_cleanup pid (task_resources_cleanup pid s)
      ≡ closing pid (task_resources_cleanup pid s)
unfolding task_resources_cleanup
cleanup_twice pid s low =
    rw (low, task_resources_cleanup) (settled_again pid _ (found-IsSettled pid (closing pid s)))
