-- ===== src/Sched/Spawn.antt =====
-- User processes in kernel/sched/task.cpp: `task_spawn_user_uid` from an ELF image, and
-- `task_fork_user`. `dir` is the result of `paging_create_identity_dir` or `paging_clone_dir_deep`,
-- and `frame` the user's `eip` and `esp` in the frame of the system call. The registers that a fork
-- saves for the child are not part of the state.
use knit_os.Base.{
  ℕ, zero, suc, ◌+◌, ◌-◌, ◌*◌, ◌/◌, List, [], ◌∷◌, true, false, not, ◌||◌, Option, none, some,
  get_elem?, length, ltb, ◌==◌, if◌then◌else◌,
}
use knit_os.Exec.Elf.{elf32_load, elf32_user_ranges}
use knit_os.Sched.{
  Task, unused, Fd, World, System, Result, ok, error, free_dir, mark_user_pde, privatize_user_pde,
  task_stack_size, task_cwd_max, inc, record_call, with_world, update, current_task,
}
use knit_os.Sched.Strings.{task_copy_str, task_copy_name}
use knit_os.Sched.Fds.{task_fds_clear, refer}
use knit_os.Sched.Slots.{slot_step, user_stack_slot_alloc, user_stack_slot_top, user_stack_slot_ref}
use knit_os.Sched.Table.{task_alloc_slot, task_resources_cleanup, free_stack}
use knit_os.Sched.Create.{stack_alloc, begun, install, or_name, id_of, cwd_of}

abbrev user_name : List ℕ
user_name = b'u' ∷ b's' ∷ b'e' ∷ b'r' ∷ []

-- The address of `user_task_trampoline`, and that of `user_fork_trampoline`.
module _ (trampoline : ℕ) where
  abbrev pub spawned_task : Option Task → ℕ → ℕ → ℕ → ℕ → ℕ → Option (List ℕ) → ℕ → Task → Task
  spawned_task cur dir entry slot id stack name uid t =
      task_fds_clear (record (begun id stack trampoline 0 t) {
        parent_pid = id_of cur;
        cr3 = dir;
        is_user = true;
        user_entry = entry;
        stack_slot = slot;
        user_stack = user_stack_slot_top slot;
        kstack_top = stack + task_stack_size;
        uid = uid;
        gid = uid;
        name = task_copy_name (or_name user_name name);
        cwd = cwd_of cur;
      })

  -- What is left in the slot when there is no stack slot for the process.
  abbrev pub refused_task : Option Task → ℕ → ℕ → ℕ → Task → Task
  refused_task cur entry id stack t = record (begun id stack trampoline 0 t) {
    esp = t.esp;
    state = unused;
    parent_pid = id_of cur;
    cr3 = 0;
    is_user = true;
    user_entry = entry;
  }

  -- The loop over the pages of the segments from `va` on; 1024 pages make up the address space.
  unfoldable pub mark_pages : ℕ → ℕ → ℕ → ℕ → World → World
  mark_pages zero dir va hi w = w
  mark_pages (suc left) dir va hi w = elim (ltb va hi) [
    | false ↦ w
    | true ↦ mark_pages left dir (va + slot_step) hi (
        record_call (privatize_user_pde dir (va / slot_step))
          (record_call (mark_user_pde dir (va / slot_step)) w))
  ]

  -- The pages of the segments and of the stack, or the refusal of the image.
  abbrev pub isolate : List ℕ → ℕ → ℕ → ℕ → ℕ → System → Result ℕ × System
  isolate img dir slot i id s = elim (elf32_user_ranges img) [
    | none ↦ (error 6, update i (λ t. record t { state = unused }) (task_resources_cleanup id s))
    | some r ↦ (
      ok id,
      with_world
          (λ w.
            record_call (mark_user_pde dir ((user_stack_slot_top slot - slot_step) / slot_step))
              (mark_pages 1024 dir (r.0 / slot_step * slot_step) r.1 w))
          s,
    )
  ]

  -- From the kernel stack and the page directory on.
  abbrev pub spawn_on : List ℕ → Option (List ℕ) → ℕ → ℕ → ℕ → ℕ → ℕ → System → Result ℕ × System
  spawn_on img name uid dir entry i p s =
      let cur = current_task s in
      let (slot, refs, next) = user_stack_slot_alloc s.slot_refs s.slot_next in
      elim slot [
        | none ↦ (
          error 5,
          with_world (λ w. free_stack (some p) (record_call (free_dir dir) w))
              (update i (refused_task cur entry s.next_id p)
                (record s { next_id = inc s.next_id })),
        )
        | some idx ↦ isolate img dir idx i s.next_id (
            install i p (λ t. spawned_task cur dir entry idx s.next_id p name uid t)
              (record s { slot_refs = refs; slot_next = next }))
      ]

  abbrev no_stack : Option ℕ → System → System
  no_stack p s = with_world (free_stack p) s

  -- From the slot of the task on.
  abbrev pub spawn_in : List ℕ → Option (List ℕ) → ℕ → ℕ → ℕ → Option ℕ × System → Result ℕ × System
  spawn_in img name uid dir entry (none, s) = (error 4, s)
  spawn_in img name uid dir entry (some i, s) =
      let (p, s) = stack_alloc s in
      elim p [
        | none ↦ (error 5, update i (λ t. record t { state = unused }) s)
        | some q ↦
            if dir == 0
            then (error 5, update i (λ t. record t { state = unused }) (no_stack (some q) s))
            else spawn_on img name uid dir entry i q s
      ]

  unfoldable pub task_spawn_user_uid : List ℕ → Option (List ℕ) → ℕ → ℕ → System → Result ℕ × System
  task_spawn_user_uid img name uid dir s =
      if not s.is_started || ltb (length img) 16
      then (error 1, s)
      else let (loaded, entry) = elf32_load img s.world.memory in
        let s = with_world (λ w. record w { memory = loaded.1 }) s in
        elim entry [
          | none ↦ (error 2, s)
          | some e ↦
              if e == 0 then (error 3, s) else spawn_in img name uid dir e (task_alloc_slot s)
        ]

  abbrev pub task_uid_user : ℕ
  task_uid_user = 1000

  pub task_spawn_user : List ℕ → Option (List ℕ) → ℕ → System → Result ℕ × System
  unfolding task_spawn_user_uid
  task_spawn_user img name dir s = task_spawn_user_uid img name task_uid_user dir s

  abbrev pub fork_user_task : Task → ℕ → ℕ → ℕ → ℕ → ℕ → Task → Task
  fork_user_task parent dir eip esp id stack t = record (begun id stack trampoline 0 t) {
    parent_pid = parent.id;
    cr3 = dir;
    is_user = true;
    user_entry = eip;
    user_stack = esp;
    stack_slot = parent.stack_slot;
    kstack_top = stack + task_stack_size;
    uid = parent.uid;
    gid = parent.gid;
    name = task_copy_name (some parent.name);
    cwd = task_copy_str task_cwd_max (some parent.cwd);
    fds = parent.fds;
  }

  -- `pipe_ref` and `pty_ref` for each descriptor that the child gets.
  abbrev pub refer_all : List Fd → World → World
  refer_all [] w = w
  refer_all (e ∷ es) w = refer_all es (refer e w)

  abbrev pub fork_user_in : Task → ℕ → ℕ → ℕ → Option ℕ × System → Result ℕ × System
  fork_user_in parent dir eip esp (none, s) = (error 4, s)
  fork_user_in parent dir eip esp (some i, s) =
      let (p, s) = stack_alloc s in
      elim p [
        | none ↦ (
          error 5,
          update i (λ t. record t { state = unused })
              (if dir == 0 then s else with_world (record_call (free_dir dir)) s),
        )
        | some q ↦
            if dir == 0
            then (error 5, update i (λ t. record t { state = unused }) (no_stack (some q) s))
            else (
              ok s.next_id,
              install i q (fork_user_task parent dir eip esp s.next_id q) (
                  with_world (refer_all parent.fds)
                    (record s { slot_refs = user_stack_slot_ref parent.stack_slot s.slot_refs })),
            )
      ]

  unfoldable pub task_fork_user : Option (ℕ × ℕ) → ℕ → System → Result ℕ × System
  task_fork_user frame dir s = if not s.is_started then (error 1, s) else elim (s.current) [
    | none ↦ (error 1, s)
    | some c ↦ elim (get_elem? s.tasks c) [
      | none ↦ (error 1, s)
      | some cur ↦ if not cur.is_user then (error 1, s) else elim frame [
        | none ↦ (error 2, s)
        | some f ↦
            if f.0 == 0 || f.1 == 0
            then (error 3, s)
            else let slot = task_alloc_slot s in
              elim (get_elem? slot.1.tasks c) [
                | none ↦ (error 4, slot.1)
                | some parent ↦ fork_user_in parent dir (f.0) (f.1) slot
              ]
      ]
    ]
  ]
