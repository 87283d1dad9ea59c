-- ===== src/Sched/Create/Birth.antt =====
-- What `task_create` makes, and what it leaves alone.
use mathlib.Core.Option.{some-injective}
use knit_os.Base.{
  ℕ, ◌≡◌, ◌≢◌, ◌<◌, refl, sym, ap, ◌∙◌, List, true, false, Option, none, some, ◌⊎◌, inl, inr,
  get_elem?, arith, Option-cases, ==_of_ne, get_elem?-modify_self, get_elem?-modify_ne,
  holds_at_cases,
}
use knit_os.Memory.Heap.{malloc}
use knit_os.Sched.{
  Task, ready, System, Result, ok, error, task_max, task_stack_size, is_unused, inc, current_task,
}
use knit_os.Sched.Table.{task_alloc_slot}
use knit_os.Sched.Table.Alloc.{IsDistinct}
use knit_os.Sched.Table.Take.{Frames, Taken, without, task_alloc_slot-Taken}
use knit_os.Sched.Create.{stack_alloc, id_of, created_task, create_in, task_create}
use knit_os.Sched.Kill.Descendants.{is_live}

-- Every task that lives is as it was.
abbrev pub KeepsLive : System → System → Type 0
KeepsLive s s' =
    (j : ℕ) (t : Task)
    → get_elem? s.tasks j ≡ some t
    → is_live t ≡ true
    → get_elem? s'.tasks j ≡ some t

-- A new task `t` with the next id, a child of `parent`, stands in the slot `i`, where no task lived,
-- ready to run `entry` with `arg` on a new stack of the heap.
pub record IsBorn (s s' : System) (parent : Task) (e a i : ℕ) (t : Task) : Type 0 where
  pub here : get_elem? s'.tasks i ≡ some t
  pub id : t.id ≡ s.next_id
  pub state : t.state ≡ ready
  pub entry : t.entry ≡ e
  pub arg : t.arg ≡ a
  pub stack :
      (p : ℕ) × (dead : Task) × (t.stack ≡ some p)
      × (get_elem? s.tasks i ≡ some dead)
      × (is_live dead ≡ false)
      × ((malloc task_stack_size (without dead s.world.heap)).0 ≡ some p)
  pub parent_pid : t.parent_pid ≡ parent.id
  pub counted : s'.next_id ≡ inc s.next_id
  pub current : s'.current ≡ s.current

-- Why there is no new task: every task of the table lives, or the heap has no room for a stack even
-- once the stack of the dead task whose slot is taken is given back.
abbrev pub IsRefused : System → Type 0
IsRefused s =
    ((j : ℕ) (t : Task) → j < task_max → get_elem? s.tasks j ≡ some t → is_live t ≡ true)
    ⊎ ((j : ℕ) × (t : Task) × (get_elem? s.tasks j ≡ some t)
        × (is_live t ≡ false)
        × ((malloc task_stack_size (without t s.world.heap)).0 ≡ none))

-- The outcome of a creation.
abbrev pub Creates : System → Task → ℕ → ℕ → Result ℕ × System → Type 0
Creates s parent entry arg (error n, s') =
    (n ≡ 1) × KeepsLive s s' × (s'.next_id ≡ s.next_id) × IsRefused s
Creates s parent entry arg (ok id, s') =
    (id ≡ s.next_id) × KeepsLive s s' × (i : ℕ) × (t : Task) × IsBorn s s' parent entry arg i t

module _ (s : System) {c : ℕ} {parent : Task} (cur : s.current ≡ some c)
    (at : get_elem? s.tasks c ≡ some parent) (alive : is_live parent ≡ true) (entry arg : ℕ)
    (name : Option (List ℕ)) where
  make : System → ℕ → ℕ → Task → Task
  make s' id p = created_task (current_task s') id p entry arg name

  create_in-Creates :
      (r : Option ℕ × System)
      → Taken task_max 0 s r
      → Creates s parent entry arg (create_in (make r.1) r)
  unfolding make
  create_in-Creates (none, s') (same, full) = (
    refl,
    λ j t at_j live. rw same at_j,
    ap (λ x. x.next_id) same,
    inl (λ j t below at_j. full j t (omega arith) (omega arith) at_j),
  )
  create_in-Creates (some i, s') (f, free, (dead, at_dead, gone, heap)) =
      elim (Option-cases (stack_alloc s').0) [
        | inl e ↦
            rw (e, create_in) (refl, f.keeps, f.next_id, inr (i, dead, at_dead, gone, rw heap at e))
        | inr (p, e) ↦
            let (old, at_i, is_free) =
              holds_at_cases (λ (x : Task). is_unused x.state) s'.tasks i free in
            rw (e, create_in)
              (
                f.next_id,
                λ j t at_j live.
                    get_elem?-modify_ne s'.tasks i j _ (elsewhere s' i f is_free at_i j t at_j live)
                    ∙ f.keeps j t at_j live,
                i,
                make s' s'.next_id p old,
                record {
                  entry = refl;
                  arg = refl;
                  stack = (p, dead, refl, at_dead, gone, rw heap at e);
                  here = get_elem?-modify_self s'.tasks i _ at_i;
                  id = f.next_id;
                  state = refl;
                  parent_pid = ap id_of (parent_now s' f);
                  counted = ap inc f.next_id;
                  current = f.current;
                },
              )
      ]
    where
      -- A task that lives stands in another slot.
      elsewhere :
          (s' : System) (i : ℕ) {old : Task}
          → Frames s s'
          → is_unused old.state ≡ true
          → get_elem? s'.tasks i ≡ some old
          → (j : ℕ) (t : Task) → get_elem? s.tasks j ≡ some t
          → is_live t ≡ true
          → i ≢ j
      elsewhere s' i {old} f is_free at_i j t at_j live same =
          let there : get_elem? s'.tasks i ≡ some t = rw same (f.keeps j t at_j live) in
          let one : old.state ≡ t.state =
            ap (λ (x : Task). x.state) (some-injective old t (sym at_i ∙ there)) in
          ground (arith, one, is_free, live)

      parent_now : (s' : System) → Frames s s' → current_task s' ≡ some parent
      parent_now s' f =
          let still : s'.current ≡ some c = f.current ∙ cur in rw still (f.keeps c parent at alive)

  -- While the current task lives and no two tasks in use have one id, `task_create` either makes a
  -- task with the next id, a child of the current task, ready to run the given function with its
  -- argument on a new stack, in a slot where no task lived; or it fails with -1 and takes no id,
  -- because every task of the table lives, or because the heap has no room for a stack even once that
  -- of the dead task whose slot is taken is given back. No task that lives changes.
  pub task_create-Creates :
      IsDistinct s.tasks
      → s.is_started ≡ true
      → entry ≢ 0
      → Creates s parent entry arg (task_create entry arg name s)
  unfolding task_create make
  task_create-Creates distinct start real =
      let null = ==_of_ne entry 0 real in
      simp (start, null) (create_in-Creates (task_alloc_slot s) (task_alloc_slot-Taken s distinct))
