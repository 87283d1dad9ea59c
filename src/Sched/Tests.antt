-- ===== src/Sched/Tests.antt =====
-- A small table of tasks, and the scheduler on it.
use mathlib.Core.Option.{some-injective}
use knit_os.Base.{
  ℕ, zero, suc, ◌≡◌, ◌≢◌, ◌≤◌, ◌<◌, refl, sym, ap, ◌∙◌, List, [], ◌∷◌, ◌++◌, Bool, true, false,
  none, some, ◌⊎◌, get_elem?, replicate, take, get_or, arith, All-get,
}
use knit_os.Sched.{
  Fd, fd_none, fd_pipe_r, Task, TaskState, unused, ready, running, blocked, zombie, wait_none,
  wait_sleep, World, System, Result, ok, error, task_max, minus_one, is_nonneg, update,
}
use knit_os.Sched.Fds.{no_fd}
use knit_os.Sched.Slots.{slot_total, user_stack_slot_alloc}
use knit_os.Sched.Slots.Fresh.{user_stack_slot_alloc-fresh}
use knit_os.Sched.Switch.{running_at, sched_pick_next, sched_yield}
use knit_os.Sched.Pick.{IsNext, sched_pick_next-IsNext}
use knit_os.Sched.Yield.{OneRuns, sched_yield-OneRuns}
use knit_os.Sched.Fair.{yields, sched_yield-reaches}
use knit_os.Sched.Slice.{ticks, ticks-preempt}
use knit_os.Sched.Table.{task_find_by_id, task_resources_cleanup, zombie_at}
use knit_os.Sched.Table.Cleanup.{closing, cleanup_twice}
use knit_os.Sched.Table.Alloc.{IsDistinct}
use knit_os.Sched.Create.{task_create}
use knit_os.Sched.Create.Birth.{Creates, task_create-Creates}
use knit_os.Sched.Kill.{task_kill, task_exit}
use knit_os.Sched.Kill.Descendants.{is_live, Descends, NoChild, Buries}
use knit_os.Sched.Kill.Ranked.{Ranked}
use knit_os.Sched.Kill.Target.{task_kill-Reaches}
use knit_os.Sched.Kill.Successor.{HandsOver, task_exit-HandsOver}
use knit_os.Sched.Identity.{task_setuid, task_getuid}
use knit_os.Sched.Identity.Rights.{task_setuid-guards}

abbrev task : ℕ → TaskState → ℕ → Bool → Task
task id state parent idle = record {
  id = id;
  state = state;
  esp = 0;
  stack = none;
  entry = 4096;
  arg = 0;
  name = [];
  runs = 0;
  cpu_ticks = 0;
  wake_ms = 0;
  wait_reason = wait_none;
  is_idle = idle;
  parent_pid = parent;
  cwd = [];
  fds = record { kind = fd_pipe_r; handle = 0; path = [] } ∷ no_fd ∷ [];
  cr3 = 0;
  is_user = false;
  user_entry = 0;
  user_stack = 0;
  stack_slot = minus_one;
  kstack_top = 0;
  uid = 0;
  gid = 0;
}

abbrev first_task : Task
first_task = task 0 running minus_one false

-- systemd, a shell with a child, the idle task and a dead task.
abbrev given : List Task
given =
    first_task
    ∷ task 1 ready 0 false
    ∷ task 2 ready 1 false
    ∷ task 3 ready 0 true
    ∷ task 4 zombie 0 false
    ∷ []

abbrev no_refs : List ℕ
no_refs = replicate slot_total 0

abbrev system : List Task → System
system ts = record {
  tasks = ts;
  current = some 0;
  is_started = true;
  next_id = 5;
  yield_count = 0;
  need_resched = false;
  slice_left = 2;
  wake_count = 0;
  net_wake_count = 0;
  slot_refs = no_refs;
  slot_next = 15;
  world = record {
    heap = record { ready = false; blocks = []; mem = λ a. 0 };
    pipes = [];
    ptys = [];
    memory = λ a. 0;
    calls = [];
    trampoline = 8192;
    kernel_cr3 = 12288;
  };
}

abbrev small : System
small = system given

-- The table at its full length.
abbrev full : System
full = system (given ++ replicate 27 (task 0 unused minus_one false))

picks_shell : sched_pick_next small ≡ some 1
unfolding sched_pick_next knit_os.Sched.Switch.pick_from
picks_shell = refl

sched_pick_next-IsNext_example : IsNext given 0 (sched_pick_next small)
sched_pick_next-IsNext_example = sched_pick_next-IsNext small refl

rest_quiet : (i : ℕ) → running_at given (suc i) ≡ false
rest_quiet zero = refl
rest_quiet (suc zero) = refl
rest_quiet (suc (suc zero)) = refl
rest_quiet (suc (suc (suc zero))) = refl
rest_quiet (suc (suc (suc (suc i)))) = refl

small-OneRuns : OneRuns small
small-OneRuns zero = (λ _. refl, λ _. refl)
small-OneRuns (suc i) = (λ r. absurd (let quiet = rest_quiet i in cc), λ e. absurd (ground arith))

sched_yield-OneRuns_example : OneRuns (sched_yield 5 small)
sched_yield-OneRuns_example = sched_yield-OneRuns 5 small small-OneRuns

sched_yield-reaches_example :
    (n : ℕ) × (1 ≤ n) × (n ≤ 2) × ((yields (take n (5 ∷ 9 ∷ [])) full).current ≡ some 2)
sched_yield-reaches_example =
    sched_yield-reaches (5 ∷ 9 ∷ []) full 2 refl refl (omega arith) refl (omega arith) (omega arith)
      (omega arith) refl

ticks-preempt_example : (ticks (1 ∷ 2 ∷ []) small).need_resched ≡ true
ticks-preempt_example = ticks-preempt (1 ∷ 2 ∷ []) small refl (omega arith) (omega arith)

task_exit-HandsOver_example : HandsOver small 0 (task_exit small)
task_exit-HandsOver_example = task_exit-HandsOver small small-OneRuns refl

cleanup_twice_example :
    task_resources_cleanup 1 (task_resources_cleanup 1 small)
    ≡ closing 1 (task_resources_cleanup 1 small)
cleanup_twice_example = cleanup_twice 1 small refl

own_id : (i : ℕ) (t : Task) → get_elem? given i ≡ some t → t.id ≡ i
own_id zero t e = sym (ap (λ (x : Task). x.id) (some-injective _ t e))
own_id (suc zero) t e = sym (ap (λ (x : Task). x.id) (some-injective _ t e))
own_id (suc (suc zero)) t e = sym (ap (λ (x : Task). x.id) (some-injective _ t e))
own_id (suc (suc (suc zero))) t e = sym (ap (λ (x : Task). x.id) (some-injective _ t e))
own_id (suc (suc (suc (suc zero)))) t e = sym (ap (λ (x : Task). x.id) (some-injective _ t e))
own_id (suc (suc (suc (suc (suc i))))) t e = absurd (cc)

given-IsDistinct : IsDistinct given
given-IsDistinct i j t u at_i at_j _ _ same = sym (own_id i t at_i) ∙ same ∙ own_id j u at_j

task_create-Creates_example : Creates small first_task 4096 7 (task_create 4096 7 none small)
task_create-Creates_example =
    task_create-Creates small refl refl refl 4096 7 none given-IsDistinct refl (omega arith)

given-Ranked : Ranked given
given-Ranked i c at =
    All-get
      (λ t.
        is_live t ≡ true
        → (is_nonneg t.id ≡ true) × (is_nonneg t.parent_pid ≡ true → t.parent_pid < t.id))
      given i
      (
        (λ _. (refl, λ p. absurd (cc))),
        (
          (λ _. (refl, λ _. omega arith)),
          (
            (λ _. (refl, λ _. omega arith)),
            ((λ _. (refl, λ _. omega arith)), ((λ live. absurd (cc)), tt)),
          ),
        ),
      )
      at

found_shell : task_find_by_id 1 given ≡ some 1
unfolding task_find_by_id
found_shell = refl

task_kill-Reaches_example :
    ((task_kill 1 small).0 ≡ ok tt)
    × (zombie_at (task_kill 1 small).1.tasks 1 ≡ true)
    × NoChild 1 (task_kill 1 small).1
    × Buries small (task_kill 1 small).1
    × ((j : ℕ) (u v : Task)
        → get_elem? given j ≡ some u
        → get_elem? (task_kill 1 small).1.tasks j ≡ some v
        → is_live u ≡ true
        → is_live v ≡ false
        → (j ≡ 1) ⊎ Descends given 1 j)
task_kill-Reaches_example =
    task_kill-Reaches 1 small refl found_shell refl refl refl refl given-Ranked (omega arith)

task_setuid-guards_example :
    ((task_setuid 7 small ≡ none) × (first_task.uid ≢ 0) × (first_task.uid ≢ 7))
    ⊎ ((s' : System) × (task_setuid 7 small ≡ some s')
        × ((first_task.uid ≡ 0) ⊎ (first_task.uid ≡ 7))
        × (task_getuid s' ≡ 7)
        × ((j : ℕ) → ◌≢◌ {A = ℕ} 0 j → get_elem? s'.tasks j ≡ get_elem? given j))
task_setuid-guards_example = task_setuid-guards 7 small refl refl

user_stack_slot_alloc-fresh_example :
    ((user_stack_slot_alloc no_refs 15 ≡ (none, no_refs, 15))
      × ((k : ℕ) → k < slot_total → ◌≢◌ {A = ℕ} (get_or no_refs k 0) 0))
    ⊎ ((k : ℕ) × ((user_stack_slot_alloc no_refs 15).0 ≡ some k)
        × (k < slot_total)
        × (get_or no_refs k 0 ≡ 0)
        × (get_or (user_stack_slot_alloc no_refs 15).1 k 0 ≡ 1)
        × ((j : ℕ)
            → ◌≢◌ {A = ℕ} k j
            → get_or (user_stack_slot_alloc no_refs 15).1 j 0 ≡ get_or no_refs j 0)
        × ((user_stack_slot_alloc no_refs 15).2 < slot_total))
user_stack_slot_alloc-fresh_example = user_stack_slot_alloc-fresh no_refs 15 refl
