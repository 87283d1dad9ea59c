-- ===== src/Sched/Slots.antt =====
-- The slots of user stacks in kernel/sched/task.cpp, `user_stack_slot_*`, counted by references.
pub mod Fresh
use knit_os.Base.{
  ℕ, zero, suc, ◌+◌, ◌-◌, ◌*◌, ◌/◌, ◌%◌, List, [], ◌∷◌, Bool, true, false, ◌&&◌, Option, none, some,
  get_or, set, modify, ltb, ◌==◌, if◌then◌else◌,
}
use knit_os.Exec.Elf.{user_va_max}

abbrev pub slot_start : ℕ
slot_start = 16777216

abbrev pub slot_step : ℕ
slot_step = 4194304

abbrev pub slot_total : ℕ
slot_total = (user_va_max - slot_start) / slot_step

-- The loop of `user_stack_slot_alloc`, with `left` rounds to go: a free slot.
unfoldable pub free_slot : ℕ → ℕ → ℕ → List ℕ → Option ℕ
free_slot zero i next refs = none
free_slot (suc left) i next refs =
    let idx = (next + i) % slot_total in
    elim (get_or refs idx 0 == 0) [ true ↦ some idx | false ↦ free_slot left (i + 1) next refs ]

-- The slot, the counts and the place where the next search starts.
unfoldable pub user_stack_slot_alloc : List ℕ → ℕ → Option ℕ × List ℕ × ℕ
user_stack_slot_alloc refs next = elim (free_slot slot_total 0 next refs) [
  | none ↦ (none, refs, next)
  | some idx ↦ (some idx, set refs idx 1, (idx + 1) % slot_total)
]

abbrev pub user_stack_slot_va : ℕ → ℕ
user_stack_slot_va idx = slot_start + idx * slot_step

abbrev pub user_stack_slot_top : ℕ → ℕ
user_stack_slot_top idx = user_stack_slot_va idx + slot_step

-- A count is a `uint8_t`.
unfoldable pub user_stack_slot_ref : ℕ → List ℕ → List ℕ
user_stack_slot_ref idx refs =
    if ltb idx slot_total then modify refs idx (λ n. (n + 1) % 256) else refs

unfoldable pub user_stack_slot_release : ℕ → List ℕ → List ℕ
user_stack_slot_release idx refs =
    if ltb idx slot_total then modify refs idx (λ n. if ltb 0 n then n - 1 else n) else refs
