-- ===== src/Sched/Slots/Fresh.antt =====
-- `user_stack_slot_alloc`: no two processes get one slot.
use knit_os.Base.{
  ℕ, zero, suc, ◌+◌, ◌-◌, ◌%◌, ◌≡◌, ◌≢◌, ◌≤◌, ◌<◌, refl, List, Option, none, some, ◌⊎◌, inl, inr,
  get_or, length, arith, Bool-cases, Option-cases, ◌==◌, eq_of_==, ne_of_==, get_or-set_self,
  get_or-set_ne,
}
use knit_os.Sched.Slots.{slot_total, free_slot, user_stack_slot_alloc}

abbrev Found : ℕ → ℕ → ℕ → List ℕ → Option ℕ → Type 0
Found left i next refs none =
    (m : ℕ) → i ≤ m → m < i + left → get_or refs ((next + m) % slot_total) 0 ≢ 0
Found left i next refs (some k) = (k < slot_total) × (get_or refs k 0 ≡ 0)

Found-later :
    (left i next : ℕ) (refs : List ℕ) (o : Option ℕ)
    → get_or refs ((next + i) % slot_total) 0 ≢ 0
    → Found left (i + 1) next refs o
    → Found (suc left) i next refs o
Found-later left i next refs (some k) here h = h
Found-later left i next refs none here h = λ m low high. elim (Bool-cases (i == m)) [
  | inl e ↦ let this = eq_of_== i m e in rw this at here
  | inr e ↦ let apart = ne_of_== i m e in h m (omega arith) (omega arith)
]

free_slot-Found :
    (left i next : ℕ) (refs : List ℕ) → Found left i next refs (free_slot left i next refs)
unfolding free_slot
free_slot-Found zero i next refs = λ m low high. absurd (omega arith)
free_slot-Found (suc left) i next refs =
    elim (Bool-cases (get_or refs ((next + i) % slot_total) 0 == 0)) [
      | inl e ↦ rw (e, free_slot) (omega arith, eq_of_== _ 0 e)
      | inr e ↦
          rw (e, free_slot)
            (Found-later left i next refs (free_slot left (i + 1) next refs) (ne_of_== _ 0 e)
              (free_slot-Found left (i + 1) next refs))
    ]

-- The slot that is handed out had no holder, and has one now; no other count changes, and the next
-- search starts inside the table. There is none only if every slot has a holder.
pub user_stack_slot_alloc-fresh :
    (refs : List ℕ) (next : ℕ)
    → length refs ≡ slot_total
    → ((user_stack_slot_alloc refs next ≡ (none, refs, next))
        × ((k : ℕ) → k < slot_total → get_or refs k 0 ≢ 0))
      ⊎ ((k : ℕ) × (user_stack_slot_alloc refs next).0 ≡ some k
          × (k < slot_total)
          × (get_or refs k 0 ≡ 0)
          × (get_or (user_stack_slot_alloc refs next).1 k 0 ≡ 1)
          × ((j : ℕ) → k ≢ j → get_or (user_stack_slot_alloc refs next).1 j 0 ≡ get_or refs j 0)
          × ((user_stack_slot_alloc refs next).2 < slot_total))
unfolding user_stack_slot_alloc
user_stack_slot_alloc-fresh refs next size =
    let found = free_slot-Found slot_total 0 next refs in
    elim (Option-cases (free_slot slot_total 0 next refs)) [
      | inl e ↦
          rw (e, user_stack_slot_alloc)
            (inl (
              refl,
              λ k low.
                  let m = (k + 16 - next % 16) % 16 in
                  let here : (next + m) % slot_total ≡ k = omega arith in
                  let taken : get_or refs ((next + m) % slot_total) 0 ≢ 0 =
                    (rw e at found) m (omega arith) (omega arith) in
                  rw here at taken,
            ))
      | inr (k, e) ↦
          let (low, free) = all_free k e in
          rw (e, user_stack_slot_alloc)
            (inr (
              k,
              refl,
              low,
              free,
              get_or-set_self refs k 1 0 (omega arith),
              λ j apart. get_or-set_ne refs k j 1 0 apart,
              omega arith,
            ))
    ]
  where
    all_free :
        (k : ℕ)
        → free_slot slot_total 0 next refs ≡ some k
        → (k < slot_total) × (get_or refs k 0 ≡ 0)
    all_free k e = let found = free_slot-Found slot_total 0 next refs in rw e at found
