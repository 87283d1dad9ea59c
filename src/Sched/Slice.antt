-- ===== src/Sched/Slice.antt =====
-- The time slice that `sched_on_tick` counts down, and the sleepers that it wakes.
use knit_os.Base.{
  ℕ, ◌+◌, ◌-◌, ◌≡◌, ◌≤◌, refl, ◌∙◌, List, [], ◌∷◌, true, ◌⊎◌, inl, inr, length, arith, Bool-cases,
  Option-cases, ◌==◌,
}
use knit_os.Sched.{System}
use knit_os.Sched.Switch.{slice_ticked, credited, sched_wake_sleepers, sched_on_tick}

-- The timer's ticks at these times.
abbrev pub ticks : List ℕ → System → System
ticks [] s = s
ticks (now ∷ times) s = ticks times (sched_on_tick now s)

record Counts (s s' : System) : Type 0 where
  runs_on : s'.is_started ≡ true
  asked : s.need_resched ≡ true → s'.need_resched ≡ true
  counted : (s'.need_resched ≡ true) ⊎ ((s'.slice_left + 1 ≡ s.slice_left) × (1 ≤ s'.slice_left))

slice-Counts :
    (s t : System)
    → t.is_started ≡ true
    → t.need_resched ≡ s.need_resched
    → t.slice_left ≡ s.slice_left
    → Counts s (slice_ticked t)
slice-Counts s t e r l = elim (Bool-cases (t.slice_left - 1 == 0)) [
  | inl out ↦ rw (out, slice_ticked) (record { runs_on = e; asked = λ _. refl; counted = inl refl })
  | inr more ↦
      rw (more, slice_ticked)
        (record {
          runs_on = e;
          asked = λ a. r ∙ a;
          counted = inr (ground (arith, l, more), ground (arith, more));
        })
]

credited_same :
    (s : System)
    → ((credited s).is_started ≡ s.is_started)
      × ((credited s).need_resched ≡ s.need_resched)
      × ((credited s).slice_left ≡ s.slice_left)
credited_same s = elim (Option-cases s.current) [
  | inl c ↦ rw (c, credited) (refl, refl, refl)
  | inr (i, c) ↦ rw (c, credited) (refl, refl, refl)
]

tick-Counts : (now : ℕ) (s : System) → s.is_started ≡ true → Counts s (sched_on_tick now s)
unfolding sched_on_tick sched_wake_sleepers
tick-Counts now s e =
    let (a, b, c) = credited_same s in
    let tick : sched_on_tick now s ≡ slice_ticked (sched_wake_sleepers now (credited s)) = simp e in
    rw tick (slice-Counts s (sched_wake_sleepers now (credited s)) (a ∙ e) b c)

-- Once a switch is asked for, the ticks leave it so.
ticks-asked :
    (times : List ℕ) (s : System)
    → s.is_started ≡ true
    → s.need_resched ≡ true
    → (ticks times s).need_resched ≡ true
ticks-asked [] s e r = r
ticks-asked (now ∷ times) s e r =
    let c = tick-Counts now s e in ticks-asked times (sched_on_tick now s) c.runs_on (c.asked r)

-- After as many ticks as the running task has left of its slice, and at least one, the task is asked to
-- give way.
pub ticks-preempt :
    (times : List ℕ) (s : System)
    → s.is_started ≡ true
    → s.slice_left ≤ length times
    → 1 ≤ length times
    → (ticks times s).need_resched ≡ true
ticks-preempt [] s e enough one = absurd (omega arith)
ticks-preempt (now ∷ []) s e enough one =
    let c = tick-Counts now s e in
    elim (c.counted) [ inl asked ↦ asked | inr (fewer, some_left) ↦ absurd (omega arith) ]
ticks-preempt (now ∷ now' ∷ times) s e enough one =
    let c = tick-Counts now s e in
    elim (c.counted) [
      | inl asked ↦ ticks-asked (now' ∷ times) (sched_on_tick now s) c.runs_on asked
      | inr (fewer, _) ↦
          ticks-preempt (now' ∷ times) (sched_on_tick now s) c.runs_on (omega arith) (omega arith)
    ]
