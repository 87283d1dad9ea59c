-- ===== src/Sched/Kill/Reach.antt =====
-- `task_kill_children` kills all descendants but the current task, within the depth of the table.
use mathlib.Core.Option.{some-injective}
use knit_os.Base.{
  ℕ, zero, suc, ◌+◌, ◌≡◌, ◌≤◌, sym, ap, ◌∙◌, true, some, get_elem?, length, arith, Bool-cases,
  Option-cases, inl, inr, Pointwise-both, Pointwise-length, lt_of_get_elem?,
}
use knit_os.Sched.{Task, System, is_nonneg, task_max}
use knit_os.Sched.Kill.{is_current, is_child, kill_child, visit, kill_loop, task_kill_children}
use knit_os.Sched.Kill.Fading.{
  Fade, Mows, Mows-trans, visit-Mows, kill_loop-Mows, kill_children-Mows,
}
use knit_os.Sched.Kill.Descendants.{child_of, Spares, graft, Buries-trans, Spares-trans}
use knit_os.Sched.Kill.Ranked.{Ranked, Ranked-later, rank_child, above, above_drop, above-Fade}
use knit_os.Sched.Kill.Rounds.{
  Reaches, NoneBelow, Progress, NoneBelow-later, NoneBelow-step, Buries-refl, Spares-refl,
  end_child, end_child-Mows, end_child-Buries, end_child-Spares, end_child_gone,
}

module _ (deeper : ℕ → System → System) (mows : (q : ℕ) (s : System) → Mows s (deeper q s))
    (depth : ℕ)
    (reach : (q : ℕ) (s : System)
      → is_nonneg q ≡ true
      → Ranked s.tasks
      → length s.tasks ≤ task_max
      → above q s.tasks ≤ depth
      → Reaches q s (deeper q s))
    (pid : ℕ) (low : is_nonneg pid ≡ true) where
  child-Progress :
      (i : ℕ) (c : Task) (s : System)
      → Ranked s.tasks
      → length s.tasks ≤ task_max
      → above pid s.tasks ≤ suc depth
      → get_elem? s.tasks i ≡ some c
      → is_child pid c ≡ true
      → NoneBelow pid i s
      → Progress pid (i + 1) s (kill_child deeper i c s)
  child-Progress i c s ranked size deep at k free =
      elim (Bool-cases (is_current (deeper c.id s).current i)) [
        | inl e ↦
            rw (e, kill_child)
              (record {
                buries = done.buries;
                spares = below_child;
                below =
                    NoneBelow-step pid i (deeper c.id s)
                      (NoneBelow-later pid i s (deeper c.id s) down free) (λ d at_d k_d. e);
              })
        | inr e ↦
            let s' = end_child i c.id (deeper c.id s) in
            let last = end_child-Mows (deeper c.id s) i pid c.id named in
            rw (e, kill_child)
              (record {
                buries =
                    Buries-trans s (deeper c.id s) s' down last done.buries
                      (end_child-Buries (deeper c.id s) i pid c.id named done.childless);
                spares =
                    Spares-trans pid s (deeper c.id s) s' down last below_child
                      (end_child-Spares (deeper c.id s) i pid c.id named);
                below =
                    NoneBelow-step pid i s' (NoneBelow-later pid i s s' (Mows-trans down last) free)
                      (λ d at_d k_d.
                        absurd (
                          let gone = end_child_gone (deeper c.id s) i pid c.id named d at_d in cc));
              })
      ]
    where
      down : Mows s (deeper c.id s)
      down = mows c.id s

      done : Reaches c.id s (deeper c.id s)
      done =
          let (over, own) = rank_child s.tasks pid i ranked low at k in
          reach c.id s own ranked size (omega (arith, above_drop pid i s.tasks at over))

      below_child : Spares pid s (deeper c.id s)
      below_child j t u before after live dead =
          graft s.tasks pid i c j at (child_of i c at k) (done.spares j t u before after live dead)

      named :
          (t : Task)
          → get_elem? (deeper c.id s).tasks i ≡ some t
          → (t.id ≡ c.id) × (t.parent_pid ≡ pid)
      named t after =
          let f : Fade c t =
            Pointwise-both Fade s.tasks (deeper c.id s).tasks i down.fades at after in
          (sym f.0, sym f.1 ∙ ground arith)

  -- A slot that holds no child, or none at all.
  idle-Progress : (i : ℕ) (s : System) → NoneBelow pid (i + 1) s → Progress pid (i + 1) s s
  idle-Progress i s free = record {
    buries = Buries-refl s;
    spares = Spares-refl pid s;
    below = free;
  }

  visit-Progress :
      (i : ℕ) (s : System)
      → Ranked s.tasks
      → length s.tasks ≤ task_max
      → above pid s.tasks ≤ suc depth
      → NoneBelow pid i s
      → Progress pid (i + 1) s (visit deeper pid i s)
  visit-Progress i s ranked size deep free = elim (Option-cases (get_elem? s.tasks i)) [
    | inl e ↦
        rw (e, visit) (idle-Progress i s (NoneBelow-step pid i s free (λ c at k. absurd (cc))))
    | inr (c, e) ↦ elim (Bool-cases (is_child pid c)) [
      | inl k ↦ rw (e, visit, k) (child-Progress i c s ranked size deep e k free)
      | inr k ↦
          rw (e, visit, k)
            (idle-Progress i s (
              NoneBelow-step pid i s free λ d at k_d.
                absurd (let same = ap (is_child pid) (some-injective c d (sym e ∙ at)) in cc)))
    ]
  ]

  kill_loop-Progress :
      (left i : ℕ) (s : System)
      → left + i ≡ task_max
      → Ranked s.tasks
      → length s.tasks ≤ task_max
      → above pid s.tasks ≤ suc depth
      → NoneBelow pid i s
      → Progress pid task_max s (kill_loop deeper left i pid s)
  unfolding kill_loop
  kill_loop-Progress zero i s total ranked size deep free = record {
    buries = Buries-refl s;
    spares = Spares-refl pid s;
    below = let all : i ≡ task_max = omega arith in rw all at free;
  }
  kill_loop-Progress (suc left) i s total ranked size deep free =
      let s' = visit deeper pid i s in
      let here = visit-Progress i s ranked size deep free in
      let m = visit-Mows deeper mows pid i s in
      let same = above-Fade pid s.tasks s'.tasks m.fades in
      let long = Pointwise-length Fade s.tasks s'.tasks m.fades in
      let rest =
        kill_loop-Progress left (i + 1) s' (omega arith)
          (Ranked-later s.tasks s'.tasks m.fades ranked) (omega (arith, long, size))
          (omega (arith, same, deep)) here.below in
      let n = kill_loop-Mows deeper mows left (i + 1) pid s' in
      record {
        buries =
            Buries-trans s s' (kill_loop deeper left (i + 1) pid s') m n here.buries rest.buries;
        spares =
            Spares-trans pid s s' (kill_loop deeper left (i + 1) pid s') m n here.spares
              rest.spares;
        below = rest.below;
      }

-- With as much depth as tasks have a higher id, the children of `pid` are gone, those of every task
-- that died on the way too, and none but descendants of `pid` died.
pub kill_children-Reaches :
    (depth pid : ℕ) (s : System)
    → is_nonneg pid ≡ true
    → Ranked s.tasks
    → length s.tasks ≤ task_max
    → above pid s.tasks ≤ depth
    → Reaches pid s (task_kill_children depth pid s)
unfolding task_kill_children
kill_children-Reaches zero pid s low ranked size deep = record {
  buries = Buries-refl s;
  spares = Spares-refl pid s;
  childless = λ i c at k. absurd (
      let (over, _) = rank_child s.tasks pid i ranked low at k in
      omega (arith, above_drop pid i s.tasks at over));
}
kill_children-Reaches (suc depth) pid s low ranked size deep =
    let p =
      kill_loop-Progress (task_kill_children depth) (kill_children-Mows depth) depth
        (kill_children-Reaches depth) pid low 32 0 s (omega arith) ranked size deep
        (λ i c low. absurd (omega arith)) in
    let after = task_kill_children (suc depth) pid s in
    let m = kill_children-Mows (suc depth) pid s in
    record {
      buries = p.buries;
      spares = p.spares;
      childless = λ i c at k.
          p.below i c
            (omega (
              arith,
              lt_of_get_elem? after.tasks i at,
              Pointwise-length Fade s.tasks after.tasks m.fades,
            ))
            at k;
    }
