-- ===== src/Sched/Kill/Rounds.antt =====
-- What one call and one round of `task_kill_children` have done, and the end of one task.
use mathlib.Core.Option.{some-injective}
use knit_os.Base.{
  ℕ, ◌+◌, ◌≡◌, ◌≢◌, ◌<◌, sym, ap, ◌∙◌, true, false, not, ◌||◌, some, get_elem?, modify, length,
  arith, Bool-cases, ◌==◌, eq_of_==, ne_of_==, inl, inr, Pointwise-get, Pointwise-both,
  get_elem?-modify_self, get_elem?-modify_ne, lt_of_get_elem?, get_of_lt, length-modify,
}
use knit_os.Sched.{Task, System, is_unused, is_zombie, update}
use knit_os.Sched.Table.{task_resources_cleanup}
use knit_os.Sched.Kill.{ended, is_current, is_child}
use knit_os.Sched.Kill.Fading.{
  Keep, Fade, Mows, Mows-trans, cleanup-Keeps, cleanup-Mows, ended-Mows,
}
use knit_os.Sched.Kill.Descendants.{
  is_live, child_of, NoChild, Buries, Spares, faded_child, NoChild-later,
}

-- What a call for `pid` has done.
pub record Reaches (pid : ℕ) (s s' : System) : Type 0 where
  pub buries : Buries s s'
  pub spares : Spares pid s s'
  pub childless : NoChild pid s'

-- Among the first `n` slots every live child is the current task.
abbrev pub NoneBelow : ℕ → ℕ → System → Type 0
NoneBelow pid n s =
    (i : ℕ) (c : Task)
    → i < n
    → get_elem? s.tasks i ≡ some c
    → is_child pid c ≡ true
    → is_current s.current i ≡ true

-- What the loop has done when it comes to slot `n`.
pub record Progress (pid n : ℕ) (s s' : System) : Type 0 where
  pub buries : Buries s s'
  pub spares : Spares pid s s'
  pub below : NoneBelow pid n s'

pub NoneBelow-later :
    (pid n : ℕ) (s s' : System) → Mows s s' → NoneBelow pid n s → NoneBelow pid n s'
NoneBelow-later pid n s s' m free i u low at k =
    let (t, before, f) = Pointwise-get Fade s.tasks s'.tasks i m.fades at in
    rw m.stays (free i t low before (faded_child pid t u f k))

-- One slot more.
pub NoneBelow-step :
    (pid n : ℕ) (s : System)
    → NoneBelow pid n s
    → ((c : Task)
        → get_elem? s.tasks n ≡ some c
        → is_child pid c ≡ true
        → is_current s.current n ≡ true)
    → NoneBelow pid (n + 1) s
NoneBelow-step pid n s free here i c low at k = elim (Bool-cases (n == i)) [
  | inl e ↦ let same = eq_of_== n i e in rw same at here c at k
  | inr e ↦ let apart = ne_of_== n i e in free i c (omega arith) at k
]

alive_is_not_dead : (x y : Task) {A : Type 0} → x ≡ y → is_live x ≡ true → is_live y ≡ false → A
alive_is_not_dead x y same live dead = absurd (let both = ap is_live same in cc)

pub Buries-refl : (s : System) → Buries s s
Buries-refl s i t u at after live dead =
    alive_is_not_dead t u (some-injective t u (sym at ∙ after)) live dead

pub Spares-refl : (pid : ℕ) (s : System) → Spares pid s s
Spares-refl pid s i t u at after live dead =
    alive_is_not_dead t u (some-injective t u (sym at ∙ after)) live dead

abbrev pub end_child : ℕ → ℕ → System → System
end_child i id s = update i ended (task_resources_cleanup id s)

-- The child itself dies last, when it has no child left.
module _ (s : System) (i pid id : ℕ)
    (named : (t : Task) → get_elem? s.tasks i ≡ some t → (t.id ≡ id) × (t.parent_pid ≡ pid)) where
  -- Another slot keeps its task.
  pub other_lives :
      (j : ℕ) (t u : Task)
      → i ≢ j
      → get_elem? s.tasks j ≡ some t
      → get_elem? (end_child i id s).tasks j ≡ some u
      → is_live t ≡ true
      → is_live u ≡ false
      → ⊥
  other_lives j t u apart before after live dead =
      let kept : Keep t u =
        Pointwise-both Keep s.tasks (task_resources_cleanup id s).tasks j (cleanup-Keeps id s).0
          before
          (sym (get_elem?-modify_ne (task_resources_cleanup id s).tasks i j ended apart) ∙ after) in
      let same = ap (λ x. not (is_unused x || is_zombie x)) kept.2 in cc

  pub end_child-Mows : Mows s (end_child i id s)
  end_child-Mows = Mows-trans (cleanup-Mows id s) (ended-Mows i (task_resources_cleanup id s))

  pub end_child-Buries : NoChild id s → Buries s (end_child i id s)
  end_child-Buries free j t u before after live dead = elim (Bool-cases (i == j)) [
    | inl e ↦
        let here = eq_of_== i j e in
        let (same, _) = named t (rw here before) in
        rw same (NoChild-later id s (end_child i id s) end_child-Mows free)
    | inr e ↦ absurd (other_lives j t u (ne_of_== i j e) before after live dead)
  ]

  pub end_child-Spares : Spares pid s (end_child i id s)
  end_child-Spares j t u before after live dead = elim (Bool-cases (i == j)) [
    | inl e ↦
        let here = eq_of_== i j e in
        let (_, same) = named t (rw here before) in child_of j t before (ground arith)
    | inr e ↦ absurd (other_lives j t u (ne_of_== i j e) before after live dead)
  ]

  -- What is left in the slot is no child.
  pub end_child_gone :
      (u : Task) → get_elem? (end_child i id s).tasks i ≡ some u → is_child pid u ≡ false
  end_child_gone u after =
      let cleaned = (task_resources_cleanup id s).tasks in
      let inside : i < length cleaned =
        omega (
          arith,
          length-modify cleaned i ended,
          lt_of_get_elem? (modify cleaned i ended) i after,
        ) in
      let (x, e) = get_of_lt cleaned i inside in
      let same : ended x ≡ u =
        some-injective (ended x) u (sym (get_elem?-modify_self cleaned i ended e) ∙ after) in
      sym (ap (is_child pid) same)
