-- ===== src/Sched/Kill/Descendants.antt =====
-- Which tasks `task_kill_children` kills: the descendants, all of them, and no other.
use knit_os.Base.{
  ℕ, ◌≡◌, ap, List, Bool, true, false, not, ◌||◌, some, inl, inr, get_elem?, arith, Bool-cases,
  Pointwise, Pointwise-get, Pointwise-both,
}
use knit_os.Sched.{Task, System, is_unused, is_zombie}
use knit_os.Sched.Kill.{is_current, is_child}
use knit_os.Sched.Kill.Fading.{Fade, Mows}

abbrev pub is_live : Task → Bool
is_live t = not (is_unused t.state || is_zombie t.state)

-- The task at an index stands below `pid` in the table, by way of tasks that live.
pub data Descends (ts : List Task) (pid : ℕ) : ℕ → Type 0 where
  child_of :
      (i : ℕ) (c : Task) → get_elem? ts i ≡ some c → is_child pid c ≡ true → Descends ts pid i
  deeper_of :
      (j : ℕ) (d : Task) (i : ℕ) (c : Task)
      → Descends ts pid j
      → get_elem? ts j ≡ some d
      → get_elem? ts i ≡ some c
      → is_child d.id c ≡ true
      → Descends ts pid i

-- Every live child is the current task.
abbrev pub NoChild : ℕ → System → Type 0
NoChild pid s =
    (i : ℕ) (c : Task)
    → get_elem? s.tasks i ≡ some c
    → is_child pid c ≡ true
    → is_current s.current i ≡ true

-- A task that died on the way leaves no child behind.
abbrev pub Buries : System → System → Type 0
Buries s s' =
    (i : ℕ) (t u : Task)
    → get_elem? s.tasks i ≡ some t
    → get_elem? s'.tasks i ≡ some u
    → is_live t ≡ true
    → is_live u ≡ false
    → NoChild t.id s'

-- Only descendants died.
abbrev pub Spares : ℕ → System → System → Type 0
Spares pid s s' =
    (i : ℕ) (t u : Task)
    → get_elem? s.tasks i ≡ some t
    → get_elem? s'.tasks i ≡ some u
    → is_live t ≡ true
    → is_live u ≡ false
    → Descends s.tasks pid i

pub faded_child : (pid : ℕ) (t u : Task) → Fade t u → is_child pid u ≡ true → is_child pid t ≡ true
faded_child pid t u (i, p, inl e) k = rw (p, e) k
faded_child pid t u (i, p, inr z) k = absurd (let dead = ap is_zombie z in ground arith)

pub faded_live : (t u : Task) → Fade t u → is_live u ≡ true → is_live t ≡ true
faded_live t u (i, p, inl e) k = rw e k
faded_live t u (i, p, inr z) k = absurd (let dead = ap is_zombie z in ground arith)

pub NoChild-later : (pid : ℕ) (s s' : System) → Mows s s' → NoChild pid s → NoChild pid s'
NoChild-later pid s s' m free i u at k =
    let (t, before, f) = Pointwise-get Fade s.tasks s'.tasks i m.fades at in
    rw m.stays (free i t before (faded_child pid t u f k))

pub Descends-earlier :
    (ts us : List Task) (pid i : ℕ) → Pointwise Fade ts us → Descends us pid i → Descends ts pid i
Descends-earlier ts us pid _ f (child_of i c at k) =
    let (t, before, g) = Pointwise-get Fade ts us i f at in
    child_of i t before (faded_child pid t c g k)
Descends-earlier ts us pid _ f (deeper_of j d i c up at_j at_i k) =
    let (b, before_j, h) = Pointwise-get Fade ts us j f at_j in
    let (t, before_i, g) = Pointwise-get Fade ts us i f at_i in
    deeper_of j b i t (Descends-earlier ts us pid j f up) before_j before_i
      (rw h.0 (faded_child d.id t c g k))

-- What stands below a descendant is a descendant.
pub graft :
    (ts : List Task) (pid i : ℕ) (c : Task) (j : ℕ)
    → get_elem? ts i ≡ some c
    → Descends ts pid i
    → Descends ts c.id j
    → Descends ts pid j
graft ts pid i c _ at up (child_of j d at_j k) = deeper_of i c j d up at at_j k
graft ts pid i c _ at up (deeper_of l d j e down at_l at_j k) =
    deeper_of l d j e (graft ts pid i c l at up down) at_l at_j k

pub Buries-trans :
    (s s' s'' : System) → Mows s s' → Mows s' s'' → Buries s s' → Buries s' s'' → Buries s s''
Buries-trans s s' s'' m n first second i t u at after live dead =
    let (v, mid, f) = Pointwise-get Fade s'.tasks s''.tasks i n.fades after in
    let g : Fade t v = Pointwise-both Fade s.tasks s'.tasks i m.fades at mid in
    elim (Bool-cases (is_live v)) [
      | inl e ↦ rw g.0 (second i v u mid after e dead)
      | inr e ↦ NoChild-later t.id s' s'' n (first i t v at mid live e)
    ]

pub Spares-trans :
    (pid : ℕ) (s s' s'' : System)
    → Mows s s'
    → Mows s' s''
    → Spares pid s s'
    → Spares pid s' s''
    → Spares pid s s''
Spares-trans pid s s' s'' m n first second i t u at after live dead =
    let (v, mid, f) = Pointwise-get Fade s'.tasks s''.tasks i n.fades after in
    elim (Bool-cases (is_live v)) [
      | inl e ↦ Descends-earlier s.tasks s'.tasks pid i m.fades (second i v u mid after e dead)
      | inr e ↦ first i t v at mid live e
    ]
