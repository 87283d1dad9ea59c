-- ===== src/Sched/Kill/Ranked.antt =====
-- The ids of children are above those of their parents, which bounds the depth of a kill.
use mathlib.Core.Option.{some-injective}
use knit_os.Base.{
  ℕ, zero, suc, ◌≡◌, ◌≤◌, ◌<◌, refl, ap, List, [], ◌∷◌, true, some, get_elem?, length, arith, ltb,
  Pointwise, Pointwise-get,
}
use knit_os.Sched.{Task, is_nonneg}
use knit_os.Sched.Switch.{count_if}
use knit_os.Sched.Kill.{is_child}
use knit_os.Sched.Kill.Fading.{Fade}
use knit_os.Sched.Kill.Descendants.{is_live, faded_live}

-- A task that lives has an id that is no error code, above that of its parent, if it has one.
abbrev pub Ranked : List Task → Type 0
Ranked ts =
    (i : ℕ) (c : Task)
    → get_elem? ts i ≡ some c
    → is_live c ≡ true
    → (is_nonneg c.id ≡ true) × (is_nonneg c.parent_pid ≡ true → c.parent_pid < c.id)

pub Ranked-later : (ts us : List Task) → Pointwise Fade ts us → Ranked ts → Ranked us
Ranked-later ts us f r i u at live =
    let (t, before, g) = Pointwise-get Fade ts us i f at in
    let (low, high) = r i t before (faded_live t u g live) in
    (rw g.0 at low, λ p. rw (g.0, g.1) at high p)

pub rank_child :
    (ts : List Task) (pid i : ℕ) {c : Task}
    → Ranked ts
    → is_nonneg pid ≡ true
    → get_elem? ts i ≡ some c
    → is_child pid c ≡ true
    → (pid < c.id) × (is_nonneg c.id ≡ true)
rank_child ts pid i {c = c} r low at k =
    let (own, above_parent) = r i c at (ground arith) in
    let same : c.parent_pid ≡ pid = ground arith in (rw same at above_parent low, own)

-- How many tasks have an id above this one.
abbrev pub above : ℕ → List Task → ℕ
above pid = count_if (λ t. ltb pid t.id)

above_mono : (p q : ℕ) (ts : List Task) → p ≤ q → above q ts ≤ above p ts
above_mono p q [] h = omega arith
above_mono p q (t ∷ ts) h = ground (arith, above_mono p q ts h)

pub above_drop :
    (pid i : ℕ) (ts : List Task) {c : Task}
    → get_elem? ts i ≡ some c
    → pid < c.id
    → above c.id ts < above pid ts
above_drop pid i [] at h = absurd (cc)
above_drop pid zero (t ∷ ts) {c = c} at h =
    let same : t.id ≡ c.id = ap (λ (x : Task). x.id) (some-injective t c at) in
    ground (arith, same, above_mono pid c.id ts)
above_drop pid (suc i) (t ∷ ts) {c = c} at h = ground (arith, above_drop pid i ts at h)

pub above-Fade : (pid : ℕ) (ts us : List Task) → Pointwise Fade ts us → above pid us ≡ above pid ts
above-Fade pid [] [] f = refl
above-Fade pid [] (u ∷ us) f = absurd f
above-Fade pid (t ∷ ts) [] f = absurd f
above-Fade pid (t ∷ ts) (u ∷ us) (f, fs) = rw (f.0, above-Fade pid ts us fs) refl

pub above_bound : (pid : ℕ) (ts : List Task) → above pid ts ≤ length ts
above_bound pid [] = omega arith
above_bound pid (t ∷ ts) = ground (arith, above_bound pid ts)
