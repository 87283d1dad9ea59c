-- ===== src/Sched/Identity/Rights.antt =====
-- Who may change a user id.
use knit_os.Base.{
  ℕ, ◌≡◌, ◌≢◌, refl, Bool, ◌||◌, none, some, ◌⊎◌, inl, inr, get_elem?, arith, Bool-cases, ◌==◌,
  if◌then◌else◌, get_elem?-modify_self, get_elem?-modify_ne,
}
use knit_os.Sched.{Task, System, update}
use knit_os.Sched.Identity.{set_current, task_getuid, task_setuid}

set_current_cases :
    (allowed : Task → Bool) (f : Task → Task) (s : System) {i : ℕ} {t : Task}
    → s.current ≡ some i
    → get_elem? s.tasks i ≡ some t
    → set_current allowed f s ≡ (if allowed t then some (update i f s) else none)
unfolding set_current
set_current_cases allowed f s cur at = ground (arith, cur, at)

-- `task_setuid` either fails, for a task that is not root and asks for another user, and then there is
-- no new state, or succeeds: the caller was root or keeps its user, it has the user that it asked for,
-- and no other task changes.
pub task_setuid-guards :
    (uid : ℕ) (s : System) {i : ℕ} {t : Task}
    → s.current ≡ some i
    → get_elem? s.tasks i ≡ some t
    → ((task_setuid uid s ≡ none) × (t.uid ≢ 0) × (t.uid ≢ uid))
      ⊎ ((s' : System) × (task_setuid uid s ≡ some s')
          × ((t.uid ≡ 0) ⊎ (t.uid ≡ uid))
          × (task_getuid s' ≡ uid)
          × ((j : ℕ) → i ≢ j → get_elem? s'.tasks j ≡ get_elem? s.tasks j))
unfolding task_setuid
task_setuid-guards uid s {i} {t} cur at =
    let e =
      set_current_cases (λ t. t.uid == 0 || t.uid == uid) (λ t. record t { uid = uid }) s cur at in
    elim (Bool-cases (t.uid == 0 || t.uid == uid)) [
      | inr no_right ↦
          inl (rw (e, no_right) refl, ground (arith, no_right), ground (arith, no_right))
      | inl right ↦ inr (
        update i (λ t. record t { uid = uid }) s,
        rw (e, right) refl,
        ground (arith, right),
        has_uid,
        λ j apart. get_elem?-modify_ne s.tasks i j _ apart,
      )
    ]
  where
    has_uid : task_getuid (update i (λ t. record t { uid = uid }) s) ≡ uid
    has_uid = ground (arith, cur, get_elem?-modify_self s.tasks i (λ t. record t { uid = uid }) at)
