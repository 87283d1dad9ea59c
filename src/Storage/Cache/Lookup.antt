-- ===== src/Storage/Cache/Lookup.antt =====
-- The cached sectors as a map from sector numbers to slots.
use knit_os.Base.{
  ℕ, zero, suc, ◌≡◌, refl, List, [], ◌∷◌, true, false, Option, none, some, get_elem?, set, arith,
  ◌==◌, if◌then◌else◌, Bool-cases, ◌⊎◌, inl, inr,
}
use knit_os.Storage.Cache.{Slot, holds, slot_find}

-- The slot that a search for the sector finds.
unfoldable pub cached : ℕ → List Slot → Option Slot
cached l [] = none
cached l (s ∷ ss) = if holds l s then some s else cached l ss

-- No sector is in two slots.
abbrev pub IsDistinct : List Slot → Type 0
IsDistinct [] = Unit {0}
IsDistinct (s ∷ ss) = (s.used ≡ true → cached s.lba ss ≡ none) × IsDistinct ss

pub slot_find_cases :
    (l : ℕ) (ss : List Slot)
    → ((slot_find l ss ≡ none) × (cached l ss ≡ none))
      ⊎ ((i : ℕ) × (s : Slot) × (slot_find l ss ≡ some i)
          × (get_elem? ss i ≡ some s)
          × (cached l ss ≡ some s)
          × (s.used ≡ true)
          × (s.lba ≡ l))
unfolding slot_find cached
slot_find_cases l [] = inl (refl, refl)
slot_find_cases l (s ∷ ss) = elim (Bool-cases (holds l s)) [
  | inl hit ↦ inr (0, s, rw hit, refl, rw hit, ground arith, ground arith)
  | inr miss ↦ elim (slot_find_cases l ss) [
    | inl (e, e') ↦ inl (rw (miss, e), rw (miss, e'))
    | inr (i, t, e, at, e', u, same) ↦ inr (suc i, t, rw (miss, e), at, rw (miss, e'), u, same)
  ]
]

-- A used slot of a distinct table is what a search for its sector finds.
pub cached_of_slot :
    (ss : List Slot) (i : ℕ) {s : Slot}
    → IsDistinct ss
    → get_elem? ss i ≡ some s
    → s.used ≡ true
    → cached s.lba ss ≡ some s
unfolding cached
cached_of_slot [] i d at u = absurd (cc)
cached_of_slot (x ∷ ss) zero {s} d at u = ground arith
cached_of_slot (x ∷ ss) (suc i) {s} d at u = ground (arith, cached_of_slot ss i d.1 at u)

-- A slot may be given to a sector if it had it already or if no slot has it.
abbrev pub MayHold : ℕ → Slot → List Slot → Type 0
MayHold l s ss = ((s.used ≡ true) × (s.lba ≡ l)) ⊎ (cached l ss ≡ none)

abbrev pub with_slot : ℕ → Slot → Slot → List Slot → Option Slot
with_slot l old new ss =
    if new.lba == l then some new else if holds l old then none else cached l ss

tail_MayHold :
    (x : Slot) (ss : List Slot) (i : ℕ) (old : Slot) (l : ℕ)
    → IsDistinct (x ∷ ss)
    → get_elem? ss i ≡ some old
    → MayHold l old (x ∷ ss)
    → (holds l x ≡ false) × MayHold l old ss
unfolding cached
tail_MayHold x ss i old l d at (inl (u, e)) =
    (ground (arith, cached_of_slot ss i d.1 at u), inl (u, e))
tail_MayHold x ss i old l d at (inr e) = (ground arith, inr (ground arith))

pub cached-set :
    (l : ℕ) (ss : List Slot) (i : ℕ) (old new : Slot)
    → IsDistinct ss
    → get_elem? ss i ≡ some old
    → new.used ≡ true
    → MayHold new.lba old ss
    → cached l (set ss i new) ≡ with_slot l old new ss
unfolding cached
cached-set l [] i old new d at u m = absurd (cc)
cached-set l (x ∷ ss) zero old new d at u m = ground arith
cached-set l (x ∷ ss) (suc i) old new d at u m =
    let (clear, m') = tail_MayHold x ss i old new.lba d at m in
    ground (arith, cached_of_slot ss i {s = old} d.1 at, cached-set l ss i old new d.1 at u m')

pub IsDistinct-set :
    (ss : List Slot) (i : ℕ) (old new : Slot)
    → IsDistinct ss
    → get_elem? ss i ≡ some old
    → new.used ≡ true
    → MayHold new.lba old ss
    → IsDistinct (set ss i new)
unfolding cached
IsDistinct-set [] i old new d at u m = d
IsDistinct-set (x ∷ ss) zero old new d at u m = (λ _. ground arith, d.1)
IsDistinct-set (x ∷ ss) (suc i) old new d at u m =
    let (clear, m') = tail_MayHold x ss i old new.lba d at m in
    (
      λ x_used. ground (arith, cached-set x.lba ss i old new d.1 at u m', d.0 x_used),
      IsDistinct-set ss i old new d.1 at u m',
    )
