-- ===== src/Base/Tables.antt =====
-- A fixed table as a map from keys to its slots: what a search finds before and after a write.
use Prim.Native.Nat.{ℕ, zero, suc}
use mathlib.Core.Path.{◌≡◌, refl, sym, ◌∙◌}
use mathlib.Core.List.{List, [], ◌∷◌, map}
use mathlib.Core.Logic.{◌⊎◌, ◌≢◌, inl, inr}
use mathlib.Core.Bool.{Bool, true, false}
use mathlib.Core.Option.{Option, none, some}
use native.Mathlib.Omega.{arith}
use knit_os.Base.Lists.{get_elem?, set, modify, get_elem?-modify_self, get_elem?-modify_ne}
use knit_os.Base.Tests.{if◌then◌else◌, Bool-cases, Option-cases}
use knit_os.Base.Find.{find_index}

module _ {ℓ} {A : Type ℓ} where
  -- The first slot that fits.
  unfoldable pub first_fit : (A → Bool) → List A → Option A
  first_fit p [] = none
  first_fit p (x ∷ xs) = if p x then some x else first_fit p xs

  -- Writing to a slot that does not fit, before or after, changes no search.
  pub first_fit-set_miss :
      (p : A → Bool) (xs : List A) (i : ℕ) (old new : A)
      → get_elem? xs i ≡ some old
      → p old ≡ false
      → p new ≡ false
      → first_fit p (set xs i new) ≡ first_fit p xs
  unfolding first_fit
  first_fit-set_miss p [] i old new at o n = refl
  first_fit-set_miss p (x ∷ xs) zero old new at o n = ground arith
  first_fit-set_miss p (x ∷ xs) (suc i) old new at o n =
      ground (arith, first_fit-set_miss p xs i old new at o n)

  -- Writing a fitting slot where the first one was, or where there was none, makes it the first.
  pub first_fit-set_hit :
      (p : A → Bool) (xs : List A) (i : ℕ) (old new : A)
      → get_elem? xs i ≡ some old
      → ((find_index p xs ≡ some i) ⊎ (find_index p xs ≡ none))
      → p new ≡ true
      → first_fit p (set xs i new) ≡ some new
  unfolding first_fit
  first_fit-set_hit p [] i old new at f n = absurd (cc)
  first_fit-set_hit p (x ∷ xs) zero old new at f n = ground arith
  first_fit-set_hit p (x ∷ xs) (suc i) old new at f n = ground (
    arith,
    λ (f' : (find_index p xs ≡ some i) ⊎ (find_index p xs ≡ none)).
        first_fit-set_hit p xs i old new at f' n,
  )

  -- The search by index and the search for the slot agree.
  pub first_fit-find_index :
      (p : A → Bool) (xs : List A)
      → ((find_index p xs ≡ none) × (first_fit p xs ≡ none))
        ⊎ ((i : ℕ) × (x : A) × (find_index p xs ≡ some i)
            × (get_elem? xs i ≡ some x)
            × (first_fit p xs ≡ some x)
            × (p x ≡ true))
  unfolding first_fit
  first_fit-find_index p [] = inl (refl, refl)
  first_fit-find_index p (x ∷ xs) = elim (Bool-cases (p x)) [
    | inl hit ↦ inr (0, x, rw hit, refl, rw hit, hit)
    | inr miss ↦ elim (first_fit-find_index p xs) [
      | inl (e, f) ↦ inl (rw (miss, e), rw (miss, f))
      | inr (i, y, e, at, f, h) ↦ inr (suc i, y, rw (miss, e), at, rw (miss, f), h)
    ]
  ]

-- A test of the slot at an index; no slot passes it out of bounds.
abbrev pub holds_at {ℓ} : {A : Type ℓ} → (A → Bool) → List A → ℕ → Bool
holds_at p xs i = elim (get_elem? xs i) [ none ↦ false | some x ↦ p x ]

module _ {ℓ} {A : Type ℓ} where
  pub holds_at_get :
      (p : A → Bool) (xs : List A) (i : ℕ) {x : A} → get_elem? xs i ≡ some x → holds_at p xs i ≡ p x
  holds_at_get p xs i e = rw (e, holds_at) refl

  pub holds_at_cases :
      (p : A → Bool) (xs : List A) (i : ℕ)
      → holds_at p xs i ≡ true
      → (x : A) × (get_elem? xs i ≡ some x) × (p x ≡ true)
  holds_at_cases p xs i h = elim (Option-cases (get_elem? xs i)) [
    | inl e ↦ absurd (cc)
    | inr (x, e) ↦ (x, e, sym (holds_at_get p xs i e) ∙ h)
  ]

  pub holds_at-modify_self :
      (p : A → Bool) (xs : List A) (i : ℕ) (f : A → A) {x : A}
      → get_elem? xs i ≡ some x
      → holds_at p (modify xs i f) i ≡ p (f x)
  holds_at-modify_self p xs i f e = rw (get_elem?-modify_self xs i f e, holds_at) refl

  pub holds_at-modify_ne :
      (p : A → Bool) (xs : List A) (i j : ℕ) (f : A → A)
      → i ≢ j
      → holds_at p (modify xs i f) j ≡ holds_at p xs j
  holds_at-modify_ne p xs i j f ne = rw (get_elem?-modify_ne xs i j f ne, holds_at) refl

  -- A write that keeps the test, wherever it goes.
  pub holds_at-modify_keep :
      (p : A → Bool) (xs : List A) (i j : ℕ) (f : A → A)
      → ((x : A) → p x ≡ true → p (f x) ≡ true)
      → holds_at p xs j ≡ true
      → holds_at p (modify xs i f) j ≡ true
  holds_at-modify_keep p [] i j f keep h = h
  holds_at-modify_keep p (x ∷ xs) zero zero f keep h = keep x h
  holds_at-modify_keep p (x ∷ xs) zero (suc j) f keep h = h
  holds_at-modify_keep p (x ∷ xs) (suc i) zero f keep h = h
  holds_at-modify_keep p (x ∷ xs) (suc i) (suc j) f keep h = holds_at-modify_keep p xs i j f keep h

  pub holds_at-map :
      (p q : A → Bool) (f : A → A) (xs : List A) (j : ℕ)
      → ((x : A) → q (f x) ≡ p x)
      → holds_at q (map f xs) j ≡ holds_at p xs j
  holds_at-map p q f [] j same = refl
  holds_at-map p q f (x ∷ xs) zero same = same x
  holds_at-map p q f (x ∷ xs) (suc j) same = holds_at-map p q f xs j same

  pub holds_at-map_keep :
      (p : A → Bool) (f : A → A) (xs : List A) (j : ℕ)
      → ((x : A) → p x ≡ true → p (f x) ≡ true)
      → holds_at p xs j ≡ true
      → holds_at p (map f xs) j ≡ true
  holds_at-map_keep p f [] j keep h = h
  holds_at-map_keep p f (x ∷ xs) zero keep h = keep x h
  holds_at-map_keep p f (x ∷ xs) (suc j) keep h = holds_at-map_keep p f xs j keep h

  -- A write that leaves the test as it was, wherever it goes.
  pub holds_at-modify_same :
      (p : A → Bool) (xs : List A) (i j : ℕ) (f : A → A)
      → ((x : A) → p (f x) ≡ p x)
      → holds_at p (modify xs i f) j ≡ holds_at p xs j
  holds_at-modify_same p [] i j f same = refl
  holds_at-modify_same p (x ∷ xs) zero zero f same = same x
  holds_at-modify_same p (x ∷ xs) zero (suc j) f same = refl
  holds_at-modify_same p (x ∷ xs) (suc i) zero f same = refl
  holds_at-modify_same p (x ∷ xs) (suc i) (suc j) f same = holds_at-modify_same p xs i j f same

  -- Such a write changes no search either.
  pub find_index-modify_same :
      (p : A → Bool) (xs : List A) (i : ℕ) (f : A → A)
      → ((x : A) → p (f x) ≡ p x)
      → find_index p (modify xs i f) ≡ find_index p xs
  find_index-modify_same p [] i f same = refl
  find_index-modify_same p (x ∷ xs) zero f same = rw (same x) refl
  find_index-modify_same p (x ∷ xs) (suc i) f same = rw (find_index-modify_same p xs i f same) refl
