-- ===== src/Base/Find.antt =====
-- `for (i = 0; i < N; i++) if (test(t[i])) return i; return -1;` over a fixed table.
use Prim.Native.Nat.{ℕ, suc}
use mathlib.Core.Path.{◌≡◌, refl}
use mathlib.Core.Logic.{◌⊎◌, inl, inr}
use mathlib.Core.List.{List, [], ◌∷◌}
use mathlib.Core.Bool.{Bool, true, false}
use mathlib.Core.Option
use mathlib.Core.Option.{Option, none, some}
use knit_os.Base.Lists.{get_elem?, All}
use knit_os.Base.Tests.{if◌then◌else◌, Bool-cases}

module _ {ℓ} {A : Type ℓ} where
  abbrev pub find_index : (A → Bool) → List A → Option ℕ
  find_index p [] = none
  find_index p (x ∷ xs) = if p x then some 0 else Option.map suc (find_index p xs)

  -- What a search gives: the first fitting slot, or that no slot fits.
  pub find_index_cases :
      (p : A → Bool) (xs : List A)
      → ((find_index p xs ≡ none) × All (λ x. p x ≡ false) xs)
        ⊎ ((i : ℕ) × (x : A) × (find_index p xs ≡ some i)
            × (get_elem? xs i ≡ some x)
            × (p x ≡ true))
  find_index_cases p [] = inl (refl, tt)
  find_index_cases p (x ∷ xs) = elim (Bool-cases (p x)) [
    | inl hit ↦ inr (0, x, rw hit, refl, hit)
    | inr miss ↦ elim (find_index_cases p xs) [
      | inl (e, rest) ↦ inl (rw (miss, e), (miss, rest))
      | inr (i, y, e, g, t) ↦ inr (suc i, y, rw (miss, e), g, t)
    ]
  ]
