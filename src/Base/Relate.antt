-- ===== src/Base/Relate.antt =====
-- Two lists compared element by element.
use Prim.Native.Nat.{ℕ, zero, suc}
use mathlib.Core.Path.{◌≡◌, refl, ap, sym, ◌∙◌}
use mathlib.Core.List.{List, [], ◌∷◌}
use mathlib.Core.Option.{some, some-injective}
use knit_os.Base.Lists.{get_elem?, length, modify}

-- A relation between the elements of two lists of one length.
abbrev pub Pointwise {ℓ κ} : {A : Type ℓ} {B : Type κ} → (A → B → Type 0) → List A → List B → Type 0
Pointwise R [] [] = Unit
Pointwise R [] (y ∷ ys) = ⊥
Pointwise R (x ∷ xs) [] = ⊥
Pointwise R (x ∷ xs) (y ∷ ys) = R x y × Pointwise R xs ys

module _ {ℓ} {A : Type ℓ} (R : A → A → Type 0) where
  module _ (R-refl : (x : A) → R x x) where
    pub Pointwise-refl : (xs : List A) → Pointwise R xs xs
    Pointwise-refl [] = tt
    Pointwise-refl (x ∷ xs) = (R-refl x, Pointwise-refl xs)

    pub Pointwise-modify :
        (xs : List A) (i : ℕ) (f : A → A) → ((x : A) → R x (f x)) → Pointwise R xs (modify xs i f)
    Pointwise-modify [] i f h = tt
    Pointwise-modify (x ∷ xs) zero f h = (h x, Pointwise-refl xs)
    Pointwise-modify (x ∷ xs) (suc i) f h = (R-refl x, Pointwise-modify xs i f h)

  pub Pointwise-trans :
      ((x y z : A) → R x y → R y z → R x z)
      → (xs ys zs : List A) → Pointwise R xs ys
      → Pointwise R ys zs
      → Pointwise R xs zs
  Pointwise-trans chain [] [] [] f g = tt
  Pointwise-trans chain [] [] (z ∷ zs) f g = absurd g
  Pointwise-trans chain [] (y ∷ ys) zs f g = absurd f
  Pointwise-trans chain (x ∷ xs) [] zs f g = absurd f
  Pointwise-trans chain (x ∷ xs) (y ∷ ys) [] f g = absurd g
  Pointwise-trans chain (x ∷ xs) (y ∷ ys) (z ∷ zs) f g =
      (chain x y z (f.0) (g.0), Pointwise-trans chain xs ys zs (f.1) (g.1))

  pub Pointwise-get :
      (xs ys : List A) (i : ℕ) {y : A}
      → Pointwise R xs ys
      → get_elem? ys i ≡ some y
      → (x : A) × (get_elem? xs i ≡ some x) × R x y
  Pointwise-get [] [] i f e = absurd (cc)
  Pointwise-get [] (y ∷ ys) i f e = absurd f
  Pointwise-get (x ∷ xs) [] i f e = absurd f
  Pointwise-get (x ∷ xs) (y ∷ ys) zero {y = z} f e =
      (x, refl, (let same : y ≡ z = some-injective y z e in rw⁻¹ same (f.0)))
  Pointwise-get (x ∷ xs) (y ∷ ys) (suc i) f e = Pointwise-get xs ys i (f.1) e

  pub Pointwise-both :
      (xs ys : List A) (i : ℕ) {x y : A}
      → Pointwise R xs ys
      → get_elem? xs i ≡ some x
      → get_elem? ys i ≡ some y
      → R x y
  Pointwise-both xs ys i {x = x} f at after =
      let (z, before, r) = Pointwise-get xs ys i f after in
      let same : z ≡ x = some-injective z x (sym before ∙ at) in rw same at r

  pub Pointwise-length : (xs ys : List A) → Pointwise R xs ys → length xs ≡ length ys
  Pointwise-length [] [] f = refl
  Pointwise-length [] (y ∷ ys) f = absurd f
  Pointwise-length (x ∷ xs) [] f = absurd f
  Pointwise-length (x ∷ xs) (y ∷ ys) f = ap suc (Pointwise-length xs ys (f.1))

pub Pointwise-weaken {ℓ} :
    {A : Type ℓ} (R S : A → A → Type 0)
    → ((x y : A) → R x y → S x y)
    → (xs ys : List A) → Pointwise R xs ys
    → Pointwise S xs ys
Pointwise-weaken R S w [] [] f = tt
Pointwise-weaken R S w [] (y ∷ ys) f = absurd f
Pointwise-weaken R S w (x ∷ xs) [] f = absurd f
Pointwise-weaken R S w (x ∷ xs) (y ∷ ys) f = (w x y (f.0), Pointwise-weaken R S w xs ys (f.1))
