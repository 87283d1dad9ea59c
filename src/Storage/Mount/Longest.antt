-- ===== src/Storage/Mount/Longest.antt =====
-- `get_mount_for_path` as the choice of the longest mount point.
use knit_os.Base.{
  ℕ, suc, ◌≡◌, ◌≤◌, ◌<◌, refl, ap, List, [], ◌∷◌, ◌++◌, true, ◌&&◌, ◌||◌, Option, none, some,
  get_elem?, arith, length, ltb, All, All-map, Bool-cases, Option-cases, ◌⊎◌, ◌↔◌, inl, inr,
  ==_self,
}
use knit_os.Storage.Mount.{
  Mount, slash, same_path, is_root, behind, at_boundary, covers, best_len, longest_from,
  get_mount_for_path,
}

-- What it means for a path to lie in a mount: it is active, the path begins with the mount point,
-- and the mount point is `/` or ends where a component of the path ends.
abbrev pub LiesIn : List ℕ → Mount → Type 0
LiesIn path m =
    (m.active ≡ true)
    × (rest : List ℕ) × (path ≡ m.path ++ rest)
    × ((m.path ≡ slash ∷ []) ⊎ (at_boundary rest ≡ true))

pub same_path-eq : (xs ys : List ℕ) → same_path xs ys ≡ true → xs ≡ ys
unfolding same_path
same_path-eq [] [] e = refl
same_path-eq [] (y ∷ ys) e = absurd (cc)
same_path-eq (x ∷ xs) [] e = absurd (cc)
same_path-eq (x ∷ xs) (y ∷ ys) e = ground (arith, same_path-eq xs ys)

pub same_path_refl : (xs : List ℕ) → same_path xs xs ≡ true
unfolding same_path
same_path_refl [] = refl
same_path_refl (x ∷ xs) = rw (==_self x) (same_path_refl xs)

behind-some : (xs ys rest : List ℕ) → behind xs ys ≡ some rest → ys ≡ xs ++ rest
unfolding behind
behind-some [] ys rest e = ground arith
behind-some (x ∷ xs) [] rest e = absurd (cc)
behind-some (x ∷ xs) (y ∷ ys) rest e = ground (arith, behind-some xs ys rest)

behind-append : (xs rest : List ℕ) → behind xs (xs ++ rest) ≡ some rest
unfolding behind
behind-append [] rest = refl
behind-append (x ∷ xs) rest = rw (==_self x) (behind-append xs rest)

empty_of_length : (xs : List ℕ) → length xs ≤ 0 → xs ≡ []
empty_of_length [] h = refl
empty_of_length (x ∷ xs) h = absurd (omega arith)

-- The test is exact.
pub covers_iff : (path : List ℕ) (m : Mount) → (covers path m ≡ true) ↔ LiesIn path m
unfolding covers same_path
covers_iff path m = (there, back)
  where
    there : covers path m ≡ true → LiesIn path m
    there e = elim (Option-cases (behind m.path path)) [
      | inl out ↦ absurd (ground arith)
      | inr (rest, b) ↦
          let tests : (m.active && (is_root m || at_boundary rest)) ≡ true = ground arith in
          (
            ground arith,
            rest,
            behind-some m.path path rest b,
            elim (Bool-cases (is_root m)) [
              | inl root ↦ inl (same_path-eq m.path (slash ∷ []) root)
              | inr other ↦ inr (ground arith)
            ],
          )
    ]

    back : LiesIn path m → covers path m ≡ true
    back (a, rest, e, inl root) =
        let is : is_root m ≡ true = rw root refl in
        rw (e, behind-append m.path rest, a, is, covers) refl
    back (a, rest, e, inr end) = ground (arith, ap (behind m.path) e, behind-append m.path rest)

module _ (path : List ℕ) where
  -- No mount that the path lies in is longer.
  abbrev Bounds : ℕ → List Mount → Type 0
  Bounds n t = All (λ (s : Mount). covers path s ≡ true → length s.path ≤ n) t

  record Longest (t : List Mount) (m : Mount) : Type 0 where
    index : ℕ
    at : get_elem? t index ≡ some m
    lies : covers path m ≡ true
    bounds : Bounds (length m.path) t

  Longest-later :
      (x : Mount) (t : List Mount) (m : Mount)
      → Longest t m
      → (covers path x ≡ true → length x.path ≤ length m.path)
      → Longest (x ∷ t) m
  Longest-later x t m l h = record {
    index = suc l.index;
    at = l.at;
    lies = l.lies;
    bounds = (h, l.bounds);
  }

  longest_from_cases :
      (best : Option Mount) (t : List Mount)
      → ((longest_from path best t ≡ best) × Bounds (best_len best) t)
        ⊎ ((m : Mount) × (longest_from path best t ≡ some m)
            × Longest t m
            × (best_len best < length m.path))
  unfolding longest_from
  longest_from_cases best [] = inl (refl, tt)
  longest_from_cases best (x ∷ t) =
      elim (Bool-cases (covers path x && ltb (best_len best) (length x.path))) [
        | inl better ↦ elim (longest_from_cases (some x) t) [
          | inl (e, b) ↦ inr (
            x,
            rw (better, longest_from) e,
            record { index = 0; at = refl; lies = ground arith; bounds = (λ _. omega arith, b) },
            ground arith,
          )
          | inr (m, e, l, lt) ↦ inr (
            m,
            rw (better, longest_from) e,
            Longest-later x t m l (λ _. omega arith),
            ground arith,
          )
        ]
        | inr worse ↦ elim (longest_from_cases best t) [
          | inl (e, b) ↦ inl (rw (worse, longest_from) e, (λ h. ground arith, b))
          | inr (m, e, l, lt) ↦
              inr (m, rw (worse, longest_from) e, Longest-later x t m l (λ h. ground arith), lt)
        ]
      ]

  -- A path is looked up in an active mount whose mount point it lies under, component by component,
  -- and no longer mount point would do; if it lies under none that is not empty, in the first entry.
  pub get_mount_for_path-longest :
      (t : List Mount)
      → ((get_mount_for_path path t ≡ get_elem? t 0)
          × All (λ (s : Mount). LiesIn path s → s.path ≡ []) t)
        ⊎ ((m : Mount) × (i : ℕ) × (get_mount_for_path path t ≡ some m)
            × (get_elem? t i ≡ some m)
            × LiesIn path m
            × All (λ (s : Mount). LiesIn path s → length s.path ≤ length m.path) t)
  unfolding get_mount_for_path
  get_mount_for_path-longest t = elim (longest_from_cases none t) [
    | inl (e, b) ↦ inl (
      rw (e, get_mount_for_path) refl,
      All-map (λ (s : Mount). covers path s ≡ true → length s.path ≤ 0)
          (λ (s : Mount). LiesIn path s → s.path ≡ []) t
          (λ s h l. empty_of_length s.path (h ((covers_iff path s).1 l))) b,
    )
    | inr (m, e, l, _) ↦ inr (
      m,
      l.index,
      rw (e, get_mount_for_path) refl,
      l.at,
      (covers_iff path m).0 l.lies,
      All-map (λ (s : Mount). covers path s ≡ true → length s.path ≤ length m.path)
          (λ (s : Mount). LiesIn path s → length s.path ≤ length m.path) t
          (λ s h l'. h ((covers_iff path s).1 l')) l.bounds,
    )
  ]
