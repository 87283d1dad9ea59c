-- ===== src/Storage/Ram/Walk.antt =====
-- What `ramfs_lookup` of kernel/ramfs.cpp finds: the node at the end of the path, name by name.
use knit_os.Base.{
  ℕ, ◌≤◌, ◌<◌, ◌≡◌, List, [], ◌∷◌, ◌++◌, Bool, true, false, not, Option, some, ◌⊎◌, length, All,
  ◌==◌,
}

-- Not a slash.
abbrev pub IsPlain : ℕ → Type 0
IsPlain c = (c == b'/') ≡ false

-- Nothing is left, or a slash is next.
abbrev pub Stops : List ℕ → Type 0
Stops [] = Unit
Stops (c ∷ cs) = (c == b'/') ≡ true

-- A name of a path, of at most 31 bytes, with what is behind it: a name that goes on is cut there.
abbrev pub IsName : ℕ → List ℕ → List ℕ → Type 0
IsName most name rest =
    All IsPlain name × (length name ≤ most) × (Stops rest ⊎ (length name ≡ most))

-- There is more behind a name than a slash.
abbrev pub goes_on : List ℕ → Bool
goes_on [] = false
goes_on (c ∷ []) = not (c == b'/')
goes_on (c ∷ d ∷ cs) = true

module _ (find : ℕ → List ℕ → Option ℕ) (is_dir : ℕ → Bool) where
  -- From the node `here`, the path leads to the node `k`.
  pub data Walks : ℕ → List ℕ → ℕ → Type 0 where
    arrived : {here k : ℕ} {p : List ℕ} → p ≡ [] → here ≡ k → Walks here p k
    slash : {here k : ℕ} {p : List ℕ} (q : List ℕ) → p ≡ b'/' ∷ q → Walks here q k → Walks here p k
    enter :
        {here k : ℕ} {p : List ℕ} (name rest : List ℕ) (idx : ℕ)
        → p ≡ name ++ rest
        → 0 < length name
        → IsName 31 name rest
        → find here name ≡ some idx
        → (goes_on rest ≡ true → is_dir idx ≡ true)
        → Walks idx rest k
        → Walks here p k
