-- ===== src/Storage/Ram/Lookup.antt =====
-- What `ramfs_lookup` of kernel/ramfs.cpp depends on.
use mathlib.Core.Option
use mathlib.Core.Option.{some-injective}
use knit_os.Base.{
  ℕ, zero, suc, ◌≤◌, ◌<◌, ◌≡◌, refl, sym, ap, ◌∙◌, List, [], ◌∷◌, Bool, true, false, not, ◌&&◌,
  Option, none, some, inl, inr, modify, length, arith, Bool-cases, Option-cases, ◌==◌,
  if◌then◌else◌, holds_at-modify_same, find_index-modify_same, find_index_cases, lt_of_get_elem?,
}
use knit_os.Storage.Mount.{same_path}
use knit_os.Storage.Ram.{
  Node, RamFs, is_named_child, find_past_root, ram_find_child, descend, lookup_with, component,
  skip_slash, is_empty, dir_at, lookup_from, lookup_rel, ramfs_lookup, ramfs_strip_tmp,
}

-- A write to a node that leaves what a lookup reads of it.
pub record Looks (f : Node → Node) : Type 0 where
  pub child :
      (parent : ℕ) (name : List ℕ) (n : Node)
      → is_named_child parent name (f n) ≡ is_named_child parent name n
  pub dir : (n : Node) → (f n).is_dir ≡ n.is_dir

find_past_root-modify :
    (p : Node → Bool) (ns : List Node) (i : ℕ) (f : Node → Node)
    → ((n : Node) → p (f n) ≡ p n)
    → find_past_root p (modify ns i f) ≡ find_past_root p ns
find_past_root-modify p [] i f same = refl
find_past_root-modify p (n ∷ ns) zero f same = refl
find_past_root-modify p (n ∷ ns) (suc i) f same =
    ap (Option.map suc) (find_index-modify_same p ns i f same)

-- Such a write changes no lookup.
pub lookup-modify :
    (path : List ℕ) (fs : RamFs) (i : ℕ) (f : Node → Node)
    → Looks f
    → ramfs_lookup path (record fs { nodes = modify fs.nodes i f }) ≡ ramfs_lookup path fs
unfolding ramfs_lookup lookup_rel
lookup-modify path fs i f looks = λ j.
    if fs.is_ready
    then (let rel = ramfs_strip_tmp 128 path in
        if same_path rel (b'/' ∷ [])
        then some 0
        else lookup_with (λ parent name. found parent name j) (λ k. dirs k j)
            (length (skip_slash rel)) 0 (skip_slash rel))
    else none
  where
    found :
        (parent : ℕ) (name : List ℕ)
        → ram_find_child parent name (modify fs.nodes i f) ≡ ram_find_child parent name fs.nodes
    found parent name =
        find_past_root-modify (is_named_child parent name) fs.nodes i f (looks.child parent name)

    dirs : (k : ℕ) → dir_at (modify fs.nodes i f) k ≡ dir_at fs.nodes k
    dirs k = holds_at-modify_same _ fs.nodes i k f looks.dir

component-length : (n : ℕ) (p : List ℕ) → length (component n p).1 ≤ length p
unfolding component
component-length zero p = omega arith
component-length (suc n) [] = omega arith
component-length (suc n) (c ∷ cs) = elim (Bool-cases (c == b'/')) [
  | inl e ↦ rw (e, component) (omega arith)
  | inr e ↦ rw (e, component) (omega (arith, component-length n cs))
]

pub skip_slash-length : (p : List ℕ) → length (skip_slash p) ≤ length p
skip_slash-length [] = omega arith
skip_slash-length (c ∷ cs) = ground arith

-- A round takes at least one byte.
pub round_shorter :
    (n c : ℕ) (cs : List ℕ) → length (skip_slash (component (suc n) (c ∷ cs)).1) ≤ length cs
unfolding component
round_shorter n c cs = elim (Bool-cases (c == b'/')) [
  | inl e ↦ rw (e, component) (rw e (omega arith))
  | inr e ↦
      rw (e, component) (omega (arith, component-length n cs, skip_slash-length (component n cs).1))
]

-- Two bounds that are both at least the length of the path give the same result.
pub lookup_with-enough :
    (find : ℕ → List ℕ → Option ℕ) (is_dir : ℕ → Bool) (fuel more last : ℕ) (p : List ℕ)
    → length p ≤ fuel
    → length p ≤ more
    → lookup_with find is_dir more last p ≡ lookup_with find is_dir fuel last p
unfolding lookup_with
lookup_with-enough find is_dir zero zero last p h g = refl
lookup_with-enough find is_dir zero (suc more) last [] h g = refl
lookup_with-enough find is_dir zero (suc more) last (c ∷ cs) h g = absurd (omega arith)
lookup_with-enough find is_dir (suc fuel) zero last [] h g = refl
lookup_with-enough find is_dir (suc fuel) zero last (c ∷ cs) h g = absurd (omega arith)
lookup_with-enough find is_dir (suc fuel) (suc more) last [] h g = refl
lookup_with-enough find is_dir (suc fuel) (suc more) last (c ∷ cs) h g =
    let name = (component 31 (c ∷ cs)).0 in
    let rest = skip_slash (component 31 (c ∷ cs)).1 in
    let shorter = round_shorter 30 c cs in
    λ j. elim (is_empty name) [
      | true ↦ lookup_with-enough find is_dir fuel more last rest (omega arith) (omega arith) j
      | false ↦
          descend is_dir
            (λ idx. lookup_with-enough find is_dir fuel more idx rest (omega arith) (omega arith) j)
            rest (find last name)
    ]

-- A lookup ends at the node where it starts or at one that the search for a child gives.
module _ (P : ℕ → Type 0) (find : ℕ → List ℕ → Option ℕ) (is_dir : ℕ → Bool)
    (finds : (parent : ℕ) (name : List ℕ) (idx : ℕ) → find parent name ≡ some idx → P idx) where
  lookup_with-ends :
      (fuel last : ℕ) (p : List ℕ) {k : ℕ}
      → P last
      → lookup_with find is_dir fuel last p ≡ some k
      → P k
  unfolding lookup_with
  lookup_with-ends zero last p {k} h e =
      let same : last ≡ k = some-injective last k e in rw same at h
  lookup_with-ends (suc fuel) last [] {k} h e =
      let same : last ≡ k = some-injective last k e in rw same at h
  lookup_with-ends (suc fuel) last (c ∷ cs) {k} h e =
      let name = (component 31 (c ∷ cs)).0 in
      let rest = skip_slash (component 31 (c ∷ cs)).1 in
      elim (Bool-cases (is_empty name)) [
        | inl n ↦ lookup_with-ends fuel last rest h (rw (n, lookup_with) at e)
        | inr n ↦ elim (Option-cases (find last name)) [
          | inl f ↦ absurd (let stop = rw (n, lookup_with, f) at e in cc)
          | inr (idx, f) ↦ elim (Bool-cases (not (is_empty rest) && not (is_dir idx))) [
            | inl file ↦ absurd (let stop = rw (n, lookup_with, f, descend, file) at e in cc)
            | inr go ↦
                lookup_with-ends fuel idx rest (finds last name idx f)
                  (rw (n, lookup_with, f, descend, go) at e)
          ]
        ]
      ]

find_inside :
    (p : Node → Bool) (ns : List Node) (i : ℕ) → find_past_root p ns ≡ some i → i < length ns
find_inside p [] i e = absurd (cc)
find_inside p (n ∷ ns) i e = elim (find_index_cases p ns) [
  | inl (f, _) ↦ absurd (let miss = rw f at e in cc)
  | inr (j, x, f, at, _) ↦
      let same : suc j ≡ i = some-injective (suc j) i (rw f at e) in
      omega (arith, lt_of_get_elem? ns j at)
]

pub at_root :
    (rel : List ℕ) (ns : List Node) → same_path rel (b'/' ∷ []) ≡ true → lookup_rel rel ns ≡ some 0
unfolding lookup_rel
at_root rel ns s = rw (lookup_rel, s) refl

pub below_root :
    (rel : List ℕ) (ns : List Node)
    → same_path rel (b'/' ∷ []) ≡ false
    → lookup_rel rel ns ≡ lookup_from (length (skip_slash rel)) 0 (skip_slash rel) ns
unfolding lookup_rel lookup_with
below_root rel ns s = rw (lookup_rel, s) refl

rel_inside :
    (rel : List ℕ) (ns : List Node) (k : ℕ)
    → 0 < length ns
    → lookup_rel rel ns ≡ some k
    → k < length ns
rel_inside rel ns k some_node e = elim (Bool-cases (same_path rel (b'/' ∷ []))) [
  | inl s ↦ let same : 0 ≡ k = some-injective 0 k (sym (at_root rel ns s) ∙ e) in omega arith
  | inr s ↦
      lookup_with-ends (λ i. i < length ns) (λ parent name. ram_find_child parent name ns)
        (dir_at ns) (λ parent name idx f. find_inside (is_named_child parent name) ns idx f)
        (length (skip_slash rel)) 0 (skip_slash rel) some_node (sym (below_root rel ns s) ∙ e)
]

-- A lookup gives a node of the table, if there is a root.
pub lookup_inside :
    (path : List ℕ) (fs : RamFs) {k : ℕ}
    → 0 < length fs.nodes
    → ramfs_lookup path fs ≡ some k
    → k < length fs.nodes
unfolding ramfs_lookup
lookup_inside path fs {k} some_node e = elim (Bool-cases fs.is_ready) [
  | inr r ↦ absurd (let off = rw r at e in cc)
  | inl r ↦ rel_inside (ramfs_strip_tmp 128 path) fs.nodes k some_node (rw r at e)
]
