-- ===== src/Memory/Heap/Tiling.antt =====
-- The invariant of the arena: the blocks tile it, and the guards of the loops are never met.
use knit_os.Base.{
  ℕ, ◌+◌, ◌-◌, ◌*◌, ◌%◌, ◌≤◌, ◌≡◌, refl, ap, ◌++◌, ◌&&◌, ltb→lt, ◌≢◌, ◌⊎◌, inl, inr, true, false,
  Option, none, some, List, [], ◌∷◌, arith, ltb, leb, ◌==◌, length, ne_of_==, ◌||◌, Bool-cases,
  Option-cases,
}
use knit_os.Memory.Heap.{
  Block, Heap, align_up, heap_size, header, guard_limit, heap_init, merge, coalesce_from,
  heap_coalesce, take_block, malloc_from, allocated, malloc, mark_free, free,
}

-- The blocks of the chain lie one behind the other from `a` to the end of the arena.
abbrev pub Tiles : ℕ → List Block → Type 0
Tiles a [] = a ≡ heap_size
Tiles a (b ∷ bs) = (b.addr ≡ a) × Tiles (a + header + b.size) bs

-- Sizes are multiples of 4, so every payload is aligned to 4.
abbrev pub Words : List Block → Type 0
Words [] = Unit {0}
Words (b ∷ bs) = (b.size % 4 ≡ 0) × Words bs

pub record IsTiled (bs : List Block) : Type 0 where
  pub tiled : Tiles 0 bs
  pub words : Words bs

-- A heap that is not ready yet is valid: each entry point runs `heap_init` first.
abbrev pub IsValid : Heap → Type 0
IsValid h = (h.ready ≡ false) ⊎ ((h.ready ≡ true) × IsTiled h.blocks)

pub Tiles-room : (a : ℕ) (bs : List Block) → Tiles a bs → a + header * length bs ≤ heap_size
Tiles-room a [] t = omega arith
Tiles-room a (b ∷ bs) t = omega (arith, Tiles-room (a + header + b.size) bs t.1)

pub merge-Tiles :
    (a : ℕ) (b c : Block) (bs : List Block) → Tiles a (b ∷ c ∷ bs) → Tiles a (merge b c ∷ bs)
unfolding merge
merge-Tiles a b c bs (at, (at', t)) = (
  at,
  let e : a + header + b.size + header + c.size ≡ a + header + (b.size + (header + c.size)) =
        omega arith in
      rw e at t,
)

pub coalesce_from-Tiles :
    (guard a : ℕ) (b : Block) (bs : List Block)
    → Tiles a (b ∷ bs)
    → Tiles a (coalesce_from guard b bs)
unfolding coalesce_from
coalesce_from-Tiles guard a b [] t = t
coalesce_from-Tiles guard a b (c ∷ bs) t = ground (
  arith,
  merge-Tiles a b c bs t,
  coalesce_from-Tiles (guard + 1) a (merge b c) bs,
  coalesce_from-Tiles (guard + 1) (a + header + b.size) c bs,
)

coalesce_from-Words :
    (guard : ℕ) (b : Block) (bs : List Block) → Words (b ∷ bs) → Words (coalesce_from guard b bs)
unfolding coalesce_from merge
coalesce_from-Words guard b [] t = t
coalesce_from-Words guard b (c ∷ bs) t =
    ground
      (arith, coalesce_from-Words (guard + 1) (merge b c) bs, coalesce_from-Words (guard + 1) c bs)

-- What the search of `malloc` finds: a free block that is large enough, split or taken whole.
pub malloc_from-eq-some :
    (guard size : ℕ) (bs : List Block) (r : ℕ × List Block)
    → malloc_from guard bs size ≡ some r
    → (pre : List Block) × (cur : Block) × (rest : List Block) × (bs ≡ pre ++ cur ∷ rest)
      × (r ≡ (cur.addr + header, pre ++ take_block cur size rest))
      × (cur.free ≡ true)
      × (size ≤ cur.size)
unfolding malloc_from
malloc_from-eq-some guard size [] r e = absurd (cc)
malloc_from-eq-some guard size (b ∷ bs) r e = elim (Bool-cases (ltb guard_limit (guard + 1))) [
  | inl over ↦ absurd (ground arith)
  | inr under ↦ elim (Bool-cases (b.free && leb size b.size)) [
    | inl fits ↦ ([], b, bs, refl, ground arith, ground arith, ground arith)
    | inr not_fits ↦ elim (Option-cases (malloc_from (guard + 1) bs size)) [
      | inl nothing ↦ absurd (ground arith)
      | inr (r', e') ↦
          let (pre, cur, rest, split, found, free, large) =
            malloc_from-eq-some (guard + 1) size bs r' e' in
          (b ∷ pre, cur, rest, ap (◌∷◌ b) split, ground arith, free, large)
    ]
  ]
]

-- Tiling looks at the sizes, so it passes to any chain that agrees from the same address on.
pub Tiles-append :
    (a : ℕ) (pre xs ys : List Block)
    → ((z : ℕ) → Tiles z xs → Tiles z ys)
    → Tiles a (pre ++ xs)
    → Tiles a (pre ++ ys)
Tiles-append a [] xs ys f t = f a t
Tiles-append a (b ∷ pre) xs ys f t = (t.0, Tiles-append (a + header + b.size) pre xs ys f t.1)

pub Words-append :
    (pre xs ys : List Block) → (Words xs → Words ys) → Words (pre ++ xs) → Words (pre ++ ys)
Words-append [] xs ys f t = f t
Words-append (b ∷ pre) xs ys f t = (t.0, Words-append pre xs ys f t.1)

take_block-Tiles :
    (size : ℕ) (cur : Block) (rest : List Block) (z : ℕ)
    → Tiles z (cur ∷ rest)
    → Tiles z (take_block cur size rest)
unfolding take_block
take_block-Tiles size cur rest z t = elim (Bool-cases (ltb (header + 8) (cur.size - size))) [
  | inl split ↦ rw split (
    t.0,
    (
      omega (arith, t.0),
      let e : z + header + cur.size ≡ z + header + size + header + (cur.size - size - header) =
            omega (arith, ltb→lt _ _ split) in
          rw e at t.1,
    ),
  )
  | inr whole ↦ rw whole t
]

take_block-Words :
    (size : ℕ) (cur : Block) (rest : List Block)
    → size % 4 ≡ 0
    → Words (cur ∷ rest)
    → Words (take_block cur size rest)
unfolding take_block
take_block-Words size cur rest h t = ground arith

pub heap_init-IsTiled : (h : Heap) → IsValid h → IsTiled (heap_init h).blocks
unfolding heap_init
heap_init-IsTiled h v = ground arith

pub ready-heap_init : (h : Heap) → (heap_init h).ready ≡ true
unfolding heap_init
ready-heap_init h = ground arith

malloc_from-IsTiled :
    (size : ℕ) (bs : List Block) (r : ℕ × List Block)
    → size % 4 ≡ 0
    → IsTiled bs
    → malloc_from 0 bs size ≡ some r
    → IsTiled r.1
malloc_from-IsTiled size bs r h t e =
    let (pre, cur, rest, split, found, free, large) = malloc_from-eq-some 0 size bs r e in
    rw found (record {
      tiled = Tiles-append 0 pre _ _ (take_block-Tiles size cur rest) (rw split at t.tiled);
      words = Words-append pre _ _ (take_block-Words size cur rest h) (rw split at t.words);
    })

mark_free-Tiles : (p a : ℕ) (bs : List Block) → Tiles a bs → Tiles a (mark_free p bs)
unfolding mark_free
mark_free-Tiles p a [] t = t
mark_free-Tiles p a (b ∷ bs) t = ground (arith, mark_free-Tiles p (a + header + b.size) bs)

mark_free-Words : (p : ℕ) (bs : List Block) → Words bs → Words (mark_free p bs)
unfolding mark_free
mark_free-Words p [] t = t
mark_free-Words p (b ∷ bs) t = ground (arith, mark_free-Words p bs)

heap_coalesce-IsTiled : (bs : List Block) → IsTiled bs → IsTiled (heap_coalesce bs)
unfolding heap_coalesce
heap_coalesce-IsTiled [] t = t
heap_coalesce-IsTiled (b ∷ bs) t = record {
  tiled = coalesce_from-Tiles 0 0 b bs t.tiled;
  words = coalesce_from-Words 0 b bs t.words;
}

allocated_cases {ℓ} :
    (P : Option ℕ × Heap → Type ℓ) (h : Heap) (o : Option (ℕ × List Block))
    → P (none, h)
    → ((r : ℕ × List Block) → o ≡ some r → P (some r.0, record h { blocks = r.1 }))
    → P (allocated h o)
unfolding allocated
allocated_cases P h none failed found = failed
allocated_cases P h (some (p, bs)) failed found = found (p, bs) refl

-- The ways in which `malloc` returns.
pub malloc_cases {ℓ} :
    (P : Option ℕ × Heap → Type ℓ) (size : ℕ) (h : Heap)
    → P (none, h)
    → P (none, heap_init h)
    → ((r : ℕ × List Block)
        → size ≢ 0
        → size ≤ heap_size
        → malloc_from 0 (heap_init h).blocks (align_up size) ≡ some r
        → P (some r.0, record (heap_init h) { blocks = r.1 }))
    → P (malloc size h)
unfolding malloc
malloc_cases P size h empty failed found = elim (Bool-cases (size == 0)) [
  | inl z ↦ rw z empty
  | inr nz ↦ elim (Bool-cases (ltb heap_size size)) [
    | inl big ↦ rw (nz, big) failed
    | inr ok ↦ elim (Bool-cases (ltb (heap_size - header) (align_up size))) [
      | inl big ↦ rw (nz, ok, big) failed
      | inr small ↦
          rw (nz, ok, small)
            (allocated_cases P (heap_init h) _ failed
              (λ r. found r (ne_of_== _ _ nz) (ground arith)))
    ]
  ]
]

-- `malloc` keeps the arena tiled by its blocks, with every size a multiple of 4.
pub malloc-IsValid : (size : ℕ) (h : Heap) → IsValid h → IsValid (malloc size h).1
malloc-IsValid size h v =
    let tiled = heap_init-IsTiled h v in
    malloc_cases (λ r. IsValid r.1) size h v (inr (ready-heap_init h, tiled))
      (λ r _ _ e.
        inr (ready-heap_init h, malloc_from-IsTiled (align_up size) _ r (omega arith) tiled e))

-- `free` keeps the arena tiled by its blocks.
pub free-IsValid : (p : Option ℕ) (h : Heap) → IsValid h → IsValid (free p h)
unfolding free
free-IsValid none h v = v
free-IsValid (some p) h v = elim (Bool-cases (ltb p header || leb (heap_size + header) p)) [
  | inl outside ↦ rw outside (inr (ready-heap_init h, tiled))
  | inr inside ↦ rw inside (inr (ready-heap_init h, heap_coalesce-IsTiled _ marked))
]
  where
    tiled : IsTiled (heap_init h).blocks
    tiled = heap_init-IsTiled h v

    marked : IsTiled (mark_free (p - header) (heap_init h).blocks)
    marked = record {
      tiled = mark_free-Tiles (p - header) 0 _ tiled.tiled;
      words = mark_free-Words (p - header) _ tiled.words;
    }
