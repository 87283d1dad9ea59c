-- ===== src/Memory/Heap/Coalescing.antt =====
-- `free` leaves no two neighbours free, and so undoes a `malloc` completely.
use knit_os.Base.{
  ℕ, ◌+◌, ◌-◌, ◌≤◌, ◌<◌, ◌≡◌, refl, ap, ◌++◌, ◌&&◌, ◌||◌, inl, inr, true, false, some, List, [],
  ◌∷◌, arith, ltb, leb, length, length-append, Bool-cases, sym, ◌∙◌, ==_self,
}
use knit_os.Memory.Heap.{
  Block, Heap, heap_size, header, guard_limit, align_up, heap_init, merge, coalesce_from,
  heap_coalesce, take_block, malloc_from, malloc, mark_free, free,
}
use knit_os.Memory.Heap.Tiling.{
  Tiles, Tiles-room, IsValid, heap_init-IsTiled, ready-heap_init, malloc_from-eq-some, malloc_cases,
}
use knit_os.Memory.Heap.Live.{payload, live_bounds}

abbrev Follows : Block → List Block → Type 0
Follows b [] = Unit {0}
Follows b (c ∷ bs) = (b.free && c.free) ≡ false

-- No free block is followed by another.
abbrev pub IsCoalesced : List Block → Type 0
IsCoalesced [] = Unit {0}
IsCoalesced (b ∷ bs) = Follows b bs × IsCoalesced bs

-- The head of a coalesced chain is free exactly if the block that it started from was.
coalesce_from-Follows :
    (guard : ℕ) (a b : Block) (bs : List Block)
    → (a.free && b.free) ≡ false
    → Follows a (coalesce_from guard b bs)
unfolding coalesce_from merge
coalesce_from-Follows guard a b [] h = h
coalesce_from-Follows guard a b (c ∷ bs) h =
    ground (arith, coalesce_from-Follows (guard + 1) a (merge b c) bs h)

coalesce_from-IsCoalesced :
    (guard : ℕ) (b : Block) (bs : List Block)
    → guard + length bs ≤ guard_limit
    → IsCoalesced (coalesce_from guard b bs)
unfolding coalesce_from
coalesce_from-IsCoalesced guard b [] h = (tt, tt)
coalesce_from-IsCoalesced guard b (c ∷ bs) h = ground (
  arith,
  coalesce_from-IsCoalesced (guard + 1) (merge b c) bs (omega arith),
  coalesce_from-IsCoalesced (guard + 1) c bs (omega arith),
  coalesce_from-Follows (guard + 1) b c bs,
)

coalesce_from_same :
    (guard : ℕ) (b : Block) (bs : List Block)
    → IsCoalesced (b ∷ bs)
    → coalesce_from guard b bs ≡ b ∷ bs
unfolding coalesce_from
coalesce_from_same guard b [] c = refl
coalesce_from_same guard b (x ∷ bs) c = ground (arith, coalesce_from_same (guard + 1) x bs c.1)

heap_coalesce_same : (bs : List Block) → IsCoalesced bs → heap_coalesce bs ≡ bs
unfolding heap_coalesce
heap_coalesce_same [] c = refl
heap_coalesce_same (b ∷ bs) c = coalesce_from_same 0 b bs c

length-mark_free : (p : ℕ) (bs : List Block) → length (mark_free p bs) ≡ length bs
unfolding mark_free
length-mark_free p [] = refl
length-mark_free p (b ∷ bs) = ground (arith, length-mark_free p bs)

heap_coalesce-IsCoalesced :
    (bs : List Block) → length bs ≤ guard_limit → IsCoalesced (heap_coalesce bs)
unfolding heap_coalesce
heap_coalesce-IsCoalesced [] h = tt
heap_coalesce-IsCoalesced (b ∷ bs) h = coalesce_from-IsCoalesced 0 b bs (omega arith)

free_inside-IsCoalesced :
    (p : ℕ) (h : Heap)
    → IsValid h
    → header ≤ p
    → p < heap_size + header
    → IsCoalesced (free (some p) h).blocks
unfolding free
free_inside-IsCoalesced p h v lo hi =
    let inside : (ltb p header || leb (heap_size + header) p) ≡ false = ground arith in
    rw inside (
      heap_coalesce-IsCoalesced _ (
        omega (
          arith,
          length-mark_free (p - header) (heap_init h).blocks,
          Tiles-room 0 _ (heap_init-IsTiled h v).tiled,
        )))

-- Freeing a live payload leaves no free block in front of another free block.
pub free-IsCoalesced :
    (p : ℕ) (h : Heap) {s : ℕ}
    → IsValid h
    → payload h p ≡ some s
    → IsCoalesced (free (some p) h).blocks
free-IsCoalesced p h v e =
    let bounds = live_bounds p 0 _ (heap_init-IsTiled h v).tiled e in
    free_inside-IsCoalesced p h v (omega arith) (omega arith)

free-merge : (x y : Block) → (merge x y).free ≡ x.free
unfolding merge
free-merge x y = refl

-- Two free neighbours anywhere in a chain that is coalesced but for them grow together.
coalesce_from_merges :
    (guard : ℕ) (b : Block) (pre : List Block) (x y : Block) (rest : List Block)
    → IsCoalesced (b ∷ pre ++ merge x y ∷ rest)
    → x.free ≡ true
    → y.free ≡ true
    → guard + length pre + 2 ≤ guard_limit
    → coalesce_from guard b (pre ++ x ∷ y ∷ rest) ≡ b ∷ pre ++ merge x y ∷ rest
unfolding coalesce_from
coalesce_from_merges guard b [] x y rest c fx fy h =
    ground (arith, free-merge x y, coalesce_from_same (guard + 1 + 1) (merge x y) rest c.1)
coalesce_from_merges guard b (a ∷ pre) x y rest c fx fy h =
    ground (arith, coalesce_from_merges (guard + 1) a pre x y rest c.1 fx fy (omega arith))

heap_coalesce_merges :
    (pre : List Block) (x y : Block) (rest : List Block)
    → IsCoalesced (pre ++ merge x y ∷ rest)
    → x.free ≡ true
    → y.free ≡ true
    → length pre + 2 ≤ guard_limit
    → heap_coalesce (pre ++ x ∷ y ∷ rest) ≡ pre ++ merge x y ∷ rest
unfolding heap_coalesce coalesce_from
heap_coalesce_merges [] x y rest c fx fy h = ground (arith, coalesce_from_same 1 (merge x y) rest c)
heap_coalesce_merges (b ∷ pre) x y rest c fx fy h =
    coalesce_from_merges 0 b pre x y rest c fx fy (omega arith)

mark_free_skip :
    (a : ℕ) (pre : List Block) (cur : Block) (rest ys : List Block)
    → Tiles a (pre ++ cur ∷ rest)
    → (a ≤ cur.addr) × (mark_free cur.addr (pre ++ ys) ≡ pre ++ mark_free cur.addr ys)
unfolding mark_free
mark_free_skip a [] cur rest ys t = (omega arith, refl)
mark_free_skip a (b ∷ pre) cur rest ys t =
    ground (arith, mark_free_skip (a + header + b.size) pre cur rest ys t.1)

refree : (cur : Block) → cur.free ≡ true → record cur { free = true } ≡ cur
refree cur f = ap (λ b. record cur { free = b }) (sym f)

rejoin :
    (size : ℕ) (cur : Block)
    → cur.free ≡ true
    → header + size ≤ cur.size
    → merge
        (record cur { size = size; free = true })
        (record { addr = cur.addr + header + size; size = cur.size - size - header; free = true })
      ≡ cur
unfolding merge
rejoin size cur f h =
    let e : size + (header + (cur.size - size - header)) ≡ cur.size = omega arith in
    rw e (refree cur f)

Tiles-lt :
    (a : ℕ) (pre : List Block) (cur : Block) (rest : List Block)
    → Tiles a (pre ++ cur ∷ rest)
    → cur.addr < heap_size
Tiles-lt a [] cur rest t = omega (arith, Tiles-room (a + header + cur.size) rest t.1)
Tiles-lt a (b ∷ pre) cur rest t = Tiles-lt (a + header + b.size) pre cur rest t.1

-- Freeing the block just taken from a coalesced chain gives the chain back.
take_block_undone :
    (size : ℕ) (pre : List Block) (cur : Block) (rest : List Block)
    → Tiles 0 (pre ++ cur ∷ rest)
    → IsCoalesced (pre ++ cur ∷ rest)
    → cur.free ≡ true
    → heap_coalesce (mark_free cur.addr (pre ++ take_block cur size rest)) ≡ pre ++ cur ∷ rest
unfolding take_block mark_free
take_block_undone size pre cur rest t c f =
    ap heap_coalesce (mark_free_skip 0 pre cur rest (take_block cur size rest) t).1 ∙ at_cur
  where
    left : Block
    left = record { addr = cur.addr + header + size; size = cur.size - size - header; free = true }

    room : length pre + 2 ≤ guard_limit
    room = omega (arith, Tiles-room 0 _ t, length-append pre (cur ∷ rest))

    at_cur :
        heap_coalesce (pre ++ mark_free cur.addr (take_block cur size rest)) ≡ pre ++ cur ∷ rest
    at_cur = elim (Bool-cases (ltb (header + 8) (cur.size - size))) [
      | inl split ↦
          let e = rejoin size cur f (ground arith) in
          rw (split, ==_self cur.addr)
            (rw e at (
              heap_coalesce_merges pre (record cur { size = size; free = true }) left rest (rw e c)
                refl refl room))
      | inr whole ↦ rw (whole, ==_self cur.addr, refree cur f) (heap_coalesce_same _ c)
    ]

malloc_from_undone :
    (size : ℕ) (bs : List Block) (r : ℕ × List Block)
    → Tiles 0 bs
    → IsCoalesced bs
    → malloc_from 0 bs size ≡ some r
    → (heap_coalesce (mark_free (r.0 - header) r.1) ≡ bs)
      × ((header ≤ r.0) × (r.0 < heap_size + header))
malloc_from_undone size bs r t c e =
    let (pre, cur, rest, split, found, free, large) = malloc_from-eq-some 0 size bs r e in
    let back : cur.addr + header - header ≡ cur.addr = omega arith in
    rw (found, split, back)
      (
        take_block_undone size pre cur rest (rw split at t) (rw split at c) free,
        omega (arith, Tiles-lt 0 pre cur rest (rw split at t)),
      )

free_ready :
    (p : ℕ) (h : Heap) (bs cs : List Block)
    → h.ready ≡ true
    → header ≤ p
    → p < heap_size + header
    → heap_coalesce (mark_free (p - header) bs) ≡ cs
    → free (some p) (record h { blocks = bs }) ≡ record h { blocks = cs }
unfolding free heap_init
free_ready p h bs cs r lo hi e =
    let inside : (ltb p header || leb (heap_size + header) p) ≡ false = ground arith in
    rw (r, inside, e)

-- On a coalesced heap `free` undoes `malloc` exactly: the heap is as before the two calls.
pub free-malloc :
    (size : ℕ) (h : Heap) {p : ℕ}
    → IsValid h
    → IsCoalesced (heap_init h).blocks
    → (malloc size h).0 ≡ some p
    → free (some p) (malloc size h).1 ≡ heap_init h
free-malloc size h {p} v c =
    malloc_cases (λ r. r.0 ≡ some p → free (some p) r.1 ≡ heap_init h) size h (λ e. absurd (cc))
      (λ e. absurd (cc))
      λ r _ _ e found.
        let (undone, inside) =
          malloc_from_undone (align_up size) _ r (heap_init-IsTiled h v).tiled c e in
        let same : p ≡ r.0 = ground arith in
        rw same (
          free_ready r.0 (heap_init h) r.1 (heap_init h).blocks (ready-heap_init h) inside.0
            inside.1 undone)
