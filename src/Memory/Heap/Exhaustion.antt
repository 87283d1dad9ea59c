-- ===== src/Memory/Heap/Exhaustion.antt =====
-- When `malloc` gives up, and what `heap_get_stats` reports.
use knit_os.Base.{
  ℕ, ◌+◌, ◌-◌, ◌*◌, ◌/◌, ◌≤◌, ◌<◌, ◌≡◌, refl, ◌&&◌, ◌≢◌, inl, inr, false, Option, none, some, List,
  [], ◌∷◌, arith, ltb, leb, if◌then◌else◌, length, All, Bool-cases, ==_of_ne,
}
use knit_os.Memory.Heap.{
  Block, Heap, heap_size, header, guard_limit, align_up, heap_init, malloc_from, allocated, malloc,
  free_total, heap_get_stats,
}
use knit_os.Memory.Heap.Tiling.{Tiles, Tiles-room, IsValid, heap_init-IsTiled}

abbrev IsTooSmall : ℕ → Block → Type 0
IsTooSmall size b = (b.free && leb size b.size) ≡ false

malloc_from_fails :
    (guard size : ℕ) (bs : List Block)
    → guard + length bs ≤ guard_limit
    → malloc_from guard bs size ≡ none
    → All (IsTooSmall size) bs
unfolding malloc_from
malloc_from_fails guard size [] h e = tt
malloc_from_fails guard size (b ∷ bs) h e =
    ground (arith, malloc_from_fails (guard + 1) size bs (omega arith))

abbrev rounded : ℕ → ℕ
rounded size = (size + 7) / 8 * 8

-- No free block of the heap holds `size` bytes, rounded up to a multiple of 8.
abbrev pub IsExhausted : ℕ → Heap → Type 0
IsExhausted size h = All (λ b. IsTooSmall (rounded size) b) (heap_init h).blocks

big-IsTooSmall :
    (a size : ℕ) (bs : List Block)
    → Tiles a bs
    → heap_size < size + header
    → All (λ b. IsTooSmall size b) bs
big-IsTooSmall a size [] t h = tt
big-IsTooSmall a size (b ∷ bs) t h = (
  ground (arith, Tiles-room (a + header + b.size) bs t.1),
  big-IsTooSmall (a + header + b.size) size bs t.1 h,
)

allocated-none : (h : Heap) (o : Option (ℕ × List Block)) → (allocated h o).0 ≡ none → o ≡ none
unfolding allocated
allocated-none h none e = refl
allocated-none h (some (p, bs)) e = cc

-- `malloc` of a positive size returns null only if no free block is large enough: the search is
-- complete, and its guard against a corrupted list never stops it.
pub malloc_complete :
    (size : ℕ) (h : Heap) → IsValid h → size ≢ 0 → (malloc size h).0 ≡ none → IsExhausted size h
unfolding malloc
malloc_complete size h v nz = elim (Bool-cases (ltb heap_size size)) [
  | inl big ↦ λ e. big-IsTooSmall 0 (rounded size) _ tiled (ground arith)
  | inr ok ↦ elim (Bool-cases (ltb (heap_size - header) (align_up size))) [
    | inl big ↦ λ e. big-IsTooSmall 0 (rounded size) _ tiled (ground arith)
    | inr small ↦
        let same : align_up size ≡ rounded size = ground arith in
        rw (==_of_ne size 0 nz, ok, small, same)
          λ e.
            malloc_from_fails 0 (rounded size) _ (omega (arith, Tiles-room 0 _ tiled))
              (allocated-none (heap_init h) _ e)
  ]
]
  where
    tiled : Tiles 0 (heap_init h).blocks
    tiled = (heap_init-IsTiled h v).tiled

abbrev pub free_bytes : List Block → ℕ
free_bytes [] = 0
free_bytes (b ∷ bs) = (if b.free then header + b.size else 0) + free_bytes bs

abbrev pub used_bytes : List Block → ℕ
used_bytes [] = 0
used_bytes (b ∷ bs) = (if b.free then 0 else header + b.size) + used_bytes bs

free_total_lem :
    (guard : ℕ) (bs : List Block)
    → guard + length bs ≤ guard_limit
    → free_total guard bs ≡ free_bytes bs
unfolding free_total
free_total_lem guard [] h = refl
free_total_lem guard (b ∷ bs) h = ground (arith, free_total_lem (guard + 1) bs (omega arith))

bytes_sum : (a : ℕ) (bs : List Block) → Tiles a bs → a + free_bytes bs + used_bytes bs ≡ heap_size
bytes_sum a [] t = omega arith
bytes_sum a (b ∷ bs) t = ground (arith, bytes_sum (a + header + b.size) bs t.1)

-- The statistics are exact: the bytes of the allocated blocks with their headers are used, those of
-- the free blocks with theirs are free, and together they make up the arena.
pub heap_get_stats-exact :
    (h : Heap)
    → IsValid h
    → let (s, h') = heap_get_stats h in
      (s.used ≡ used_bytes h'.blocks)
      × (s.free_bytes ≡ free_bytes h'.blocks)
      × (s.used + s.free_bytes ≡ s.total)
unfolding heap_get_stats
heap_get_stats-exact h v =
    let tiled = (heap_init-IsTiled h v).tiled in
    ground (
      arith,
      free_total_lem 0 (heap_init h).blocks (omega (arith, Tiles-room 0 _ tiled)),
      bytes_sum 0 (heap_init h).blocks tiled,
    )
