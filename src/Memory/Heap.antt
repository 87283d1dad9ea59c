-- ===== src/Memory/Heap.antt =====
-- kernel/heap.cpp: the first-fit free list, its operations and its statistics.
-- An address is an offset into `heap_arena`. The list is the chain of `next` pointers from
-- `heap_head`, and each block carries its own address. `mem` holds the payload bytes.
pub mod Tiling
pub mod Live
pub mod Coalescing
pub mod Exhaustion
pub mod Contents
pub mod Tests
use knit_os.Base.{
  ℕ, zero, suc, ◌+◌, ◌-◌, ◌*◌, ◌/◌, ◌%◌, ◌^◌, Bool, true, false, not, ◌&&◌, ◌||◌, Option, none,
  some, List, [], ◌∷◌, ltb, leb, ◌==◌, if◌then◌else◌,
}
use mathlib.Core.Option

pub record Block : Type 0 where
  pub addr : ℕ
  pub size : ℕ
  pub free : Bool

abbrev pub heap_size : ℕ
heap_size = 512 * 1024

-- `sizeof(heap_block)` on i686.
abbrev pub header : ℕ
header = 12

abbrev pub guard_limit : ℕ
guard_limit = 100000

pub record Heap : Type 0 where
  pub ready : Bool
  pub blocks : List Block
  pub mem : ℕ → ℕ

-- `(n + 7) & ~7` on a 32-bit `size_t`.
abbrev pub align_up : ℕ → ℕ
align_up n = (n + 7) % 2 ^ 32 / 8 * 8

abbrev pub whole_arena : Block
whole_arena = record { addr = 0; size = heap_size - header; free = true }

pub heap_init : Heap → Heap
heap_init h = if h.ready then h else record h { ready = true; blocks = whole_arena ∷ [] }

pub merge : Block → Block → Block
merge cur next = record cur { size = cur.size + (header + next.size) }

-- The loop of `heap_coalesce` at the block `cur`, whose chain goes on with the list.
pub coalesce_from : ℕ → Block → List Block → List Block
coalesce_from guard cur [] = cur ∷ []
coalesce_from guard cur (next ∷ rest) = elim (ltb guard_limit (guard + 1)) [
  | true ↦ cur ∷ next ∷ rest
  | false ↦ elim (cur.free && next.free) [
    | true ↦ coalesce_from (guard + 1) (merge cur next) rest
    | false ↦ cur ∷ coalesce_from (guard + 1) next rest
  ]
]

pub heap_coalesce : List Block → List Block
heap_coalesce [] = []
heap_coalesce (b ∷ bs) = coalesce_from 0 b bs

-- A fitting block is split if the rest can hold a header and more than 8 bytes.
pub take_block : Block → ℕ → List Block → List Block
take_block cur size rest =
    if ltb (header + 8) (cur.size - size)
    then record cur { size = size; free = false }
      ∷ record { addr = cur.addr + header + size; size = cur.size - size - header; free = true }
      ∷ rest
    else record cur { free = false } ∷ rest

-- The loop of `malloc`: the payload's address, and the chain from here on.
pub malloc_from : ℕ → List Block → ℕ → Option (ℕ × List Block)
malloc_from guard [] size = none
malloc_from guard (cur ∷ rest) size =
    let later =
      Option.map (λ (r : ℕ × List Block). (r.0, cur ∷ r.1)) (malloc_from (guard + 1) rest size) in
    if ltb guard_limit (guard + 1)
    then none
    else if cur.free && leb size cur.size
    then some (cur.addr + header, take_block cur size rest)
    else later

pub allocated : Heap → Option (ℕ × List Block) → Option ℕ × Heap
allocated h none = (none, h)
allocated h (some (p, bs)) = (some p, record h { blocks = bs })

pub malloc : ℕ → Heap → Option ℕ × Heap
unfolding allocated
malloc size h =
    if size == 0
    then (none, h)
    else let h = heap_init h in
      if ltb heap_size size
      then (none, h)
      else if ltb (heap_size - header) (align_up size)
      then (none, h)
      else allocated h (malloc_from 0 h.blocks (align_up size))

-- `blk->free = 1` at the block of that address. A pointer to no block is not modelled: there the
-- program writes into whatever the address holds.
pub mark_free : ℕ → List Block → List Block
mark_free a [] = []
mark_free a (b ∷ bs) = if b.addr == a then record b { free = true } ∷ bs else b ∷ mark_free a bs

pub free : Option ℕ → Heap → Heap
free none h = h
free (some p) h =
    let h = heap_init h in
    if ltb p header || leb (heap_size + header) p
    then h
    else record h { blocks = heap_coalesce (mark_free (p - header) h.blocks) }

-- `for (i = 0; i < n; i++) mem[p + i] = src(i);`
pub store_range : ℕ → ℕ → (ℕ → ℕ) → (ℕ → ℕ) → ℕ → ℕ
store_range p n src mem a = if leb p a && ltb a (p + n) then src (a - p) else mem a

pub calloc : ℕ → ℕ → Heap → Option ℕ × Heap
calloc nmemb size h =
    let total = nmemb * size % 2 ^ 32 in
    let (p, h) = malloc total h in
    elim p [
      | none ↦ (none, h)
      | some q ↦ (some q, record h { mem = store_range q total (λ i. 0) h.mem })
    ]

-- `blk->size` at the block of that address, with the same restriction.
pub size_at : ℕ → List Block → ℕ
size_at a [] = 0
size_at a (b ∷ bs) = if b.addr == a then b.size else size_at a bs

-- The copy of `realloc` into the new block, and the release of the old one.
pub moved : ℕ → ℕ → ℕ → Option ℕ × Heap → Option ℕ × Heap
moved p old size (none, h) = (none, h)
moved p old size (some q, h) =
    let n = if ltb old size then old else size in
    (some q, free (some p) (record h { mem = store_range q n (λ i. h.mem (p + i)) h.mem }))

pub realloc : Option ℕ → ℕ → Heap → Option ℕ × Heap
unfolding moved
realloc none size h = malloc size h
realloc (some p) size h =
    let old = size_at (p - header) h.blocks in
    if size == 0
    then (none, free (some p) h)
    else if leb size old
    then (some p, h)
    else moved p old size (malloc size h)

-- The loop of `heap_get_stats`.
pub free_total : ℕ → List Block → ℕ
free_total guard [] = 0
free_total guard (b ∷ bs) =
    let rest = free_total (guard + 1) bs in
    if ltb guard_limit (guard + 1) then 0 else if b.free then (b.size + header) + rest else rest

pub record Stats : Type 0 where
  pub total : ℕ
  pub used : ℕ
  pub free_bytes : ℕ

pub heap_get_stats : Heap → Stats × Heap
heap_get_stats h =
    let h = heap_init h in
    let f = free_total 0 h.blocks % 2 ^ 32 in
    (
      record {
        total = heap_size;
        used = (if leb f heap_size then heap_size - f else 0);
        free_bytes = f;
      },
      h,
    )
