-- ===== src/Memory/Heap/Contents.antt =====
-- The bytes of the payloads: what `calloc` clears and `realloc` carries over.
use knit_os.Base.{
  ℕ, ◌+◌, ◌*◌, ◌%◌, ◌^◌, ◌≤◌, ◌≡◌, refl, ap, ◌&&◌, ◌≢◌, Option, none, some, arith, ltb, leb,
  if◌then◌else◌,
}
use knit_os.Memory.Heap.{Heap, heap_init, malloc, store_range, calloc}
use knit_os.Memory.Heap.Tiling.{malloc_cases}
use knit_os.Memory.Heap.Live.{payload}

mem-heap_init : (h : Heap) → (heap_init h).mem ≡ h.mem
unfolding heap_init
mem-heap_init h = ground arith

mem-malloc : (size : ℕ) (h : Heap) → (malloc size h).1.mem ≡ h.mem
mem-malloc size h =
    malloc_cases (λ r. r.1.mem ≡ h.mem) size h refl (mem-heap_init h) (λ r _ _ _. mem-heap_init h)

-- `calloc` clears every byte that it was asked for, and writes no other.
pub calloc-clears :
    (n size : ℕ) (h : Heap) {p : ℕ}
    → (calloc n size h).0 ≡ some p
    → (i : ℕ)
    → (calloc n size h).1.mem i ≡ (if leb p i && ltb i (p + n * size % 2 ^ 32) then 0 else h.mem i)
unfolding calloc store_range
calloc-clears n size h {p} e i = ground (arith, ap (λ f. f i) (mem-malloc (n * size % 2 ^ 32) h))

-- The payload `q` of `h` has at least `size` bytes, the payload `p` has ended unless it is the same,
-- and every other is as it was.
abbrev pub Holds : Heap → ℕ → ℕ → ℕ → Heap → Type 0
Holds before p size q h =
    ((n : ℕ) × (payload h q ≡ some n) × (size ≤ n))
    × (q ≢ p → payload h p ≡ none)
    × ((x : ℕ) → x ≢ p → x ≢ q → payload h x ≡ payload before x)
