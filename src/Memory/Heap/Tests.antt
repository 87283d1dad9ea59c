-- ===== src/Memory/Heap/Tests.antt =====
-- kernel/heap.cpp on concrete heaps.
use knit_os.Base.{ℕ, ◌%◌, ◌≤◌, ◌≡◌, ◌≢◌, refl, inl, true, false, none, some, [], ◌∷◌, arith}
use knit_os.Memory.Heap.{
  Heap, heap_init, merge, coalesce_from, heap_coalesce, take_block, malloc_from, allocated, malloc,
  mark_free, free, calloc,
}
use knit_os.Memory.Heap.Tiling.{IsValid, malloc-IsValid}
use knit_os.Memory.Heap.Live.{live, payload, malloc-allocates, free-releases}
use knit_os.Memory.Heap.Coalescing.{IsCoalesced, free-malloc}
use knit_os.Memory.Heap.Exhaustion.{IsExhausted, malloc_complete}

-- The heap before the first call.
abbrev boot : Heap
boot = record { ready = false; blocks = []; mem = λ a. a % 256 }

abbrev one : Heap
one = (malloc 100 boot).1

abbrev two : Heap
two = (malloc 50 one).1

boot-IsValid : IsValid boot
boot-IsValid = inl refl

one-IsValid : IsValid one
one-IsValid = malloc-IsValid 100 boot boot-IsValid

two-IsValid : IsValid two
two-IsValid = malloc-IsValid 50 one one-IsValid

first_address : (malloc 100 boot).0 ≡ some 12
unfolding malloc heap_init malloc_from take_block allocated
first_address = refl

first_payload : payload two 12 ≡ some 104
unfolding malloc heap_init malloc_from take_block allocated live
first_payload = refl

second_payload : payload two 128 ≡ some 56
unfolding malloc heap_init malloc_from take_block allocated live
second_payload = refl

first_again : (malloc 104 (free (some 12) two)).0 ≡ some 12
unfolding malloc heap_init malloc_from take_block allocated free mark_free heap_coalesce
    coalesce_from
first_again = refl

all_free :
    (free (some 128) (free (some 12) two)).blocks
    ≡ record { addr = 0; size = 524276; free = true } ∷ []
unfolding malloc heap_init malloc_from take_block allocated free mark_free heap_coalesce
    coalesce_from merge
all_free = refl

malloc-IsValid_example : IsValid (malloc 50 one).1
malloc-IsValid_example = malloc-IsValid 50 one one-IsValid

malloc-allocates_example :
    (payload boot 12 ≡ none)
    × ((s : ℕ) × (payload (malloc 100 boot).1 12 ≡ some s) × (100 ≤ s))
    × ((q : ℕ) → q ≢ 12 → payload (malloc 100 boot).1 q ≡ payload boot q)
malloc-allocates_example = malloc-allocates 100 boot {p = 12} boot-IsValid first_address

free-releases_example :
    (payload (free (some 12) two) 12 ≡ none)
    × IsValid (free (some 12) two)
    × ((q : ℕ) → q ≢ 12 → payload (free (some 12) two) q ≡ payload two q)
free-releases_example = free-releases 12 two {s = 104} two-IsValid first_payload

boot-IsCoalesced : IsCoalesced (heap_init boot).blocks
unfolding heap_init
boot-IsCoalesced = (tt, tt)

free-malloc_example : free (some 12) (malloc 100 boot).1 ≡ heap_init boot
free-malloc_example = free-malloc 100 boot {p = 12} boot-IsValid boot-IsCoalesced first_address

too_large : (malloc 524270 one).0 ≡ none
unfolding malloc heap_init malloc_from take_block allocated
too_large = refl

malloc_complete_example : IsExhausted 524270 one
malloc_complete_example =
    malloc_complete 524270 one one-IsValid (λ e. absurd (omega arith)) too_large

calloc_address : (calloc 4 25 boot).0 ≡ some 12
unfolding calloc malloc heap_init malloc_from take_block allocated
calloc_address = refl
