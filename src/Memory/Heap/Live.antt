-- ===== src/Memory/Heap/Live.antt =====
-- The heap as its clients see it: which payload addresses are live, and how large they are.
use knit_os.Base.{
  ℕ, ◌+◌, ◌-◌, ◌≤◌, ◌<◌, ◌≡◌, refl, ap, ◌++◌, ◌&&◌, ◌||◌, ◌≢◌, inl, inr, true, false, not, Option,
  none, some, List, [], ◌∷◌, arith, ltb, leb, ◌==◌, if◌then◌else◌, Bool-cases, Option-cases, sym,
  ◌∙◌,
}
use knit_os.Memory.Heap.{
  Block, Heap, heap_size, header, align_up, heap_init, merge, coalesce_from, heap_coalesce,
  take_block, malloc_from, malloc, mark_free, free,
}
use knit_os.Memory.Heap.Tiling.{
  free-IsValid, Tiles, Tiles-room, IsValid, heap_init-IsTiled, ready-heap_init, malloc_from-eq-some,
  malloc_cases,
}

-- The size of the allocated block with that payload address.
unfoldable pub live : ℕ → List Block → Option ℕ
live p [] = none
live p (b ∷ bs) = if b.addr + header == p && not b.free then some b.size else live p bs

-- What a client may use at `p`: nothing, or that many bytes.
abbrev pub payload : Heap → ℕ → Option ℕ
payload h p = live p (heap_init h).blocks

live-append :
    (p : ℕ) (pre xs ys : List Block)
    → live p xs ≡ live p ys
    → live p (pre ++ xs) ≡ live p (pre ++ ys)
unfolding live
live-append p [] xs ys e = e
live-append p (b ∷ pre) xs ys e = ground (arith, live-append p pre xs ys e)

live-coalesce_from :
    (p guard : ℕ) (b : Block) (bs : List Block)
    → live p (coalesce_from guard b bs) ≡ live p (b ∷ bs)
unfolding live coalesce_from merge
live-coalesce_from p guard b [] = refl
live-coalesce_from p guard b (c ∷ bs) =
    ground (
      arith,
      live-coalesce_from p (guard + 1) (merge b c) bs,
      live-coalesce_from p (guard + 1) c bs,
    )

pub live-heap_coalesce : (p : ℕ) (bs : List Block) → live p (heap_coalesce bs) ≡ live p bs
unfolding heap_coalesce
live-heap_coalesce p [] = refl
live-heap_coalesce p (b ∷ bs) = live-coalesce_from p 0 b bs

pub live_bounds :
    (p a : ℕ) (bs : List Block) {s : ℕ}
    → Tiles a bs
    → live p bs ≡ some s
    → (a + header ≤ p) × (p + s ≤ heap_size)
unfolding live
live_bounds p a [] t e = absurd (cc)
live_bounds p a (b ∷ bs) {s} t e = ground (
  arith,
  Tiles-room (a + header + b.size) bs t.1,
  λ (e' : live p bs ≡ some s). live_bounds p (a + header + b.size) bs t.1 e',
)

pub live_below : (p a : ℕ) (bs : List Block) → Tiles a bs → p < a + header → live p bs ≡ none
live_below p a bs t h = elim (Option-cases (live p bs)) [
  | inl e ↦ e
  | inr (s, e) ↦ absurd (omega (arith, live_bounds p a bs t e))
]

-- Blocks of the chain in front of one that lies at `x` have other addresses.
live_skip :
    (a : ℕ) (pre : List Block) (cur : Block) (rest ys : List Block)
    → Tiles a (pre ++ cur ∷ rest)
    → (a ≤ cur.addr) × (live (cur.addr + header) (pre ++ ys) ≡ live (cur.addr + header) ys)
unfolding live
live_skip a [] cur rest ys t = (omega arith, refl)
live_skip a (b ∷ pre) cur rest ys t =
    ground (arith, live_skip (a + header + b.size) pre cur rest ys t.1)

live-take_block_self :
    (size : ℕ) (cur : Block) (rest : List Block)
    → size ≤ cur.size
    → (s : ℕ) × (live (cur.addr + header) (take_block cur size rest) ≡ some s)
      × (size ≤ s)
      × (s ≤ cur.size)
unfolding live take_block
live-take_block_self size cur rest h = elim (Bool-cases (ltb (header + 8) (cur.size - size))) [
  | inl split ↦ (size, ground arith, ground arith, h)
  | inr whole ↦ (cur.size, ground arith, h, ground arith)
]

live-take_block_ne :
    (p size : ℕ) (cur : Block) (rest : List Block)
    → cur.free ≡ true
    → p ≢ cur.addr + header
    → live p (take_block cur size rest) ≡ live p (cur ∷ rest)
unfolding live take_block
live-take_block_ne p size cur rest f h = ground arith

Tiles-from : (a : ℕ) (pre xs : List Block) → Tiles a (pre ++ xs) → (z : ℕ) × Tiles z xs
Tiles-from a [] xs t = (a, t)
Tiles-from a (b ∷ pre) xs t = Tiles-from (a + header + b.size) pre xs t.1

live_of_free :
    (cur : Block) (rest : List Block) (z : ℕ)
    → Tiles z (cur ∷ rest)
    → cur.free ≡ true
    → live (cur.addr + header) (cur ∷ rest) ≡ none
unfolding live
live_of_free cur rest z t f =
    ground (arith, live_below (cur.addr + header) (z + header + cur.size) rest t.1)

-- A payload `p` that was free has now `size` bytes, and every other is as it was.
abbrev Allocates : ℕ → ℕ → List Block → List Block → Type 0
Allocates p size old new =
    (live p old ≡ none)
    × ((s : ℕ) × (live p new ≡ some s) × (size ≤ s))
    × ((q : ℕ) → q ≢ p → live q new ≡ live q old)

take_block-Allocates :
    (size : ℕ) (pre : List Block) (cur : Block) (rest : List Block)
    → Tiles 0 (pre ++ cur ∷ rest)
    → cur.free ≡ true
    → size ≤ cur.size
    → Allocates (cur.addr + header) size (pre ++ cur ∷ rest) (pre ++ take_block cur size rest)
take_block-Allocates size pre cur rest t f h =
    let (s, found, large, _) = live-take_block_self size cur rest h in
    let (z, t') = Tiles-from 0 pre (cur ∷ rest) t in
    (
      (live_skip 0 pre cur rest (cur ∷ rest) t).1 ∙ live_of_free cur rest z t' f,
      (s, (live_skip 0 pre cur rest (take_block cur size rest) t).1 ∙ found, large),
      λ q ne. live-append q pre _ _ (live-take_block_ne q size cur rest f ne),
    )

malloc_from-Allocates :
    (size : ℕ) (bs : List Block) (r : ℕ × List Block)
    → Tiles 0 bs
    → malloc_from 0 bs size ≡ some r
    → Allocates r.0 size bs r.1
malloc_from-Allocates size bs r t e =
    let (pre, cur, rest, split, found, free, large) = malloc_from-eq-some 0 size bs r e in
    rw (found, split) (take_block-Allocates size pre cur rest (rw split at t) free large)

pub blocks-heap_init : (h : Heap) → h.ready ≡ true → (heap_init h).blocks ≡ h.blocks
unfolding heap_init
blocks-heap_init h r = rw r

-- What `malloc` promises when it returns `p`: nobody held `p`, it now has at least the bytes that
-- were asked for, and every other payload is as it was.
pub malloc-allocates :
    (size : ℕ) (h : Heap) {p : ℕ}
    → IsValid h
    → (malloc size h).0 ≡ some p
    → (payload h p ≡ none)
      × ((s : ℕ) × (payload (malloc size h).1 p ≡ some s) × (size ≤ s))
      × ((q : ℕ) → q ≢ p → payload (malloc size h).1 q ≡ payload h q)
malloc-allocates size h {p} v =
    malloc_cases (λ r. r.0 ≡ some p → Allocates p size (heap_init h).blocks (heap_init r.1).blocks)
      size h (λ e. absurd (cc)) (λ e. absurd (cc))
      λ r nz small e found.
        let (fresh, (s, got, large), rest) =
          malloc_from-Allocates (align_up size) _ r (heap_init-IsTiled h v).tiled e in
        let same : r.0 ≡ p = ground arith in
        rw (blocks-heap_init (record (heap_init h) { blocks = r.1 }) (ready-heap_init h), ← same)
          (fresh, (s, got, omega arith), rest)

live-mark_free_ne :
    (q a : ℕ) (bs : List Block) → q ≢ a + header → live q (mark_free a bs) ≡ live q bs
unfolding live mark_free
live-mark_free_ne q a [] h = refl
live-mark_free_ne q a (b ∷ bs) h = ground (arith, live-mark_free_ne q a bs h)

live-mark_free_self :
    (a z : ℕ) (bs : List Block) → Tiles z bs → live (a + header) (mark_free a bs) ≡ none
unfolding live mark_free
live-mark_free_self a z [] t = refl
live-mark_free_self a z (b ∷ bs) t = ground (
  arith,
  live_below (a + header) (z + header + b.size) bs t.1,
  live-mark_free_self a (z + header + b.size) bs t.1,
)

-- `free` of a payload inside the arena, on the blocks.
blocks-free :
    (p : ℕ) (h : Heap)
    → header ≤ p
    → p < heap_size + header
    → (heap_init (free (some p) h)).blocks
      ≡ heap_coalesce (mark_free (p - header) (heap_init h).blocks)
unfolding free
blocks-free p h lo hi =
    let inside : (ltb p header || leb (heap_size + header) p) ≡ false = ground arith in
    rw inside (blocks-heap_init _ (ready-heap_init h))

-- `free` of a live payload ends it, leaves every other payload as it was, and keeps the arena tiled
-- by its blocks.
pub free-releases :
    (p : ℕ) (h : Heap) {s : ℕ}
    → IsValid h
    → payload h p ≡ some s
    → (payload (free (some p) h) p ≡ none)
      × IsValid (free (some p) h)
      × ((q : ℕ) → q ≢ p → payload (free (some p) h) q ≡ payload h q)
free-releases p h {s} v e =
    let tiled = (heap_init-IsTiled h v).tiled in
    let bounds = live_bounds p 0 _ tiled e in
    let back : p - header + header ≡ p = omega arith in
    rw (blocks-free p h (omega arith) (omega arith)) (
      live-heap_coalesce p _
          ∙ ap (λ z. live z (mark_free (p - header) (heap_init h).blocks)) (sym back)
          ∙ live-mark_free_self (p - header) 0 _ tiled,
      free-IsValid (some p) h v,
      λ q ne. live-heap_coalesce q _ ∙ live-mark_free_ne q (p - header) _ (rw back ne),
    )
