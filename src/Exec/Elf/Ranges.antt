-- ===== src/Exec/Elf/Ranges.antt =====
-- What the loader writes.
use knit_os.Base.{
  ℕ, zero, suc, ◌+◌, ◌-◌, ◌^◌, ◌≡◌, ◌≤◌, ◌<◌, refl, List, [], ◌∷◌, some, get_or, arith, ltb,
  if◌then◌else◌, All, ◌⊎◌,
}
use knit_os.Exec.Elf.{
  le16, le32, phdr_size, user_va_min, user_va_max, ProgramHeader, phdrs, Memory, place, end_of,
  load_from, headers, elf32_load, ranges_from, elf32_user_ranges,
}

-- The fields that come into the bounds are 32 bits wide.
abbrev pub IsWide : ProgramHeader → Type 0
IsWide p = (p.vaddr < 2 ^ 32) × (p.memsz < 2 ^ 32)

get_or-bound : (bs : List ℕ) (i : ℕ) → All (λ b. b < 256) bs → get_or bs i 0 < 256
get_or-bound [] i v = omega arith
get_or-bound (b ∷ bs) zero v = v.0
get_or-bound (b ∷ bs) (suc i) v = get_or-bound bs i v.1

le32-bound : (bs : List ℕ) (i : ℕ) → All (λ b. b < 256) bs → le32 bs i < 2 ^ 32
le32-bound bs i v = omega (
  arith,
  get_or-bound bs i v,
  get_or-bound bs (i + 1) v,
  get_or-bound bs (i + 2) v,
  get_or-bound bs (i + 2 + 1) v,
)

phdrs-IsWide : (img : List ℕ) (at n : ℕ) → All (λ b. b < 256) img → All IsWide (phdrs img at n)
unfolding phdrs
phdrs-IsWide img at zero v = tt
phdrs-IsWide img at (suc n) v =
    ((le32-bound img (at + 8) v, le32-bound img (at + 20) v), phdrs-IsWide img (at + phdr_size) n v)

place_outside :
    (img : List ℕ) (p : ProgramHeader) (mem : Memory) (a : ℕ)
    → (a < p.vaddr) ⊎ (p.vaddr + p.memsz ≤ a)
    → place img p mem a ≡ mem a
place_outside img p mem a out = ground arith

load_from-inside :
    (img : List ℕ) (ps : List ProgramHeader) (mem : Memory) (a : ℕ)
    → All IsWide ps
    → (a < user_va_min) ⊎ (user_va_max ≤ a)
    → (load_from img ps mem).1 a ≡ mem a
unfolding load_from
load_from-inside img [] mem a v out = refl
load_from-inside img (p ∷ ps) mem a v out = ground (
  arith,
  v.0.0,
  v.0.1,
  load_from-inside img ps mem a v.1 out,
  load_from-inside img ps (place img p mem) a v.1 out,
  place_outside img p mem a,
)

-- The bounds only grow.
ranges_from-grows :
    (lo hi : ℕ) (ps : List ProgramHeader) (l h : ℕ)
    → ranges_from lo hi ps ≡ some (l, h)
    → (l ≤ lo) × (hi ≤ h)
unfolding ranges_from
ranges_from-grows lo hi [] l h e = (ground arith, ground arith)
ranges_from-grows lo hi (p ∷ ps) l h e = ground (
  arith,
  ranges_from-grows lo hi ps l h,
  ranges_from-grows (if ltb p.vaddr lo then p.vaddr else lo)
      (if ltb hi (end_of p) then end_of p else hi) ps l h,
)

-- What the loop places lies in the range that the other loop computes.
load_from-ranges :
    (img : List ℕ) (lo hi : ℕ) (ps : List ProgramHeader) (l h : ℕ) (mem : Memory) (a : ℕ)
    → All IsWide ps
    → ranges_from lo hi ps ≡ some (l, h)
    → (a < l) ⊎ (h ≤ a)
    → (load_from img ps mem).1 a ≡ mem a
unfolding load_from ranges_from
load_from-ranges img lo hi [] l h mem a v e out = refl
load_from-ranges img lo hi (p ∷ ps) l h mem a v e out =
    let lo' = if ltb p.vaddr lo then p.vaddr else lo in
    let hi' = if ltb hi (end_of p) then end_of p else hi in
    ground (
      arith,
      v.0.0,
      v.0.1,
      ranges_from-grows lo' hi' ps l h,
      load_from-ranges img lo hi ps l h mem a v.1,
      load_from-ranges img lo' hi' ps l h mem a v.1,
      load_from-ranges img lo' hi' ps l h (place img p mem) a v.1,
      place_outside img p mem a,
    )

-- Whatever an image of bytes holds, and whether it is loaded or refused half way: the loader writes
-- only to the user's part of memory, and if `elf32_user_ranges` gives a range for the image, only to
-- addresses in that range.
pub elf32_load-ranges :
    (img : List ℕ) (mem : Memory) (a : ℕ)
    → All (λ b. b < 256) img
    → ((a < user_va_min) ⊎ (user_va_max ≤ a) → (elf32_load img mem).0.1 a ≡ mem a)
      × ((lo hi : ℕ)
          → elf32_user_ranges img ≡ some (lo, hi)
          → (a < lo) ⊎ (hi ≤ a)
          → (elf32_load img mem).0.1 a ≡ mem a)
unfolding elf32_load elf32_user_ranges
elf32_load-ranges img mem a bytes =
    let wide = phdrs-IsWide img (le32 img 28) (le16 img 44) bytes in
    (
      λ out. ground (arith, load_from-inside img (headers img) mem a wide out),
      λ lo hi e out.
          ground (arith, load_from-ranges img (2 ^ 32 - 1) 0 (headers img) lo hi mem a wide),
    )
