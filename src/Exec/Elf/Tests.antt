-- ===== src/Exec/Elf/Tests.antt =====
-- kernel/elf.cpp on a concrete image.
use knit_os.Base.{
  ℕ, ◌≡◌, ◌≤◌, ◌<◌, ◌⊎◌, refl, some, List, [], ◌∷◌, All, arith, Bool, true, ◌&&◌, ltb,
}
use knit_os.Exec.Elf.{
  user_va_min, user_va_max, phdrs, elf32_validate, ranges_from, elf32_user_ranges, load_from,
  Memory, elf32_load,
}
use knit_os.Exec.Elf.Ranges.{elf32_load-ranges}

-- One segment of two bytes in the file and four in memory, at the first user address.
abbrev image : List ℕ
image =
    127 ∷ 69 ∷ 76 ∷ 70 ∷ 1 ∷ 1 ∷ 1 ∷ 0 ∷ 0 ∷ 0 ∷ 0 ∷ 0 ∷ 0 ∷ 0 ∷ 0 ∷ 0 ∷ 2 ∷ 0 ∷ 3 ∷ 0 ∷ 1 ∷ 0 ∷ 0
    ∷ 0 ∷ 1 ∷ 0 ∷ 128 ∷ 0 ∷ 52 ∷ 0 ∷ 0 ∷ 0 ∷ 0 ∷ 0 ∷ 0 ∷ 0 ∷ 0 ∷ 0 ∷ 0 ∷ 0 ∷ 52 ∷ 0 ∷ 32 ∷ 0 ∷ 1 ∷ 0
    ∷ 0 ∷ 0 ∷ 0 ∷ 0 ∷ 0 ∷ 0 ∷ 1 ∷ 0 ∷ 0 ∷ 0 ∷ 84 ∷ 0 ∷ 0 ∷ 0 ∷ 0 ∷ 0 ∷ 128 ∷ 0 ∷ 0 ∷ 0 ∷ 128 ∷ 0 ∷ 2
    ∷ 0 ∷ 0 ∷ 0 ∷ 4 ∷ 0 ∷ 0 ∷ 0 ∷ 7 ∷ 0 ∷ 0 ∷ 0 ∷ 0 ∷ 16 ∷ 0 ∷ 0 ∷ 144 ∷ 195 ∷ []

abbrev memory : Memory
memory = λ a. 255

entry_point : (elf32_load image memory).1 ≡ some 8388609
unfolding elf32_load elf32_validate load_from phdrs
entry_point = refl

second_byte : (elf32_load image memory).0.1 8388609 ≡ 195
unfolding elf32_load elf32_validate load_from phdrs
second_byte = refl

cleared : (elf32_load image memory).0.1 8388611 ≡ 0
unfolding elf32_load elf32_validate load_from phdrs
cleared = refl

image_range : elf32_user_ranges image ≡ some (8388608, 8388612)
unfolding elf32_user_ranges elf32_validate ranges_from phdrs
image_range = refl

abbrev are_bytes : List ℕ → Bool
are_bytes [] = true
are_bytes (b ∷ bs) = ltb b 256 && are_bytes bs

bytes_of : (bs : List ℕ) → are_bytes bs ≡ true → All (λ b. b < 256) bs
bytes_of [] e = tt
bytes_of (b ∷ bs) e = (ground arith, bytes_of bs (ground arith))

image_bytes : All (λ b. b < 256) image
image_bytes = bytes_of image refl

elf32_load-ranges_example :
    ((8388612 < user_va_min) ⊎ (user_va_max ≤ 8388612)
      → (elf32_load image memory).0.1 8388612 ≡ memory 8388612)
    × ((lo hi : ℕ)
        → elf32_user_ranges image ≡ some (lo, hi)
        → (8388612 < lo) ⊎ (hi ≤ 8388612)
        → (elf32_load image memory).0.1 8388612 ≡ memory 8388612)
elf32_load-ranges_example = elf32_load-ranges image memory 8388612 image_bytes
