-- ===== src/Exec/Elf.antt =====
-- kernel/elf.cpp: the loader of 32-bit ELF images. An image is its bytes, memory a function from
-- addresses to bytes, and a negative result is its magnitude, 0 being success.
pub mod Ranges
pub mod Tests
use knit_os.Base.{
  ℕ, zero, suc, ◌+◌, ◌-◌, ◌*◌, ◌%◌, ◌^◌, Bool, true, false, not, ◌&&◌, ◌||◌, Option, none, some,
  List, [], ◌∷◌, get_or, length, ltb, leb, ◌==◌, if◌then◌else◌,
}

abbrev pub user_va_min : ℕ
user_va_min = 8388608

abbrev pub user_va_max : ℕ
user_va_max = 83886080

abbrev pub ehdr_size : ℕ
ehdr_size = 52

abbrev pub phdr_size : ℕ
phdr_size = 32

-- Fields of the packed headers, low byte first.
abbrev pub le16 : List ℕ → ℕ → ℕ
le16 img i = get_or img i 0 + get_or img (i + 1) 0 * 256

abbrev pub le32 : List ℕ → ℕ → ℕ
le32 img i = le16 img i + le16 img (i + 2) * 65536

pub record ProgramHeader : Type 0 where
  pub kind : ℕ
  pub offset : ℕ
  pub vaddr : ℕ
  pub filesz : ℕ
  pub memsz : ℕ

-- `ph[i]`, at the address of the table: the stride is the size of the structure.
abbrev pub phdr_at : List ℕ → ℕ → ProgramHeader
phdr_at img at = record {
  kind = le32 img at;
  offset = le32 img (at + 4);
  vaddr = le32 img (at + 8);
  filesz = le32 img (at + 16);
  memsz = le32 img (at + 20);
}

-- The program headers from the address on.
pub phdrs : List ℕ → ℕ → ℕ → List ProgramHeader
phdrs img at zero = []
phdrs img at (suc n) = phdr_at img at ∷ phdrs img (at + phdr_size) n

abbrev pub elf32_bounds_ok : ℕ → ℕ → ℕ → Bool
elf32_bounds_ok len off sz = leb off len && leb sz (len - off)

abbrev pub pt_load : ℕ
pt_load = 1

pub elf32_validate : List ℕ → ℕ
elf32_validate img =
    if ltb (length img) ehdr_size
    then 1
    else if not (
        get_or img 0 0 == 127
        && get_or img 1 0 == 69
        && get_or img 2 0 == 76
        && get_or img 3 0 == 70)
    then 2
    else if not (get_or img 4 0 == 1)
    then 3
    else if not (get_or img 5 0 == 1)
    then 4
    else if not (le16 img 16 == 2)
    then 5
    else if not (le16 img 18 == 3)
    then 6
    else if ltb (le16 img 42) phdr_size
    then 7
    else if elf32_bounds_ok (length img) (le32 img 28) (le16 img 42 * le16 img 44 % 2 ^ 32)
    then 0
    else 8

abbrev pub Memory : Type 0
Memory = ℕ → ℕ

-- The two copy loops of a segment.
abbrev pub place : List ℕ → ProgramHeader → Memory → Memory
place img p mem a =
    if leb p.vaddr a && ltb a (p.vaddr + p.memsz)
    then if ltb (a - p.vaddr) p.filesz then get_or img (p.offset + (a - p.vaddr)) 0 else 0
    else mem a

-- `vaddr + memsz` on 32 bits.
abbrev pub end_of : ProgramHeader → ℕ
end_of p = (p.vaddr + p.memsz) % 2 ^ 32

-- The loop of `elf32_load`.
pub load_from : List ℕ → List ProgramHeader → Memory → ℕ × Memory
load_from img [] mem = (0, mem)
load_from img (p ∷ ps) mem =
    let skipped = load_from img ps mem in
    let placed = load_from img ps (place img p mem) in
    if not (p.kind == pt_load)
    then skipped
    else if ltb p.vaddr user_va_min
    then (9, mem)
    else if p.memsz == 0
    then skipped
    else if ltb p.memsz p.filesz
    then (10, mem)
    else if leb (end_of p) p.vaddr || ltb user_va_max (end_of p)
    then (11, mem)
    else if elf32_bounds_ok (length img) p.offset p.filesz
    then placed
    else (12, mem)

abbrev pub headers : List ℕ → List ProgramHeader
headers img = phdrs img (le32 img 28) (le16 img 44)

-- With the entry point of a success.
pub elf32_load : List ℕ → Memory → (ℕ × Memory) × Option ℕ
elf32_load img mem =
    if elf32_validate img == 0
    then (let (code, mem') = load_from img (headers img) mem in
        ((code, mem'), if code == 0 then some (le32 img 24) else none))
    else ((1, mem), none)

-- The loop of `elf32_user_ranges`; `none` is -3.
pub ranges_from : ℕ → ℕ → List ProgramHeader → Option (ℕ × ℕ)
ranges_from lo hi [] = some (lo, hi)
ranges_from lo hi (p ∷ ps) =
    let skipped = ranges_from lo hi ps in
    let taken =
      ranges_from (if ltb p.vaddr lo then p.vaddr else lo)
        (if ltb hi (end_of p) then end_of p else hi) ps in
    if not (p.kind == pt_load) || p.memsz == 0
    then skipped
    else if ltb p.vaddr user_va_min || leb (end_of p) p.vaddr || ltb user_va_max (end_of p)
    then none
    else taken

-- `none` is a negative result.
pub elf32_user_ranges : List ℕ → Option (ℕ × ℕ)
elf32_user_ranges img =
    if elf32_validate img == 0
    then elim (ranges_from (2 ^ 32 - 1) 0 (headers img)) [
      | none ↦ none
      | some (lo, hi) ↦ if hi == 0 then none else some (lo, hi)
    ]
    else none
