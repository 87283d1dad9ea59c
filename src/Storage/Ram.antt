-- ===== src/Storage/Ram.antt =====
-- kernel/ramfs.cpp: the file system in memory below /tmp. A node is found by its index, a parent of
-- -1 is `no_parent`, a string is its bytes before the NUL, and the bytes of a file are the list of
-- those in use. `now` is `fs_now()`. `none` and `false` are -1.
pub mod Lookup
pub mod Walk
pub mod Files
pub mod Tests
use mathlib.Core.Option
use knit_os.Base.{
  ℕ, zero, suc, ◌+◌, ◌-◌, List, [], ◌∷◌, ◌++◌, Bool, true, false, not, ◌&&◌, ◌||◌, Option, none,
  some, get_elem?, modify, set, map, take, drop, replicate, length, ltb, ◌==◌, if◌then◌else◌,
  find_index, holds_at,
}
use knit_os.Storage.Mount.{same_path}

abbrev pub max_nodes : ℕ
max_nodes = 64

abbrev pub name_max : ℕ
name_max = 32

abbrev pub file_max : ℕ
file_max = 32768

abbrev pub mode_file : ℕ
mode_file = 420

abbrev pub mode_dir : ℕ
mode_dir = 493

abbrev pub no_parent : ℕ
no_parent = 4294967295

pub record Node : Type 0 where
  pub used : Bool
  pub is_dir : Bool
  pub name : List ℕ
  pub parent : ℕ
  pub mode : ℕ
  pub mtime : ℕ
  pub bytes : List ℕ

pub record RamFs : Type 0 where
  pub nodes : List Node
  pub is_ready : Bool

-- What `memset` leaves of a node.
abbrev pub blank : Node
blank = record {
  used = false;
  is_dir = false;
  name = [];
  parent = 0;
  mode = 0;
  mtime = 0;
  bytes = [];
}

abbrev root : Node
root = record blank { used = true; is_dir = true; parent = no_parent; mode = mode_dir }

pub ramfs_init : RamFs → RamFs
ramfs_init fs = record { nodes = set (map (λ (n : Node). blank) fs.nodes) 0 root; is_ready = true }

abbrev tmp : List ℕ
tmp = b'/' ∷ b't' ∷ b'm' ∷ b'p' ∷ []

abbrev slash_or_end : List ℕ → Bool
slash_or_end [] = true
slash_or_end (c ∷ cs) = c == b'/'

unfoldable pub ramfs_is_tmp_path : List ℕ → Bool
ramfs_is_tmp_path path = same_path (take 4 path) tmp && slash_or_end (drop 4 path)

abbrev or_root : ℕ → List ℕ → List ℕ
or_root out_sz [] = b'/' ∷ []
or_root out_sz (c ∷ cs) = take (out_sz - 1) (c ∷ cs)

unfoldable pub ramfs_strip_tmp : ℕ → List ℕ → List ℕ
unfolding ramfs_is_tmp_path
ramfs_strip_tmp out_sz path =
    if ramfs_is_tmp_path path then or_root out_sz (drop 4 path) else b'/' ∷ []

abbrev pub is_named_child : ℕ → List ℕ → Node → Bool
is_named_child parent name n = n.used && n.parent == parent && same_path n.name name

-- A loop over the nodes from 1 on.
abbrev pub find_past_root : (Node → Bool) → List Node → Option ℕ
find_past_root p ns = Option.map suc (find_index p (drop 1 ns))

abbrev pub ram_find_child : ℕ → List ℕ → List Node → Option ℕ
ram_find_child parent name = find_past_root (is_named_child parent name)

abbrev pub ram_alloc : List Node → Option ℕ
ram_alloc = find_past_root (λ n. not n.used)

-- At most `n` bytes of a component, and the path behind them.
unfoldable pub component : ℕ → List ℕ → List ℕ × List ℕ
component zero p = ([], p)
component (suc n) [] = ([], [])
component (suc n) (c ∷ cs) =
    let (name, rest) = component n cs in if c == b'/' then ([], c ∷ cs) else (c ∷ name, rest)

abbrev pub skip_slash : List ℕ → List ℕ
skip_slash [] = []
skip_slash (c ∷ cs) = if c == b'/' then cs else c ∷ cs

abbrev pub is_empty : List ℕ → Bool
is_empty [] = true
is_empty (c ∷ cs) = false

abbrev pub dir_at : List Node → ℕ → Bool
dir_at = holds_at (λ n. n.is_dir)

-- One round of the loop of `ramfs_lookup` with a component that has a name; `on` goes on at a node.
abbrev pub descend : (ℕ → Bool) → (ℕ → Option ℕ) → List ℕ → Option ℕ → Option ℕ
descend is_dir on rest none = none
descend is_dir on rest (some idx) = if not (is_empty rest) && not (is_dir idx) then none else on idx

-- The loop over what it reads of the nodes; each round takes at least one byte of the path, whose
-- length bounds it.
unfoldable pub lookup_with : (ℕ → List ℕ → Option ℕ) → (ℕ → Bool) → ℕ → ℕ → List ℕ → Option ℕ
lookup_with find is_dir zero last p = some last
lookup_with find is_dir (suc fuel) last [] = some last
lookup_with find is_dir (suc fuel) last (c ∷ cs) =
    let (name, rest) = component (name_max - 1) (c ∷ cs) in
    let rest = skip_slash rest in
    elim (is_empty name) [
      | true ↦ lookup_with find is_dir fuel last rest
      | false ↦ descend is_dir (λ idx. lookup_with find is_dir fuel idx rest) rest (find last name)
    ]

abbrev pub lookup_from : ℕ → ℕ → List ℕ → List Node → Option ℕ
lookup_from fuel last p ns =
    lookup_with (λ parent name. ram_find_child parent name ns) (dir_at ns) fuel last p

unfoldable pub lookup_rel : List ℕ → List Node → Option ℕ
lookup_rel rel ns =
    if same_path rel (b'/' ∷ [])
    then some 0
    else lookup_from (length (skip_slash rel)) 0 (skip_slash rel) ns

unfoldable pub ramfs_lookup : List ℕ → RamFs → Option ℕ
ramfs_lookup path fs = if fs.is_ready then lookup_rel (ramfs_strip_tmp 128 path) fs.nodes else none

pub record Stat : Type 0 where
  pub size : ℕ
  pub mode : ℕ
  pub mtime : ℕ
  pub is_dir : Bool

-- The node at the end of a path.
abbrev pub node_of : List ℕ → RamFs → Option Node
node_of path fs = elim (ramfs_lookup path fs) [ none ↦ none | some idx ↦ get_elem? fs.nodes idx ]

unfoldable pub ramfs_stat : List ℕ → RamFs → Option Stat
ramfs_stat path fs = elim (node_of path fs) [
  | none ↦ none
  | some n ↦
      some (record { size = length n.bytes; mode = n.mode; mtime = n.mtime; is_dir = n.is_dir })
]

-- The bytes that are copied out, at most `size`.
unfoldable pub ramfs_read : List ℕ → ℕ → RamFs → Option (List ℕ)
ramfs_read path size fs = elim (node_of path fs) [
  | none ↦ none
  | some n ↦ if n.is_dir then none else some (take size n.bytes)
]

-- The path before and behind its last slash, if there is one.
unfoldable pub split_last : List ℕ → Option (List ℕ × List ℕ)
split_last [] = none
split_last (c ∷ cs) = elim (split_last cs) [
  | some ab ↦ some (c ∷ ab.0, ab.1)
  | none ↦ if c == b'/' then some ([], cs) else none
]

-- The parent's path and the name. With the slash at the front, the NUL that ends the parent's path
-- also empties the name.
abbrev pub parent_and_base : List ℕ × List ℕ → List ℕ × List ℕ
parent_and_base ([], base) = (tmp, [])
parent_and_base (c ∷ [], base) = (tmp, base)
parent_and_base (c ∷ d ∷ cs, base) = (c ∷ d ∷ cs, base)

-- A parent that is not found is the root.
abbrev pub or_zero : Option ℕ → ℕ
or_zero none = 0
or_zero (some i) = i

abbrev pub made : Bool → ℕ → ℕ → ℕ → List ℕ → Node
made is_dir mode now parent base = record {
  used = true;
  is_dir = is_dir;
  name = take (name_max - 1) base;
  parent = parent;
  mode = mode;
  mtime = now;
  bytes = [];
}

-- The common end of `ramfs_mkdir` and `ramfs_create_file`.
abbrev pub make_node : Bool → ℕ → ℕ → List ℕ × List ℕ → RamFs → Bool × RamFs
make_node is_dir mode now ab fs =
    let (dir, base) = parent_and_base ab in
    let parent = or_zero (ramfs_lookup dir fs) in
    elim (ram_alloc fs.nodes) [
      | none ↦ (false, fs)
      | some idx ↦ (true, record fs { nodes = set fs.nodes idx (made is_dir mode now parent base) })
    ]

unfoldable pub ramfs_mkdir : ℕ → List ℕ → RamFs → Bool × RamFs
ramfs_mkdir now path fs = elim (ramfs_lookup path fs) [
  | some _ ↦ (true, fs)
  | none ↦ elim (split_last (take 127 path)) [
    | none ↦ (false, fs)
    | some ab ↦ make_node true mode_dir now ab fs
  ]
]

unfoldable pub ramfs_create_file : ℕ → ℕ → List ℕ → RamFs → Bool × RamFs
ramfs_create_file now mode path fs = elim (ramfs_lookup path fs) [
  | some _ ↦ (true, fs)
  | none ↦ elim (split_last (take 127 path)) [
    | none ↦ (false, fs)
    | some ab ↦
        if is_empty ab.1
        then (false, fs)
        else make_node false (if mode == 0 then mode_file else mode) now ab fs
  ]
]

abbrev pub written : ℕ → List ℕ → Node → Node
written now src n = record n { bytes = take file_max src; mtime = now }

-- The write to the node at an index, unless it is a directory.
abbrev pub write_at : ℕ → List ℕ → Option ℕ → RamFs → Bool × RamFs
write_at now src none fs = (false, fs)
write_at now src (some idx) fs =
    if dir_at fs.nodes idx
    then (false, fs)
    else (true, record fs { nodes = modify fs.nodes idx (written now src) })

abbrev pub write_new : ℕ → List ℕ → List ℕ → Bool × RamFs → Bool × RamFs
write_new now path src (false, fs) = (false, fs)
write_new now path src (true, fs) = write_at now src (ramfs_lookup path fs) fs

unfoldable pub ramfs_write : ℕ → List ℕ → List ℕ → RamFs → Bool × RamFs
ramfs_write now path src fs = elim (ramfs_lookup path fs) [
  | some idx ↦ write_at now src (some idx) fs
  | none ↦ write_new now path src (ramfs_create_file now mode_file path fs)
]

-- `buf[pos++] = c` if there is room.
abbrev pub put_char : ℕ → List ℕ → ℕ → List ℕ
put_char size out c = if ltb (length out + 1) size then out ++ c ∷ [] else out

abbrev pub put_all : ℕ → List ℕ → List ℕ → List ℕ
put_all size out [] = out
put_all size out (c ∷ cs) = put_all size (put_char size out c) cs

abbrev pub put_entry : ℕ → List ℕ → Node → List ℕ
put_entry size out n =
    let named = put_all size out n.name in
    put_char size (if n.is_dir then put_char size named b'/' else named) b'\n'

-- The loop of `ramfs_list` over the nodes from 1 on, while there is room.
unfoldable pub list_from : ℕ → ℕ → List ℕ → List Node → List ℕ
list_from size dir out [] = out
list_from size dir out (n ∷ ns) = elim (ltb (length out + 1) size) [
  | false ↦ out
  | true ↦ list_from size dir (if n.used && n.parent == dir then put_entry size out n else out) ns
]

unfoldable pub ramfs_list : List ℕ → ℕ → RamFs → Option (List ℕ)
ramfs_list path size fs = elim (ramfs_lookup path fs) [
  | none ↦ none
  | some dir ↦
      if dir_at fs.nodes dir && not (size == 0)
      then some (list_from size dir [] (drop 1 fs.nodes))
      else none
]

abbrev pub has_parent : ℕ → Node → Bool
has_parent idx n = n.used && n.parent == idx

abbrev pub has_child : ℕ → List Node → Bool
has_child idx ns = elim (find_past_root (has_parent idx) ns) [ none ↦ false | some i ↦ true ]

unfoldable pub ramfs_unlink : List ℕ → RamFs → Bool × RamFs
ramfs_unlink path fs = elim (ramfs_lookup path fs) [
  | none ↦ (false, fs)
  | some zero ↦ (false, fs)
  | some (suc idx) ↦
      if dir_at fs.nodes (suc idx) && has_child (suc idx) fs.nodes
      then (false, fs)
      else (true, record fs { nodes = set fs.nodes (suc idx) blank })
]
