-- ===== src/Storage/Ram/Files.antt =====
-- What a file of kernel/ramfs.cpp holds after a write, to it or to another file.
use knit_os.Base.{
  ℕ, ◌≡◌, ◌≢◌, ◌<◌, refl, sym, ◌∙◌, List, Bool, true, false, Option, none, some, inl, inr,
  get_elem?, modify, take, length, arith, Bool-cases, Option-cases, holds_at_get,
  get_elem?-modify_self, get_elem?-modify_ne, length-set, get_of_lt,
}
use knit_os.Storage.Ram.{
  Node, RamFs, file_max, mode_file, dir_at, ramfs_lookup, ramfs_read, ramfs_create_file, make_node,
  ram_alloc, split_last, is_empty, written, write_at, write_new, ramfs_write,
}
use knit_os.Storage.Ram.Lookup.{Looks, lookup-modify, lookup_inside}

written-Looks : (now : ℕ) (src : List ℕ) → Looks (written now src)
written-Looks now src = record { child = λ parent name n. refl; dir = λ n. refl }

-- Reading the file at an index.
read_found :
    (path : List ℕ) (n : ℕ) (fs : RamFs) {idx : ℕ} {node : Node}
    → ramfs_lookup path fs ≡ some idx
    → get_elem? fs.nodes idx ≡ some node
    → node.is_dir ≡ false
    → ramfs_read path n fs ≡ some (take n node.bytes)
unfolding ramfs_read
read_found path n fs l at file = ground (arith, l, at, file)

-- A successful write to the node that a path leads to.
write_at-read :
    (path : List ℕ) (now : ℕ) (src : List ℕ) (fs : RamFs) (o : Option ℕ)
    → 0 < length fs.nodes
    → ramfs_lookup path fs ≡ o
    → (write_at now src o fs).0 ≡ true
    → (n : ℕ) → ramfs_read path n (write_at now src o fs).1 ≡ some (take n (take file_max src))
write_at-read path now src fs none some_node l e n = absurd (cc)
write_at-read path now src fs (some idx) some_node l e n = elim (Bool-cases (dir_at fs.nodes idx)) [
  | inl d ↦ absurd (let no_file = rw (d, write_at) at e in cc)
  | inr d ↦
      let (node, at) = get_of_lt fs.nodes idx (lookup_inside path fs some_node l) in
      let after = record fs { nodes = modify fs.nodes idx (written now src) } in
      let still : ramfs_lookup path after ≡ some idx =
        lookup-modify path fs idx (written now src) (written-Looks now src) ∙ l in
      let there = get_elem?-modify_self fs.nodes idx (written now src) at in
      let file : node.is_dir ≡ false = sym (holds_at_get _ fs.nodes idx at) ∙ d in
      rw (d, write_at) (read_found path n after still there file)
]

write_new-read :
    (path : List ℕ) (now : ℕ) (src : List ℕ) (r : Bool × RamFs)
    → 0 < length r.1.nodes
    → (write_new now path src r).0 ≡ true
    → (n : ℕ) → ramfs_read path n (write_new now path src r).1 ≡ some (take n (take file_max src))
write_new-read path now src (false, after) some_node e n = absurd (cc)
write_new-read path now src (true, after) some_node e n =
    write_at-read path now src after (ramfs_lookup path after) some_node refl e n

make_node-length :
    (is_dir : Bool) (mode now : ℕ) (ab : List ℕ × List ℕ) (fs : RamFs)
    → length (make_node is_dir mode now ab fs).1.nodes ≡ length fs.nodes
make_node-length is_dir mode now ab fs = elim (Option-cases (ram_alloc fs.nodes)) [
  | inl a ↦ rw (make_node, a) refl
  | inr (idx, a) ↦ rw (make_node, a) (length-set fs.nodes idx _)
]

-- No call adds or removes a node of the table.
create-length :
    (now mode : ℕ) (path : List ℕ) (fs : RamFs)
    → length (ramfs_create_file now mode path fs).1.nodes ≡ length fs.nodes
unfolding ramfs_create_file
create-length now mode path fs = elim (Option-cases (ramfs_lookup path fs)) [
  | inr (idx, l) ↦ rw (ramfs_create_file, l) refl
  | inl l ↦ elim (Option-cases (split_last (take 127 path))) [
    | inl s ↦ rw (ramfs_create_file, l, s) refl
    | inr (ab, s) ↦ elim (Bool-cases (is_empty ab.1)) [
      | inl b ↦ rw (ramfs_create_file, l, s, b) refl
      | inr b ↦ rw (ramfs_create_file, l, s, b) (make_node-length false _ now ab fs)
    ]
  ]
]

-- What a write stores is what a read gives back: after a write that succeeds, to a file that was there
-- or to a new one, the path reads as the first bytes of the data, at most 32768 of them.
pub ramfs_write-read :
    (now : ℕ) (path src : List ℕ) (fs : RamFs)
    → 0 < length fs.nodes
    → (ramfs_write now path src fs).0 ≡ true
    → (n : ℕ)
    → ramfs_read path n (ramfs_write now path src fs).1 ≡ some (take n (take file_max src))
unfolding ramfs_write ramfs_read
ramfs_write-read now path src fs some_node e n = elim (Option-cases (ramfs_lookup path fs)) [
  | inr (idx, l) ↦
      rw (ramfs_write, l)
        (write_at-read path now src fs (some idx) some_node l (rw (ramfs_write, l) at e) n)
  | inl l ↦
      let size = create-length now mode_file path fs in
      rw (ramfs_write, l)
        (write_new-read path now src (ramfs_create_file now mode_file path fs) (omega arith)
          (rw (ramfs_write, l) at e) n)
]

-- A write to a file that is there changes where no path leads, and no other file's bytes.
pub ramfs_write-keeps :
    (now : ℕ) (path src other : List ℕ) (fs : RamFs) (i j : ℕ)
    → ramfs_lookup path fs ≡ some i
    → ramfs_lookup other fs ≡ some j
    → i ≢ j
    → (n : ℕ) → ramfs_read other n (ramfs_write now path src fs).1 ≡ ramfs_read other n fs
unfolding ramfs_write ramfs_read
ramfs_write-keeps now path src other fs i j l o apart n = elim (Bool-cases (dir_at fs.nodes i)) [
  | inl d ↦ rw (ramfs_write, l, d) refl
  | inr d ↦
      let still = lookup-modify other fs i (written now src) (written-Looks now src) ∙ o in
      rw (ramfs_write, l, d)
        (rw (ramfs_read, still, o, get_elem?-modify_ne fs.nodes i j (written now src) apart) refl)
]
