-- ===== src/Storage/Mount.antt =====
-- kernel/mount.cpp. A path is the list of its bytes without the zero at its end. The table is the
-- list of its first `mount_count` entries.
pub mod Longest
pub mod Updates
pub mod Tests
use mathlib.Core.Option
use knit_os.Base.{
  ℕ, ◌+◌, Bool, true, false, not, ◌&&◌, ◌||◌, Option, none, some, List, [], ◌∷◌, ◌++◌, get_elem?,
  set, take, length, ltb, leb, ◌==◌, if◌then◌else◌, find_index,
}

pub record Mount : Type 0 where
  pub path : List ℕ
  pub disk_id : ℕ
  pub partition_id : ℕ
  pub fs_type : ℕ
  pub active : Bool

abbrev pub max_mounts : ℕ
max_mounts = 8

abbrev pub fs_type_mos : ℕ
fs_type_mos = 0

abbrev pub slash : ℕ
slash = 47

-- `strcmp(a, b) == 0`.
unfoldable pub same_path : List ℕ → List ℕ → Bool
same_path [] [] = true
same_path [] (d ∷ ds) = false
same_path (c ∷ cs) [] = false
same_path (c ∷ cs) (d ∷ ds) = c == d && same_path cs ds

abbrev pub is_at : List ℕ → Mount → Bool
is_at path m = m.active && same_path m.path path

abbrev pub is_root : Mount → Bool
is_root m = same_path m.path (slash ∷ [])

-- With the number of disks.
pub mount_init : ℕ → List Mount
mount_init disks =
    if ltb 0 disks
    then record {
      path = slash ∷ [];
      disk_id = 0;
      partition_id = 0;
      fs_type = fs_type_mos;
      active = true;
    }
      ∷ []
    else []

-- `true` is a return of 0.
pub mount_register : List ℕ → ℕ → ℕ → List Mount → Bool × List Mount
mount_register path disk_id fs_type t =
    if leb max_mounts (length t) then (false, t) else elim (find_index (is_at path) t) [
      | none ↦ (
        true,
        t
            ++ record {
              path = take 63 path;
              disk_id = disk_id;
              partition_id = 0;
              fs_type = fs_type;
              active = true;
            }
              ∷ [],
      )
      | some i ↦ elim (get_elem? t i) [
        | none ↦ (false, t)
        | some m ↦ (true, set t i (record m { disk_id = disk_id; fs_type = fs_type }))
      ]
    ]

-- With what `disk_manager_count` and `disk_select` return for the disk.
pub mount_fs : ℕ → Bool → ℕ → List ℕ → List Mount → Bool × List Mount
mount_fs disks selects disk_id path t =
    if leb disks disk_id || not selects
    then (false, t)
    else elim (find_index (λ m. m.disk_id == disk_id && m.active && m.fs_type == fs_type_mos) t) [
      | some _ ↦ (false, t)
      | none ↦ mount_register path disk_id fs_type_mos t
    ]

pub unmount_fs : List ℕ → List Mount → Bool × List Mount
unmount_fs path t = elim (find_index (is_at path) t) [
  | none ↦ (false, t)
  | some i ↦ elim (get_elem? t i) [
    | none ↦ (false, t)
    | some m ↦ if is_root m then (false, t) else (true, set t i (record m { active = false }))
  ]
]

-- What is left of the path behind the mount point, if that is how it begins.
unfoldable pub behind : List ℕ → List ℕ → Option (List ℕ)
behind [] path = some path
behind (c ∷ cs) [] = none
behind (c ∷ cs) (d ∷ ds) = let rest = behind cs ds in if d == c then rest else none

abbrev pub at_boundary : List ℕ → Bool
at_boundary [] = true
at_boundary (c ∷ cs) = c == slash

-- An active entry that the path lies in.
pub covers : List ℕ → Mount → Bool
covers path m = elim (behind m.path path) [
  | none ↦ false
  | some rest ↦ m.active && (is_root m || at_boundary rest)
]

-- `best_match_len`.
abbrev pub best_len : Option Mount → ℕ
best_len none = 0
best_len (some m) = length m.path

-- The loop of `get_mount_for_path`.
pub longest_from : List ℕ → Option Mount → List Mount → Option Mount
longest_from path best [] = best
longest_from path best (m ∷ t) =
    longest_from path
      (if covers path m && ltb (best_len best) (length m.path) then some m else best) t

pub get_mount_for_path : List ℕ → List Mount → Option Mount
get_mount_for_path path t = elim (longest_from path none t) [
  | some m ↦ some m
  | none ↦ get_elem? t 0
]

pub mount_count_active : List Mount → ℕ
mount_count_active [] = 0
mount_count_active (m ∷ t) = let n = mount_count_active t in if m.active then n + 1 else n

-- The loop of `mount_get`, with the `n` of the source counting up to the index.
pub mount_get_from : ℕ → ℕ → List Mount → Option Mount
mount_get_from n index [] = none
mount_get_from n index (m ∷ t) =
    let later = mount_get_from (n + 1) index t in
    let same = mount_get_from n index t in
    if m.active then if n == index then some m else later else same

pub mount_get : ℕ → List Mount → Option Mount
mount_get index t = mount_get_from 0 index t
