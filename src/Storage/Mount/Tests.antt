-- ===== src/Storage/Mount/Tests.antt =====
-- kernel/mount.cpp on a concrete table.
use knit_os.Base.{ℕ, ◌≡◌, ◌≤◌, ◌⊎◌, refl, true, some, List, [], ◌∷◌, length, All, get_elem?}
use knit_os.Storage.Mount.{Mount, same_path, behind, covers, longest_from, get_mount_for_path}
use knit_os.Storage.Mount.Longest.{LiesIn, get_mount_for_path-longest}

abbrev root : Mount
root = record { path = 47 ∷ []; disk_id = 0; partition_id = 0; fs_type = 0; active = true }

-- `/m`.
abbrev deeper : Mount
deeper = record { path = 47 ∷ 109 ∷ []; disk_id = 1; partition_id = 0; fs_type = 0; active = true }

abbrev table : List Mount
table = root ∷ deeper ∷ []

-- `/m/a` and `/mx`.
abbrev inside : List ℕ
inside = 47 ∷ 109 ∷ 47 ∷ 97 ∷ []

abbrev beside : List ℕ
beside = 47 ∷ 109 ∷ 120 ∷ []

found_inside : get_mount_for_path inside table ≡ some deeper
unfolding get_mount_for_path longest_from covers behind same_path
found_inside = refl

found_beside : get_mount_for_path beside table ≡ some root
unfolding get_mount_for_path longest_from covers behind same_path
found_beside = refl

get_mount_for_path-longest_example :
    ((get_mount_for_path inside table ≡ get_elem? table 0)
      × All (λ (s : Mount). LiesIn inside s → s.path ≡ []) table)
    ⊎ ((m : Mount) × (i : ℕ) × (get_mount_for_path inside table ≡ some m)
        × (get_elem? table i ≡ some m)
        × LiesIn inside m
        × All (λ (s : Mount). LiesIn inside s → length s.path ≤ length m.path) table)
get_mount_for_path-longest_example = get_mount_for_path-longest inside table
