-- ===== src/Storage/Mount/Updates.antt =====
-- The mount table as a map from mount points to file systems.
use knit_os.Base.{
  ℕ, ◌≡◌, ◌≤◌, ◌<◌, ◌≢◌, ◌∙◌, refl, sym, List, [], ◌∷◌, ◌++◌, Bool, true, false, Option, none, some,
  set, arith, take, length, leb, find_index, find_index_cases, Bool-cases, inl, inr, take_all,
}
use knit_os.Base.{first_fit, first_fit-set_miss, first_fit-set_hit}
use knit_os.Storage.Mount.{Mount, max_mounts, same_path, is_at, mount_register}
use knit_os.Storage.Mount.Longest.{same_path-eq, same_path_refl}

-- The active mount at a path.
abbrev pub mounted : List ℕ → List Mount → Option Mount
mounted path t = first_fit (is_at path) t

first_fit-append_miss :
    (p : Mount → Bool) (t : List Mount) (new : Mount)
    → p new ≡ false
    → first_fit p (t ++ new ∷ []) ≡ first_fit p t
unfolding first_fit
first_fit-append_miss p [] new n = rw n refl
first_fit-append_miss p (x ∷ t) new n = ground (arith, first_fit-append_miss p t new n)

first_fit-append_hit :
    (p : Mount → Bool) (t : List Mount) (new : Mount)
    → find_index p t ≡ none
    → p new ≡ true
    → first_fit p (t ++ new ∷ []) ≡ some new
unfolding first_fit
first_fit-append_hit p [] new f n = rw n refl
first_fit-append_hit p (x ∷ t) new f n = ground (arith, first_fit-append_hit p t new)

other_path : (p q path : List ℕ) → p ≢ q → same_path path q ≡ true → same_path path p ≡ false
other_path p q path ne e = elim (Bool-cases (same_path path p)) [
  | inl same ↦ absurd (ne (sym (same_path-eq path p same) ∙ same_path-eq path q e))
  | inr other ↦ other
]

-- The table `t'` has the mount, and every other path's as in `t`.
pub record Mounts (path : List ℕ) (disk_id fs_type : ℕ) (t t' : List Mount) : Type 0 where
  pub entry : Mount
  pub here : mounted path t' ≡ some entry
  pub disk : entry.disk_id ≡ disk_id
  pub fs : entry.fs_type ≡ fs_type
  pub others : (q : List ℕ) → q ≢ path → mounted q t' ≡ mounted q t

-- `mount_register` of a path of at most 63 bytes, while the table has room, gives the path the disk
-- and the file system, in its entry if it has one, and leaves every other path's mount.
pub mount_register-Mounts :
    (path : List ℕ) (disk_id fs_type : ℕ) (t : List Mount)
    → length path ≤ 63
    → length t < max_mounts
    → (t' : List Mount) × (mount_register path disk_id fs_type t ≡ (true, t'))
      × Mounts path disk_id fs_type t t'
unfolding mount_register
mount_register-Mounts path disk_id fs_type t short room =
    let has_room : leb max_mounts (length t) ≡ false = ground arith in
    elim (find_index_cases (is_at path) t) [
      | inr (i, m, e, at, hit) ↦
          let new : Mount = record m { disk_id = disk_id; fs_type = fs_type } in
          (
            set t i new,
            rw (has_room, e, at, mount_register) refl,
            record {
              entry = new;
              here = first_fit-set_hit (is_at path) t i m new at (inl e) hit;
              disk = refl;
              fs = refl;
              others = λ q ne.
                  let miss : is_at q m ≡ false = ground (arith, other_path q path m.path ne) in
                  first_fit-set_miss (is_at q) t i m new at miss miss;
            },
          )
      | inl (e, _) ↦
          let new : Mount = record {
            path = take 63 path;
            disk_id = disk_id;
            partition_id = 0;
            fs_type = fs_type;
            active = true;
          } in
          let whole : take 63 path ≡ path = take_all 63 path short in
          (
            t ++ new ∷ [],
            rw (has_room, e, mount_register) refl,
            record {
              entry = new;
              here = first_fit-append_hit (is_at path) t new e (rw whole (same_path_refl path));
              disk = refl;
              fs = refl;
              others = λ q ne.
                  first_fit-append_miss (is_at q) t new
                    (rw whole (other_path q path path ne (same_path_refl path)));
            },
          )
    ]
