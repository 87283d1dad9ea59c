-- ===== src/Storage/Ram/Tests.antt =====
-- The file system in memory on concrete paths.
use knit_os.Base.{ℕ, ◌≡◌, refl, List, [], ◌∷◌, Bool, false, none, some, replicate, take, arith}
use knit_os.Storage.Ram.{
  RamFs, file_max, blank, ramfs_init, ramfs_strip_tmp, ramfs_lookup, ramfs_read, ramfs_write,
  ramfs_list, ramfs_mkdir, ramfs_create_file, ramfs_unlink, lookup_with, lookup_rel, component,
  split_last, list_from,
}
use knit_os.Storage.Mount.{same_path}
use knit_os.Storage.Ram.Files.{ramfs_write-read}

-- Four nodes, so that the tests are quick.
abbrev empty_fs : RamFs
empty_fs = ramfs_init (record { nodes = replicate 4 blank; is_ready = false })

abbrev tmp_a : List ℕ
tmp_a = b'/' ∷ b't' ∷ b'm' ∷ b'p' ∷ b'/' ∷ b'a' ∷ []

abbrev tmp_a_b : List ℕ
tmp_a_b = b'/' ∷ b't' ∷ b'm' ∷ b'p' ∷ b'/' ∷ b'a' ∷ b'/' ∷ b'b' ∷ []

abbrev root_path : List ℕ
root_path = b'/' ∷ b't' ∷ b'm' ∷ b'p' ∷ []

abbrev one_dir : RamFs
one_dir = (ramfs_mkdir 5 tmp_a empty_fs).1

abbrev one_file : RamFs
one_file = (ramfs_write 7 tmp_a_b (1 ∷ 2 ∷ 3 ∷ []) one_dir).1

read_back : ramfs_read tmp_a_b 2 one_file ≡ some (1 ∷ 2 ∷ [])
unfolding ramfs_read ramfs_lookup ramfs_write ramfs_mkdir ramfs_init lookup_rel same_path
    ramfs_strip_tmp lookup_with component split_last ramfs_create_file
read_back = refl

listed : ramfs_list root_path 10 one_file ≡ some (b'a' ∷ b'/' ∷ b'\n' ∷ [])
unfolding ramfs_list list_from ramfs_lookup ramfs_write ramfs_mkdir ramfs_init lookup_rel same_path
    ramfs_strip_tmp lookup_with component split_last ramfs_create_file
listed = refl

full_dir_stays : (ramfs_unlink tmp_a one_file).0 ≡ false
unfolding ramfs_unlink ramfs_lookup ramfs_write ramfs_mkdir ramfs_init lookup_rel same_path
    ramfs_strip_tmp lookup_with component split_last ramfs_create_file
full_dir_stays = refl

file_goes : ramfs_lookup tmp_a_b (ramfs_unlink tmp_a_b one_file).1 ≡ none
unfolding ramfs_unlink ramfs_lookup ramfs_write ramfs_mkdir ramfs_init lookup_rel same_path
    ramfs_strip_tmp lookup_with component split_last ramfs_create_file
file_goes = refl

ramfs_write-read_example :
    ramfs_read tmp_a 2 (ramfs_write 7 tmp_a (1 ∷ 2 ∷ 3 ∷ []) empty_fs).1
    ≡ some (take 2 (take file_max (1 ∷ 2 ∷ 3 ∷ [])))
unfolding ramfs_lookup ramfs_write ramfs_mkdir ramfs_init lookup_rel same_path ramfs_strip_tmp
    lookup_with component split_last ramfs_create_file ramfs_read
ramfs_write-read_example = ramfs_write-read 7 tmp_a (1 ∷ 2 ∷ 3 ∷ []) empty_fs (omega arith) refl 2

-- A file below a file is made, and cannot be found.
abbrev below_file : Bool × RamFs
below_file = ramfs_write 8 tmp_a_b (2 ∷ []) (ramfs_write 6 tmp_a (1 ∷ []) empty_fs).1

made_but_lost : below_file.0 ≡ false
unfolding ramfs_lookup ramfs_write ramfs_mkdir ramfs_init lookup_rel same_path ramfs_strip_tmp
    lookup_with component split_last ramfs_create_file
made_but_lost = refl
