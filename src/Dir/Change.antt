-- ===== src/Dir/Change.antt =====
-- src/kernel/storage/fat16_dir_mutation.inc: the functions that change a directory.
use minidos.Common.{
  ℕ, zero, suc, ◌%◌, ◌^◌, true, false, ◌||◌, Option, some, none, List, ◌∷◌, ◌==◌, if◌then◌else◌,
  replicate,
}
use minidos.Fat.Geometry.{get_root_dir_start, get_root_dir_sectors, fat_is_data_cluster}
use minidos.Fat.{
  Fs, Sector, read_sector, write_sector, end_of_chain, read_fat_entry, write_fat_entry,
}
use minidos.Fat.Alloc.{alloc_cluster, zero_cluster}
use minidos.Dir.Name.{dot, space}
use minidos.Dir.Entry.{DirEntry, put_entry, is_end, is_deleted, directory_attribute}
use minidos.Dir.Walk.{
  Outcome, ret, fail, hang, M, ◌>>=◌, ◌>>◌, check, check_some, Visit, more, done, cluster_sector,
  walk_sectors,
}

-- A call that changes `sector_buffer` in memory.
abbrev pub change_buffer : (Sector → Sector) → M (Unit {0})
change_buffer f fs = (record fs { sector_buffer = f fs.sector_buffer }, ret tt)

abbrev pub load : ℕ → M (Unit {0})
load lba = check (λ fs. read_sector fs lba)

-- `disk_write_sector(lba, sector_buffer)`
abbrev pub store : ℕ → M (Unit {0})
store lba = check (λ fs. write_sector fs lba fs.sector_buffer)

-- The place of an entry: its sector and its index there.
abbrev pub Slot : Type 0
Slot = ℕ × ℕ

unfoldable pub free_visit : Unit {0} → ℕ → ℕ → DirEntry → Visit (Unit {0}) (Option Slot)
free_visit u sector i e = if is_end e || is_deleted e then done (some (sector, i)) else more tt

abbrev pub finish_walk : {R : Type 0} → Fs → Visit (Unit {0}) (Option R) → Fs × Outcome R
finish_walk fs (done (some r)) = (fs, ret r)
finish_walk fs (done none) = (fs, fail)
finish_walk fs (more s) = (fs, fail)

unfoldable pub find_free_root_entry : M Slot
find_free_root_entry fs =
    let (fs1, v) =
      walk_sectors free_visit (λ u. none) fs (get_root_dir_start fs.bpb)
        (get_root_dir_sectors fs.bpb) tt in
    finish_walk fs1 v

unfoldable pub write_dir_entry_at : ℕ → ℕ → DirEntry → M (Unit {0})
unfolding put_entry read_sector write_sector
write_dir_entry_at sector index e = do
  load sector
  change_buffer (λ b. put_entry b index e)
  store sector

-- The entry of a directory that `fat16_init_dir_entries` makes.
abbrev pub dir_link : List ℕ → ℕ → DirEntry
dir_link name cluster = record {
  name = name;
  attributes = directory_attribute;
  reserved = 0;
  creation_time_ms = 0;
  creation_time = 0;
  creation_date = 0;
  access_date = 0;
  cluster_high = 0;
  modified_time = 0;
  modified_date = 0;
  cluster_low = cluster % 2 ^ 16;
  file_size = 0;
}

unfoldable pub init_dir_entries : ℕ → ℕ → M (Unit {0})
unfolding put_entry read_sector write_sector
init_dir_entries dir_cluster parent_cluster fs =
    let first_sector : ℕ = cluster_sector fs dir_cluster in
    (do
      load first_sector
      change_buffer (λ b. put_entry b 0 (dir_link (dot ∷ replicate 10 space) dir_cluster))
      change_buffer (λ b. put_entry b 1 (dir_link (dot ∷ dot ∷ replicate 9 space) parent_cluster))
      store first_sector)
      fs

-- The entry that `fat16_add_dir_entry_internal` adds.
abbrev pub new_entry : List ℕ → ℕ → ℕ → ℕ → DirEntry
new_entry name_83 cluster file_size attributes = record {
  name = name_83;
  attributes = attributes;
  reserved = 0;
  creation_time_ms = 0;
  creation_time = 0;
  creation_date = 0;
  access_date = 0;
  cluster_high = 0;
  modified_time = 0;
  modified_date = 0;
  cluster_low = cluster;
  file_size = file_size;
}

-- Where an entry of a directory that is no root goes: a free slot of a sector, or a new cluster
-- after the one that the search ended at.
pub data Room : Type 0 where
  slot : ℕ → ℕ → Room
  behind : ℕ → Room

-- The loop over the clusters of the directory. The sector of a slot is in `sector_buffer`.
unfoldable pub find_room : ℕ → ℕ → M Room
find_room zero cluster fs = (fs, hang)
find_room (suc fuel) cluster fs = elim (fat_is_data_cluster fs.bpb cluster) [
  | false ↦ (fs, ret (behind cluster))
  | true ↦
      let (fs1, v) =
        walk_sectors free_visit (λ u. none) fs (cluster_sector fs cluster)
          fs.bpb.sectors_per_cluster tt in
      elim v [
        | done (some (sector, i)) ↦ (fs1, ret (slot sector i))
        | done none ↦ (fs1, fail)
        | more s ↦
            let (fs2, next) = read_fat_entry fs1 (cluster % 2 ^ 16) in
            elim (fat_is_data_cluster fs2.bpb next) [
              | false ↦ (fs2, ret (behind cluster))
              | true ↦ find_room fuel next fs2
            ]
      ]
]

-- The directory grows by a cluster, whose first entry is `e`.
unfoldable pub extend_dir : ℕ → DirEntry → M (Unit {0})
unfolding put_entry read_sector write_sector
extend_dir last e = do
  new_cluster ← check_some alloc_cluster
  check (λ fs. write_fat_entry fs (last % 2 ^ 16) new_cluster)
  check (λ fs. write_fat_entry fs new_cluster (end_of_chain fs.fat_type))
  check (λ fs. zero_cluster fs new_cluster)
  λ fs.
      (do
        load (cluster_sector fs new_cluster)
        change_buffer (λ b. put_entry b 0 e)
        store (cluster_sector fs new_cluster))
        fs

abbrev pub put_in_room : DirEntry → Room → M (Unit {0})
put_in_room e (slot sector i) = do change_buffer (λ b. put_entry b i e); store sector
put_in_room e (behind last) = extend_dir last e

unfoldable pub add_dir_entry_internal : ℕ → ℕ → DirEntry → M (Unit {0})
add_dir_entry_internal fuel dir_cluster e =
    if dir_cluster == 0
    then (do (sector, index) ← find_free_root_entry; write_dir_entry_at sector index e)
    else (do room ← find_room fuel dir_cluster; put_in_room e room)
