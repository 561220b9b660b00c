-- ===== src/File/Read.antt =====
-- src/kernel/storage/fat16_file.c: the reading of files. The search here is not that of
-- `fat16_find_entry_internal`: it passes over directories, takes volume labels, and goes on with
-- what the buffer holds where a sector cannot be read. `fuel` bounds the clusters of a directory
-- and those of the file, each for itself.
use minidos.Common.{
  ℕ, zero, suc, ◌+◌, ◌-◌, ◌%◌, ◌^◌, true, false, not, ◌&&◌, ◌||◌, Option, some, none, List, [], ◌∷◌,
  ◌++◌, ◌==◌, if◌then◌else◌, min,
}
use minidos.Fat.Geometry.{get_root_dir_start, get_root_dir_sectors, fat_is_data_cluster}
use minidos.Fat.{Fs, Sector, sector_size, read_sector, read_fat_entry}
use minidos.Dir.Name.{match_name}
use minidos.Dir.Entry.{DirEntry, entries_per_sector, is_end, is_deleted, is_directory, is_long_name}
use minidos.Dir.Walk.{
  Outcome, ret, fail, hang, M, Visit, more, done, go_on, visit_entries, cluster_sector,
}

-- The body of the loops over entries; `none` is `return 0`.
unfoldable pub file_visit :
    List ℕ → Unit {0} → ℕ → ℕ → DirEntry → Visit (Unit {0}) (Option DirEntry)
file_visit name u sector i e =
    if is_end e
    then done none
    else if is_deleted e || is_directory e || is_long_name e || not (match_name name e.name)
    then more tt
    else done (some e)

abbrev pub Looked : Type 0
Looked = Visit (Unit {0}) (Option DirEntry)

-- The sectors from `lba` on, with `n` left.
unfoldable pub look_in_sectors : List ℕ → Fs → ℕ → ℕ → Fs × Looked
unfolding file_visit read_sector
look_in_sectors name fs lba zero = (fs, more tt)
look_in_sectors name fs lba (suc n) =
    let fs1 = (read_sector fs lba).0 in
    go_on fs1
      (visit_entries (file_visit name) (λ u. none) lba fs1.sector_buffer 0 entries_per_sector tt)
      (λ u. look_in_sectors name fs1 (lba + 1) n)

unfoldable pub look_in_chain : ℕ → List ℕ → Fs → ℕ → Fs × Outcome Looked
look_in_chain zero name fs cluster = (fs, hang)
look_in_chain (suc fuel) name fs cluster = elim (fat_is_data_cluster fs.bpb cluster) [
  | false ↦ (fs, ret (more tt))
  | true ↦
      let (fs1, v) =
        look_in_sectors name fs (cluster_sector fs cluster) fs.bpb.sectors_per_cluster in
      elim v [
        | done r ↦ (fs1, ret (done r))
        | more u ↦
            let (fs2, next) = read_fat_entry fs1 (cluster % 2 ^ 16) in
            look_in_chain fuel name fs2 next
      ]
]

unfoldable pub look_in_dir : ℕ → List ℕ → Fs → ℕ → Fs × Outcome Looked
look_in_dir fuel name fs dir_cluster =
    let (fs1, v) =
      look_in_sectors name fs (get_root_dir_start fs.bpb) (get_root_dir_sectors fs.bpb) in
    if dir_cluster == 0 then (fs1, ret v) else look_in_chain fuel name fs dir_cluster

-- The first `n` bytes of a sector from `i` on.
abbrev pub bytes_from : Sector → ℕ → ℕ → List ℕ
bytes_from s i zero = []
bytes_from s i (suc n) = s i ∷ bytes_from s (suc i) n

-- What is read: the bytes, what is left of `file_size`, and the room left in the buffer.
pub record Progress : Type 0 where
  pub bytes : List ℕ
  pub size : ℕ
  pub room : ℕ

-- One round of the loop over the sectors of a cluster.
unfoldable pub read_piece : Sector → Progress → Progress
read_piece s p =
    let bytes_to_read : ℕ = min sector_size p.size in
    let taken : ℕ = min bytes_to_read p.room in
    record {
      bytes = p.bytes ++ bytes_from s 0 taken;
      size = p.size - bytes_to_read;
      room = p.room - taken;
    }

-- The sectors of a cluster from `lba` on, with `n` left.
unfoldable pub read_cluster : ℕ → ℕ → Fs → Progress → Fs × Progress
unfolding read_piece
read_cluster lba zero fs p = (fs, p)
read_cluster lba (suc n) fs p =
    let fs1 = (read_sector fs lba).0 in
    let rest = read_cluster (lba + 1) n fs1 (read_piece fs1.sector_buffer p) in
    if p.size == 0 then (fs, p) else rest

-- The loop over the clusters of the file.
unfoldable pub read_clusters : ℕ → ℕ → Fs → Progress → Fs × Outcome Progress
read_clusters zero cluster fs p = (fs, hang)
read_clusters (suc fuel) cluster fs p =
    let (fs1, p1) = read_cluster (cluster_sector fs cluster) fs.bpb.sectors_per_cluster fs p in
    let (fs2, next) = read_fat_entry fs1 (cluster % 2 ^ 16) in
    let rest = read_clusters fuel next fs2 p1 in
    if fat_is_data_cluster fs.bpb cluster && not (p.room == 0) && not (p.size == 0)
    then rest
    else (fs, ret p)

abbrev pub start : DirEntry → ℕ → Progress
start e max_size = record { bytes = []; size = e.file_size; room = max_size }

abbrev pub finish_read : Fs → Outcome Progress → Fs × Outcome (List ℕ)
finish_read fs (ret p) = (fs, ret p.bytes)
finish_read fs fail = (fs, fail)
finish_read fs hang = (fs, hang)

abbrev pub read_found : ℕ → ℕ → Fs → Outcome Looked → Fs × Outcome (List ℕ)
read_found fuel max_size fs (ret (done (some e))) =
    let (fs1, o) = read_clusters fuel e.cluster_low fs (start e max_size) in finish_read fs1 o
read_found fuel max_size fs (ret (done none)) = (fs, fail)
read_found fuel max_size fs (ret (more u)) = (fs, fail)
read_found fuel max_size fs fail = (fs, fail)
read_found fuel max_size fs hang = (fs, hang)

-- The bytes that are put in the buffer; `fail` is 0 for a file that is not found.
unfoldable pub read_file_from_dir : ℕ → ℕ → List ℕ → ℕ → M (List ℕ)
read_file_from_dir fuel dir_cluster name max_size fs =
    let (fs1, o) = look_in_dir fuel name fs dir_cluster in read_found fuel max_size fs1 o

unfoldable pub read_file : ℕ → List ℕ → ℕ → M (List ℕ)
read_file fuel name max_size = read_file_from_dir fuel 0 name max_size
