-- ===== src/Fat/Alloc.antt =====
-- src/kernel/storage/fat16.c: the mounting of a volume, and the allocation and freeing of clusters.
use minidos.Common.{
  ℕ, zero, suc, ◌+◌, ◌-◌, ◌*◌, ◌%◌, ◌^◌, Bool, true, false, not, ◌||◌, Option, some, none, ltb,
  ◌==◌, if◌then◌else◌, add32,
}
use minidos.Fat.Geometry.{Bpb, get_data_start, get_total_clusters, fat_is_data_cluster}
use minidos.Fat.{
  fat12, fat16, Fs, Sector, read_sector, write_sector, end_of_chain, read_fat_entry,
  write_fat_entry,
}

-- A volume is refused with 0, and a division by zero faults.
pub data Mount : Type 0 where
  mounted refused faulted : Mount

abbrev pub word : Sector → ℕ → ℕ
word s i = s i + 256 * s (i + 1)

abbrev pub dword : Sector → ℕ → ℕ
dword s i = word s i + 65536 * word s (i + 2)

-- The fields at offset 11 of the boot sector.
unfoldable pub parse_bpb : Sector → Bpb
parse_bpb s = record {
  bytes_per_sector = word s 11;
  sectors_per_cluster = s 13;
  reserved_sectors = word s 14;
  fat_count = s 16;
  root_entries = word s 17;
  total_sectors_16 = word s 19;
  media_type = s 21;
  sectors_per_fat = word s 22;
  sectors_per_track = word s 24;
  heads = word s 26;
  hidden_sectors = dword s 28;
  total_sectors_32 = dword s 32;
}

-- The end of `fat16_init`, from the number of clusters on.
unfoldable pub choose_type : Fs → ℕ → Fs × Mount
choose_type fs total_clusters =
    if ltb total_clusters 4085
    then (record fs { fat_type = fat12 }, mounted)
    else if ltb total_clusters 65525
    then (record fs { fat_type = fat16 }, mounted)
    else (fs, refused)

unfoldable pub check_bpb : Fs → Fs × Mount
unfolding choose_type
check_bpb fs =
    if fs.bpb.bytes_per_sector == 0 || fs.bpb.sectors_per_fat == 0 || fs.bpb.root_entries == 0
    then (fs, refused)
    else if fs.bpb.sectors_per_cluster == 0
    then (fs, faulted)
    else choose_type fs (get_total_clusters fs.bpb)

-- `fat16_init` once the boot sector is in `sector_buffer`.
unfoldable pub check_boot : Fs → Fs × Mount
unfolding parse_bpb check_bpb
check_boot fs =
    let s : Sector = fs.sector_buffer in
    if not (s 510 == 0x55) || not (s 511 == 0xAA)
    then (fs, refused)
    else check_bpb (record fs { bpb = parse_bpb s })

unfoldable pub fat16_init : Fs → Fs × Mount
unfolding read_sector check_boot
fat16_init fs =
    let (fs1, ok) = read_sector fs 0 in if not ok then (fs1, refused) else check_boot fs1

-- The loop of `fat16_alloc_cluster_internal` from `cluster` on, with `n` clusters left.
unfoldable pub alloc_loop : Fs → ℕ → ℕ → Fs × Option ℕ
alloc_loop fs cluster zero = (fs, none)
alloc_loop fs cluster (suc n) =
    let (fs1, entry) = read_fat_entry fs (cluster % 2 ^ 16) in
    let (fs2, written) = write_fat_entry fs1 (cluster % 2 ^ 16) (end_of_chain fs1.fat_type) in
    let rest = alloc_loop fs1 (cluster + 1) n in
    if entry == 0 then (if written then (fs2, some (cluster % 2 ^ 16)) else (fs2, none)) else rest

-- `fat16_alloc_cluster_internal` with a non-null `out_cluster`
unfoldable pub alloc_cluster : Fs → Fs × Option ℕ
unfolding alloc_loop
alloc_cluster fs =
    let max_cluster : ℕ = add32 (get_total_clusters fs.bpb) 1 in alloc_loop fs 2 (max_cluster - 1)

-- The outer loop of `fat16_zero_cluster`, with `n` sectors left.
unfoldable pub zero_loop : Fs → ℕ → ℕ → Fs × Bool
unfolding write_sector
zero_loop fs sector zero = (fs, true)
zero_loop fs sector (suc n) =
    let (fs1, written) = write_sector (record fs { sector_buffer = λ i. 0 }) sector (λ i. 0) in
    let rest = zero_loop fs1 (sector + 1) n in if written then rest else (fs1, false)

-- A data cluster is 2 at least.
unfoldable pub zero_cluster : Fs → ℕ → Fs × Bool
unfolding zero_loop
zero_cluster fs cluster =
    zero_loop fs (get_data_start fs.bpb + (cluster - 2) * fs.bpb.sectors_per_cluster)
      fs.bpb.sectors_per_cluster

-- The loop of `fat16_free_cluster_chain_internal`, with `max_steps` steps left.
unfoldable pub free_loop : Fs → ℕ → ℕ → Fs × Bool
free_loop fs cluster zero = (fs, true)
free_loop fs cluster (suc max_steps) =
    let (fs1, next) = read_fat_entry fs cluster in
    let (fs2, written) = write_fat_entry fs1 cluster 0 in
    let rest = free_loop fs2 next max_steps in
    if not (fat_is_data_cluster fs.bpb cluster)
    then (fs, true)
    else if not written
    then (fs2, false)
    else if next == cluster
    then (fs2, true)
    else rest

unfoldable pub free_cluster_chain : Fs → ℕ → Fs × Bool
unfolding free_loop
free_cluster_chain fs start_cluster =
    if ltb start_cluster 2
    then (fs, false)
    else free_loop fs start_cluster (add32 (get_total_clusters fs.bpb) 2)
