-- ===== src/Fat/Geometry.antt =====
-- The BIOS parameter block of src/kernel/storage/fat16.h and the layout that fat16.c computes from
-- it. The fields are 8- and 16-bit but for the last two, so that only the subtraction can wrap.
use minidos.Common.{ℕ, ◌+◌, ◌-◌, ◌*◌, ◌/◌, Bool, ◌&&◌, leb, ◌==◌, if◌then◌else◌, sub32, add32}

pub record Bpb : Type 0 where
  pub bytes_per_sector : ℕ
  pub sectors_per_cluster : ℕ
  pub reserved_sectors : ℕ
  pub fat_count : ℕ
  pub root_entries : ℕ
  pub total_sectors_16 : ℕ
  pub media_type : ℕ
  pub sectors_per_fat : ℕ
  pub sectors_per_track : ℕ
  pub heads : ℕ
  pub hidden_sectors : ℕ
  pub total_sectors_32 : ℕ

unfoldable pub get_root_dir_start : Bpb → ℕ
get_root_dir_start b = b.reserved_sectors + b.fat_count * b.sectors_per_fat

-- A volume is used only after `fat16_init` has refused `bytes_per_sector == 0`.
unfoldable pub get_root_dir_sectors : Bpb → ℕ
get_root_dir_sectors b = (b.root_entries * 32 + (b.bytes_per_sector - 1)) / b.bytes_per_sector

unfoldable pub get_data_start : Bpb → ℕ
unfolding get_root_dir_start get_root_dir_sectors
get_data_start b = get_root_dir_start b + get_root_dir_sectors b

unfoldable pub get_total_sectors : Bpb → ℕ
get_total_sectors b = if b.total_sectors_16 == 0 then b.total_sectors_32 else b.total_sectors_16

-- The division faults on `sectors_per_cluster == 0`, which `fat16_init` models.
unfoldable pub get_total_clusters : Bpb → ℕ
unfolding get_total_sectors get_root_dir_start get_root_dir_sectors
get_total_clusters b =
    sub32 (get_total_sectors b) (get_root_dir_start b + get_root_dir_sectors b)
    / b.sectors_per_cluster

unfoldable pub fat_is_data_cluster : Bpb → ℕ → Bool
unfolding get_total_clusters
fat_is_data_cluster b cluster = leb 2 cluster && leb cluster (add32 (get_total_clusters b) 1)
