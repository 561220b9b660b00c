-- ===== src/Fat/Volumes.antt =====
-- A mounted floppy disk: the theorems on clusters at concrete volumes, and tests.
use minidos.Common.{
  ℕ, ◌+◌, ◌*◌, ◌-◌, ◌/◌, ◌%◌, ◌≤◌, ◌<◌, ◌≡◌, refl, true, false, ◌==◌, if◌then◌else◌, arith, [], ◌∷◌,
  inl,
}
use minidos.Fat.Geometry.{
  get_data_start, get_total_sectors, get_total_clusters, fat_is_data_cluster,
}
use minidos.Fat.{fat12, Device, Fs, decode12}
use minidos.Fat.Entry.{entry_of, entry_offset}
use minidos.Fat.Alloc.{
  mounted, fat16_init, check_boot, check_bpb, choose_type, parse_bpb, alloc_cluster,
  free_cluster_chain,
}
use minidos.Fat.Mounted.{IsMounted, fat16_init-IsMounted}
use minidos.Fat.RoundTrip.{InTable}
use minidos.Fat.Copies.{copy_entry}
use minidos.Fat.Entries.{entry, last_cluster, IsReady}
use minidos.Fat.FirstFit.{Allocates, first_free, alloc_cluster-first_free}
use minidos.Fat.Chains.{Linked}
use minidos.Fat.Free.{Frees, free_cluster_chain-Frees}

-- A boot sector of a 1.44 MB disk, and a table with the chain 2, 3.
unfoldable pub boot_byte : ℕ → ℕ
boot_byte i =
    if i == 12
    then 2
    else if i == 13
    then 1
    else if i == 14
    then 1
    else if i == 16
    then 2
    else if i == 17
    then 224
    else if i == 19
    then 0x40
    else if i == 20
    then 0x0B
    else if i == 21
    then 0xF0
    else if i == 22
    then 9
    else if i == 510
    then 0x55
    else if i == 511
    then 0xAA
    else 0

unfoldable pub table_byte : ℕ → ℕ
table_byte i =
    if i == 0
    then 0xF0
    else if i == 1
    then 0xFF
    else if i == 2
    then 0xFF
    else if i == 3
    then 3
    else if i == 4
    then 0xF0
    else if i == 5
    then 0xFF
    else 0

unfoldable pub disk_sector : ℕ → ℕ → ℕ
unfolding boot_byte table_byte
disk_sector l i =
    if l == 0
    then boot_byte i
    else if l == 1
    then table_byte i
    else if l == 10
    then table_byte i
    else 0

abbrev pub floppy_disk : Device
floppy_disk = record { sectors = disk_sector; read_fails = λ l. false; write_fails = λ l. false }

abbrev pub unmounted : Fs
unmounted = record {
  bpb = parse_bpb (λ i. 0);
  fat_type = fat12;
  device = floppy_disk;
  sector_buffer = λ i. 0;
  aux_buffer = λ i. 0;
}

pub disk_sector_bytes : (l i : ℕ) → disk_sector l i < 256
unfolding disk_sector boot_byte table_byte
disk_sector_bytes l i = ground arith

fat16_init_mounts : (fat16_init unmounted).1 ≡ mounted
unfolding fat16_init check_boot check_bpb choose_type disk_sector get_total_clusters
fat16_init_mounts = refl

cluster_three : fat_is_data_cluster (fat16_init unmounted).0.bpb 3 ≡ true
unfolding fat16_init check_boot check_bpb choose_type disk_sector fat_is_data_cluster
cluster_three = refl

fat16_init-IsMounted_example :
    IsMounted (fat16_init unmounted).0
    × (get_data_start (fat16_init unmounted).0.bpb
          + (3 - 2) * (fat16_init unmounted).0.bpb.sectors_per_cluster
          + (fat16_init unmounted).0.bpb.sectors_per_cluster
        ≤ get_total_sectors (fat16_init unmounted).0.bpb)
fat16_init-IsMounted_example =
    fat16_init-IsMounted unmounted 3 (disk_sector_bytes 0) fat16_init_mounts cluster_three

abbrev volume : Fs
volume = record unmounted { bpb = parse_bpb (disk_sector 0) }

volume-IsReady : IsReady volume
unfolding InTable entry_offset disk_sector parse_bpb get_total_clusters
volume-IsReady = record {
  sound = record {
    reads = λ l. refl;
    writes = λ l. refl;
    bytes = λ a. disk_sector_bytes (a / 512) (a % 512);
  };
  copies = omega arith;
  room = omega arith;
  numbered = omega arith;
}

volume_last : 3 ≤ last_cluster volume
unfolding disk_sector parse_bpb get_total_clusters
volume_last = omega arith

alloc_cluster-first_free_example :
    Allocates volume.fat_type
      (entry volume)
      (first_free (entry volume) 2 (get_total_clusters volume.bpb))
      3
      (alloc_cluster volume)
alloc_cluster-first_free_example = alloc_cluster-first_free volume 3 volume-IsReady volume_last

chain_2_3 : Linked volume.bpb (entry volume) 2 (3 ∷ [])
unfolding fat_is_data_cluster disk_sector parse_bpb entry copy_entry entry_of decode12
chain_2_3 = (refl, refl, (omega arith, tt), (refl, inl refl))

free_cluster_chain-Frees_example : Frees volume (2 ∷ 3 ∷ []) 3 (free_cluster_chain volume 2)
free_cluster_chain-Frees_example =
    free_cluster_chain-Frees volume 2 3 (3 ∷ []) volume-IsReady chain_2_3 volume_last
