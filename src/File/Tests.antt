-- ===== src/File/Tests.antt =====
-- The reading of a file of two clusters.
use minidos.Common.{
  ℕ, ◌++◌, ◌≤◌, ◌≡◌, refl, false, List, [], ◌∷◌, ◌==◌, if◌then◌else◌, ltb, some, get_or, length,
  arith,
}
use minidos.Fat.Geometry.{get_root_dir_start, get_root_dir_sectors}
use minidos.Fat.{fat16, Device, Fs}
use minidos.Dir.Name.{match_name}
use minidos.Dir.Entry.{DirEntry, entry_at}
use minidos.Dir.Walk.{ret, done, visit_entries}
use minidos.File.Read.{look_in_dir, look_in_sectors, file_visit, read_file_from_dir}
use minidos.Dir.Created.{IsSolid}
use minidos.File.{write_sectors}
use minidos.File.Read.{read_cluster}
use minidos.File.Content.{at_bytes, drop_sectors, read_cluster-write_sectors}
use minidos.File.Ends.{read_file_from_dir-ends}

abbrev a_b : List ℕ
a_b = b'A' ∷ b'.' ∷ b'B' ∷ []

abbrev entry_a_b : List ℕ
entry_a_b = b'A' ∷ 32 ∷ 32 ∷ 32 ∷ 32 ∷ 32 ∷ 32 ∷ 32 ∷ b'B' ∷ 32 ∷ 32 ∷ []

-- The root directory holds `A.B`, of 600 bytes in the clusters 2 and 3.
root_byte : ℕ → ℕ
root_byte i =
    if ltb i 11
    then get_or entry_a_b i 0
    else if i == 11
    then 0x20
    else if i == 26
    then 2
    else if i == 28
    then 88
    else if i == 29
    then 2
    else 0

table_byte : ℕ → ℕ
table_byte i = if i == 4 then 3 else if i == 6 then 0xFF else if i == 7 then 0xFF else 0

abbrev disk : Device
disk = record {
  sectors = λ l i. if l == 1 then table_byte i else if l == 21 then root_byte i else b'x';
  read_fails = λ l. false;
  write_fails = λ l. false;
}

abbrev volume : Fs
volume = record {
  bpb = record {
    bytes_per_sector = 512;
    sectors_per_cluster = 1;
    reserved_sectors = 1;
    fat_count = 1;
    root_entries = 16;
    total_sectors_16 = 5000;
    media_type = 0xF8;
    sectors_per_fat = 20;
    sectors_per_track = 1;
    heads = 1;
    hidden_sectors = 0;
    total_sectors_32 = 0;
  };
  fat_type = fat16;
  device = disk;
  sector_buffer = λ i. 0;
  aux_buffer = λ i. 0;
}

abbrev found_entry : DirEntry
found_entry = entry_at root_byte 0

abbrev looked : Fs
looked = record volume { sector_buffer = disk.sectors 21 }

found_a_b : look_in_dir 601 a_b volume 0 ≡ (looked, ret (done (some found_entry)))
unfolding look_in_dir look_in_sectors file_visit visit_entries get_root_dir_start
    get_root_dir_sectors match_name entry_at root_byte
found_a_b = refl

its_size : found_entry.file_size ≡ 600
unfolding entry_at root_byte
its_size = refl

one_sector : looked.bpb.sectors_per_cluster ≡ 0 → ⊥
one_sector e = omega (arith, e)

read_file_from_dir-ends_example :
    (bytes : List ℕ) × ((read_file_from_dir 601 0 a_b 1000 volume).1 ≡ ret bytes)
    × (length bytes ≤ 1000)
    × (length bytes ≤ found_entry.file_size)
read_file_from_dir-ends_example =
    read_file_from_dir-ends 601 0 a_b 1000 volume looked found_entry found_a_b one_sector
      (omega (arith, its_size))

abbrev three_bytes : List ℕ
three_bytes = 1 ∷ 2 ∷ 3 ∷ []

disk-IsSolid : IsSolid volume.device
disk-IsSolid = record { reads = λ l. refl; writes = λ l. refl }

read_cluster-write_sectors_example :
    ((write_sectors 2 41 2 three_bytes volume).1 ≡ ret (drop_sectors 2 three_bytes))
    × ((read_cluster 41 2
            (write_sectors 2 41 2 three_bytes volume).0
            (at_bytes [] three_bytes 1000)).1.bytes
          ++ drop_sectors 2 three_bytes
        ≡ three_bytes)
    × ((read_cluster 41 2
          (write_sectors 2 41 2 three_bytes volume).0
          (at_bytes [] three_bytes 1000)).1.size
        ≡ length (drop_sectors 2 three_bytes))
read_cluster-write_sectors_example =
    read_cluster-write_sectors 2 41 2 three_bytes volume 1000 disk-IsSolid (omega arith)
