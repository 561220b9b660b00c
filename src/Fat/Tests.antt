-- ===== src/Fat/Tests.antt =====
-- The table of a small volume: the theorems at concrete entries, and tests.
use minidos.Common.{ℕ, ◌<◌, ◌==◌, if◌then◌else◌, ◌≡◌, refl, true, false, arith, ◌+◌, ◌%◌}
use minidos.Fat.Geometry.{Bpb}
use minidos.Fat.Write.{fit}
use minidos.Fat.Copies.{copy_entry}
use minidos.Fat.RoundTrip.{InTable, write_fat_entry_lem, read_fat_entry-write_fat_entry}
use minidos.Fat.{
  write_fat_entry, fat12, Fs, read_fat_entry, read_by_type, read_entry12, read_sector, read_aux,
  decode12, encode12,
}
use minidos.Fat.Entry.{IsSound, disk_byte, put_entry, new_pair, entry_offset}

-- The layout of a 1.44 MB floppy disk.
abbrev floppy_bpb : Bpb
floppy_bpb = record {
  bytes_per_sector = 512;
  sectors_per_cluster = 1;
  reserved_sectors = 1;
  fat_count = 2;
  root_entries = 224;
  total_sectors_16 = 2880;
  media_type = 240;
  sectors_per_fat = 9;
  sectors_per_track = 18;
  heads = 2;
  hidden_sectors = 0;
  total_sectors_32 = 0;
}

-- Each byte tells where it stands.
abbrev floppy : Fs
floppy = record {
  bpb = floppy_bpb;
  fat_type = fat12;
  device = record {
    sectors = λ l i. (l + i) % 256;
    read_fails = λ l. false;
    write_fails = λ l. false;
  };
  sector_buffer = λ i. 0;
  aux_buffer = λ i. 0;
}

floppy-IsSound : IsSound floppy.device
floppy-IsSound = record { reads = λ l. refl; writes = λ l. refl; bytes = λ a. omega arith }

straddling : (read_fat_entry floppy 341).1 ≡ 0x020
unfolding read_fat_entry read_by_type read_entry12 read_sector read_aux decode12
straddling = refl

written : put_entry fat12 (disk_byte floppy.device) 1 341 0xABC 1024 ≡ 0xAB
unfolding put_entry new_pair entry_offset encode12
written = refl

floppy_table : (c : ℕ) → c < 3071 → InTable floppy c
unfolding InTable entry_offset
floppy_table c h = omega arith

-- Clusters 340 and 341 share a byte.
write_fat_entry_lem_example :
    ((write_fat_entry floppy 341 0xABC).1 ≡ true)
    × (copy_entry (write_fat_entry floppy 341 0xABC).0 1 340
        ≡ (if 340 == 341 then fit fat12 0xABC else copy_entry floppy 1 340))
write_fat_entry_lem_example =
    write_fat_entry_lem floppy 341 0xABC 1 340 floppy-IsSound (floppy_table 341 (omega arith))
      (floppy_table 340 (omega arith)) (omega arith)

read_fat_entry-write_fat_entry_example :
    (read_fat_entry (write_fat_entry floppy 341 0xABC).0 341).1
    ≡ (if 341 == 341 then fit fat12 0xABC else (read_fat_entry floppy 341).1)
read_fat_entry-write_fat_entry_example =
    read_fat_entry-write_fat_entry floppy 341 0xABC 341 floppy-IsSound
      (floppy_table 341 (omega arith)) (floppy_table 341 (omega arith)) (omega arith)
