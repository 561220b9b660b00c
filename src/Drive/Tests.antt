-- ===== src/Drive/Tests.antt =====
-- The detection of drives on a floppy disk and on a hard disk with two partitions.
use minidos.Common.{ℕ, ◌≡◌, refl, true, false, some, none, [], ◌∷◌, ◌==◌, ◌&&◌, if◌then◌else◌, ltb}
use minidos.Common.Int.{pos}
use minidos.Fat.{Device, Sector}
use minidos.Fat.Alloc.{mounted, fat16_init}
use minidos.Fat.Volumes.{disk_sector, floppy_disk, unmounted, disk_sector_bytes}
use minidos.Drive.{
  DriveInfo, Hardware, Drives, drive_get_info, absolute_lba, drive_read_sector, drive_write_sector,
  drive_get_count,
}
use minidos.Drive.Detect.{
  detect_volume_in, detect_whole_disk_volume, detect_disk_partitions, scan_partitions, partition,
  drive_init,
}
use minidos.Drive.Listing.{fill_digits, print_backwards, print_num, print_hex_byte}
use minidos.Drive.Probed.{IsDetected, drive_init-IsDetected}
use minidos.Drive.Current.{written, drive_read_sector-drive_write_sector}
use minidos.Drive.Volume.{type_code, detect_whole_disk_volume-fat16_init}

-- A table with a FAT16 partition at sector 63, an extended one, and one at sector 200.
mbr_byte : ℕ → ℕ
mbr_byte i =
    if i == 450
    then 6
    else if i == 454
    then 63
    else if i == 458
    then 100
    else if i == 466
    then 5
    else if i == 474
    then 1
    else if i == 482
    then 4
    else if i == 486
    then 200
    else if i == 490
    then 50
    else if i == 510
    then 0x55
    else if i == 511
    then 0xAA
    else 0

abbrev hard_disk : Device
hard_disk = record { sectors = λ l. mbr_byte; read_fails = λ l. false; write_fails = λ l. false }

abbrev missing : Device
missing = record { sectors = λ l i. 0; read_fails = λ l. true; write_fails = λ l. true }

abbrev machine : Hardware
machine = record {
  disk = λ k. if k == 0 then floppy_disk else if k == 1 then hard_disk else missing;
  is_present = λ k. ltb k 2;
  is_floppy = true;
  boot_total = 2880;
}

abbrev no_drive : DriveInfo
no_drive = record {
  valid = false;
  disk_id = 0;
  partition_num = none;
  lba_start = 0;
  sector_count = 0;
  fs_type = 0;
}

abbrev blank : Drives
blank = record { drives = λ i. no_drive; current_drive = 0 }

floppy_taken : (detect_whole_disk_volume machine 0 (blank.drives, 0)).1 ≡ true
unfolding detect_whole_disk_volume detect_volume_in disk_sector
floppy_taken = refl

both_partitions : (detect_disk_partitions machine 1 (blank.drives, 1)).1 ≡ 2
unfolding detect_disk_partitions scan_partitions mbr_byte
both_partitions = refl

abbrev two_drives : Drives
two_drives = record {
  drives = λ i.
      if i == 0
      then partition 1 mbr_byte 0
      else if i == 1
      then partition 1 mbr_byte 2
      else no_drive;
  current_drive = 7;
}

drive_init-IsDetected_example :
    (is : IsDetected machine (drive_init machine blank)) × (drive_get_count
        (drive_init machine blank)
      ≡ is.count)
drive_init-IsDetected_example = drive_init-IsDetected machine blank

detect_whole_disk_volume-fat16_init_example :
    ((fat16_init unmounted).1 ≡ mounted)
    × (((detect_whole_disk_volume machine 0 (blank.drives, 0)).0.0 0).fs_type
        ≡ type_code (fat16_init unmounted).0.fat_type)
detect_whole_disk_volume-fat16_init_example =
    detect_whole_disk_volume-fat16_init machine 0 (blank.drives, 0) unmounted (disk_sector_bytes 0)
      refl floppy_taken

abbrev zeros : Sector
zeros = λ i. 0

abbrev second : DriveInfo
second = partition 1 mbr_byte 2

second_info : drive_get_info two_drives (pos 1) ≡ some second
unfolding drive_get_info
second_info = refl

-- Sector 5 of the second drive is sector 205 of the disk.
second_written :
    drive_write_sector machine two_drives (pos 1) 5 zeros ≡ some (written machine 1 205 zeros)
unfolding drive_write_sector drive_get_info mbr_byte written
second_written = refl

drive_read_sector-drive_write_sector_example :
    drive_read_sector (written machine 1 205 zeros) two_drives (pos 1) 5 ≡ (
      if false
      then none
      else if second.disk_id == second.disk_id && absolute_lba second 5 == absolute_lba second 5
      then some zeros
      else drive_read_sector machine two_drives (pos 1) 5)
drive_read_sector-drive_write_sector_example =
    drive_read_sector-drive_write_sector machine (written machine 1 205 zeros) two_drives (pos 1)
      (pos 1) second second 5 5 zeros second_info second_info second_written

shown_number : print_num 1440 ≡ b'1' ∷ b'4' ∷ b'4' ∷ b'0' ∷ []
unfolding print_num fill_digits print_backwards
shown_number = refl

shown_byte : print_hex_byte 0xA6 ≡ b'A' ∷ b'6' ∷ []
unfolding print_hex_byte
shown_byte = refl
