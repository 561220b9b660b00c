-- ===== src/Drive/Detect.antt =====
-- src/kernel/storage/drive.c: the search for volumes and partitions on the disks.
use minidos.Common.{
  ℕ, zero, suc, ◌+◌, ◌-◌, ◌*◌, ◌/◌, Bool, true, false, not, ◌&&◌, ◌||◌, Option, some, none, ltb,
  leb, ◌==◌, if◌then◌else◌,
}
use minidos.Fat.{Sector}
use minidos.Fat.Alloc.{word, dword}
use minidos.Drive.{
  DriveInfo, Hardware, Slots, Drives, max_drives, put_drive, drive_reset_slots,
  drive_next_letter_index, drive_select_first_valid, disk_read,
}

-- `total_sectors` of a boot sector
abbrev pub boot_sectors : Sector → ℕ
boot_sectors s = if not (word s 19 == 0) then word s 19 else dword s 32

abbrev pub root_sectors : Sector → ℕ
root_sectors s = (word s 17 * 32 + (word s 11 - 1)) / word s 11

-- The sectors before the first cluster.
abbrev pub system_sectors : Sector → ℕ
system_sectors s = word s 14 + s 16 * word s 22 + root_sectors s

-- The type 1 is FAT12, 6 is FAT16, and 0 none of these.
abbrev pub type_of_count : ℕ → ℕ
type_of_count count = if ltb count 4085 then 1 else if ltb count 65525 then 6 else 0

unfoldable pub detect_fat_type : Sector → ℕ
detect_fat_type s =
    if not (word s 11 == 512)
      || s 13 == 0
      || word s 14 == 0
      || s 16 == 0
      || word s 22 == 0
      || word s 17 == 0
      || boot_sectors s == 0
    then 0
    else if leb (boot_sectors s) (system_sectors s)
    then 0
    else type_of_count ((boot_sectors s - system_sectors s) / s 13)

-- `drives` and `*next_letter`
abbrev pub Probe : Type 0
Probe = Slots × ℕ

-- The assignments to `drives[*next_letter]`, and its increment.
abbrev pub add_drive : Probe → DriveInfo → Probe
add_drive (drives, next) info = (put_drive drives next info, next + 1)

abbrev pub whole_disk : ℕ → ℕ → ℕ → DriveInfo
whole_disk disk_id total fs_type = record {
  valid = true;
  disk_id = disk_id;
  partition_num = none;
  lba_start = 0;
  sector_count = total;
  fs_type = fs_type;
}

-- `total_sectors`, taken from the boot medium where the boot sector has none.
abbrev pub whole_total : Hardware → ℕ → Sector → ℕ
whole_total h disk_id s =
    if boot_sectors s == 0 && disk_id == 0 then h.boot_total else boot_sectors s

-- `detect_whole_disk_volume` from the tests of the boot sector on.
unfoldable pub detect_volume_in : Hardware → ℕ → Probe → Sector → Probe × Bool
unfolding detect_fat_type
detect_volume_in h disk_id p s =
    let fs_type : ℕ = detect_fat_type s in
    let total : ℕ = whole_total h disk_id s in
    if not (s 510 == 0x55) || not (s 511 == 0xAA)
    then (p, false)
    else if fs_type == 0
    then (p, false)
    else if total == 0
    then (p, false)
    else (add_drive p (whole_disk disk_id total fs_type), true)

abbrev pub volume_of : Hardware → ℕ → Probe → Option Sector → Probe × Bool
volume_of h disk_id p none = (p, false)
volume_of h disk_id p (some s) = detect_volume_in h disk_id p s

unfoldable pub detect_whole_disk_volume : Hardware → ℕ → Probe → Probe × Bool
detect_whole_disk_volume h disk_id p =
    let found = volume_of h disk_id p (disk_read h disk_id 0) in
    if not (ltb p.1 max_drives) then (p, false) else found

-- The drive of the partition `i` of the table; an entry has 16 bytes and the first is at 446.
abbrev pub partition : ℕ → Sector → ℕ → DriveInfo
partition disk_id s i = record {
  valid = true;
  disk_id = disk_id;
  partition_num = some i;
  lba_start = dword s (446 + 16 * i + 8);
  sector_count = dword s (446 + 16 * i + 12);
  fs_type = s (446 + 16 * i + 4);
}

-- The two `continue`s: an empty partition, and an extended one.
abbrev pub is_skipped : DriveInfo → Bool
is_skipped part =
    (part.fs_type == 0 || part.sector_count == 0) || (part.fs_type == 0x05 || part.fs_type == 0x0F)

-- The partitions from `i` on, with `n` left; `found` is `partitions_found`.
unfoldable pub scan_partitions : ℕ → Sector → ℕ → ℕ → Probe → ℕ → Probe × ℕ
scan_partitions disk_id s i zero p found = (p, found)
scan_partitions disk_id s i (suc n) p found =
    let part : DriveInfo = partition disk_id s i in
    let skipped = scan_partitions disk_id s (i + 1) n p found in
    let added = scan_partitions disk_id s (i + 1) n (add_drive p part) (found + 1) in
    if is_skipped part then skipped else if ltb p.1 max_drives then added else skipped

abbrev pub partitions_of : ℕ → Probe → Option Sector → Probe × ℕ
partitions_of disk_id p none = (p, 0)
partitions_of disk_id p (some s) =
    if not (word s 510 == 0xAA55) then (p, 0) else scan_partitions disk_id s 0 4 p 0

unfoldable pub detect_disk_partitions : Hardware → ℕ → Probe → Probe × ℕ
detect_disk_partitions h disk_id p = partitions_of disk_id p (disk_read h disk_id 0)

unfoldable pub drive_init_boot_media : Hardware → Drives → Drives
drive_init_boot_media h d =
    let empty : Drives = drive_reset_slots d in
    let probe = (detect_whole_disk_volume h 0 (empty.drives, 0)).0 in
    drive_select_first_valid
      (record empty { drives = if h.is_floppy then probe.0 else empty.drives })

-- One round of the loop of `drive_probe_additional`.
unfoldable pub probe_disk : Hardware → ℕ → Probe → Probe
probe_disk h disk p =
    let (p1, found) = detect_disk_partitions h disk p in
    let whole = (detect_whole_disk_volume h disk p1).0 in
    if not (h.is_present disk) then p else if ltb 0 found then p1 else whole

-- The disks from `disk` on, with `n` left.
unfoldable pub probe_disks : Hardware → ℕ → ℕ → Probe → Probe
probe_disks h disk zero p = p
probe_disks h disk (suc n) p = probe_disks h (disk + 1) n (probe_disk h disk p)

unfoldable pub drive_probe_additional : Hardware → Drives → Drives
drive_probe_additional h d =
    let p : Probe = (d.drives, drive_next_letter_index d) in
    let p1 : Probe = if h.is_floppy then probe_disks h 1 3 p else probe_disks h 0 4 p in
    let fallback = (detect_whole_disk_volume h 0 p1).0 in
    let p2 : Probe = if p1.1 == 0 && h.is_floppy then fallback else p1 in
    drive_select_first_valid (record d { drives = p2.0 })

unfoldable pub drive_init : Hardware → Drives → Drives
drive_init h d = drive_probe_additional h (drive_init_boot_media h d)
