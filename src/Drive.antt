-- ===== src/Drive.antt =====
-- src/kernel/storage/drive.c: the drives A: to Z: that the code finds on the disks. What it prints
-- is in Drive/Listing. The static `mbr_buffer` is read only after it has been filled, and is the
-- sector that was read. The calls of disk.c are the fields of Hardware.
pub mod Detect
pub mod Listing
pub mod Scanned
pub mod Probed
pub mod Current
pub mod Volume
pub mod Shown
mod Tests
use minidos.Common.{
  ℕ, zero, suc, ◌+◌, ◌*◌, Bool, true, false, not, ◌&&◌, ◌||◌, Option, some, none, ltb, ◌==◌,
  if◌then◌else◌, add32,
}
use minidos.Common.Int.{ℤ, pos, negsuc}
use minidos.Fat.{Device, Sector, put_sector}

-- `-1` as the number of a partition is `none`.
pub record DriveInfo : Type 0 where
  pub valid : Bool
  pub disk_id : ℕ
  pub partition_num : Option ℕ
  pub lba_start : ℕ
  pub sector_count : ℕ
  pub fs_type : ℕ

-- The disks by number, which of them are there, whether the system has booted from a floppy disk,
-- which then is disk 0, and how many sectors that has.
pub record Hardware : Type 0 where
  pub disk : ℕ → Device
  pub is_present : ℕ → Bool
  pub is_floppy : Bool
  pub boot_total : ℕ

-- The array `drives`.
abbrev pub Slots : Type 0
Slots = ℕ → DriveInfo

pub record Drives : Type 0 where
  pub drives : Slots
  pub current_drive : ℕ

abbrev pub max_drives : ℕ
max_drives = 26

abbrev pub put_drive : Slots → ℕ → DriveInfo → Slots
put_drive drives letter info = λ i. if i == letter then info else drives i

-- `drive_reset_slots`; the slots beyond the array play no part.
unfoldable pub drive_reset_slots : Drives → Drives
drive_reset_slots d = record {
  drives = λ i. record (d.drives i) { valid = false };
  current_drive = 0;
}

-- The loop of `drive_next_letter_index`, with `n` letters left.
unfoldable pub next_letter_from : Slots → ℕ → ℕ → ℕ
next_letter_from drives letter zero = letter
next_letter_from drives letter (suc n) =
    let rest = next_letter_from drives (letter + 1) n in
    if (drives letter).valid then rest else letter

unfoldable pub drive_next_letter_index : Drives → ℕ
unfolding next_letter_from
drive_next_letter_index d = next_letter_from d.drives 0 max_drives

-- The first valid slot from `letter` on, with `n` slots left.
unfoldable pub first_valid : Slots → ℕ → ℕ → Option ℕ
first_valid drives letter zero = none
first_valid drives letter (suc n) =
    let rest = first_valid drives (letter + 1) n in
    if (drives letter).valid then some letter else rest

abbrev pub or_zero : Option ℕ → ℕ
or_zero (some letter) = letter
or_zero none = 0

unfoldable pub drive_select_first_valid : Drives → Drives
unfolding first_valid
drive_select_first_valid d = record d {
  current_drive = or_zero (first_valid d.drives 0 max_drives);
}

unfoldable pub drive_get_info : Drives → ℤ → Option DriveInfo
drive_get_info d (negsuc n) = none
drive_get_info d (pos letter) =
    if not (ltb letter max_drives)
    then none
    else if not (d.drives letter).valid
    then none
    else some (d.drives letter)

-- `disk_read_lba_from_disk`; `none` is an error.
abbrev pub disk_read : Hardware → ℕ → ℕ → Option Sector
disk_read h disk lba =
    if (h.disk disk).read_fails lba then none else some ((h.disk disk).sectors lba)

abbrev pub disk_write : Hardware → ℕ → ℕ → Sector → Option Hardware
disk_write h disk lba s =
    if (h.disk disk).write_fails lba
    then none
    else some
        (record h { disk = λ k. if k == disk then put_sector (h.disk disk) lba s else h.disk k })

abbrev pub absolute_lba : DriveInfo → ℕ → ℕ
absolute_lba info lba = add32 info.lba_start lba

abbrev pub read_from : Hardware → ℕ → Option DriveInfo → Option Sector
read_from h lba none = none
read_from h lba (some info) = disk_read h info.disk_id (absolute_lba info lba)

abbrev pub write_to : Hardware → ℕ → Sector → Option DriveInfo → Option Hardware
write_to h lba s none = none
write_to h lba s (some info) = disk_write h info.disk_id (absolute_lba info lba) s

unfoldable pub drive_read_sector : Hardware → Drives → ℤ → ℕ → Option Sector
unfolding drive_get_info
drive_read_sector h d letter lba = read_from h lba (drive_get_info d letter)

unfoldable pub drive_write_sector : Hardware → Drives → ℤ → ℕ → Sector → Option Hardware
unfolding drive_get_info put_sector
drive_write_sector h d letter lba s = write_to h lba s (drive_get_info d letter)

-- `drive_get_current`: the new state and the result, which is its current drive.
unfoldable pub drive_get_current : Drives → Drives × ℕ
unfolding first_valid
drive_get_current d =
    let letter : ℕ = or_zero (first_valid d.drives 0 max_drives) in
    if not (ltb d.current_drive max_drives) || not (d.drives d.current_drive).valid
    then (record d { current_drive = letter }, letter)
    else (d, d.current_drive)

unfoldable pub drive_set_current : Drives → ℤ → Drives
drive_set_current d (negsuc n) = d
drive_set_current d (pos letter) =
    if ltb letter max_drives && (d.drives letter).valid
    then record d { current_drive = letter }
    else d

-- The loop of `drive_get_count`, with `n` slots left.
unfoldable pub count_valid : Slots → ℕ → ℕ → ℕ
count_valid drives letter zero = 0
count_valid drives letter (suc n) =
    (if (drives letter).valid then 1 else 0) + count_valid drives (letter + 1) n

unfoldable pub drive_get_count : Drives → ℕ
unfolding count_valid
drive_get_count d = count_valid d.drives 0 max_drives
