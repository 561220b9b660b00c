-- ===== src/Drive/Scanned.antt =====
-- src/kernel/storage/drive.c: the drives that the search of one disk adds to the array.
use minidos.Common.{
  if_lem, ℕ, zero, suc, ◌+◌, ◌≤◌, ◌<◌, ◌≡◌, ◌≢◌, ◌⊎◌, refl, sym, subst, ap, ◌∙◌, Bool-cases, inl,
  inr, Bool, true, false, not, ◌||◌, Option, some, none, ltb, ◌==◌, if◌then◌else◌, arith,
}
use minidos.Fat.{Sector}
use minidos.Fat.Alloc.{word}
use minidos.Drive.{DriveInfo, Hardware, Slots, max_drives, put_drive, disk_read}
use minidos.Drive.Detect.{
  Probe, add_drive, whole_disk, whole_total, detect_fat_type, detect_volume_in, volume_of,
  detect_whole_disk_volume, partition, is_skipped, scan_partitions, partitions_of,
  detect_disk_partitions, probe_disk, probe_disks,
}

-- A disk that is there: one of the four that is present, or the floppy disk that was booted from.
pub record IsAttached (h : Hardware) (disk : ℕ) : Type 0 where
  pub numbered : disk < 4
  pub found : (h.is_present disk ≡ true) ⊎ ((h.is_floppy ≡ true) × (disk ≡ 0))

-- A drive that the detection makes.
pub record IsDrive (h : Hardware) (info : DriveInfo) : Type 0 where
  pub used : info.valid ≡ true
  pub sized : info.sector_count ≢ 0
  pub typed : info.fs_type ≢ 0
  pub attached : IsAttached h info.disk_id

-- The slots below the next letter are drives, and the others are free.
pub record IsProbe (h : Hardware) (p : Probe) : Type 0 where
  pub fits : p.1 ≤ max_drives
  pub lettered : (i : ℕ) → i < p.1 → IsDrive h (p.0 i)
  pub free : (i : ℕ) → p.1 ≤ i → (p.0 i).valid ≡ false

put_drive_same :
    (drives : Slots) (k i : ℕ) (info : DriveInfo)
    → (i == k) ≡ true
    → put_drive drives k info i ≡ info
put_drive_same drives k i info h = rw h refl

put_drive_other :
    (drives : Slots) (k i : ℕ) (info : DriveInfo)
    → (i == k) ≡ false
    → put_drive drives k info i ≡ drives i
put_drive_other drives k i info h = rw h refl

add_drive-IsProbe :
    {h : Hardware} (p : Probe) (info : DriveInfo)
    → p.1 < max_drives
    → IsDrive h info
    → IsProbe h p
    → IsProbe h (add_drive p info)
add_drive-IsProbe {h} (drives, next) info room is ok = record {
  fits = omega arith;
  lettered = λ i lt. elim (Bool-cases (i == next)) [
    | inl e ↦ subst (IsDrive h) (sym (put_drive_same drives next i info e)) is
    | inr e ↦
        subst (IsDrive h) (sym (put_drive_other drives next i info e))
          (ok.lettered i (ground arith))
  ];
  free = λ i h.
      ap (λ x. x.valid) (put_drive_other drives next i info (ground arith))
      ∙ ok.free i (omega arith);
}

whole-IsDrive :
    {h : Hardware} (disk total fs_type : ℕ)
    → IsAttached h disk
    → total ≢ 0
    → fs_type ≢ 0
    → IsDrive h (whole_disk disk total fs_type)
whole-IsDrive disk total fs_type h t f = record { used = refl; sized = t; typed = f; attached = h }

detect_volume_in-IsProbe :
    (h : Hardware) (disk : ℕ) (p : Probe) (s : Sector)
    → IsAttached h disk
    → p.1 < max_drives
    → IsProbe h p
    → IsProbe h (detect_volume_in h disk p s).0
unfolding detect_volume_in
detect_volume_in-IsProbe h disk p s low room ok =
    let Q = λ (r : Probe × Bool). IsProbe h r.0 in
    let fs_type : ℕ = detect_fat_type s in
    let total : ℕ = whole_total h disk s in
    let added : Probe × Bool = (add_drive p (whole_disk disk total fs_type), true) in
    let sized : Probe × Bool = if total == 0 then (p, false) else added in
    let typed : Probe × Bool = if fs_type == 0 then (p, false) else sized in
    if_lem Q (not (s 510 == 0x55) || not (s 511 == 0xAA)) (p, false) typed (λ e. ok)
      (λ e.
        if_lem Q (fs_type == 0) (p, false) sized (λ e1. ok)
          (λ e1.
            if_lem Q (total == 0) (p, false) added (λ e2. ok)
              (λ e2.
                add_drive-IsProbe p (whole_disk disk total fs_type) room
                  (whole-IsDrive disk total fs_type low (ground arith) (ground arith)) ok)))

volume_of-IsProbe :
    (h : Hardware) (disk : ℕ) (p : Probe) (o : Option Sector)
    → IsAttached h disk
    → p.1 < max_drives
    → IsProbe h p
    → IsProbe h (volume_of h disk p o).0
volume_of-IsProbe h disk p none low room ok = ok
volume_of-IsProbe h disk p (some s) low room ok = detect_volume_in-IsProbe h disk p s low room ok

pub detect_whole-IsProbe :
    (h : Hardware) (disk : ℕ) (p : Probe)
    → IsAttached h disk
    → IsProbe h p
    → IsProbe h (detect_whole_disk_volume h disk p).0
unfolding detect_whole_disk_volume
detect_whole-IsProbe h disk p low ok =
    let o : Option Sector = disk_read h disk 0 in
    if_lem (λ (r : Probe × Bool). IsProbe h r.0) (not (ltb p.1 max_drives)) (p, false)
      (volume_of h disk p o) (λ e. ok) (λ e. volume_of-IsProbe h disk p o low (ground arith) ok)

partition-IsDrive :
    {h : Hardware} (disk : ℕ) (s : Sector) (i : ℕ)
    → IsAttached h disk
    → is_skipped (partition disk s i) ≡ false
    → IsDrive h (partition disk s i)
partition-IsDrive disk s i low h = record {
  used = refl;
  sized = ground arith;
  typed = ground arith;
  attached = low;
}

scan-IsProbe :
    {h : Hardware} (disk : ℕ) (s : Sector) (i n : ℕ) (p : Probe) (found : ℕ)
    → IsAttached h disk
    → IsProbe h p
    → IsProbe h (scan_partitions disk s i n p found).0
unfolding scan_partitions
scan-IsProbe disk s i zero p found low ok = ok
scan-IsProbe {h} disk s i (suc n) p found low ok =
    let Q = λ (r : Probe × ℕ). IsProbe h r.0 in
    let skipped = scan-IsProbe disk s (i + 1) n p found low ok in
    if_lem Q _ _ _ (λ e. skipped)
      (λ e.
        if_lem Q _ _ _
          (λ room.
            scan-IsProbe disk s (i + 1) n _ (found + 1) low
              (add_drive-IsProbe p _ (ground arith) (partition-IsDrive disk s i low e) ok))
          (λ e1. skipped))

partitions_of-IsProbe :
    {h : Hardware} (disk : ℕ) (p : Probe) (o : Option Sector)
    → IsAttached h disk
    → IsProbe h p
    → IsProbe h (partitions_of disk p o).0
partitions_of-IsProbe disk p none low ok = ok
partitions_of-IsProbe {h} disk p (some s) low ok =
    if_lem (λ (r : Probe × ℕ). IsProbe h r.0) (not (word s 510 == 0xAA55)) (p, 0)
      (scan_partitions disk s 0 4 p 0) (λ e. ok) (λ e. scan-IsProbe disk s 0 4 p 0 low ok)

detect_partitions-IsProbe :
    (h : Hardware) (disk : ℕ) (p : Probe)
    → IsAttached h disk
    → IsProbe h p
    → IsProbe h (detect_disk_partitions h disk p).0
unfolding detect_disk_partitions
detect_partitions-IsProbe h disk p low ok = partitions_of-IsProbe disk p (disk_read h disk 0) low ok

probe_disk-IsProbe :
    (h : Hardware) (disk : ℕ) (p : Probe) → disk < 4 → IsProbe h p → IsProbe h (probe_disk h disk p)
unfolding probe_disk
probe_disk-IsProbe h disk p low ok =
    let (p1, found) = detect_disk_partitions h disk p in
    let whole : Probe = (detect_whole_disk_volume h disk p1).0 in
    let probed : Probe = if ltb 0 found then p1 else whole in
    if_lem (IsProbe h) (not (h.is_present disk)) p probed (λ e. ok)
      (λ e.
        let there : IsAttached h disk = record { numbered = low; found = inl (ground arith) } in
        let parts = detect_partitions-IsProbe h disk p there ok in
        if_lem (IsProbe h) (ltb 0 found) p1 whole (λ e1. parts)
          (λ e1. detect_whole-IsProbe h disk p1 there parts))

pub floppy-IsAttached : (h : Hardware) → h.is_floppy ≡ true → IsAttached h 0
floppy-IsAttached h e = record { numbered = omega arith; found = inr (e, refl) }

pub probe_disks-IsProbe :
    (h : Hardware) (disk n : ℕ) (p : Probe)
    → disk + n ≤ 4
    → IsProbe h p
    → IsProbe h (probe_disks h disk n p)
unfolding probe_disks
probe_disks-IsProbe h disk zero p low ok = ok
probe_disks-IsProbe h disk (suc n) p low ok =
    probe_disks-IsProbe h (disk + 1) n _ (omega arith)
      (probe_disk-IsProbe h disk p (omega arith) ok)
