-- ===== src/Drive/Probed.antt =====
-- src/kernel/storage/drive.c: what the detection of drives leaves in the array.
use minidos.Common.{
  if_lem, ℕ, zero, suc, ◌+◌, ◌-◌, ◌≤◌, ◌≡◌, refl, sym, subst, ap, ◌∙◌, Bool-cases, inl, inr, ◌&&◌,
  none, ltb, ◌==◌, if◌then◌else◌, arith,
}
use minidos.Drive.{
  Hardware, Slots, Drives, max_drives, drive_reset_slots, next_letter_from, drive_next_letter_index,
  first_valid, or_zero, drive_select_first_valid, count_valid, drive_get_count,
}
use minidos.Drive.Detect.{
  Probe, detect_whole_disk_volume, drive_init_boot_media, probe_disks, drive_probe_additional,
  drive_init,
}
use minidos.Drive.Scanned.{IsProbe, detect_whole-IsProbe, probe_disks-IsProbe, floppy-IsAttached}

free-IsProbe : {h : Hardware} (d : Drives) → IsProbe h ((drive_reset_slots d).drives, 0)
unfolding drive_reset_slots
free-IsProbe d = record {
  fits = omega arith;
  lettered = λ i h. absurd (omega arith);
  free = λ i h. refl;
}

-- The search for a free slot finds the next letter.
next_letter_lem :
    {h : Hardware} (p : Probe) (i n : ℕ)
    → IsProbe h p
    → i ≤ p.1
    → p.1 ≤ i + n
    → next_letter_from p.0 i n ≡ p.1
unfolding next_letter_from
next_letter_lem p i zero ok low high = omega arith
next_letter_lem p i (suc n) ok low high = elim (Bool-cases (ltb i p.1)) [
  | inl e ↦
      rw (ok.lettered i (ground arith)).used
        (next_letter_lem p (i + 1) n ok (ground arith) (omega arith))
  | inr e ↦ rw (ok.free i (ground arith)) (ground arith)
]

count_lem :
    {h : Hardware} (p : Probe) (i n : ℕ) → IsProbe h p → p.1 ≤ i + n → count_valid p.0 i n ≡ p.1 - i
unfolding count_valid
count_lem p i zero ok high = omega arith
count_lem p i (suc n) ok high =
    let rest = count_lem p (i + 1) n ok (omega arith) in
    elim (Bool-cases (ltb i p.1)) [
      | inl e ↦ rw (ok.lettered i (ground arith)).used (ground (arith, rest))
      | inr e ↦ rw (ok.free i (ground arith)) (ground (arith, rest))
    ]

free-first_valid :
    {h : Hardware} (p : Probe) (i n : ℕ) → IsProbe h p → p.1 ≤ i → first_valid p.0 i n ≡ none
unfolding first_valid
free-first_valid p i zero ok low = refl
free-first_valid p i (suc n) ok low =
    rw (ok.free i low) (free-first_valid p (i + 1) n ok (omega arith))

-- The first drive is A:, which is also chosen where there is none.
first_lem : {h : Hardware} (p : Probe) (n : ℕ) → IsProbe h p → or_zero (first_valid p.0 0 n) ≡ 0
unfolding first_valid
first_lem p zero ok = refl
first_lem p (suc n) ok = elim (Bool-cases (ltb 0 p.1)) [
  | inl e ↦ rw (ok.lettered 0 (ground arith)).used refl
  | inr e ↦ ap or_zero (free-first_valid p 0 (suc n) ok (ground arith))
]

-- The array and the current drive after a detection.
pub record IsDetected (h : Hardware) (d : Drives) : Type 0 where
  pub count : ℕ
  pub probed : IsProbe h (d.drives, count)
  pub selected : d.current_drive ≡ 0

select-IsDetected :
    {h : Hardware} (d : Drives) (n : ℕ)
    → IsProbe h (d.drives, n)
    → IsDetected h (drive_select_first_valid d)
unfolding drive_select_first_valid
select-IsDetected d n ok = record {
  count = n;
  probed = ok;
  selected = first_lem (d.drives, n) max_drives ok;
}

boot_media-IsDetected : (h : Hardware) (d : Drives) → IsDetected h (drive_init_boot_media h d)
unfolding drive_init_boot_media
boot_media-IsDetected h d =
    let empty = drive_reset_slots d in
    let found : Probe = (detect_whole_disk_volume h 0 (empty.drives, 0)).0 in
    let slots : Slots = if h.is_floppy then found.0 else empty.drives in
    let (n, ok) =
      if_lem (λ (s : Slots). (n : ℕ) × IsProbe h (s, n)) h.is_floppy found.0 empty.drives
        (λ e. (
          found.1,
          detect_whole-IsProbe h 0 (empty.drives, 0) (floppy-IsAttached h e) (free-IsProbe d),
        ))
        (λ e. (0, free-IsProbe d)) in
    select-IsDetected (record empty { drives = slots }) n ok

additional-IsProbe :
    (h : Hardware) (p : Probe)
    → IsProbe h p
    → IsProbe h (if h.is_floppy then probe_disks h 1 3 p else probe_disks h 0 4 p)
additional-IsProbe h p ok =
    if_lem (IsProbe h) h.is_floppy (probe_disks h 1 3 p) (probe_disks h 0 4 p)
      (λ e. probe_disks-IsProbe h 1 3 p (omega arith) ok)
      (λ e. probe_disks-IsProbe h 0 4 p (omega arith) ok)

next_letter_index_lem :
    {h : Hardware} (d : Drives) (n : ℕ) → IsProbe h (d.drives, n) → drive_next_letter_index d ≡ n
unfolding drive_next_letter_index
next_letter_index_lem d n ok = next_letter_lem (d.drives, n) 0 max_drives ok (omega arith) ok.fits

probe_additional-IsDetected :
    (h : Hardware) (d : Drives) → IsDetected h d → IsDetected h (drive_probe_additional h d)
unfolding drive_probe_additional
probe_additional-IsDetected h d is =
    let p : Probe = (d.drives, drive_next_letter_index d) in
    let p1 : Probe = if h.is_floppy then probe_disks h 1 3 p else probe_disks h 0 4 p in
    let fallback : Probe = (detect_whole_disk_volume h 0 p1).0 in
    let start : IsProbe h p =
      subst (λ n. IsProbe h (d.drives, n)) (sym (next_letter_index_lem d is.count is.probed))
        is.probed in
    let ok1 : IsProbe h p1 = additional-IsProbe h p start in
    let p2 : Probe = if p1.1 == 0 && h.is_floppy then fallback else p1 in
    let ok2 : IsProbe h p2 =
      if_lem (IsProbe h) (p1.1 == 0 && h.is_floppy) fallback p1
        (λ e. detect_whole-IsProbe h 0 p1 (floppy-IsAttached h (ground arith)) ok1) (λ e. ok1) in
    select-IsDetected (record d { drives = p2.0 }) p2.1 ok2

-- Whatever the disks hold, `drive_init` gives the drives it finds the letters from A: on with no
-- gap, 26 at most; each of them has a type, some sectors, and a disk that is there: one of the four
-- that `disk_is_present` reports, or disk 0 where the system was booted from a floppy disk. A: is
-- the current drive, and `drive_get_count` is the number of drives.
pub drive_init-IsDetected :
    (h : Hardware) (d : Drives)
    → (is : IsDetected h (drive_init h d)) × (drive_get_count (drive_init h d) ≡ is.count)
unfolding drive_init drive_get_count
drive_init-IsDetected h d =
    let is =
      probe_additional-IsDetected h (drive_init_boot_media h d) (boot_media-IsDetected h d) in
    (
      is,
      count_lem ((drive_init h d).drives, is.count) 0 max_drives is.probed is.probed.fits
          ∙ (omega arith),
    )
