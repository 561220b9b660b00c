-- ===== src/Drive/Current.antt =====
-- src/kernel/storage/drive.c: the current drive, and the sectors of the drives.
use minidos.Common.{
  ℕ, zero, suc, ◌+◌, ◌≤◌, ◌<◌, ◌≡◌, ◌≢◌, ◌⊎◌, refl, sym, ap, subst, ◌∙◌, Bool-cases, inl, inr, Bool,
  true, false, not, ◌&&◌, ◌||◌, some, none, ltb, ◌==◌, if◌then◌else◌, arith,
}
use minidos.Common.Int.{ℤ, pos}
use minidos.Fat.{Sector, put_sector}
use minidos.Drive.{
  DriveInfo, Hardware, Slots, Drives, max_drives, first_valid, or_zero, drive_get_info, disk_read,
  disk_write, absolute_lba, write_to, drive_read_sector, drive_write_sector, drive_get_current,
  drive_set_current,
}

-- A drive in use.
abbrev IsUsed : Drives → ℕ → Type 0
IsUsed d letter = (letter < max_drives) × ((d.drives letter).valid ≡ true)

-- The search from `i` on stops at a valid slot where there is one.
first_valid_lem :
    (drives : Slots) (i n k : ℕ)
    → i ≤ k
    → k < i + n
    → (drives k).valid ≡ true
    → (or_zero (first_valid drives i n) < i + n)
      × ((drives (or_zero (first_valid drives i n))).valid ≡ true)
unfolding first_valid
first_valid_lem drives i zero k low high used = absurd (omega arith)
first_valid_lem drives i (suc n) k low high used = elim (Bool-cases (drives i).valid) [
  | inl e ↦ rw e (omega arith, e)
  | inr e ↦
      let apart : i ≢ k = λ same. cc (sym e ∙ ap (λ j. (drives j).valid) same ∙ used) in
      let (bound, ok) =
        first_valid_lem drives (i + 1) n k (omega (arith, apart)) (omega arith) used in
      rw e (omega (arith, bound), ok)
]

get_current_keeps :
    (d : Drives) → IsUsed d d.current_drive → drive_get_current d ≡ (d, d.current_drive)
unfolding drive_get_current
get_current_keeps d (low, used) =
    let inside : ltb d.current_drive max_drives ≡ true = ground arith in rw (inside, used) refl

unused : Drives → ℕ → Bool
unused d letter = not (ltb letter max_drives) || not (d.drives letter).valid

unused_lem : (d : Drives) (letter : ℕ) → unused d letter ≡ false → IsUsed d letter
unfolding unused
unused_lem d letter h = ground arith

get_current_moves :
    (d : Drives) (letter : ℕ)
    → unused d d.current_drive ≡ true
    → or_zero (first_valid d.drives 0 max_drives) ≡ letter
    → drive_get_current d ≡ (record d { current_drive = letter }, letter)
unfolding drive_get_current unused
get_current_moves d letter h same = rw (h, same) refl

abbrev Answers : Drives × ℕ → Type 0
Answers r = IsUsed r.0 r.1 × (drive_get_current r.0 ≡ r)

-- Where some drive is in use, `drive_get_current` gives one that is, and the same one when it is
-- called again.
drive_get_current-IsUsed :
    (d : Drives) (k : ℕ)
    → IsUsed d k
    → IsUsed (drive_get_current d).0 (drive_get_current d).1
      × (drive_get_current (drive_get_current d).0 ≡ drive_get_current d)
drive_get_current-IsUsed d k (low, used) = elim (Bool-cases (unused d d.current_drive)) [
  | inl e ↦
      let letter : ℕ = or_zero (first_valid d.drives 0 max_drives) in
      let found : IsUsed d letter =
        first_valid_lem d.drives 0 max_drives k (omega arith) (omega arith) used in
      let moved : Drives = record d { current_drive = letter } in
      subst Answers (sym (get_current_moves d letter e refl)) (found, get_current_keeps moved found)
  | inr e ↦
      let kept = get_current_keeps d (unused_lem d d.current_drive e) in
      subst Answers (sym kept) (unused_lem d d.current_drive e, kept)
]

-- `drive_set_current` chooses the drive that `drive_get_current` then gives, where that is in use,
-- and changes nothing where it is not.
drive_get_current-drive_set_current :
    (d : Drives) (letter : ℕ)
    → (IsUsed d letter
        × (drive_get_current (drive_set_current d (pos letter))
            ≡ (record d { current_drive = letter }, letter)))
      ⊎ ((IsUsed d letter → ⊥) × (drive_set_current d (pos letter) ≡ d))
unfolding drive_set_current
drive_get_current-drive_set_current d letter =
    elim (Bool-cases (ltb letter max_drives && (d.drives letter).valid)) [
      | inl e ↦
          let used : IsUsed d letter = ground arith in
          inl (used, rw e (get_current_keeps (record d { current_drive = letter }) used))
      | inr e ↦ inr (λ used. ground arith, rw e refl)
    ]

-- The disks after a write that has succeeded.
unfoldable pub written : Hardware → ℕ → ℕ → Sector → Hardware
unfolding put_sector
written h disk lba s = record h {
  disk = λ k. if k == disk then put_sector (h.disk disk) lba s else h.disk k;
}

disk_write_lem :
    (h h' : Hardware) (disk lba : ℕ) (s : Sector)
    → disk_write h disk lba s ≡ some h'
    → h' ≡ written h disk lba s
unfolding written
disk_write_lem h h' disk lba s wrote = elim (Bool-cases ((h.disk disk).write_fails lba)) [
  | inl e ↦ let none_written = rw e at wrote in cc
  | inr e ↦ let is = rw e at wrote in cc
]

disk_read-written :
    (h : Hardware) (disk lba : ℕ) (s : Sector) (disk' lba' : ℕ)
    → disk_read (written h disk lba s) disk' lba' ≡ (
        if (h.disk disk').read_fails lba'
        then none
        else if disk' == disk && lba' == lba
        then some s
        else disk_read h disk' lba')
unfolding written put_sector
disk_read-written h disk lba s disk' lba' = ground arith

-- What the drive `b` reads once a sector is written through the drive `a`: that sector, where the
-- two stand for the same sector of the same disk, and otherwise what it read before.
pub drive_read_sector-drive_write_sector :
    (h h' : Hardware) (d : Drives) (a b : ℤ) (one two : DriveInfo) (lba lba' : ℕ) (s : Sector)
    → drive_get_info d a ≡ some one
    → drive_get_info d b ≡ some two
    → drive_write_sector h d a lba s ≡ some h'
    → drive_read_sector h' d b lba' ≡ (
        if (h.disk two.disk_id).read_fails (absolute_lba two lba')
        then none
        else if two.disk_id == one.disk_id && absolute_lba two lba' == absolute_lba one lba
        then some s
        else drive_read_sector h d b lba')
unfolding drive_read_sector drive_write_sector
drive_read_sector-drive_write_sector h h' d a b one two lba lba' s first second wrote =
    let to : disk_write h one.disk_id (absolute_lba one lba) s ≡ some h' =
      sym (ap (write_to h lba s) first) ∙ wrote in
    rw (second, disk_write_lem h h' one.disk_id (absolute_lba one lba) s to)
      (disk_read-written h one.disk_id (absolute_lba one lba) s two.disk_id (absolute_lba two lba'))
