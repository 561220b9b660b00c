-- ===== src/Drive/Volume.antt =====
-- src/kernel/storage/drive.c and fat16.c: a volume that the detection takes is one that
-- `fat16_init` mounts. The drive that `fat16_set_drive` chooses is the device of the mounted volume.
use minidos.Common.{
  ℕ, ◌-◌, ◌/◌, ◌<◌, ◌≤◌, ◌≡◌, ◌≢◌, refl, sym, ap, subst, ◌∙◌, Bool-cases, inl, inr, Bool, true,
  false, not, ltb, ◌==◌, sub32, arith,
}
use minidos.Fat.Geometry.{
  get_root_dir_start, get_root_dir_sectors, get_total_sectors, get_total_clusters,
}
use minidos.Fat.{FatType, fat12, fat16, Fs, Sector, read_sector}
use minidos.Fat.Alloc.{
  Mount, mounted, word, parse_bpb, choose_type, check_bpb, check_boot, fat16_init,
}
use minidos.Fat.Mounted.{parse_bpb-InWidth, total_bound}
use minidos.Drive.{Hardware, max_drives, disk_read}
use minidos.Drive.Detect.{
  boot_sectors, system_sectors, type_of_count, detect_fat_type, Probe, detect_volume_in, volume_of,
  detect_whole_disk_volume,
}

-- The types that the detection gives to the two kinds of volume.
abbrev pub type_code : FatType → ℕ
type_code fat12 = 1
type_code fat16 = 6

boot_sectors_lem : (s : Sector) → get_total_sectors (parse_bpb s) ≡ boot_sectors s
unfolding get_total_sectors parse_bpb
boot_sectors_lem s = elim (Bool-cases (word s 19 == 0)) [ inl e ↦ rw e refl | inr e ↦ rw e refl ]

-- A type that is not 0 is that of a volume of sectors of 512 bytes, none of whose fields is 0, with
-- room for clusters.
record IsVolume (s : Sector) : Type 0 where
  sized : word s 11 ≡ 512
  clustered : s 13 ≢ 0
  tabled : word s 22 ≢ 0
  rooted : word s 17 ≢ 0
  room : system_sectors s ≤ boot_sectors s
  typed : detect_fat_type s ≡ type_of_count ((boot_sectors s - system_sectors s) / s 13)

detect_fat_type-IsVolume : (s : Sector) → detect_fat_type s ≢ 0 → IsVolume s
unfolding detect_fat_type
detect_fat_type-IsVolume s h = ground arith

-- The number of clusters is that of `fat16_init`, whose subtraction does not wrap.
count_lem :
    (s : Sector)
    → ((i : ℕ) → s i < 256)
    → IsVolume s
    → get_total_clusters (parse_bpb s) ≡ (boot_sectors s - system_sectors s) / s 13
unfolding get_total_clusters get_root_dir_start get_root_dir_sectors parse_bpb
count_lem s bytes v =
    let total = boot_sectors_lem s in
    let below = total_bound (parse_bpb s) (parse_bpb-InWidth s bytes) in
    let room = v.room in
    let diff : sub32 (get_total_sectors (parse_bpb s)) (system_sectors s)
        ≡ boot_sectors s - system_sectors s =
      omega (arith, total, below, room) in
    ap (λ n. n / s 13) diff

-- What `detect_volume_in` has checked where it takes a volume.
record IsTaken (h : Hardware) (disk : ℕ) (p : Probe) (s : Sector) : Type 0 where
  first : s 510 ≡ 0x55
  second : s 511 ≡ 0xAA
  known : detect_fat_type s ≢ 0
  recorded : ((detect_volume_in h disk p s).0.0 p.1).fs_type ≡ detect_fat_type s

detect_volume_in-IsTaken :
    (h : Hardware) (disk : ℕ) (p : Probe) (s : Sector)
    → (detect_volume_in h disk p s).1 ≡ true
    → IsTaken h disk p s
unfolding detect_volume_in
detect_volume_in-IsTaken h disk p s t = ground arith

choose_type_lem :
    (fs : Fs) (n : ℕ)
    → type_of_count n ≢ 0
    → ((choose_type fs n).1 ≡ mounted) × (type_of_count n ≡ type_code (choose_type fs n).0.fat_type)
unfolding choose_type
choose_type_lem fs n h = ground arith

-- What mounting comes to: a volume, of the kind that the detection has named.
abbrev Mounts : Sector → Fs × Mount → Type 0
Mounts s r = (r.1 ≡ mounted) × (detect_fat_type s ≡ type_code r.0.fat_type)

check_bpb-choose_type :
    (fs : Fs)
    → fs.bpb.bytes_per_sector ≢ 0
    → fs.bpb.sectors_per_fat ≢ 0
    → fs.bpb.root_entries ≢ 0
    → fs.bpb.sectors_per_cluster ≢ 0
    → check_bpb fs ≡ choose_type fs (get_total_clusters fs.bpb)
unfolding check_bpb
check_bpb-choose_type fs a b c d = ground arith

check_bpb-Mounts :
    (fs : Fs) (s : Sector)
    → ((i : ℕ) → s i < 256)
    → fs.bpb ≡ parse_bpb s
    → IsVolume s
    → detect_fat_type s ≢ 0
    → Mounts s (check_bpb fs)
unfolding parse_bpb
check_bpb-Mounts fs s bytes same v known =
    let n : ℕ = get_total_clusters fs.bpb in
    let typed : detect_fat_type s ≡ type_of_count n =
      v.typed ∙ ap type_of_count (sym (ap get_total_clusters same ∙ count_lem s bytes v)) in
    let step : check_bpb fs ≡ choose_type fs n =
      check_bpb-choose_type fs
        (λ e. absurd (omega (arith, v.sized, sym (ap (λ b. b.bytes_per_sector) same) ∙ e)))
        (λ e. v.tabled (sym (ap (λ b. b.sectors_per_fat) same) ∙ e))
        (λ e. v.rooted (sym (ap (λ b. b.root_entries) same) ∙ e))
        (λ e. v.clustered (sym (ap (λ b. b.sectors_per_cluster) same) ∙ e)) in
    let (ok, code) = choose_type_lem fs n (λ e. known (typed ∙ e)) in
    subst (Mounts s) (sym step) (ok, typed ∙ code)

check_boot-Mounts :
    (fs : Fs)
    → ((i : ℕ) → fs.sector_buffer i < 256)
    → fs.sector_buffer 510 ≡ 0x55
    → fs.sector_buffer 511 ≡ 0xAA
    → detect_fat_type fs.sector_buffer ≢ 0
    → Mounts fs.sector_buffer (check_boot fs)
unfolding check_boot
check_boot-Mounts fs bytes first second known =
    let s : Sector = fs.sector_buffer in
    rw (first, second)
      (check_bpb-Mounts (record fs { bpb = parse_bpb s }) s bytes refl
        (detect_fat_type-IsVolume s known) known)

init-Mounts :
    (fs : Fs) (s : Sector)
    → ((i : ℕ) → s i < 256)
    → fs.device.read_fails 0 ≡ false
    → fs.device.sectors 0 ≡ s
    → s 510 ≡ 0x55
    → s 511 ≡ 0xAA
    → detect_fat_type s ≢ 0
    → Mounts s (fat16_init fs)
unfolding fat16_init read_sector
init-Mounts fs s bytes reads is first second known =
    rw (reads, is) (check_boot-Mounts (record fs { sector_buffer = s }) bytes first second known)

abbrev Answer : ℕ → Fs → Probe × Bool → Type 0
Answer next fs r =
    ((fat16_init fs).1 ≡ mounted) × ((r.0.0 next).fs_type ≡ type_code (fat16_init fs).0.fat_type)

volume_of-Answer :
    (h : Hardware) (disk : ℕ) (p : Probe) (fs : Fs)
    → ((i : ℕ) → (h.disk disk).sectors 0 i < 256)
    → fs.device ≡ h.disk disk
    → (volume_of h disk p (disk_read h disk 0)).1 ≡ true
    → Answer p.1 fs (volume_of h disk p (disk_read h disk 0))
volume_of-Answer h disk p fs bytes device taken = elim (Bool-cases ((h.disk disk).read_fails 0)) [
  | inl e ↦ let untaken = rw e at taken in cc
  | inr e ↦
      let s : Sector = (h.disk disk).sectors 0 in
      let is = detect_volume_in-IsTaken h disk p s (rw e at taken) in
      let (ok, code) =
        init-Mounts fs s bytes (ap (λ d. d.read_fails 0) device ∙ e) (ap (λ d. d.sectors 0) device)
          is.first is.second is.known in
      rw e (ok, is.recorded ∙ code)
]

-- A volume that the detection takes for a whole disk is one that `fat16_init` mounts when it is the
-- current drive, and the type recorded for the drive, 1 or 6, says whether its table has entries of
-- 12 or of 16 bits.
pub detect_whole_disk_volume-fat16_init :
    (h : Hardware) (disk : ℕ) (p : Probe) (fs : Fs)
    → ((i : ℕ) → (h.disk disk).sectors 0 i < 256)
    → fs.device ≡ h.disk disk
    → (detect_whole_disk_volume h disk p).1 ≡ true
    → ((fat16_init fs).1 ≡ mounted)
      × (((detect_whole_disk_volume h disk p).0.0 p.1).fs_type
          ≡ type_code (fat16_init fs).0.fat_type)
unfolding detect_whole_disk_volume
detect_whole_disk_volume-fat16_init h disk p fs bytes device taken =
    elim (Bool-cases (not (ltb p.1 max_drives))) [
      | inl e ↦ let untaken = rw e at taken in cc
      | inr e ↦ rw e (volume_of-Answer h disk p fs bytes device (rw e at taken))
    ]
