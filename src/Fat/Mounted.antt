-- ===== src/Fat/Mounted.antt =====
-- src/kernel/storage/fat16.c: what a volume that `fat16_init` accepts is like.
use minidos.Common.{
  ℕ, ◌+◌, ◌-◌, ◌*◌, ◌/◌, ◌^◌, ◌<◌, ◌≤◌, ◌≡◌, ◌≢◌, refl, ap, sym, subst, Bool-cases, inl, inr, Bool,
  true, false, not, ◌||◌, ltb, ◌==◌, if◌then◌else◌, sub32, arith,
}
use native.Mathlib.Nat.{
  div-le_self, mul-le-mul_right, mul-le-mul_left, div-lt_iff_lt-mul, div-mul-le_self,
}
use minidos.Fat.Geometry.{
  Bpb, get_root_dir_start, get_root_dir_sectors, get_data_start, get_total_sectors,
  get_total_clusters, fat_is_data_cluster,
}
use minidos.Fat.{fat12, fat16, Fs, Sector, read_sector}
use minidos.Fat.Alloc.{
  Mount, mounted, refused, parse_bpb, choose_type, check_bpb, check_boot, fat16_init,
}

-- The fields lie in their widths.
pub record InWidth (b : Bpb) : Type 0 where
  pub bytes_per_sector : b.bytes_per_sector < 2 ^ 16
  pub sectors_per_cluster : b.sectors_per_cluster < 2 ^ 8
  pub reserved : b.reserved_sectors < 2 ^ 16
  pub fats : b.fat_count < 2 ^ 8
  pub roots : b.root_entries < 2 ^ 16
  pub total16 : b.total_sectors_16 < 2 ^ 16
  pub per_fat : b.sectors_per_fat < 2 ^ 16
  pub total32 : b.total_sectors_32 < 2 ^ 32

-- What `fat16_init` has checked, and what it has set.
pub record IsMounted (fs : Fs) : Type 0 where
  pub sized : fs.bpb.bytes_per_sector ≢ 0
  pub clustered : fs.bpb.sectors_per_cluster ≢ 0
  pub tabled : fs.bpb.sectors_per_fat ≢ 0
  pub rooted : fs.bpb.root_entries ≢ 0
  pub limit : get_total_clusters fs.bpb < 65525
  pub kind : fs.fat_type ≡ (if ltb (get_total_clusters fs.bpb) 4085 then fat12 else fat16)

check_bpb-IsMounted : (fs : Fs) → (check_bpb fs).1 ≡ mounted → IsMounted (check_bpb fs).0
unfolding check_bpb choose_type
check_bpb-IsMounted fs h = ground arith

root_bound : (b : Bpb) → InWidth b → get_root_dir_sectors b ≤ 33 * 2 ^ 16
unfolding get_root_dir_sectors
root_bound b w = omega (
  arith,
  div-le_self (b.root_entries * 32 + (b.bytes_per_sector - 1)) b.bytes_per_sector,
  w.roots,
  w.bytes_per_sector,
)

fat_bound : (b : Bpb) → InWidth b → b.fat_count * b.sectors_per_fat ≤ 2 ^ 24
fat_bound b w =
    let fats : b.fat_count ≤ 256 = omega (arith, w.fats) in
    omega (arith, mul-le-mul_right b.sectors_per_fat fats, w.per_fat)

data_start_bound : (b : Bpb) → InWidth b → get_data_start b < 2 ^ 25
unfolding get_data_start get_root_dir_start
data_start_bound b w = omega (arith, root_bound b w, fat_bound b w, w.reserved)

pub total_bound : (b : Bpb) → InWidth b → get_total_sectors b < 2 ^ 32
unfolding get_total_sectors
total_bound b w = ground (arith, w.total16, w.total32)

-- The dividend of `get_total_clusters`.
data_sectors : Bpb → ℕ
data_sectors b = sub32 (get_total_sectors b) (get_data_start b)

clusters_lem : (b : Bpb) → get_total_clusters b ≡ data_sectors b / b.sectors_per_cluster
unfolding data_sectors get_total_clusters get_data_start
clusters_lem b = refl

few_sectors :
    (b : Bpb)
    → InWidth b
    → b.sectors_per_cluster ≢ 0
    → get_total_clusters b < 65525
    → data_sectors b < 2 ^ 24
few_sectors b w pos lim =
    let below =
      (div-lt_iff_lt-mul {k = b.sectors_per_cluster} {x = data_sectors b} {y = 65525}
          (omega arith)).0
        (omega (arith, lim, clusters_lem b)) in
    let cap : b.sectors_per_cluster ≤ 256 = omega (arith, w.sectors_per_cluster) in
    omega (arith, below, mul-le-mul_left 65525 cap)

-- The unsigned subtraction has not wrapped.
data_sectors_lem :
    (b : Bpb)
    → InWidth b
    → b.sectors_per_cluster ≢ 0
    → get_total_clusters b < 65525
    → data_sectors b + get_data_start b ≡ get_total_sectors b
unfolding data_sectors
data_sectors_lem b w pos lim =
    omega (arith, few_sectors b w pos lim, data_start_bound b w, total_bound b w)

cluster_within :
    (b : Bpb) (c : ℕ)
    → InWidth b
    → b.sectors_per_cluster ≢ 0
    → get_total_clusters b < 65525
    → fat_is_data_cluster b c ≡ true
    → get_data_start b + (c - 2) * b.sectors_per_cluster + b.sectors_per_cluster
      ≤ get_total_sectors b
unfolding fat_is_data_cluster
cluster_within b c w pos lim h =
    let low : 2 ≤ c = ground arith in
    let high : c - 2 + 1 ≤ get_total_clusters b = ground (arith, lim) in
    let times : (c - 2 + 1) * b.sectors_per_cluster
        ≡ (c - 2) * b.sectors_per_cluster + b.sectors_per_cluster =
      grind arith in
    omega (
      arith,
      times,
      mul-le-mul_right b.sectors_per_cluster high,
      div-mul-le_self (data_sectors b) b.sectors_per_cluster,
      ap (λ n. n * b.sectors_per_cluster) (clusters_lem b),
      data_sectors_lem b w pos lim,
    )

pub parse_bpb-InWidth : (s : Sector) → ((i : ℕ) → s i < 256) → InWidth (parse_bpb s)
unfolding parse_bpb
parse_bpb-InWidth s h = record {
  bytes_per_sector = omega (arith, h 11, h 12);
  sectors_per_cluster = omega (arith, h 13);
  reserved = omega (arith, h 14, h 15);
  fats = omega (arith, h 16);
  roots = omega (arith, h 17, h 18);
  total16 = omega (arith, h 19, h 20);
  per_fat = omega (arith, h 22, h 23);
  total32 = omega (arith, h 32, h 33, h 34, h 35);
}

check_bpb-bpb : (fs : Fs) → (check_bpb fs).0.bpb ≡ fs.bpb
unfolding check_bpb choose_type
check_bpb-bpb fs = ground arith

-- A call that is refused under a test, and mounts something, has gone the other way.
not_refused :
    (P : Fs × Mount → Type 0) (b : Bool) (fs : Fs) (r : Fs × Mount)
    → (r.1 ≡ mounted → P r)
    → (if b then (fs, refused) else r).1 ≡ mounted
    → P (if b then (fs, refused) else r)
not_refused P true fs r f h = cc
not_refused P false fs r f h = f h

abbrev Parsed : Sector → Fs × Mount → Type 0
Parsed s r = IsMounted r.0 × (r.0.bpb ≡ parse_bpb s)

check_boot_lem : (fs : Fs) → (check_boot fs).1 ≡ mounted → Parsed fs.sector_buffer (check_boot fs)
unfolding check_boot
check_boot_lem fs h =
    let s : Sector = fs.sector_buffer in
    let fs1 : Fs = record fs { bpb = parse_bpb s } in
    not_refused (Parsed s) (not (s 510 == 0x55) || not (s 511 == 0xAA)) fs (check_bpb fs1)
      (λ ok. (check_bpb-IsMounted fs1 ok, check_bpb-bpb fs1)) h

init_lem : (fs : Fs) → (fat16_init fs).1 ≡ mounted → Parsed (fs.device.sectors 0) (fat16_init fs)
unfolding fat16_init read_sector
init_lem fs h = elim (Bool-cases (fs.device.read_fails 0)) [
  | inl e ↦ let no_mount = rw e at h in cc
  | inr e ↦ rw e (check_boot_lem (record fs { sector_buffer = fs.device.sectors 0 }) (rw e at h))
]

-- A volume that `fat16_init` accepts, whatever its boot sector holds, has no field that is 0 where
-- the code divides by it, fewer than 65525 clusters and the kind of table that goes with their
-- number; and each data cluster lies wholly within the volume: no difference of sectors has
-- wrapped.
pub fat16_init-IsMounted :
    (fs : Fs) (c : ℕ)
    → ((i : ℕ) → fs.device.sectors 0 i < 256)
    → (fat16_init fs).1 ≡ mounted
    → fat_is_data_cluster (fat16_init fs).0.bpb c ≡ true
    → IsMounted (fat16_init fs).0
      × (get_data_start (fat16_init fs).0.bpb
            + (c - 2) * (fat16_init fs).0.bpb.sectors_per_cluster
            + (fat16_init fs).0.bpb.sectors_per_cluster
          ≤ get_total_sectors (fat16_init fs).0.bpb)
fat16_init-IsMounted fs c bytes ok inside =
    let (is, eq) = init_lem fs ok in
    (
      is,
      cluster_within (fat16_init fs).0.bpb c
          (subst InWidth (sym eq) (parse_bpb-InWidth (fs.device.sectors 0) bytes)) is.clustered
          is.limit inside,
    )
