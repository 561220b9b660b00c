-- ===== src/Fat.antt =====
-- src/kernel/storage/fat16.c: the volume's parameters, the entries of the file allocation table in
-- its 12-bit and its 16-bit form, and the allocation and freeing of clusters. The functions share
-- the static `sector_buffer`, which is part of the state. A volume's sectors may fail to be read or
-- written. `x | y` of disjoint bits is `x + y`, and `x & (2^k - 1)` is `x % 2^k`.
pub mod Geometry
pub mod Entry
pub mod Write
pub mod Copies
pub mod Alloc
pub mod Mounted
pub mod Entries
pub mod FirstFit
pub mod Chains
pub mod Free
pub mod Zero
pub mod Volumes
pub mod RoundTrip
mod Tests
use minidos.Common.{
  ℕ, zero, suc, ◌+◌, ◌-◌, ◌*◌, ◌/◌, ◌%◌, ◌^◌, Bool, true, false, not, ◌&&◌, ◌||◌, Option, some,
  none, ltb, leb, ◌==◌, if◌then◌else◌, u32, sub32,
}
use minidos.Fat.Geometry.{Bpb, get_data_start, get_total_clusters, fat_is_data_cluster}

pub data FatType : Type 0 where
  fat12 fat16 : FatType

-- The bytes of a sector by offset.
abbrev pub Sector : Type 0
Sector = ℕ → ℕ

-- The current drive: its sectors, and those whose transfer fails.
pub record Device : Type 0 where
  pub sectors : ℕ → Sector
  pub read_fails : ℕ → Bool
  pub write_fails : ℕ → Bool

-- The static variables of fat16.c.
pub record Fs : Type 0 where
  pub bpb : Bpb
  pub fat_type : FatType
  pub device : Device
  pub sector_buffer : Sector
  pub aux_buffer : Sector

abbrev pub sector_size : ℕ
sector_size = 512

unfoldable pub put_sector : Device → ℕ → Sector → Device
put_sector d lba s = record d { sectors = λ l. if l == lba then s else d.sectors l }

abbrev pub put_byte : Sector → ℕ → ℕ → Sector
put_byte s i v = λ j. if j == i then v else s j

-- `disk_read_sector(lba, sector_buffer)`; the flag says that it succeeded.
unfoldable pub read_sector : Fs → ℕ → Fs × Bool
read_sector fs lba =
    if fs.device.read_fails lba
    then (fs, false)
    else (record fs { sector_buffer = fs.device.sectors lba }, true)

-- `disk_read_sector(lba, fat_sector_buffer_aux)`
unfoldable pub read_aux : Fs → ℕ → Fs × Bool
read_aux fs lba =
    if fs.device.read_fails lba
    then (fs, false)
    else (record fs { aux_buffer = fs.device.sectors lba }, true)

-- `disk_write_sector(lba, s)` for one of the two buffers
unfoldable pub write_sector : Fs → ℕ → Sector → Fs × Bool
unfolding put_sector
write_sector fs lba s =
    if fs.device.write_fails lba
    then (fs, false)
    else (record fs { device = put_sector fs.device lba s }, true)

unfoldable pub end_of_chain : FatType → ℕ
end_of_chain fat12 = 0x0FFF
end_of_chain fat16 = 0xFFFF

-- The entry of `cluster` in the two bytes that hold it.
unfoldable pub decode12 : ℕ → ℕ → ℕ
decode12 cluster pair = if cluster % 2 == 1 then pair / 16 % 4096 else pair % 4096

-- The two bytes with the entry of `cluster` replaced; the other half byte stays.
unfoldable pub encode12 : ℕ → ℕ → ℕ → ℕ
encode12 cluster pair value =
    if cluster % 2 == 1
    then pair % 16 + value % 4096 * 16
    else pair / 4096 % 16 * 4096 + value % 4096

unfoldable pub read_entry12 : Fs → ℕ → Fs × ℕ
unfolding read_sector read_aux decode12
read_entry12 fs cluster =
    let offset : ℕ = cluster + cluster / 2 in
    let sector : ℕ = fs.bpb.reserved_sectors + offset / sector_size in
    let i : ℕ = offset % sector_size in
    let (fs1, ok1) = read_sector fs sector in
    let (fs2, ok2) = read_aux fs1 (sector + 1) in
    if not ok1
    then (fs1, end_of_chain fat12)
    else if i == sector_size - 1
    then if not ok2
      then (fs2, end_of_chain fat12)
      else (fs2, decode12 cluster (fs2.sector_buffer i + 256 * fs2.aux_buffer 0))
    else (fs1, decode12 cluster (fs1.sector_buffer i + 256 * fs1.sector_buffer (i + 1)))

unfoldable pub read_entry16 : Fs → ℕ → Fs × ℕ
unfolding read_sector
read_entry16 fs cluster =
    let sector : ℕ = fs.bpb.reserved_sectors + cluster * 2 / sector_size in
    let i : ℕ = cluster * 2 % sector_size in
    let (fs1, ok1) = read_sector fs sector in
    if not ok1
    then (fs1, end_of_chain fat16)
    else (fs1, fs1.sector_buffer i + 256 * fs1.sector_buffer (i + 1))

unfoldable pub read_by_type : FatType → Fs → ℕ → Fs × ℕ
unfolding read_entry12 read_entry16
read_by_type fat12 fs cluster = read_entry12 fs cluster
read_by_type fat16 fs cluster = read_entry16 fs cluster

unfoldable pub read_fat_entry : Fs → ℕ → Fs × ℕ
unfolding read_by_type
read_fat_entry fs cluster = read_by_type fs.fat_type fs cluster

-- One round of the 12-bit loop of `fat16_write_fat_entry`, in the copy of the table at `base`.
unfoldable pub write_copy12 : Fs → ℕ → ℕ → ℕ → Fs × Bool
unfolding read_sector read_aux write_sector encode12
write_copy12 fs base cluster value =
    let offset : ℕ = cluster + cluster / 2 in
    let sector : ℕ = base + offset / sector_size in
    let i : ℕ = offset % sector_size in
    let (fs1, ok1) = read_sector fs sector in
    let (fs2, ok2) = read_aux fs1 (sector + 1) in
    let far : ℕ = encode12 cluster (fs2.sector_buffer i + 256 * fs2.aux_buffer 0) value in
    let low : Sector = put_byte fs2.sector_buffer i (far % 256) in
    let high : Sector = put_byte fs2.aux_buffer 0 (far / 256 % 256) in
    let (fs3, ok3) =
      write_sector (record fs2 { sector_buffer = low; aux_buffer = high }) sector low in
    let (fs4, ok4) = write_sector fs3 (sector + 1) high in
    let near : ℕ = encode12 cluster (fs1.sector_buffer i + 256 * fs1.sector_buffer (i + 1)) value in
    let both : Sector =
      put_byte (put_byte fs1.sector_buffer i (near % 256)) (i + 1) (near / 256 % 256) in
    if not ok1
    then (fs1, false)
    else if i == sector_size - 1
    then if not ok2 then (fs2, false) else if not ok3 then (fs3, false) else (fs4, ok4)
    else write_sector (record fs1 { sector_buffer = both }) sector both

unfoldable pub write_copy16 : Fs → ℕ → ℕ → ℕ → Fs × Bool
unfolding read_sector write_sector
write_copy16 fs base cluster value =
    let sector : ℕ = base + cluster * 2 / sector_size in
    let i : ℕ = cluster * 2 % sector_size in
    let (fs1, ok1) = read_sector fs sector in
    let both : Sector =
      put_byte (put_byte fs1.sector_buffer i (value % 256)) (i + 1) (value / 256 % 256) in
    if not ok1 then (fs1, false) else write_sector (record fs1 { sector_buffer = both }) sector both

unfoldable pub write_copy : FatType → Fs → ℕ → ℕ → ℕ → Fs × Bool
unfolding write_copy12 write_copy16
write_copy fat12 fs base cluster value = write_copy12 fs base cluster value
write_copy fat16 fs base cluster value = write_copy16 fs base cluster value

-- The loop over the copies of the table from copy `fat` on, with `n` copies left.
unfoldable pub write_copies : Fs → ℕ → ℕ → ℕ → ℕ → Fs × Bool
unfolding write_copy
write_copies fs cluster value fat zero = (fs, true)
write_copies fs cluster value fat (suc n) =
    let base : ℕ = fs.bpb.reserved_sectors + fat * fs.bpb.sectors_per_fat in
    let (fs', done) = write_copy fs.fat_type fs base cluster value in
    let rest = write_copies fs' cluster value (fat + 1) n in if done then rest else (fs', false)

unfoldable pub write_fat_entry : Fs → ℕ → ℕ → Fs × Bool
unfolding write_copies
write_fat_entry fs cluster value = write_copies fs cluster value 0 fs.bpb.fat_count
