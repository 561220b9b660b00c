-- ===== src/Fat/Entry.antt =====
-- src/kernel/storage/fat16.c: the table's entries as a function of the bytes of the disk, against
-- which `fat16_read_fat_entry` and `fat16_write_fat_entry` are proved.
use minidos.Common.{ℕ, ◌+◌, ◌*◌, ◌/◌, ◌%◌, ◌<◌, ◌≡◌, true, false, ◌==◌, if◌then◌else◌, arith}
use minidos.Fat.{
  FatType, fat12, fat16, Device, Fs, put_sector, read_sector, read_aux, write_sector, decode12,
  encode12, read_entry12, read_entry16, read_by_type, read_fat_entry, write_copy12, write_copy16,
  write_copy,
}

-- The byte of the disk at an absolute address.
abbrev pub disk_byte : Device → ℕ → ℕ
disk_byte d a = d.sectors (a / 512) (a % 512)

-- Every transfer succeeds, and the sectors hold bytes.
pub record IsSound (d : Device) : Type 0 where
  pub reads : (l : ℕ) → d.read_fails l ≡ false
  pub writes : (l : ℕ) → d.write_fails l ≡ false
  pub bytes : (a : ℕ) → disk_byte d a < 256

-- Where the entry of a cluster begins in a table.
unfoldable pub entry_offset : FatType → ℕ → ℕ
entry_offset fat12 c = c + c / 2
entry_offset fat16 c = c * 2

-- The entry of a cluster in a table given by its bytes.
unfoldable pub entry_of : FatType → (ℕ → ℕ) → ℕ → ℕ
unfolding decode12
entry_of fat12 t c = decode12 c (t (c + c / 2) + 256 * t (c + c / 2 + 1))
entry_of fat16 t c = t (c * 2) + 256 * t (c * 2 + 1)

-- The bytes of copy `k` of the table.
unfoldable pub table : Fs → ℕ → ℕ → ℕ
table fs k n =
    disk_byte fs.device (512 * (fs.bpb.reserved_sectors + k * fs.bpb.sectors_per_fat) + n)

pub read_entry12_lem :
    (fs : Fs) (c : ℕ) → IsSound fs.device → (read_entry12 fs c).1 ≡ entry_of fat12 (table fs 0) c
unfolding read_entry12 read_sector read_aux entry_of table decode12
read_entry12_lem fs c h = ground (
  arith,
  h.reads (fs.bpb.reserved_sectors + (c + c / 2) / 512),
  h.reads (fs.bpb.reserved_sectors + (c + c / 2) / 512 + 1),
)

pub read_entry16_lem :
    (fs : Fs) (c : ℕ) → IsSound fs.device → (read_entry16 fs c).1 ≡ entry_of fat16 (table fs 0) c
unfolding read_entry16 read_sector entry_of table
read_entry16_lem fs c h = ground (arith, h.reads (fs.bpb.reserved_sectors + c * 2 / 512))

pub write_copy16_ok :
    (fs : Fs) (base c v : ℕ) → IsSound fs.device → (write_copy16 fs base c v).1 ≡ true
unfolding write_copy16 read_sector write_sector put_sector
write_copy16_ok fs base c v h =
    ground (arith, h.reads (base + c * 2 / 512), h.writes (base + c * 2 / 512))

-- The bytes of the disk after the write of two bytes at `p`.
abbrev pub put_pair : (ℕ → ℕ) → ℕ → ℕ → ℕ → ℕ
put_pair t p v a = if a == p then v % 256 else if a == p + 1 then v / 256 % 256 else t a

pub write_copy16_byte :
    (fs : Fs) (base c v a : ℕ)
    → IsSound fs.device
    → disk_byte (write_copy16 fs base c v).0.device a
      ≡ put_pair (disk_byte fs.device) (512 * base + c * 2) v a
unfolding write_copy16 read_sector write_sector put_sector
write_copy16_byte fs base c v a h =
    ground (arith, h.reads (base + c * 2 / 512), h.writes (base + c * 2 / 512))

-- The pair of bytes that `fat16_write_fat_entry` puts where the pair was `old`.
unfoldable pub new_pair : FatType → ℕ → ℕ → ℕ → ℕ
unfolding encode12
new_pair fat12 c v old = encode12 c old v
new_pair fat16 c v old = v

pub write_copy12_byte :
    (fs : Fs) (base c v a : ℕ)
    → IsSound fs.device
    → disk_byte (write_copy12 fs base c v).0.device a
      ≡ put_pair
          (disk_byte fs.device)
          (512 * base + (c + c / 2))
          (encode12 c
            (disk_byte fs.device (512 * base + (c + c / 2))
              + 256 * disk_byte fs.device (512 * base + (c + c / 2) + 1))
            v)
          a
unfolding write_copy12 read_sector read_aux write_sector put_sector
write_copy12_byte fs base c v a h = ground (
  arith,
  h.reads (base + (c + c / 2) / 512),
  h.writes (base + (c + c / 2) / 512),
  h.reads (base + (c + c / 2) / 512 + 1),
  h.writes (base + (c + c / 2) / 512 + 1),
)

pub write_copy12_ok :
    (fs : Fs) (base c v : ℕ) → IsSound fs.device → (write_copy12 fs base c v).1 ≡ true
unfolding write_copy12 read_sector read_aux write_sector put_sector
write_copy12_ok fs base c v h = ground (
  arith,
  h.reads (base + (c + c / 2) / 512),
  h.writes (base + (c + c / 2) / 512),
  h.reads (base + (c + c / 2) / 512 + 1),
  h.writes (base + (c + c / 2) / 512 + 1),
)

-- The disk by bytes, with the entry of `c` replaced in the copy of the table at sector `base`.
unfoldable pub put_entry : FatType → (ℕ → ℕ) → ℕ → ℕ → ℕ → ℕ → ℕ
unfolding new_pair entry_offset
put_entry ty t base c v = put_pair t (512 * base + entry_offset ty c) (
    new_pair ty c v
      (t (512 * base + entry_offset ty c) + 256 * t (512 * base + entry_offset ty c + 1)))

read_by_type_lem :
    (ty : FatType) (fs : Fs) (c : ℕ)
    → IsSound fs.device
    → (read_by_type ty fs c).1 ≡ entry_of ty (table fs 0) c
unfolding read_by_type
read_by_type_lem fat12 fs c h = read_entry12_lem fs c h
read_by_type_lem fat16 fs c h = read_entry16_lem fs c h

-- On a disk whose transfers succeed, `fat16_read_fat_entry` returns the entry that the bytes of
-- the first copy of the table hold, for both kinds of table, also where a 12-bit entry straddles
-- two sectors.
pub read_fat_entry_lem :
    (fs : Fs) (c : ℕ)
    → IsSound fs.device
    → (read_fat_entry fs c).1 ≡ entry_of fs.fat_type (table fs 0) c
unfolding read_fat_entry
read_fat_entry_lem fs c h = read_by_type_lem fs.fat_type fs c h

-- On a disk whose transfers succeed, one round of `fat16_write_fat_entry` succeeds, and replaces
-- the two bytes of the entry in that copy of the table and no other byte of the disk, also where
-- they lie in two sectors; for a 12-bit entry the half byte of the neighbour stays.
pub write_copy_lem :
    (ty : FatType) (fs : Fs) (base c v a : ℕ)
    → IsSound fs.device
    → ((write_copy ty fs base c v).1 ≡ true)
      × (disk_byte (write_copy ty fs base c v).0.device a
          ≡ put_entry ty (disk_byte fs.device) base c v a)
unfolding write_copy put_entry
write_copy_lem fat12 fs base c v a h =
    (write_copy12_ok fs base c v h, write_copy12_byte fs base c v a h)
write_copy_lem fat16 fs base c v a h =
    (write_copy16_ok fs base c v h, write_copy16_byte fs base c v a h)
