-- ===== src/Dir/Entry.antt =====
-- src/kernel/storage/fat16.h: FAT16_DirectoryEntry, the 32 bytes of an entry in a sector. The last
-- field has four bytes, those with times, dates and clusters two, and `x & 2^k` is a digit of `x`.
use minidos.Common.{
  ℕ, ◌+◌, ◌-◌, ◌*◌, ◌/◌, ◌%◌, Bool, not, ◌&&◌, ◌||◌, List, [], ◌∷◌, ◌++◌, ltb, leb, ◌==◌,
  if◌then◌else◌, get_or,
}
use minidos.Fat.{Sector}
use minidos.Fat.Alloc.{word, dword}

pub record DirEntry : Type 0 where
  pub name : List ℕ
  pub attributes : ℕ
  pub reserved : ℕ
  pub creation_time_ms : ℕ
  pub creation_time : ℕ
  pub creation_date : ℕ
  pub access_date : ℕ
  pub cluster_high : ℕ
  pub modified_time : ℕ
  pub modified_date : ℕ
  pub cluster_low : ℕ
  pub file_size : ℕ

-- SECTOR_SIZE / sizeof(FAT16_DirectoryEntry)
abbrev pub entries_per_sector : ℕ
entries_per_sector = 16

-- The eleven bytes from offset `o` on.
abbrev pub name_at : Sector → ℕ → List ℕ
name_at s o =
    s o
    ∷ s (o + 1)
    ∷ s (o + 2)
    ∷ s (o + 3)
    ∷ s (o + 4)
    ∷ s (o + 5)
    ∷ s (o + 6)
    ∷ s (o + 7)
    ∷ s (o + 8)
    ∷ s (o + 9)
    ∷ s (o + 10)
    ∷ []

-- `((FAT16_DirectoryEntry*)sector_buffer)[i]`
unfoldable pub entry_at : Sector → ℕ → DirEntry
entry_at s i =
    let o : ℕ = 32 * i in
    record {
      name = name_at s o;
      attributes = s (o + 11);
      reserved = s (o + 12);
      creation_time_ms = s (o + 13);
      creation_time = word s (o + 14);
      creation_date = word s (o + 16);
      access_date = word s (o + 18);
      cluster_high = word s (o + 20);
      modified_time = word s (o + 22);
      modified_date = word s (o + 24);
      cluster_low = word s (o + 26);
      file_size = dword s (o + 28);
    }

-- The bytes after the name.
abbrev pub field_bytes : DirEntry → List ℕ
field_bytes e =
    e.attributes
    ∷ e.reserved
    ∷ e.creation_time_ms
    ∷ e.creation_time % 256
    ∷ e.creation_time / 256 % 256
    ∷ e.creation_date % 256
    ∷ e.creation_date / 256 % 256
    ∷ e.access_date % 256
    ∷ e.access_date / 256 % 256
    ∷ e.cluster_high % 256
    ∷ e.cluster_high / 256 % 256
    ∷ e.modified_time % 256
    ∷ e.modified_time / 256 % 256
    ∷ e.modified_date % 256
    ∷ e.modified_date / 256 % 256
    ∷ e.cluster_low % 256
    ∷ e.cluster_low / 256 % 256
    ∷ e.file_size % 256
    ∷ e.file_size / 256 % 256
    ∷ e.file_size / 65536 % 256
    ∷ e.file_size / 16777216 % 256
    ∷ []

unfoldable pub entry_bytes : DirEntry → List ℕ
entry_bytes e = e.name ++ field_bytes e

-- `((FAT16_DirectoryEntry*)sector_buffer)[i] = e`
unfoldable pub put_entry : Sector → ℕ → DirEntry → Sector
unfolding entry_bytes
put_entry s i e = λ j.
    if leb (32 * i) j && ltb j (32 * i + 32) then get_or (entry_bytes e) (j - 32 * i) 0 else s j

-- `entries[i].name[0]`: 0 ends a directory, and 0xE5 marks an entry that is deleted.
abbrev pub first_byte : DirEntry → ℕ
first_byte e = get_or e.name 0 0

abbrev pub is_end : DirEntry → Bool
is_end e = first_byte e == 0

abbrev pub is_deleted : DirEntry → Bool
is_deleted e = first_byte e == 0xE5

-- FAT16_ATTR_VOLUME_ID and FAT16_ATTR_DIRECTORY
abbrev pub is_volume_id : DirEntry → Bool
is_volume_id e = e.attributes / 8 % 2 == 1

abbrev pub is_directory : DirEntry → Bool
is_directory e = e.attributes / 16 % 2 == 1

-- `(attributes & 0x0F) == 0x0F`: a part of a long name.
abbrev pub is_long_name : DirEntry → Bool
is_long_name e = e.attributes % 16 == 15

unfoldable pub is_visible : DirEntry → Bool
is_visible e = not (is_end e || is_deleted e || is_volume_id e || is_long_name e)

-- FAT16_ATTR_DIRECTORY as a value.
abbrev pub directory_attribute : ℕ
directory_attribute = 0x10
