-- ===== src/Fat/Entries.antt =====
-- src/kernel/storage/fat16.c: the table as a function from clusters to entries, which the
-- operations on clusters read and change.
use minidos.Common.{
  ℕ, zero, suc, ◌+◌, ◌^◌, ◌<◌, ◌≤◌, ◌≡◌, refl, sym, subst, ◌∙◌, true, ◌==◌, if◌then◌else◌, arith,
}
use minidos.Fat.Geometry.{get_total_clusters}
use minidos.Fat.{
  FatType, fat12, fat16, Fs, read_sector, read_aux, read_entry12, read_entry16, read_by_type,
  read_fat_entry, write_copies, write_fat_entry,
}
use minidos.Fat.Entry.{IsSound, entry_offset, disk_byte}
use minidos.Fat.Write.{fit, entry_in}
use minidos.Fat.Copies.{
  Fits, copy_base, copy_entry, after_copy, write_copy-Same, write_copy-IsSound,
}
use minidos.Fat.RoundTrip.{
  InTable, write_copies_step, write_fat_entry_lem, write_fat_entry-IsSound, read_fat_entry-first,
}

-- The disk and the layout are the same; the buffers may differ.
pub record SameDisk (fs fs' : Fs) : Type 0 where
  pub bpb : fs'.bpb ≡ fs.bpb
  pub fat_type : fs'.fat_type ≡ fs.fat_type
  pub device : fs'.device ≡ fs.device

read_entry12-SameDisk : (fs : Fs) (c : ℕ) → SameDisk fs (read_entry12 fs c).0
unfolding read_entry12 read_sector read_aux
read_entry12-SameDisk fs c = ground arith

read_entry16-SameDisk : (fs : Fs) (c : ℕ) → SameDisk fs (read_entry16 fs c).0
unfolding read_entry16 read_sector
read_entry16-SameDisk fs c = ground arith

read_by_type-SameDisk : (ty : FatType) (fs : Fs) (c : ℕ) → SameDisk fs (read_by_type ty fs c).0
unfolding read_by_type
read_by_type-SameDisk fat12 fs c = read_entry12-SameDisk fs c
read_by_type-SameDisk fat16 fs c = read_entry16-SameDisk fs c

pub read_fat_entry-SameDisk : (fs : Fs) (c : ℕ) → SameDisk fs (read_fat_entry fs c).0
unfolding read_fat_entry
read_fat_entry-SameDisk fs c = read_by_type-SameDisk fs.fat_type fs c

-- The layout and the kind of table are kept by a write.
pub record SameLayout (fs fs' : Fs) : Type 0 where
  pub bpb : fs'.bpb ≡ fs.bpb
  pub fat_type : fs'.fat_type ≡ fs.fat_type

write_copies-SameLayout :
    (n : ℕ) (fs : Fs) (c v k : ℕ) → IsSound fs.device → SameLayout fs (write_copies fs c v k n).0
unfolding write_copies
write_copies-SameLayout zero fs c v k h = record { bpb = refl; fat_type = refl }
write_copies-SameLayout (suc n) fs c v k h =
    let same = write_copy-Same fs.fat_type fs (copy_base fs.bpb k) c v in
    let rest =
      write_copies-SameLayout n (after_copy fs k c v) c v (k + 1)
        (write_copy-IsSound fs.fat_type fs (copy_base fs.bpb k) c v h) in
    subst (λ r. SameLayout fs r.0) (sym (write_copies_step fs c v k n h))
      (record { bpb = rest.bpb ∙ same.bpb; fat_type = rest.fat_type ∙ same.fat_type })

pub write_fat_entry-SameLayout :
    (fs : Fs) (c v : ℕ) → IsSound fs.device → SameLayout fs (write_fat_entry fs c v).0
unfolding write_fat_entry
write_fat_entry-SameLayout fs c v h = write_copies-SameLayout fs.bpb.fat_count fs c v 0 h

-- The entry of a cluster, in the first copy of the table.
unfoldable pub entry : Fs → ℕ → ℕ
entry fs c = copy_entry fs 0 c

-- The last cluster number.
abbrev pub last_cluster : Fs → ℕ
last_cluster fs = get_total_clusters fs.bpb + 1

-- A volume on a disk whose transfers succeed, with a table that has room for its clusters.
pub record IsReady (fs : Fs) : Type 0 where
  pub sound : IsSound fs.device
  pub copies : 0 < fs.bpb.fat_count
  pub room : InTable fs (last_cluster fs)
  pub numbered : last_cluster fs < 2 ^ 16

entry_offset_mono : (ty : FatType) (c d : ℕ) → c ≤ d → entry_offset ty c ≤ entry_offset ty d
unfolding entry_offset
entry_offset_mono fat12 c d h = omega arith
entry_offset_mono fat16 c d h = omega arith

-- The room depends on the layout alone.
room_of :
    (fs fs' : Fs)
    → fs'.bpb ≡ fs.bpb
    → fs'.fat_type ≡ fs.fat_type
    → InTable fs (last_cluster fs)
    → InTable fs' (last_cluster fs')
unfolding InTable
room_of fs fs' b t h =
    subst (λ ty. Fits ty fs'.bpb.sectors_per_fat (last_cluster fs')) (sym t)
      (subst (λ p. Fits fs.fat_type p.sectors_per_fat (get_total_clusters p + 1)) (sym b) h)

ready_room : (fs : Fs) (c : ℕ) → IsReady fs → c ≤ last_cluster fs → InTable fs c
unfolding InTable
ready_room fs c r le = omega (arith, r.room, entry_offset_mono fs.fat_type c (last_cluster fs) le)

SameDisk-entry : (fs fs' : Fs) (c : ℕ) → SameDisk fs fs' → entry fs' c ≡ entry fs c
unfolding entry copy_entry
SameDisk-entry fs fs' c h =
    λ i. entry_in (h.fat_type i) (disk_byte (h.device i)) (copy_base (h.bpb i) 0) c

pub read_fat_entry-entry : (fs : Fs) (c : ℕ) → IsReady fs → (read_fat_entry fs c).1 ≡ entry fs c
unfolding entry
read_fat_entry-entry fs c r = read_fat_entry-first fs c r.sound

pub entry-read_fat_entry : (fs : Fs) (c d : ℕ) → entry (read_fat_entry fs c).0 d ≡ entry fs d
entry-read_fat_entry fs c d =
    SameDisk-entry fs (read_fat_entry fs c).0 d (read_fat_entry-SameDisk fs c)

pub SameDisk-IsReady : (fs fs' : Fs) → SameDisk fs fs' → IsReady fs → IsReady fs'
SameDisk-IsReady fs fs' h r = record {
  sound = subst IsSound (sym h.device) r.sound;
  copies = subst (λ b. 0 < b.fat_count) (sym h.bpb) r.copies;
  room = room_of fs fs' h.bpb h.fat_type r.room;
  numbered = subst (λ b. get_total_clusters b + 1 < 2 ^ 16) (sym h.bpb) r.numbered;
}

pub write_fat_entry-IsReady : (fs : Fs) (c v : ℕ) → IsReady fs → IsReady (write_fat_entry fs c v).0
write_fat_entry-IsReady fs c v r =
    let h = write_fat_entry-SameLayout fs c v r.sound in
    record {
      sound = write_fat_entry-IsSound fs c v r.sound;
      copies = subst (λ b. 0 < b.fat_count) (sym h.bpb) r.copies;
      room = room_of fs (write_fat_entry fs c v).0 h.bpb h.fat_type r.room;
      numbered = subst (λ b. get_total_clusters b + 1 < 2 ^ 16) (sym h.bpb) r.numbered;
    }

-- A write sets the entry of its cluster and no other.
pub entry-write_fat_entry :
    (fs : Fs) (c v d : ℕ)
    → IsReady fs
    → c ≤ last_cluster fs
    → d ≤ last_cluster fs
    → ((write_fat_entry fs c v).1 ≡ true)
      × (entry (write_fat_entry fs c v).0 d ≡ (if d == c then fit fs.fat_type v else entry fs d))
unfolding entry
entry-write_fat_entry fs c v d r lc ld =
    write_fat_entry_lem fs c v 0 d r.sound (ready_room fs c r lc) (ready_room fs d r ld) r.copies
