-- ===== src/Fat/Copies.antt =====
-- src/kernel/storage/fat16.c: the loop of `fat16_write_fat_entry` over the copies of the table.
use minidos.Common.{
  ℕ, suc, ◌+◌, ◌-◌, ◌*◌, ◌<◌, ◌≤◌, ◌≡◌, ◌⊎◌, ◌≢◌, sym, subst, ◌∙◌, ◌==◌, if◌then◌else◌, arith,
}
use minidos.Fat.Geometry.{Bpb}
use minidos.Fat.{
  FatType, fat12, fat16, Fs, put_sector, decode12, read_sector, read_aux, write_sector,
  write_copy12, write_copy16, write_copy,
}
use minidos.Fat.Entry.{
  IsSound, disk_byte, entry_offset, entry_of, put_pair, put_entry, write_copy_lem,
}
use minidos.Fat.Write.{fit, entry_in, write_copy-entry_in, entry_of-agree}

-- What a write keeps beside the bytes.
pub record Same (fs fs' : Fs) : Type 0 where
  pub bpb : fs'.bpb ≡ fs.bpb
  pub fat_type : fs'.fat_type ≡ fs.fat_type
  pub reads : (l : ℕ) → fs'.device.read_fails l ≡ fs.device.read_fails l
  pub writes : (l : ℕ) → fs'.device.write_fails l ≡ fs.device.write_fails l

write_copy12-Same : (fs : Fs) (base c v : ℕ) → Same fs (write_copy12 fs base c v).0
unfolding write_copy12 read_sector read_aux write_sector put_sector
write_copy12-Same fs base c v = record {
  bpb = ground arith;
  fat_type = ground arith;
  reads = λ l. ground arith;
  writes = λ l. ground arith;
}

write_copy16-Same : (fs : Fs) (base c v : ℕ) → Same fs (write_copy16 fs base c v).0
unfolding write_copy16 read_sector write_sector put_sector
write_copy16-Same fs base c v = record {
  bpb = ground arith;
  fat_type = ground arith;
  reads = λ l. ground arith;
  writes = λ l. ground arith;
}

pub write_copy-Same :
    (ty : FatType) (fs : Fs) (base c v : ℕ) → Same fs (write_copy ty fs base c v).0
unfolding write_copy
write_copy-Same fat12 fs base c v = write_copy12-Same fs base c v
write_copy-Same fat16 fs base c v = write_copy16-Same fs base c v

put_pair-bound : (t : ℕ → ℕ) (p e a : ℕ) → ((n : ℕ) → t n < 256) → put_pair t p e a < 256
put_pair-bound t p e a h = ground (arith, h a)

put_entry-bound :
    (ty : FatType) (t : ℕ → ℕ) (base c v a : ℕ)
    → ((n : ℕ) → t n < 256)
    → put_entry ty t base c v a < 256
unfolding put_entry
put_entry-bound ty t base c v a h = put_pair-bound t _ _ a h

pub write_copy-IsSound :
    (ty : FatType) (fs : Fs) (base c v : ℕ)
    → IsSound fs.device
    → IsSound (write_copy ty fs base c v).0.device
write_copy-IsSound ty fs base c v h =
    let same = write_copy-Same ty fs base c v in
    record {
      reads = λ l. same.reads l ∙ h.reads l;
      writes = λ l. same.writes l ∙ h.writes l;
      bytes = λ a.
          subst (λ x. x < 256) (sym (write_copy_lem ty fs base c v a h).1)
            (put_entry-bound ty (disk_byte fs.device) base c v a h.bytes);
    }

entry_of_two :
    (ty : FatType) (f g : ℕ → ℕ) (c : ℕ)
    → f (entry_offset ty c) ≡ g (entry_offset ty c)
    → f (entry_offset ty c + 1) ≡ g (entry_offset ty c + 1)
    → entry_of ty f c ≡ entry_of ty g c
unfolding entry_of entry_offset
entry_of_two fat12 f g c h k = λ i. decode12 c (h i + 256 * k i)
entry_of_two fat16 f g c h k = λ i. h i + 256 * k i

put_pair-outside : (t : ℕ → ℕ) (p e a : ℕ) → (a < p) ⊎ (p + 1 < a) → put_pair t p e a ≡ t a
put_pair-outside t p e a h = ground arith

put_entry-outside :
    (ty : FatType) (t : ℕ → ℕ) (base c v a : ℕ)
    → (a < 512 * base + entry_offset ty c) ⊎ (512 * base + entry_offset ty c + 1 < a)
    → put_entry ty t base c v a ≡ t a
unfolding put_entry
put_entry-outside ty t base c v a h = put_pair-outside t _ _ a h

-- The entry of `c` lies within a table of `n` sectors.
abbrev pub Fits : FatType → ℕ → ℕ → Type 0
Fits ty n c = entry_offset ty c + 1 < 512 * n

apart_lem :
    (base base' n o o' x : ℕ)
    → (base' + n ≤ base) ⊎ (base + n ≤ base')
    → o + 1 < 512 * n
    → o' + 1 < 512 * n
    → x ≤ o' + 1
    → (512 * base' + x < 512 * base + o) ⊎ (512 * base + o + 1 < 512 * base' + x)
apart_lem base base' n o o' x far f f' le = ground arith

write_copy_apart :
    (ty : FatType) (fs : Fs) (base base' n c v c' : ℕ)
    → IsSound fs.device
    → (base' + n ≤ base) ⊎ (base + n ≤ base')
    → Fits ty n c
    → Fits ty n c'
    → entry_in ty (disk_byte (write_copy ty fs base c v).0.device) base' c'
      ≡ entry_in ty (disk_byte fs.device) base' c'
write_copy_apart ty fs base base' n c v c' h far f f' =
    let o : ℕ = entry_offset ty c in
    let o' : ℕ = entry_offset ty c' in
    entry_of-agree ty _ _ c' (λ m. (write_copy_lem ty fs base c v (512 * base' + m) h).1)
    ∙ entry_of_two ty _ _ c'
        (put_entry-outside ty (disk_byte fs.device) base c v (512 * base' + o')
          (apart_lem base base' n o o' o' far f f' (omega arith)))
        (put_entry-outside ty (disk_byte fs.device) base c v (512 * base' + (o' + 1))
          (apart_lem base base' n o o' (o' + 1) far f f' (omega arith)))

-- The first sector of copy `k`.
abbrev pub copy_base : Bpb → ℕ → ℕ
copy_base b k = b.reserved_sectors + k * b.sectors_per_fat

mul_step : (k d n : ℕ) → k * n + n ≤ (k + suc d) * n
mul_step k d n = grind arith

mul_apart : (k j n : ℕ) → k < j → k * n + n ≤ j * n
mul_apart k j n h =
    let j_eq : k + suc (j - k - 1) ≡ j = omega arith in
    subst (λ m. k * n + n ≤ m * n) j_eq (mul_step k (j - k - 1) n)

copies_apart :
    (b : Bpb) (k j : ℕ)
    → k ≢ j
    → (copy_base b k + b.sectors_per_fat ≤ copy_base b j)
      ⊎ (copy_base b j + b.sectors_per_fat ≤ copy_base b k)
copies_apart b k j ne =
    ground (arith, mul_apart k j b.sectors_per_fat, mul_apart j k b.sectors_per_fat)

-- The entry of a cluster in copy `k` of the table.
unfoldable pub copy_entry : Fs → ℕ → ℕ → ℕ
copy_entry fs k c = entry_in fs.fat_type (disk_byte fs.device) (copy_base fs.bpb k) c

abbrev pub after_copy : Fs → ℕ → ℕ → ℕ → Fs
after_copy fs k c v = (write_copy fs.fat_type fs (copy_base fs.bpb k) c v).0

copy_kept :
    (fs : Fs) (k0 k c v c' : ℕ)
    → copy_entry (after_copy fs k0 c v) k c'
      ≡ entry_in fs.fat_type (disk_byte (after_copy fs k0 c v).device) (copy_base fs.bpb k) c'
unfolding copy_entry
copy_kept fs k0 k c v c' =
    let same = write_copy-Same fs.fat_type fs (copy_base fs.bpb k0) c v in
    λ i.
      entry_in (same.fat_type i) (disk_byte (after_copy fs k0 c v).device)
        (copy_base (same.bpb i) k) c'

pub copy_here :
    (fs : Fs) (k0 c v c' : ℕ)
    → IsSound fs.device
    → copy_entry (after_copy fs k0 c v) k0 c'
      ≡ (if c' == c then fit fs.fat_type v else copy_entry fs k0 c')
unfolding copy_entry
copy_here fs k0 c v c' h =
    copy_kept fs k0 k0 c v c' ∙ write_copy-entry_in fs.fat_type fs (copy_base fs.bpb k0) c v c' h

pub copy_there :
    (fs : Fs) (k0 k c v c' : ℕ)
    → IsSound fs.device
    → Fits fs.fat_type fs.bpb.sectors_per_fat c
    → Fits fs.fat_type fs.bpb.sectors_per_fat c'
    → k ≢ k0
    → copy_entry (after_copy fs k0 c v) k c' ≡ copy_entry fs k c'
unfolding copy_entry
copy_there fs k0 k c v c' h f f' ne =
    copy_kept fs k0 k c v c'
    ∙ write_copy_apart fs.fat_type fs (copy_base fs.bpb k0) (copy_base fs.bpb k)
        fs.bpb.sectors_per_fat c v c' h (copies_apart fs.bpb k k0 ne) f f'
