-- ===== src/Dir/Steps.antt =====
-- src/kernel/storage/fat16_dir_lookup.inc and fat16_dir_mutation.inc: the rounds of the loops over a
-- directory, on a disk whose sectors can be read.
use minidos.Common.{ℕ, zero, suc, ◌+◌, ◌≡◌, refl, ap, sym, subst, ◌∙◌, false, ◌⊎◌, inl, inr}
use minidos.Fat.{Fs, Device, Sector}
use minidos.Dir.Entry.{DirEntry, entry_at, entries_per_sector}
use minidos.Dir.Walk.{Visit, more, done, visit_entries, walk_sectors}

-- Every sector can be read.
abbrev pub Readable : Device → Type 0
Readable d = (l : ℕ) → d.read_fails l ≡ false

-- A search changes the buffer alone.
abbrev pub SameVolume : Fs → Fs → Type 0
SameVolume fs fs' = (fs'.device ≡ fs.device) × (fs'.bpb ≡ fs.bpb)

abbrev pub loaded : Fs → ℕ → Fs
loaded fs lba = record fs { sector_buffer = fs.device.sectors lba }

pub visit_cases :
    {S R : Type 0} (v : Visit S R) → ((s : S) × (v ≡ more s)) ⊎ ((r : R) × (v ≡ done r))
visit_cases (more s) = inl (s, refl)
visit_cases (done r) = inr (r, refl)

module _ {S R : Type 0} (visit : S → ℕ → ℕ → DirEntry → Visit S R) (failed : S → R) where
  pub visit_more :
      (lba : ℕ) (b : Sector) (i n : ℕ) (s s' : S)
      → visit s lba i (entry_at b i) ≡ more s'
      → visit_entries visit failed lba b i (suc n) s ≡ visit_entries visit failed lba b (i + 1) n s'
  unfolding visit_entries
  visit_more lba b i n s s' e = rw e refl

  pub visit_done :
      (lba : ℕ) (b : Sector) (i n : ℕ) (s : S) (r : R)
      → visit s lba i (entry_at b i) ≡ done r
      → visit_entries visit failed lba b i (suc n) s ≡ done r
  unfolding visit_entries
  visit_done lba b i n s r e = rw e refl

  pub walk_more :
      (fs : Fs) (lba n : ℕ) (s s' : S)
      → Readable fs.device
      → visit_entries visit failed lba (fs.device.sectors lba) 0 entries_per_sector s ≡ more s'
      → walk_sectors visit failed fs lba (suc n) s
        ≡ walk_sectors visit failed (loaded fs lba) (lba + 1) n s'
  unfolding walk_sectors
  walk_more fs lba n s s' ok e = rw (ok lba) (rw e refl)

  pub walk_done :
      (fs : Fs) (lba n : ℕ) (s : S) (r : R)
      → Readable fs.device
      → visit_entries visit failed lba (fs.device.sectors lba) 0 entries_per_sector s ≡ done r
      → walk_sectors visit failed fs lba (suc n) s ≡ (loaded fs lba, done r)
  unfolding walk_sectors
  walk_done fs lba n s r ok e = rw (ok lba) (rw e refl)

  pub walk_sectors-SameVolume :
      (n : ℕ) (fs : Fs) (lba : ℕ) (s : S)
      → Readable fs.device
      → SameVolume fs (walk_sectors visit failed fs lba n s).0
  unfolding walk_sectors
  walk_sectors-SameVolume zero fs lba s ok = (refl, refl)
  walk_sectors-SameVolume (suc n) fs lba s ok =
      elim (visit_cases
        (visit_entries visit failed lba (fs.device.sectors lba) 0 entries_per_sector s)) [
          | inl (s', e) ↦
              rw (ok lba) (rw e (walk_sectors-SameVolume n (loaded fs lba) (lba + 1) s' ok))
          | inr (r, e) ↦ rw (ok lba) (rw e (refl, refl))
        ]

  -- The rounds over the sectors of a volume whose device is known.
  pub walk_more_on :
      (d : Device) (fs : Fs) (lba n : ℕ) (s s' : S)
      → fs.device ≡ d
      → Readable d
      → visit_entries visit failed lba (d.sectors lba) 0 entries_per_sector s ≡ more s'
      → (walk_sectors visit failed fs lba (suc n) s).1
        ≡ (walk_sectors visit failed (loaded fs lba) (lba + 1) n s').1
  walk_more_on d fs lba n s s' same ok e =
      ap (λ r. r.1)
        (walk_more fs lba n s s' (subst Readable (sym same) ok) (
          ap (λ c. visit_entries visit failed lba (c.sectors lba) 0 entries_per_sector s) same ∙ e))

  pub walk_done_on :
      (d : Device) (fs : Fs) (lba n : ℕ) (s : S) (r : R)
      → fs.device ≡ d
      → Readable d
      → visit_entries visit failed lba (d.sectors lba) 0 entries_per_sector s ≡ done r
      → (walk_sectors visit failed fs lba (suc n) s).1 ≡ done r
  walk_done_on d fs lba n s r same ok e =
      ap (λ r. r.1)
        (walk_done fs lba n s r (subst Readable (sym same) ok) (
          ap (λ c. visit_entries visit failed lba (c.sectors lba) 0 entries_per_sector s) same ∙ e))

  -- The result does not depend on the buffers.
  pub walk_sectors_same :
      (n : ℕ) (d : Device) (fs fs' : Fs) (lba : ℕ) (s : S)
      → fs.device ≡ d
      → fs'.device ≡ d
      → Readable d
      → (walk_sectors visit failed fs lba n s).1 ≡ (walk_sectors visit failed fs' lba n s).1
  unfolding walk_sectors
  walk_sectors_same zero d fs fs' lba s e e' ok = refl
  walk_sectors_same (suc n) d fs fs' lba s e e' ok =
      elim (visit_cases (visit_entries visit failed lba (d.sectors lba) 0 entries_per_sector s)) [
        | inl (s', on) ↦
            walk_more_on d fs lba n s s' e ok on
            ∙ walk_sectors_same n d (loaded fs lba) (loaded fs' lba) (lba + 1) s' e e' ok
            ∙ sym (walk_more_on d fs' lba n s s' e' ok on)
        | inr (r, off) ↦
            walk_done_on d fs lba n s r e ok off ∙ sym (walk_done_on d fs' lba n s r e' ok off)
      ]
