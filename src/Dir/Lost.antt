-- ===== src/Dir/Lost.antt =====
-- src/kernel/storage/fat16_dir_mutation.inc: what fat16_delete_matching writes of the sector in
-- which the directory ends.
use minidos.Common.{
  Bool, ◌&&◌, leb, sym, ℕ_discrete, ℕ, zero, suc, ◌+◌, ◌-◌, ◌≡◌, ◌<◌, ◌≤◌, refl, ap, ◌∙◌, true,
  false, List, if◌then◌else◌, arith, Bool-cases, inl, inr,
}
use minidos.Fat.Geometry.{get_root_dir_start, get_root_dir_sectors}
use minidos.Fat.{Fs, Sector}
use minidos.Dir.Name.{is_nil}
use minidos.Dir.Entry.{entry_at, is_end, entries_per_sector}
use minidos.Dir.Walk.{ret}
use minidos.Dir.Remove.{
  is_target, mark_deleted, delete_entries, delete_sectors, delete_in_dir, delete_matching,
}
use minidos.Dir.Bytes.{entry_at-mark_deleted}

-- The entries that are to be deleted among the `n` from entry `i` on, up to the end of the
-- directory.
unfoldable pub targets : List ℕ → Sector → ℕ → ℕ → ℕ
targets pattern b i zero = 0
targets pattern b i (suc n) =
    let rest : ℕ = targets pattern b (i + 1) n in
    if is_end (entry_at b i) then 0 else if is_target pattern (entry_at b i) then suc rest else rest

targets-mark_deleted :
    (pattern : List ℕ) (b : Sector) (i j n : ℕ)
    → i < j
    → targets pattern (mark_deleted i b) j n ≡ targets pattern b j n
unfolding targets
targets-mark_deleted pattern b i j zero lt = refl
targets-mark_deleted pattern b i j (suc n) lt =
    let same = entry_at-mark_deleted b i j (λ e. omega arith) in
    let rest = targets-mark_deleted pattern b i (j + 1) n (omega arith) in
    λ k. if is_end (same k) then 0 else if is_target pattern (same k) then suc (rest k) else rest k

beyond :
    (b : Sector) (i k : ℕ)
    → i ≤ k
    → is_end (entry_at b k) ≡ true
    → is_end (entry_at b i) ≡ false
    → i + 1 ≤ k
beyond b i k le end on = elim (ℕ_discrete i k) [
  | yes e ↦ let bad = rw e at on in cc
  | no ne ↦ omega (arith, ne)
]

counted : {t u : ℕ} (count : ℕ) → t ≡ u → count + 1 + t ≡ count + suc u
counted count h = omega (arith, h)

-- No entry from `i` on that is to be deleted has a chain that would be freed.
abbrev pub FreesNone : List ℕ → Bool → Sector → ℕ → Type 0
FreesNone pattern free b i =
    (j : ℕ)
    → i ≤ j
    → is_target pattern (entry_at b j) ≡ true
    → (free && leb 2 (entry_at b j).cluster_low) ≡ false

FreesNone-mark_deleted :
    (pattern : List ℕ) (free : Bool) (b : Sector) (i : ℕ)
    → FreesNone pattern free b i
    → FreesNone pattern free (mark_deleted i b) (i + 1)
FreesNone-mark_deleted pattern free b i none_freed j le hit =
    let same : entry_at (mark_deleted i b) j ≡ entry_at b j =
      entry_at-mark_deleted b i j (λ e. omega arith) in
    ap (λ e. free && leb 2 e.cluster_low) same
    ∙ none_freed j (omega arith) (sym (ap (is_target pattern) same) ∙ hit)

-- The loop over the entries, where it comes to the end of the directory and frees no chain.
delete_entries-ended :
    (pattern : List ℕ) (free : Bool) (n i k count : ℕ) (fs : Fs)
    → i ≤ k
    → k < i + n
    → is_end (entry_at fs.sector_buffer k) ≡ true
    → FreesNone pattern free fs.sector_buffer i
    → ((delete_entries pattern free i n count fs).0.device ≡ fs.device)
      × ((delete_entries pattern free i n count fs).1
          ≡ ret (record { count = count + targets pattern fs.sector_buffer i n; ended = true }))
unfolding delete_entries targets
delete_entries-ended pattern free zero i k count fs le lt end none_freed = absurd (omega arith)
delete_entries-ended pattern free (suc n) i k count fs le lt end none_freed =
    let b : Sector = fs.sector_buffer in
    elim (Bool-cases (is_end (entry_at b i))) [
      | inl here ↦ rw here (refl, ap (λ c. ret (record { count = c; ended = true })) (omega arith))
      | inr on ↦
          let past : i + 1 ≤ k = beyond b i k le end on in
          elim (Bool-cases (is_target pattern (entry_at b i))) [
            | inr skip ↦ rw skip (
                rw on (
                  delete_entries-ended pattern free n (i + 1) k count fs past (omega arith) end
                    (λ j h. none_freed j (omega arith))))
            | inl hit ↦
                let ih =
                  delete_entries-ended pattern free n (i + 1) k (count + 1)
                    (record fs { sector_buffer = mark_deleted i b }) past (omega arith)
                    (ap is_end (entry_at-mark_deleted b i k (λ e. omega arith)) ∙ end)
                    (FreesNone-mark_deleted pattern free b i none_freed) in
                let quiet = none_freed i (omega arith) hit in
                rw quiet (
                  rw hit (
                    rw on (
                      ih.0,
                      ih.1
                          ∙ ap (λ c. ret (record { count = c; ended = true }))
                              (counted count
                                (targets-mark_deleted pattern b i (i + 1) n (omega arith))),
                    )))
          ]
    ]

module _ (pattern : List ℕ) (free : Bool) (lba count : ℕ) (fs : Fs) (k : ℕ)
    (lt : k < entries_per_sector) (readable : fs.device.read_fails lba ≡ false)
    (end : is_end (entry_at (fs.device.sectors lba) k) ≡ true)
    (none_freed : FreesNone pattern free (fs.device.sectors lba) 0) where
  abbrev loaded : Fs
  loaded = record fs { sector_buffer = fs.device.sectors lba }

  delete_sectors-ended :
      (n : ℕ)
      → ((delete_sectors pattern free lba (suc n) count fs).0.device ≡ fs.device)
        × ((delete_sectors pattern free lba (suc n) count fs).1
            ≡ ret (record {
              count = count + targets pattern (fs.device.sectors lba) 0 entries_per_sector;
              ended = true;
            }))
  unfolding delete_sectors
  delete_sectors-ended n =
      let ih =
        delete_entries-ended pattern free entries_per_sector 0 k count loaded (omega arith) lt end
          none_freed in
      rw readable (rw ih.1 (ih.0, refl))

-- Where the root directory ends within its first sector, as one with fewer than sixteen entries
-- does, and no chain is to be freed, because the caller does not ask for it or no entry that is to
-- be deleted has one, fat16_delete_matching leaves the disk as it was: it succeeds, and counts the
-- entries that match and stand before the end, but none of them is deleted.
pub delete_matching-loses :
    (fuel k : ℕ) (pattern : List ℕ) (free : Bool) (fs : Fs)
    → is_nil pattern ≡ false
    → 0 < get_root_dir_sectors fs.bpb
    → fs.device.read_fails (get_root_dir_start fs.bpb) ≡ false
    → k < entries_per_sector
    → is_end (entry_at (fs.device.sectors (get_root_dir_start fs.bpb)) k) ≡ true
    → FreesNone pattern free (fs.device.sectors (get_root_dir_start fs.bpb)) 0
    → ((delete_matching fuel 0 pattern free fs).0.device ≡ fs.device)
      × ((delete_matching fuel 0 pattern free fs).1
          ≡ ret (
              targets pattern (fs.device.sectors (get_root_dir_start fs.bpb)) 0 entries_per_sector))
unfolding delete_matching delete_in_dir
delete_matching-loses fuel k pattern free fs given some readable lt end none_freed =
    let lba : ℕ = get_root_dir_start fs.bpb in
    let n : ℕ = get_root_dir_sectors fs.bpb in
    let counted_n : n ≡ suc (n - 1) = omega arith in
    let ih = delete_sectors-ended pattern free lba 0 fs k lt readable end none_freed (n - 1) in
    let dev : (delete_sectors pattern free lba n 0 fs).0.device ≡ fs.device =
      ap (λ m. (delete_sectors pattern free lba m 0 fs).0.device) counted_n ∙ ih.0 in
    let out = ap (λ m. (delete_sectors pattern free lba m 0 fs).1) counted_n ∙ ih.1 in
    rw given (rw out (dev, ap (λ c. ret c) (omega arith)))
