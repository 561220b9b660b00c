-- ===== src/Dir/Sectors.antt =====
-- src/kernel/storage/fat16_dir_lookup.inc and fat16_dir_mutation.inc: the search for a name against
-- the search for a free slot, over the sectors of a directory.
use minidos.Common.{
  ℕ, zero, suc, ◌+◌, ◌≡◌, ◌≢◌, ◌≤◌, refl, ap, sym, subst, ◌∙◌, true, false, Option, some, ◌==◌,
  arith, List, inl, inr,
}
use minidos.Fat.{Fs, Device, Sector, put_sector}
use minidos.Dir.Entry.{DirEntry, put_entry, entries_per_sector}
use minidos.Dir.Walk.{Visit, done, walk_sectors}
use minidos.Dir.{Found, find_visit}
use minidos.Dir.Change.{Slot, free_visit}
use minidos.Dir.Written.{Fits}
use minidos.Dir.Steps.{Readable, walk_more_on, walk_done_on, loaded, visit_cases}
use minidos.Dir.Search.{
  no_found, no_slot, find_in, Misses, IsHit, find_in-more, free_in-cases, find_in-put_entry,
}

abbrev pub find_walk : List ℕ → Fs → ℕ → ℕ → Visit (Unit {0}) (Option Found)
find_walk name fs lba n = (walk_sectors (find_visit name) no_found fs lba n tt).1

abbrev pub free_walk : Fs → ℕ → ℕ → Visit (Unit {0}) (Option Slot)
free_walk fs lba n = (walk_sectors free_visit no_slot fs lba n tt).1

same_slot :
    (l j sector k : ℕ)
    → ◌≡◌ {A = Visit (Unit {0}) (Option Slot)} (done (some (l, j))) (done (some (sector, k)))
    → (l ≡ sector) × (j ≡ k)
same_slot l j sector k h = ground arith

free_walk-place :
    (n : ℕ) (d : Device) (fs : Fs) (lba sector k : ℕ)
    → fs.device ≡ d
    → Readable d
    → free_walk fs lba n ≡ done (some (sector, k))
    → lba ≤ sector
unfolding walk_sectors
free_walk-place zero d fs lba sector k same ok h = cc
free_walk-place (suc n) d fs lba sector k same ok h =
    elim (free_in-cases lba (d.sectors lba) entries_per_sector 0) [
      | inl none_here ↦
          let next = sym (walk_more_on free_visit no_slot d fs lba n tt tt same ok none_here) ∙ h in
          omega (arith, free_walk-place n d (loaded fs lba) (lba + 1) sector k same ok next)
      | inr (j, here) ↦
          let e =
            sym (walk_done_on free_visit no_slot d fs lba n tt (some (lba, j)) same ok here) ∙ h in
          omega (arith, (same_slot lba j sector k e).0)
    ]

no_hit_here :
    (name : List ℕ) (d : Device) (fs : Fs) (lba n : ℕ)
    → fs.device ≡ d
    → Readable d
    → Misses (find_walk name fs lba (suc n))
    → Misses (find_in name lba (d.sectors lba) 0 entries_per_sector)
no_hit_here name d fs lba n same ok m =
    elim (visit_cases (find_in name lba (d.sectors lba) 0 entries_per_sector)) [
      | inl (u, e) ↦ subst Misses (sym e) tt
      | inr (r, e) ↦
          subst Misses (walk_done_on (find_visit name) no_found d fs lba n tt r same ok e ∙ sym e) m
    ]

sectors_ne :
    (d : Device) (sector l : ℕ) (b : Sector)
    → l ≢ sector
    → (put_sector d sector b).sectors l ≡ d.sectors l
unfolding put_sector
sectors_ne d sector l b ne = let other : (l == sector) ≡ false = ground arith in rw other refl

sectors_self : (d : Device) (sector : ℕ) (b : Sector) → (put_sector d sector b).sectors sector ≡ b
unfolding put_sector
sectors_self d sector b = let self : (sector == sector) ≡ true = ground arith in rw self refl

Readable-put_sector :
    (d : Device) (sector : ℕ) (b : Sector) → Readable d → Readable (put_sector d sector b)
unfolding put_sector
Readable-put_sector d sector b ok = ok

-- The sector that holds the new entry, where its slot is given by another name.
hit_sector :
    (name : List ℕ) (lba sector : ℕ) (d : Device) (new : DirEntry) (j k : ℕ)
    → lba ≡ sector
    → j ≡ k
    → find_in name lba (put_entry (d.sectors lba) j new) 0 entries_per_sector
      ≡ done (some (record { entry = new; sector = lba; index = j }))
    → find_in name lba
        ((put_sector d sector (put_entry (d.sectors sector) k new)).sectors lba)
        0
        entries_per_sector
      ≡ done (some (record { entry = new; sector = sector; index = k }))
hit_sector name lba sector d new j k p q h =
    subst
      (λ c.
        find_in name lba ((put_sector d c (put_entry (d.sectors c) k new)).sectors lba) 0
          entries_per_sector
        ≡ done (some (record { entry = new; sector = c; index = k })))
      p
      (subst
        (λ m.
          find_in name lba ((put_sector d lba (put_entry (d.sectors lba) m new)).sectors lba) 0
            entries_per_sector
          ≡ done (some (record { entry = new; sector = lba; index = m })))
        q
        (ap (λ c. find_in name lba c 0 entries_per_sector)
            (sectors_self d lba (put_entry (d.sectors lba) j new))
          ∙ h))

-- The two searches over the sectors of a directory, before and after the new entry is in its slot.
pub find_walk-put_entry :
    (n : ℕ) (name : List ℕ) (new : DirEntry) (d : Device) (fs1 fs2 fs3 : Fs) (lba sector k : ℕ)
    → Fits new
    → IsHit name new
    → Readable d
    → fs1.device ≡ d
    → fs2.device ≡ d
    → fs3.device ≡ put_sector d sector (put_entry (d.sectors sector) k new)
    → Misses (find_walk name fs1 lba n)
    → free_walk fs2 lba n ≡ done (some (sector, k))
    → find_walk name fs3 lba n ≡ done (some (record { entry = new; sector = sector; index = k }))
unfolding walk_sectors
find_walk-put_entry zero name new d fs1 fs2 fs3 lba sector k fits hit ok e1 e2 e3 misses free = cc
find_walk-put_entry (suc n) name new d fs1 fs2 fs3 lba sector k fits hit ok e1 e2 e3 misses free =
    let b : Sector = d.sectors lba in
    let d3 : Device = put_sector d sector (put_entry (d.sectors sector) k new) in
    let ok3 : Readable d3 = Readable-put_sector d sector (put_entry (d.sectors sector) k new) ok in
    let missed = no_hit_here name d fs1 lba n e1 ok misses in
    elim (free_in-cases lba b entries_per_sector 0) [
      | inl none_here ↦
          let free' =
            sym (walk_more_on free_visit no_slot d fs2 lba n tt tt e2 ok none_here) ∙ free in
          let past = free_walk-place n d (loaded fs2 lba) (lba + 1) sector k e2 ok free' in
          let on = find_in-more name lba b entries_per_sector 0 none_here missed in
          let misses' =
            subst Misses (walk_more_on (find_visit name) no_found d fs1 lba n tt tt e1 ok on)
              misses in
          let on3 =
            ap (λ c. find_in name lba c 0 entries_per_sector)
              (sectors_ne d sector lba (put_entry (d.sectors sector) k new)
                (λ q. omega (arith, past, q)))
            ∙ on in
          walk_more_on (find_visit name) no_found d3 fs3 lba n tt tt e3 ok3 on3
          ∙ find_walk-put_entry n name new d (loaded fs1 lba) (loaded fs2 lba) (loaded fs3 lba)
              (lba + 1) sector k fits hit ok e1 e2 e3 misses' free'
      | inr (j, here) ↦
          let q =
            sym (walk_done_on free_visit no_slot d fs2 lba n tt (some (lba, j)) e2 ok here)
            ∙ free in
          let (at_lba, at_j) = same_slot lba j sector k q in
          let found =
            find_in-put_entry name lba b new entries_per_sector 0 j lba fits hit here missed in
          let found3 = hit_sector name lba sector d new j k at_lba at_j found in
          walk_done_on (find_visit name) no_found d3 fs3 lba n tt
            (some (record { entry = new; sector = sector; index = k })) e3 ok3 found3
    ]
