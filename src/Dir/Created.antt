-- ===== src/Dir/Created.antt =====
-- src/kernel/storage/fat16_dir_mutation.inc: fat16_create_entry in the root directory, and
-- fat16_find_entry after it.
use minidos.Common.{
  ℕ, ◌/◌, ◌%◌, ◌^◌, ◌≡◌, ◌≢◌, ◌<◌, refl, ap, sym, subst, ◌∙◌, true, false, Option, some, none,
  arith, List, [], ◌∷◌, get_or, map, length, length-append,
}
use minidos.Fat.Geometry.{get_root_dir_start, get_root_dir_sectors}
use minidos.Fat.{Fs, Device, Sector, put_sector}
use minidos.Dir.Name.{is_nil, upper_char, pad, format_name, match_name}
use minidos.Dir.Format.{length-pad, format_name-Formatted}
use minidos.Dir.Shown.{match_name-format_name}
use minidos.Dir.Entry.{DirEntry, put_entry}
use minidos.Dir.Walk.{ret, fail, M, after, ◌>>=◌, ◌>>◌, Visit, more, done, walk_sectors, walk_dir}
use minidos.Dir.{Found, find_visit, finish, find_entry_internal, find_entry}
use minidos.Dir.Change.{
  Slot, free_visit, finish_walk, find_free_root_entry, write_dir_entry_at, new_entry,
  add_dir_entry_internal,
}
use minidos.Dir.Edit.{create_entry, check_absent, formatted}
use minidos.Dir.Written.{Fits}
use minidos.Dir.Steps.{Readable, SameVolume, walk_sectors-SameVolume, walk_sectors_same}
use minidos.Dir.Search.{no_found, no_slot, Misses, IsHit}
use minidos.Dir.Sectors.{find_walk, free_walk, find_walk-put_entry}

finish_state : (fs : Fs) (v : Visit (Unit {0}) (Option Found)) → (finish fs (ret v)).0 ≡ fs
finish_state fs (more u) = refl
finish_state fs (done none) = refl
finish_state fs (done (some f)) = refl

finish_no_hit :
    (fs : Fs) (v : Visit (Unit {0}) (Option Found)) → (finish fs (ret v)).1 ≡ fail → Misses v
finish_no_hit fs (more u) h = tt
finish_no_hit fs (done none) h = tt
finish_no_hit fs (done (some f)) h = cc

finish_slot :
    (fs : Fs) (v : Visit (Unit {0}) (Option Slot)) (s : Slot)
    → (finish_walk fs v).1 ≡ ret s
    → (v ≡ done (some s)) × ((finish_walk fs v).0 ≡ fs)
finish_slot fs (more u) s h = cc
finish_slot fs (done none) s h = cc
finish_slot fs (done (some t)) s h = ground arith

-- The search of the root directory.
root_find :
    (fuel : ℕ) (name : List ℕ) (fs : Fs)
    → find_entry_internal fuel 0 name fs
      ≡ finish
          (walk_sectors
            (find_visit name)
            no_found
            fs
            (get_root_dir_start fs.bpb)
            (get_root_dir_sectors fs.bpb)
            tt).0
          (ret (find_walk name fs (get_root_dir_start fs.bpb) (get_root_dir_sectors fs.bpb)))
unfolding find_entry_internal walk_dir
root_find fuel name fs = refl

absent : {A : Type 0} (m : M A) (fs : Fs) → (m fs).1 ≡ fail → check_absent m fs ≡ ((m fs).0, ret tt)
absent m fs h = rw h refl

bind_step :
    {A B : Type 0} (m : M A) (f : A → M B) (fs fs' : Fs) (a : A)
    → m fs ≡ (fs', ret a)
    → (m >>= f) fs ≡ f a fs'
bind_step m f fs fs' a h = ap (λ r. after f r.0 r.1) h

formatted_lem :
    (name n : List ℕ) (fs : Fs) → format_name name ≡ some n → formatted name fs ≡ (fs, ret n)
formatted_lem name n fs h = rw (h, formatted) refl

not_nil : (name n : List ℕ) → format_name name ≡ some n → is_nil name ≡ false
unfolding format_name
not_nil [] n h = cc
not_nil (c ∷ s) n h = refl

-- A disk whose sectors can be read and written.
pub record IsSolid (d : Device) : Type 0 where
  pub reads : Readable d
  pub writes : (l : ℕ) → d.write_fails l ≡ false

abbrev stored : Fs → ℕ → ℕ → DirEntry → Fs
stored fs sector k e =
    let b : Sector = put_entry (fs.device.sectors sector) k e in
    record fs { sector_buffer = b; device = put_sector fs.device sector b }

write_dir_entry_at_lem :
    (sector k : ℕ) (e : DirEntry) (fs : Fs)
    → IsSolid fs.device
    → write_dir_entry_at sector k e fs ≡ (stored fs sector k e, ret tt)
unfolding write_dir_entry_at
write_dir_entry_at_lem sector k e fs h = rw (h.reads sector) (rw (h.writes sector) refl)

module _ (fuel : ℕ) (name n : List ℕ) (cluster size attributes : ℕ) (fs : Fs) (sector k : ℕ)
    (solid : IsSolid fs.device) (accepted : format_name name ≡ some n)
    (unknown : (find_entry_internal fuel 0 name fs).1 ≡ fail)
    (room : (find_free_root_entry fs).1 ≡ ret (sector, k)) where
  abbrev new : DirEntry
  new = new_entry n cluster size attributes

  -- The volume after the search for the name, and after that for a slot.
  abbrev searched : Fs
  searched = (find_entry_internal fuel 0 name fs).0

  abbrev slotted : Fs
  slotted = (find_free_root_entry searched).0

  searched-SameVolume : SameVolume fs searched
  searched-SameVolume =
      subst (SameVolume fs)
        (sym (
          ap (λ r. r.0) (root_find fuel name fs)
          ∙ finish_state
              (walk_sectors (find_visit name) no_found fs (get_root_dir_start fs.bpb)
                (get_root_dir_sectors fs.bpb) tt).0
              (find_walk name fs (get_root_dir_start fs.bpb) (get_root_dir_sectors fs.bpb))))
        (walk_sectors-SameVolume (find_visit name) no_found (get_root_dir_sectors fs.bpb) fs
          (get_root_dir_start fs.bpb) tt solid.reads)

  missed : Misses (find_walk name fs (get_root_dir_start fs.bpb) (get_root_dir_sectors fs.bpb))
  missed =
      finish_no_hit
        (walk_sectors (find_visit name) no_found fs (get_root_dir_start fs.bpb)
          (get_root_dir_sectors fs.bpb) tt).0
        (find_walk name fs (get_root_dir_start fs.bpb) (get_root_dir_sectors fs.bpb))
        (ap (λ r. r.1) (sym (root_find fuel name fs)) ∙ unknown)

  free_walk_here :
      free_walk fs (get_root_dir_start fs.bpb) (get_root_dir_sectors fs.bpb)
      ≡ done (some (sector, k))
  unfolding find_free_root_entry
  free_walk_here =
      (finish_slot
        (walk_sectors free_visit no_slot fs (get_root_dir_start fs.bpb)
          (get_root_dir_sectors fs.bpb) tt).0
        (free_walk fs (get_root_dir_start fs.bpb) (get_root_dir_sectors fs.bpb)) (sector, k) room).0

  slot_searched : find_free_root_entry searched ≡ (
    (walk_sectors free_visit no_slot searched
        (get_root_dir_start searched.bpb)
        (get_root_dir_sectors searched.bpb)
        tt).0,
    ret (sector, k),
  )
  unfolding find_free_root_entry
  slot_searched =
      let w : Fs =
        (walk_sectors free_visit no_slot searched (get_root_dir_start searched.bpb)
          (get_root_dir_sectors searched.bpb) tt).0 in
      ap (finish_walk w) (
        (λ i.
          free_walk searched (get_root_dir_start (searched-SameVolume.1 i))
            (get_root_dir_sectors (searched-SameVolume.1 i)))
        ∙ walk_sectors_same free_visit no_slot (get_root_dir_sectors fs.bpb) fs.device searched fs
            (get_root_dir_start fs.bpb) tt searched-SameVolume.0 refl solid.reads
        ∙ free_walk_here)

  slot_there : find_free_root_entry searched ≡ (slotted, ret (sector, k))
  slot_there = λ i. ((find_free_root_entry searched).0, (slot_searched i).1)

  slotted-SameVolume : SameVolume fs slotted
  slotted-SameVolume =
      let h =
        walk_sectors-SameVolume free_visit no_slot (get_root_dir_sectors searched.bpb) searched
          (get_root_dir_start searched.bpb) tt
          (subst Readable (sym searched-SameVolume.0) solid.reads) in
      subst (SameVolume fs) (ap (λ r. r.0) (sym slot_searched))
        (h.0 ∙ searched-SameVolume.0, h.1 ∙ searched-SameVolume.1)

  created :
      create_entry fuel 0 name cluster size attributes fs ≡ (stored slotted sector k new, ret tt)
  unfolding create_entry add_dir_entry_internal
  created = rw (not_nil name n accepted) (
      bind_step (formatted name)
        (λ name_83.
          check_absent (find_entry_internal fuel 0 name)
          >> add_dir_entry_internal fuel 0 (new_entry name_83 cluster size attributes))
        fs fs n (formatted_lem name n fs accepted)
      ∙ bind_step (check_absent (find_entry_internal fuel 0 name))
          (λ u. add_dir_entry_internal fuel 0 new) fs searched tt
          (absent (find_entry_internal fuel 0 name) fs unknown)
      ∙ bind_step find_free_root_entry (λ s. write_dir_entry_at s.0 s.1 new) searched slotted
          (sector, k) slot_there
      ∙ write_dir_entry_at_lem sector k new slotted
          (subst IsSolid (sym slotted-SameVolume.0) solid))

  -- The next search finds the entry.
  created_found :
      Fits new
      → IsHit name new
      → (find_entry_internal fuel 0 name (stored slotted sector k new)).1
        ≡ ret (record { entry = new; sector = sector; index = k })
  created_found fits hit =
      let fs3 : Fs = stored slotted sector k new in
      let d : Device = fs.device in
      let put : fs3.device ≡ put_sector d sector (put_entry (d.sectors sector) k new) =
        ap (λ c. put_sector c sector (put_entry (c.sectors sector) k new)) slotted-SameVolume.0 in
      let here =
        find_walk-put_entry (get_root_dir_sectors fs.bpb) name new d fs searched fs3
          (get_root_dir_start fs.bpb) sector k fits hit solid.reads refl searched-SameVolume.0 put
          missed
          (walk_sectors_same free_visit no_slot (get_root_dir_sectors fs.bpb) d searched fs
              (get_root_dir_start fs.bpb) tt searched-SameVolume.0 refl solid.reads
            ∙ free_walk_here) in
      let b = slotted-SameVolume.1 in
      ap (λ r. r.1) (root_find fuel name fs3)
      ∙ ap
          (λ v.
            (finish
              (walk_sectors (find_visit name) no_found fs3 (get_root_dir_start fs3.bpb)
                (get_root_dir_sectors fs3.bpb) tt).0
              (ret v)).1)
          ((λ i. find_walk name fs3 (get_root_dir_start (b i)) (get_root_dir_sectors (b i))) ∙ here)

named_in_capitals :
    (name n : List ℕ)
    → map upper_char name ≡ name
    → format_name name ≡ some n
    → match_name name n ≡ true
named_in_capitals name n up h =
    subst (λ s. match_name s n ≡ true) up (match_name-format_name name n h)

length-format_name : (name n : List ℕ) → format_name name ≡ some n → length n ≡ 11
length-format_name name n h =
    let (b, e, f) = format_name-Formatted name n h in
    ap length f.name
    ∙ omega (
      arith,
      length-append (pad 8 b) (pad 3 e),
      length-pad 8 b f.base_fits,
      length-pad 3 e f.ext_fits,
    )

new_entry-Fits :
    (n : List ℕ) (cluster size attributes : ℕ)
    → length n ≡ 11
    → cluster < 65536
    → size < 2 ^ 32
    → Fits (new_entry n cluster size attributes)
new_entry-Fits n cluster size attributes len c s = record {
  name = len;
  creation_time = omega arith;
  creation_date = omega arith;
  access_date = omega arith;
  cluster_high = omega arith;
  modified_time = omega arith;
  modified_date = omega arith;
  cluster_low = c;
  file_size = s;
}

new_entry-IsHit :
    (name n : List ℕ) (cluster size attributes : ℕ)
    → match_name name n ≡ true
    → get_or n 0 0 ≢ 0
    → get_or n 0 0 ≢ 0xE5
    → attributes / 8 % 2 ≡ 0
    → IsHit name (new_entry n cluster size attributes)
new_entry-IsHit name n cluster size attributes m zero_free deleted_free plain = record {
  alive = ground (arith, zero_free, deleted_free);
  plain = ground arith;
  named = m;
}

-- On a disk whose transfers succeed, in the root directory: a file name in capitals that
-- fat16_format_name accepts, whose entry does not begin with the marks 0 and 0xE5, and that is not
-- there yet, is created by fat16_create_entry where there is a free slot, with any attributes but a
-- volume label's, and fat16_find_entry then finds that entry, in that slot, with all its fields.
pub find_entry-create_entry :
    (fuel : ℕ) (name n : List ℕ) (cluster size attributes : ℕ) (fs : Fs) (sector k : ℕ)
    → IsSolid fs.device
    → map upper_char name ≡ name
    → format_name name ≡ some n
    → get_or n 0 0 ≢ 0
    → get_or n 0 0 ≢ 0xE5
    → attributes / 8 % 2 ≡ 0
    → cluster < 65536
    → size < 2 ^ 32
    → (find_entry_internal fuel 0 name fs).1 ≡ fail
    → (find_free_root_entry fs).1 ≡ ret (sector, k)
    → ((create_entry fuel 0 name cluster size attributes fs).1 ≡ ret tt)
      × ((find_entry fuel 0 name (create_entry fuel 0 name cluster size attributes fs).0).1
          ≡ ret
              (record { entry = new_entry n cluster size attributes; sector = sector; index = k }))
unfolding find_entry
find_entry-create_entry fuel name n cluster size attributes fs sector k solid up accepted zero_free
      deleted_free plain c s unknown room =
    let made =
      created fuel name n cluster size attributes fs sector k solid accepted unknown room in
    let found =
      created_found fuel name n cluster size attributes fs sector k solid accepted unknown room
        (new_entry-Fits n cluster size attributes (length-format_name name n accepted) c s)
        (new_entry-IsHit name n cluster size attributes (named_in_capitals name n up accepted)
          zero_free deleted_free plain) in
    (
      ap (λ r. r.1) made,
      rw (not_nil name n accepted) (ap (λ r. (find_entry_internal fuel 0 name r.0).1) made ∙ found),
    )
