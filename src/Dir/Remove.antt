-- ===== src/Dir/Remove.antt =====
-- src/kernel/storage/fat16_dir_mutation.inc: the functions that delete entries. They all mark an
-- entry by its first byte in `sector_buffer` and write that sector back.
use minidos.Common.{
  ℕ, zero, suc, ◌+◌, ◌*◌, ◌%◌, ◌^◌, Bool, true, false, not, ◌&&◌, ◌||◌, List, [], ◌∷◌, ltb, leb,
  ◌==◌, if◌then◌else◌,
}
use minidos.Fat.Geometry.{get_root_dir_start, get_root_dir_sectors, fat_is_data_cluster}
use minidos.Fat.{Fs, Sector, put_byte, read_sector, write_sector, read_fat_entry}
use minidos.Fat.Alloc.{free_cluster_chain}
use minidos.Dir.Name.{dot, is_nil, is_dot, is_dot_dot, match_name, match_pattern}
use minidos.Dir.Entry.{
  DirEntry, entry_at, is_end, is_deleted, is_volume_id, is_long_name, is_directory, is_visible,
  entries_per_sector,
}
use minidos.Dir.Walk.{
  Outcome, ret, fail, hang, M, ◌>>=◌, ◌>>◌, pure, guard, check, Visit, more, done, cluster_sector,
  walk_chain,
}
use minidos.Dir.{find_entry_internal}
use minidos.Dir.Change.{load, store, change_buffer}

-- `entries[index].name[0] = 0xE5`
unfoldable pub mark_deleted : ℕ → Sector → Sector
mark_deleted index b = put_byte b (32 * index) 0xE5

unfoldable pub empty_visit : Unit {0} → ℕ → ℕ → DirEntry → Visit (Unit {0}) Bool
unfolding match_name
empty_visit u sector i e =
    if is_end e
    then done true
    else if is_deleted e
        || is_long_name e
        || is_volume_id e
        || match_name (dot ∷ []) e.name
        || match_name (dot ∷ dot ∷ []) e.name
    then more tt
    else done false

abbrev pub finish_empty : Fs → Outcome (Visit (Unit {0}) Bool) → Fs × Outcome (Unit {0})
finish_empty fs (ret (done true)) = (fs, ret tt)
finish_empty fs (ret (done false)) = (fs, fail)
finish_empty fs (ret (more u)) = (fs, ret tt)
finish_empty fs fail = (fs, fail)
finish_empty fs hang = (fs, hang)

-- `fat16_is_directory_empty`, where 0 is the failure of its only caller.
unfoldable pub is_directory_empty : ℕ → ℕ → M (Unit {0})
is_directory_empty fuel dir_cluster fs =
    let (fs1, o) = walk_chain empty_visit (λ u. false) fuel fs dir_cluster tt in
    if ltb dir_cluster 2 then (fs, fail) else finish_empty fs1 o

unfoldable pub mark_slot : ℕ → ℕ → M (Unit {0})
unfolding mark_deleted read_sector write_sector
mark_slot sector index = do load sector; change_buffer (mark_deleted index); store sector

-- `if (wanted && !fat16_free_cluster_chain_internal(cluster)) return 0;`
abbrev pub free_if : Bool → ℕ → M (Unit {0})
free_if false cluster = pure tt
free_if true cluster = check (λ fs. free_cluster_chain fs cluster)

abbrev pub is_plain_name : List ℕ → Bool
is_plain_name name = not (is_nil name || is_dot name || is_dot_dot name)

unfoldable pub delete_entry : ℕ → ℕ → List ℕ → Bool → M (Unit {0})
unfolding is_dot is_dot_dot
delete_entry fuel dir_cluster name free_chain = do
  guard (is_plain_name name)
  target ← find_entry_internal fuel dir_cluster name
  guard (not (is_directory target.entry))
  free_if (free_chain && leb 2 target.entry.cluster_low) target.entry.cluster_low
  mark_slot target.sector target.index

unfoldable pub rmdir : ℕ → ℕ → List ℕ → M (Unit {0})
unfolding is_dot is_dot_dot
rmdir fuel dir_cluster name = do
  guard (is_plain_name name)
  target ← find_entry_internal fuel dir_cluster name
  guard (is_directory target.entry)
  guard (leb 2 target.entry.cluster_low)
  is_directory_empty fuel target.entry.cluster_low
  check (λ fs. free_cluster_chain fs target.entry.cluster_low)
  mark_slot target.sector target.index

-- What an entry is skipped for by `fat16_delete_matching`.
unfoldable pub is_target : List ℕ → DirEntry → Bool
unfolding is_visible match_pattern
is_target pattern e = is_visible e && not (is_directory e) && match_pattern pattern e.name

-- The number of entries that are marked, and whether the end of the directory is reached.
pub record Deleted : Type 0 where
  pub count : ℕ
  pub ended : Bool

-- The loop over the entries of `sector_buffer`, from entry `i` on with `n` left. `entries` points
-- into that buffer, which the freeing of a chain also uses.
unfoldable pub delete_entries : List ℕ → Bool → ℕ → ℕ → ℕ → M Deleted
unfolding is_target free_cluster_chain mark_deleted
delete_entries pattern free_chain i zero count = pure (record { count = count; ended = false })
delete_entries pattern free_chain i (suc n) count = λ fs.
    let e : DirEntry = entry_at fs.sector_buffer i in
    let skipped : Fs × Outcome Deleted = delete_entries pattern free_chain (i + 1) n count fs in
    let marked : Fs × Outcome Deleted =
      (free_if (free_chain && leb 2 e.cluster_low) e.cluster_low
          >> change_buffer (mark_deleted i)
          >> delete_entries pattern free_chain (i + 1) n (count + 1))
        fs in
    if is_end e
    then (fs, ret (record { count = count; ended = true }))
    else if is_target pattern e
    then marked
    else skipped

-- The loop over the sectors from `lba` on, with `n` left. At the end of the directory the function
-- returns at once.
unfoldable pub delete_sectors : List ℕ → Bool → ℕ → ℕ → ℕ → M Deleted
unfolding read_sector write_sector
delete_sectors pattern free_chain lba zero count = pure (record { count = count; ended = false })
delete_sectors pattern free_chain lba (suc n) count =
    let onward : ℕ → M Deleted = λ c. delete_sectors pattern free_chain (lba + 1) n c in
    (do
      load lba
      here ← delete_entries pattern free_chain 0 entries_per_sector count
      if here.ended then pure here else (store lba >> onward here.count))

unfoldable pub delete_chain : List ℕ → Bool → ℕ → ℕ → ℕ → M Deleted
delete_chain pattern free_chain zero cluster count = λ fs. (fs, hang)
delete_chain pattern free_chain (suc fuel) cluster count = λ fs.
    elim (fat_is_data_cluster fs.bpb cluster) [
      | false ↦ (fs, ret (record { count = count; ended = false }))
      | true ↦
          (delete_sectors pattern free_chain (cluster_sector fs cluster) fs.bpb.sectors_per_cluster
                count
              >>= λ here. elim here.ended [
                | true ↦ pure here
                | false ↦ λ fs1.
                    let (fs2, next) = read_fat_entry fs1 (cluster % 2 ^ 16) in
                    delete_chain pattern free_chain fuel next here.count fs2
              ])
            fs
    ]

-- The loops of `fat16_delete_matching`.
unfoldable pub delete_in_dir : ℕ → ℕ → List ℕ → Bool → M Deleted
delete_in_dir fuel dir_cluster pattern free_chain fs =
    if dir_cluster == 0
    then delete_sectors pattern free_chain (get_root_dir_start fs.bpb) (get_root_dir_sectors fs.bpb)
        0 fs
    else delete_chain pattern free_chain fuel dir_cluster 0 fs

-- The result is `*deleted_count`.
unfoldable pub delete_matching : ℕ → ℕ → List ℕ → Bool → M ℕ
delete_matching fuel dir_cluster pattern free_chain = do
  guard (not (is_nil pattern))
  all ← delete_in_dir fuel dir_cluster pattern free_chain
  pure all.count
