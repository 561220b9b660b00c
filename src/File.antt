-- ===== src/File.antt =====
-- src/kernel/storage/fat16_file.c: the writing and copying of files. A buffer with its size is a
-- list of bytes, so that the tests for a null buffer and a negative size are left out; a null name
-- is an empty one. The steps that the loops over clusters may take are those of the code; `fuel`
-- bounds the clusters of a directory.
pub mod Read
pub mod Ends
pub mod Content
mod Tests
use minidos.Common.{
  ℕ, zero, suc, ◌+◌, ◌-◌, ◌%◌, ◌^◌, Bool, true, false, not, ◌&&◌, Option, some, none, List, [], ◌∷◌,
  leb, ◌==◌, if◌then◌else◌, min, take, drop, get_or, length, add32,
}
use minidos.Fat.Geometry.{get_total_clusters, fat_is_data_cluster}
use minidos.Fat.{
  Fs, Sector, sector_size, read_sector, write_sector, end_of_chain, read_fat_entry, write_fat_entry,
}
use minidos.Fat.Alloc.{alloc_cluster, free_cluster_chain}
use minidos.Dir.Name.{is_nil}
use minidos.Dir.Entry.{DirEntry, is_directory}
use minidos.Dir.Walk.{
  Outcome, ret, fail, hang, M, ◌>>=◌, ◌>>◌, pure, guard, check, check_some, attempt, cluster_sector,
}
use minidos.Dir.{Found, find_entry_internal}
use minidos.Dir.Edit.{check_absent, formatted, create_entry, same_name, update_entry}

-- `return 0` once the clusters from `first` on are freed, if there are any.
abbrev pub give_up : {A : Type 0} → ℕ → M A
give_up first fs = if leb 2 first then ((free_cluster_chain fs first).0, fail) else (fs, fail)

-- A call whose failure makes the function give up.
abbrev pub or_give_up : ℕ → (Fs → Fs × Bool) → M (Unit {0})
or_give_up first f fs = let (fs1, ok) = f fs in if ok then (fs1, ret tt) else give_up first fs1

abbrev pub given_or_give_up : {A : Type 0} → ℕ → Fs → Option A → Fs × Outcome A
given_or_give_up first fs (some a) = (fs, ret a)
given_or_give_up first fs none = give_up first fs

-- `fat16_alloc_cluster_internal`, with the same.
abbrev pub alloc_or_give_up : ℕ → M ℕ
alloc_or_give_up first fs = let (fs1, o) = alloc_cluster fs in given_or_give_up first fs1 o

abbrev pub given_back : {A : Type 0} → ℕ → Fs → Outcome A → Fs × Outcome A
given_back first fs (ret a) = (fs, ret a)
given_back first fs fail = give_up first fs
given_back first fs hang = (fs, hang)

abbrev pub call_or_give_up : {A : Type 0} → ℕ → M A → M A
call_or_give_up first m fs = let (fs1, o) = m fs in given_back first fs1 o

-- The bytes of the next sector of a file, with zeros after its end.
abbrev pub fill_sector : List ℕ → Sector
fill_sector bytes i = get_or (take sector_size bytes) i 0

-- The sectors of a cluster from `lba` on, with `n` left; the result is what is left of the file.
unfoldable pub write_sectors : ℕ → ℕ → ℕ → List ℕ → M (List ℕ)
unfolding write_sector
write_sectors first lba zero bytes fs = (fs, ret bytes)
write_sectors first lba (suc n) bytes fs =
    let s : Sector = fill_sector bytes in
    let (fs1, ok) = write_sector (record fs { sector_buffer = s }) lba s in
    let rest = write_sectors first (lba + 1) n (drop sector_size bytes) fs1 in
    if ok then rest else give_up first fs1

-- The link from the cluster before.
unfoldable pub link_cluster : ℕ → ℕ → ℕ → M (Unit {0})
link_cluster first prev cluster =
    if leb 2 prev
    then (do
      or_give_up first (λ fs. write_fat_entry fs prev cluster)
      or_give_up first (λ fs. write_fat_entry fs cluster (end_of_chain fs.fat_type)))
    else pure tt

-- The loop over the clusters, with `steps` left in `max_steps`; the result is
-- `new_first_cluster`.
unfoldable pub write_clusters : ℕ → ℕ → ℕ → List ℕ → M ℕ
unfolding write_sectors link_cluster
write_clusters steps first prev [] = pure first
write_clusters zero first prev (c ∷ bytes) = give_up first
write_clusters (suc steps) first prev (c ∷ bytes) = do
  cluster ← alloc_or_give_up first
  link_cluster (if first == 0 then cluster else first) prev cluster
  rest ← λ fs.
      write_sectors (if first == 0 then cluster else first) (cluster_sector fs cluster)
        fs.bpb.sectors_per_cluster (c ∷ bytes) fs
  write_clusters steps (if first == 0 then cluster else first) cluster rest

abbrev pub refuse_directory : Option Found → M (Unit {0})
refuse_directory none = pure tt
refuse_directory (some f) = guard (not (is_directory f.entry))

abbrev pub archive_attribute : ℕ
archive_attribute = 0x20

-- The entry of the file: it is changed where there is one, with its read-only bit kept, and
-- created where there is none.
abbrev pub put_file : ℕ → ℕ → List ℕ → ℕ → ℕ → Option Found → M (Unit {0})
put_file fuel dir_cluster name first size (some f) =
    update_entry fuel dir_cluster name name first size (f.entry.attributes % 2 + archive_attribute)
put_file fuel dir_cluster name first size none =
    create_entry fuel dir_cluster name first size archive_attribute

abbrev pub old_cluster : Option Found → ℕ
old_cluster none = 0
old_cluster (some f) = f.entry.cluster_low

-- The clusters that the file had.
unfoldable pub free_old : ℕ → ℕ → M (Unit {0})
free_old old first =
    if leb 2 old && not (old == first) then check (λ fs. free_cluster_chain fs old) else pure tt

-- `get_total_clusters() + 2`
abbrev pub max_steps : Fs → ℕ
max_steps fs = add32 (get_total_clusters fs.bpb) 2

unfoldable pub write_file_from_dir : ℕ → ℕ → List ℕ → List ℕ → M (Unit {0})
unfolding write_clusters free_old
write_file_from_dir fuel dir_cluster name bytes = do
  guard (not (is_nil name))
  λ fs. guard (not (fs.bpb.sectors_per_cluster == 0)) fs
  existing ← attempt (find_entry_internal fuel dir_cluster name)
  refuse_directory existing
  first ← λ fs. write_clusters (max_steps fs) 0 0 bytes fs
  call_or_give_up first (put_file fuel dir_cluster name first (length bytes) existing)
  free_old (old_cluster existing) first

unfoldable pub write_file : ℕ → List ℕ → List ℕ → M (Unit {0})
write_file fuel name bytes = write_file_from_dir fuel 0 name bytes

-- The sectors of a cluster that are copied, with `n` left; the result is `remaining`.
unfoldable pub copy_sectors : ℕ → ℕ → ℕ → ℕ → ℕ → M ℕ
unfolding read_sector write_sector
copy_sectors first src dst zero remaining = pure remaining
copy_sectors first src dst (suc n) remaining = if remaining == 0 then pure 0 else (do
  or_give_up first (λ fs. read_sector fs src)
  or_give_up first (λ fs. write_sector fs dst fs.sector_buffer)
  copy_sectors first (src + 1) (dst + 1) n (remaining - min sector_size remaining))

-- A link of the copy: the new cluster, which is in no chain yet, is freed as well.
abbrev pub or_free_both : ℕ → ℕ → (Fs → Fs × Bool) → M (Unit {0})
or_free_both first next f fs =
    let (fs1, ok) = f fs in
    if ok then (fs1, ret tt) else give_up first (free_cluster_chain fs1 next).0

abbrev pub next_cluster : ℕ → M ℕ
next_cluster cluster fs = let (fs1, next) = read_fat_entry fs cluster in (fs1, ret next)

-- The loop over the clusters of the source, with `steps` left in `max_steps`.
unfoldable pub copy_clusters : ℕ → ℕ → ℕ → ℕ → ℕ → M (Unit {0})
unfolding copy_sectors
copy_clusters zero first src dst remaining = if remaining == 0 then pure tt else give_up first
copy_clusters (suc steps) first src dst remaining = if remaining == 0 then pure tt else (do
  left ← λ fs.
      copy_sectors first (cluster_sector fs src) (cluster_sector fs dst) fs.bpb.sectors_per_cluster
        remaining fs
  (if left == 0 then pure tt else (do
    next_src ← next_cluster src
    or_give_up first (λ fs. (fs, fat_is_data_cluster fs.bpb next_src))
    next_dst ← alloc_or_give_up first
    or_free_both first next_dst (λ fs. write_fat_entry fs dst next_dst)
    or_free_both first next_dst (λ fs. write_fat_entry fs next_dst (end_of_chain fs.fat_type))
    copy_clusters steps first next_src next_dst left)))

-- `dst_first_cluster`: 0 for an empty file.
abbrev pub first_of_copy : DirEntry → M ℕ
first_of_copy e =
    if e.file_size == 0 then pure 0 else (do guard (leb 2 e.cluster_low); check_some alloc_cluster)

unfoldable pub copy_file_between_dirs : ℕ → ℕ → List ℕ → ℕ → List ℕ → M (Unit {0})
unfolding same_name copy_clusters
copy_file_between_dirs fuel src_dir src_name dst_dir dst_name = do
  guard (not (is_nil src_name) && not (is_nil dst_name))
  src_83 ← formatted src_name
  dst_83 ← formatted dst_name
  guard (not (same_name src_83 dst_83 && src_dir == dst_dir))
  src ← find_entry_internal fuel src_dir src_name
  guard (not (is_directory src.entry))
  check_absent (find_entry_internal fuel dst_dir dst_name)
  first ← first_of_copy src.entry
  λ fs. copy_clusters (max_steps fs) first src.entry.cluster_low first src.entry.file_size fs
  call_or_give_up first
      (create_entry fuel dst_dir dst_name first src.entry.file_size src.entry.attributes)

unfoldable pub copy_file : ℕ → ℕ → List ℕ → List ℕ → M (Unit {0})
copy_file fuel dir_cluster src_name dst_name =
    copy_file_between_dirs fuel dir_cluster src_name dir_cluster dst_name
