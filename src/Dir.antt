-- ===== src/Dir.antt =====
-- src/kernel/storage/fat16_dir_lookup.inc: directories, where entries are found, listed and
-- numbered. The root directory is cluster 0. A name is the list of its bytes, and a null one is
-- empty; the pointers for results are not null. `fuel` bounds the clusters of a directory.
pub mod Name
pub mod Wildcard
pub mod Match
pub mod Format
pub mod Shown
pub mod Entry
pub mod Walk
pub mod Change
pub mod Edit
pub mod Remove
pub mod Bytes
pub mod Lost
pub mod Written
pub mod Steps
pub mod Search
pub mod Sectors
pub mod Created
mod Tests
use minidos.Common.{
  ℕ, zero, suc, ◌+◌, ◌-◌, Bool, true, false, not, ◌&&◌, ◌||◌, Option, some, none, List, [], ◌∷◌,
  ◌++◌, ◌==◌, if◌then◌else◌, take, drop, replicate,
}
use minidos.Fat.{Fs}
use minidos.Dir.Name.{dot, space, is_nil, all_spaces, match_name, match_pattern, build_display_name}
use minidos.Dir.Entry.{
  DirEntry, is_end, is_deleted, is_volume_id, is_long_name, is_directory, is_visible,
}
use minidos.Dir.Walk.{
  Outcome, ret, fail, hang, M, ◌>>=◌, ◌>>◌, pure, guard, Visit, more, done, walk_dir,
}

-- An entry with its place: `*out_entry`, `*out_sector` and `*out_index`.
pub record Found : Type 0 where
  pub entry : DirEntry
  pub sector : ℕ
  pub index : ℕ

-- The body of the loops of `fat16_find_entry_internal`; `none` is `return 0`.
unfoldable pub find_visit : List ℕ → Unit {0} → ℕ → ℕ → DirEntry → Visit (Unit {0}) (Option Found)
find_visit name u sector index e =
    if is_end e
    then done none
    else if is_deleted e || is_volume_id e || is_long_name e || not (match_name name e.name)
    then more tt
    else done (some (record { entry = e; sector = sector; index = index }))

-- The end of the loops: the result of a visit, or 0 where none was left early.
abbrev pub finish : {S R : Type 0} → Fs → Outcome (Visit S (Option R)) → Fs × Outcome R
finish fs (ret (done (some r))) = (fs, ret r)
finish fs (ret (done none)) = (fs, fail)
finish fs (ret (more s)) = (fs, fail)
finish fs fail = (fs, fail)
finish fs hang = (fs, hang)

unfoldable pub find_entry_internal : ℕ → ℕ → List ℕ → M Found
find_entry_internal fuel dir_cluster name fs =
    let (fs1, o) = walk_dir (find_visit name) (λ u. none) fuel fs dir_cluster tt in finish fs1 o

unfoldable pub find_entry : ℕ → ℕ → List ℕ → M Found
find_entry fuel dir_cluster name = do
  guard (not (is_nil name))
  find_entry_internal fuel dir_cluster name

unfoldable pub find_dir_cluster : ℕ → ℕ → List ℕ → M ℕ
find_dir_cluster fuel dir_cluster name = do
  found ← find_entry_internal fuel dir_cluster name
  guard (is_directory found.entry)
  pure found.entry.cluster_low

unfoldable pub get_parent_cluster : ℕ → ℕ → M ℕ
unfolding find_dir_cluster
get_parent_cluster fuel dir_cluster =
    if dir_cluster == 0 then pure 0 else find_dir_cluster fuel dir_cluster (dot ∷ dot ∷ [])

-- What `fat16_get_entry_by_index` gives of an entry.
pub record Listed : Type 0 where
  pub shown : List ℕ
  pub is_dir : Bool
  pub size : ℕ

-- The body of its loops; the state is `current`.
unfoldable pub index_visit : ℕ → ℕ → ℕ → ℕ → DirEntry → Visit ℕ (Option Listed)
unfolding is_visible build_display_name
index_visit index current sector i e =
    if is_end e
    then done none
    else if not (is_visible e)
    then more current
    else if current == index
    then done (
        some (record {
          shown = build_display_name e.name;
          is_dir = is_directory e;
          size = e.file_size;
        }))
    else more (current + 1)

unfoldable pub get_entry_by_index : ℕ → ℕ → ℕ → M Listed
get_entry_by_index fuel dir_cluster index fs =
    let (fs1, o) = walk_dir (index_visit index) (λ u. none) fuel fs dir_cluster 0 in finish fs1 o

-- The characters of `print_entry_name`, for the screen and the serial port.
unfoldable pub entry_name_text : List ℕ → List ℕ
unfolding all_spaces
entry_name_text name =
    take 8 name ++ (if all_spaces (drop 8 name) then replicate 4 space else dot ∷ drop 8 name)

-- The line of an entry: two spaces after its name, `<DIR>` or five spaces, and a line feed.
unfoldable pub entry_line : DirEntry → List ℕ
unfolding entry_name_text
entry_line e =
    entry_name_text e.name
    ++ space
      ∷ space
      ∷ ((if is_directory e then b'<' ∷ b'D' ∷ b'I' ∷ b'R' ∷ b'>' ∷ [] else replicate 5 space)
          ++ 10 ∷ [])

-- What is printed so far, and whether the listing ends with a message on an error.
abbrev pub Listing : Type 0
Listing = List ℕ × Bool

unfoldable pub list_visit : List ℕ → List ℕ → ℕ → ℕ → DirEntry → Visit (List ℕ) Listing
unfolding is_visible match_pattern entry_line
list_visit pattern out sector i e =
    if is_end e
    then done (out, true)
    else if not (is_visible e) || not (match_pattern pattern e.name)
    then more out
    else more (out ++ entry_line e)

abbrev pub finish_listing : Outcome (Visit (List ℕ) Listing) → Outcome Listing
finish_listing (ret (done r)) = ret r
finish_listing (ret (more out)) = ret (out, true)
finish_listing fail = fail
finish_listing hang = hang

-- `fat16_list_dir_filtered`, with `fat16_list_root_filtered` for cluster 0.
unfoldable pub list_dir_filtered : ℕ → ℕ → List ℕ → M Listing
list_dir_filtered fuel dir_cluster pattern fs =
    let (fs1, o) = walk_dir (list_visit pattern) (λ out. (out, false)) fuel fs dir_cluster [] in
    (fs1, finish_listing o)
