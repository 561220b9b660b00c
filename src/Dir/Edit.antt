-- ===== src/Dir/Edit.antt =====
-- src/kernel/storage/fat16_dir_mutation.inc: the functions that create and change entries. A null
-- name is an empty one.
use minidos.Common.{ℕ, Bool, true, false, not, ◌&&◌, ◌||◌, Option, some, none, List, [], ◌∷◌, ◌==◌}
use minidos.Fat.{read_sector, write_sector}
use minidos.Fat.Alloc.{alloc_cluster, zero_cluster}
use minidos.Dir.Name.{is_nil, format_name}
use minidos.Dir.Entry.{DirEntry, entry_at, put_entry, directory_attribute}
use minidos.Dir.Walk.{ret, fail, M, ◌>>=◌, ◌>>◌, pure, guard, check, check_some, attempt}
use minidos.Dir.{Found, find_entry_internal, find_dir_cluster}
use minidos.Dir.Change.{
  load, store, change_buffer, new_entry, init_dir_entries, add_dir_entry_internal,
}

-- `if (f(...)) return 0;`
abbrev pub is_none : {A : Type 0} → Option A → Bool
is_none none = true
is_none (some a) = false

abbrev pub check_absent : {A : Type 0} → M A → M (Unit {0})
check_absent m = do found ← attempt m; guard (is_none found)

-- `fat16_format_name` where its failure is that of the caller.
abbrev pub formatted : List ℕ → M (List ℕ)
formatted name fs = elim (format_name name) [ some n ↦ (fs, ret n) | none ↦ (fs, fail) ]

unfoldable pub create_entry : ℕ → ℕ → List ℕ → ℕ → ℕ → ℕ → M (Unit {0})
create_entry fuel dir_cluster name first_cluster file_size attributes = do
  guard (not (is_nil name))
  name_83 ← formatted name
  check_absent (find_entry_internal fuel dir_cluster name)
  add_dir_entry_internal fuel dir_cluster (new_entry name_83 first_cluster file_size attributes)

unfoldable pub same_name : List ℕ → List ℕ → Bool
same_name [] [] = true
same_name [] (d ∷ t) = false
same_name (c ∷ s) [] = false
same_name (c ∷ s) (d ∷ t) = c == d && same_name s t

-- The fields that `fat16_update_entry` sets.
abbrev pub updated : List ℕ → ℕ → ℕ → ℕ → DirEntry → DirEntry
updated name_83 first_cluster file_size attributes e = record e {
  name = name_83;
  attributes = attributes;
  cluster_high = 0;
  cluster_low = first_cluster;
  file_size = file_size;
}

-- `if (!same_name && fat16_find_entry_internal(...)) return 0;`
abbrev pub check_conflict : Bool → M Found → M (Unit {0})
check_conflict true find = pure tt
check_conflict false find = check_absent find

unfoldable pub update_entry : ℕ → ℕ → List ℕ → List ℕ → ℕ → ℕ → ℕ → M (Unit {0})
unfolding same_name put_entry read_sector write_sector
update_entry fuel dir_cluster old_name new_name first_cluster file_size attributes = do
  guard (not (is_nil old_name || is_nil new_name))
  name_83 ← formatted new_name
  current ← find_entry_internal fuel dir_cluster old_name
  check_conflict (same_name current.entry.name name_83)
      (find_entry_internal fuel dir_cluster new_name)
  load current.sector
  change_buffer (λ b.
      put_entry b current.index
        (updated name_83 first_cluster file_size attributes (entry_at b current.index)))
  store current.sector

unfoldable pub mkdir : ℕ → ℕ → List ℕ → M (Unit {0})
mkdir fuel dir_cluster name = do
  name_83 ← formatted name
  check_absent (find_dir_cluster fuel dir_cluster name)
  new_cluster ← check_some alloc_cluster
  check (λ fs. zero_cluster fs new_cluster)
  init_dir_entries new_cluster dir_cluster
  add_dir_entry_internal fuel dir_cluster (new_entry name_83 new_cluster 0 directory_attribute)
