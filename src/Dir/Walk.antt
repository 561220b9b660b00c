-- ===== src/Dir/Walk.antt =====
-- src/kernel/storage/fat16_dir_lookup.inc and fat16_dir_mutation.inc: the two nested loops that each
-- function of these files writes out, over the sectors of the root directory, or over the clusters
-- of another directory and their sectors, and in each sector over its entries. The body of the
-- innermost loop is the parameter `visit`. The loop over clusters has no bound in the code: `hang`
-- means that it has not ended within the given number of clusters.
use minidos.Common.{
  ℕ, zero, suc, ◌+◌, ◌-◌, ◌*◌, ◌%◌, ◌^◌, Bool, true, false, Option, some, none, ◌==◌, if◌then◌else◌,
}
use minidos.Fat.Geometry.{
  get_root_dir_start, get_root_dir_sectors, get_data_start, fat_is_data_cluster,
}
use minidos.Fat.{Fs, Sector, read_sector, read_fat_entry}
use minidos.Dir.Entry.{DirEntry, entry_at, entries_per_sector}

-- What a function that may return 0 does: it returns a value, fails, or loops on.
pub data Outcome (A : Type 0) : Type 0 where
  ret : A → Outcome A
  fail : Outcome A
  hang : Outcome A

abbrev pub M : Type 0 → Type 0
M A = Fs → Fs × Outcome A

abbrev pub after : {A B : Type 0} → (A → M B) → Fs → Outcome A → Fs × Outcome B
after f fs (ret a) = f a fs
after f fs fail = (fs, fail)
after f fs hang = (fs, hang)

infixl 5 ◌>>=◌ ◌>>◌
abbrev pub ◌>>=◌ : {A B : Type 0} → M A → (A → M B) → M B
◌>>=◌ m f fs = let (fs1, o) = m fs in after f fs1 o

abbrev pub ◌>>◌ : {B : Type 0} → M (Unit {0}) → M B → M B
m >> k = m >>= λ _. k

abbrev pub pure : {A : Type 0} → A → M A
pure a fs = (fs, ret a)

abbrev pub guard : Bool → M (Unit {0})
guard b fs = if b then (fs, ret tt) else (fs, fail)

-- `if (!f(...)) return 0;` for a function that has a flag as its result.
abbrev pub check : (Fs → Fs × Bool) → M (Unit {0})
check f fs = let (fs1, ok) = f fs in if ok then (fs1, ret tt) else (fs1, fail)

-- The same for one that gives a value where it succeeds.
abbrev pub check_some : {A : Type 0} → (Fs → Fs × Option A) → M A
check_some f fs = let (fs1, o) = f fs in elim o [ some a ↦ (fs1, ret a) | none ↦ (fs1, fail) ]

abbrev pub as_option : {A : Type 0} → Fs → Outcome A → Fs × Outcome (Option A)
as_option fs (ret a) = (fs, ret (some a))
as_option fs fail = (fs, ret none)
as_option fs hang = (fs, hang)

-- A call whose failure is no failure of the caller.
abbrev pub attempt : {A : Type 0} → M A → M (Option A)
attempt m fs = let (fs1, o) = m fs in as_option fs1 o

-- The body of the innermost loop goes on with a new state, or leaves all loops with a result.
pub data Visit (S R : Type 0) : Type 0 where
  more : S → Visit S R
  done : R → Visit S R

-- The rounds after a visit.
abbrev pub and_then : {S R : Type 0} → Visit S R → (S → Visit S R) → Visit S R
and_then (done r) onward = done r
and_then (more s) onward = onward s

abbrev pub go_on : {S R : Type 0} → Fs → Visit S R → (S → Fs × Visit S R) → Fs × Visit S R
go_on fs (done r) onward = (fs, done r)
go_on fs (more s) onward = onward s

-- The sector that a cluster begins at, for a data cluster.
abbrev pub cluster_sector : Fs → ℕ → ℕ
cluster_sector fs cluster = get_data_start fs.bpb + (cluster - 2) * fs.bpb.sectors_per_cluster

module _ {S R : Type 0} (visit : S → ℕ → ℕ → DirEntry → Visit S R) (failed : S → R) where
  -- The entries of the sector `lba` from entry `i` on, with `n` entries left.
  unfoldable pub visit_entries : ℕ → Sector → ℕ → ℕ → S → Visit S R
  visit_entries lba b i zero s = more s
  visit_entries lba b i (suc n) s =
      and_then (visit s lba i (entry_at b i)) (λ s'. visit_entries lba b (i + 1) n s')

  -- The sectors from `lba` on, with `n` sectors left.
  unfoldable pub walk_sectors : Fs → ℕ → ℕ → S → Fs × Visit S R
  unfolding read_sector
  walk_sectors fs lba zero s = (fs, more s)
  walk_sectors fs lba (suc n) s =
      let (fs1, ok) = read_sector fs lba in
      let onward : Fs × Visit S R =
        go_on fs1 (visit_entries lba fs1.sector_buffer 0 entries_per_sector s)
          (λ s'. walk_sectors fs1 (lba + 1) n s') in
      if ok then onward else (fs1, done (failed s))

  -- The clusters from `cluster` on; the first argument bounds their number.
  unfoldable pub walk_chain : ℕ → Fs → ℕ → S → Fs × Outcome (Visit S R)
  walk_chain zero fs cluster s = (fs, hang)
  walk_chain (suc fuel) fs cluster s = elim (fat_is_data_cluster fs.bpb cluster) [
    | false ↦ (fs, ret (more s))
    | true ↦
        let (fs1, v) = walk_sectors fs (cluster_sector fs cluster) fs.bpb.sectors_per_cluster s in
        elim v [
          | done r ↦ (fs1, ret (done r))
          | more s' ↦
              let (fs2, next) = read_fat_entry fs1 (cluster % 2 ^ 16) in walk_chain fuel fs2 next s'
        ]
  ]

  unfoldable pub walk_dir : ℕ → Fs → ℕ → S → Fs × Outcome (Visit S R)
  walk_dir fuel fs dir_cluster s =
      let (fs1, v) = walk_sectors fs (get_root_dir_start fs.bpb) (get_root_dir_sectors fs.bpb) s in
      if dir_cluster == 0 then (fs1, ret v) else walk_chain fuel fs dir_cluster s
