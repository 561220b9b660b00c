-- ===== src/Dir/Tests.antt =====
-- Names of files, and the root directory of a small volume: the theorems, and runs of the functions.
use minidos.Common.{
  ◌≤◌, ◌+◌, ◌*◌, ℕ, ◌≡◌, ◌↔◌, ◌<◌, refl, true, false, List, [], ◌∷◌, ◌++◌, ◌==◌, if◌then◌else◌,
  get_or, arith, some, map, take, ltb,
}
use minidos.Fat.Geometry.{get_root_dir_start, get_root_dir_sectors}
use minidos.Fat.{fat16, Fs}
use minidos.Dir.Name.{
  is_dot, is_dot_dot, trim, match_name, format_name, build_display_name, wildcard_match, upper_char,
}
use minidos.Dir.Wildcard.{Matches, wildcard_match_iff}
use minidos.Dir.Match.{NoDot, Named, match_name_iff}
use minidos.Dir.Shown.{match_name-format_name}
use minidos.Dir.Entry.{entry_at, entries_per_sector, is_end}
use minidos.Dir.Walk.{ret, fail, walk_dir, walk_sectors, visit_entries}
use minidos.Dir.{find_visit, find_entry_internal, find_entry}
use minidos.Dir.Change.{new_entry, free_visit, find_free_root_entry}
use minidos.Dir.Edit.{create_entry}
use minidos.Dir.Created.{IsSolid, find_entry-create_entry}
use minidos.Dir.Remove.{delete_matching, is_target}
use minidos.Dir.Lost.{FreesNone, targets, delete_matching-loses}

-- `A.C`, `a.c`, `*.?P*` and the entry of `A.CPP`
abbrev a_c : List ℕ
a_c = b'A' ∷ b'.' ∷ b'C' ∷ []

abbrev small_a_c : List ℕ
small_a_c = b'a' ∷ b'.' ∷ b'c' ∷ []

abbrev star_p : List ℕ
star_p = b'*' ∷ b'.' ∷ b'?' ∷ b'p' ∷ b'*' ∷ []

abbrev seven_spaces : List ℕ
seven_spaces = 32 ∷ 32 ∷ 32 ∷ 32 ∷ 32 ∷ 32 ∷ 32 ∷ []

abbrev a_cpp : List ℕ
a_cpp = b'A' ∷ seven_spaces ++ b'C' ∷ b'P' ∷ b'P' ∷ []

abbrev entry_a_c : List ℕ
entry_a_c = b'A' ∷ seven_spaces ++ b'C' ∷ 32 ∷ 32 ∷ []

wildcard_match_iff_example :
    (wildcard_match star_p (build_display_name a_cpp) ≡ true)
    ↔ Matches star_p (build_display_name a_cpp)
wildcard_match_iff_example = wildcard_match_iff star_p (build_display_name a_cpp)

pattern_fits : wildcard_match star_p (build_display_name a_cpp) ≡ true
unfolding wildcard_match build_display_name
pattern_fits = refl

is_dot-a_c : is_dot a_c ≡ false
unfolding is_dot
is_dot-a_c = refl

is_dot_dot-a_c : is_dot_dot a_c ≡ false
unfolding is_dot_dot
is_dot_dot-a_c = refl

base-NoDot : NoDot (trim (take 8 a_cpp))
unfolding trim
base-NoDot = (omega arith, tt)

match_name_iff_example : (match_name a_c a_cpp ≡ true) ↔ Named a_c a_cpp
match_name_iff_example = match_name_iff a_c a_cpp is_dot-a_c is_dot_dot-a_c base-NoDot

other_extension_fits : match_name a_c a_cpp ≡ true
unfolding match_name
other_extension_fits = refl

small_formatted : format_name small_a_c ≡ some entry_a_c
unfolding format_name
small_formatted = refl

match_name-format_name_example : match_name (map upper_char small_a_c) entry_a_c ≡ true
match_name-format_name_example = match_name-format_name small_a_c entry_a_c small_formatted

-- A file name in small letters does not find its own entry.
small_letters_miss : match_name small_a_c entry_a_c ≡ false
unfolding match_name
small_letters_miss = refl

-- The root directory holds `A.CPP` and nothing else.
root_byte : ℕ → ℕ
root_byte i = if ltb i 11 then get_or a_cpp i 0 else if i == 11 then 0x20 else 0

abbrev volume : Fs
volume = record {
  bpb = record {
    bytes_per_sector = 512;
    sectors_per_cluster = 1;
    reserved_sectors = 1;
    fat_count = 1;
    root_entries = 16;
    total_sectors_16 = 5000;
    media_type = 0xF8;
    sectors_per_fat = 20;
    sectors_per_track = 1;
    heads = 1;
    hidden_sectors = 0;
    total_sectors_32 = 0;
  };
  fat_type = fat16;
  device = record {
    sectors = λ l i. if l == 21 then root_byte i else 0;
    read_fails = λ l. false;
    write_fails = λ l. false;
  };
  sector_buffer = λ i. 0;
  aux_buffer = λ i. 0;
}

some_root : 0 < get_root_dir_sectors volume.bpb
unfolding get_root_dir_sectors
some_root = omega arith

root_ends : is_end (entry_at (volume.device.sectors (get_root_dir_start volume.bpb)) 1) ≡ true
unfolding entry_at get_root_dir_start root_byte
root_ends = refl

beyond_name : (x : ℕ) → 12 ≤ x → root_byte x ≡ 0
unfolding root_byte
beyond_name x h = ground arith

no_chain : (j : ℕ) → (entry_at root_byte j).cluster_low ≡ 0
unfolding entry_at
no_chain j =
    omega
      (arith, beyond_name (32 * j + 26) (omega arith), beyond_name (32 * j + 26 + 1) (omega arith))

none_freed : FreesNone star_p true (volume.device.sectors (get_root_dir_start volume.bpb)) 0
unfolding get_root_dir_start
none_freed j le hit = let zero = no_chain j in ground arith

delete_matching-loses_example :
    ((delete_matching 9 0 star_p true volume).0.device ≡ volume.device)
    × ((delete_matching 9 0 star_p true volume).1
        ≡ ret (
            targets star_p
              (volume.device.sectors (get_root_dir_start volume.bpb))
              0
              entries_per_sector))
delete_matching-loses_example =
    delete_matching-loses 9 1 star_p true volume refl some_root refl (omega arith) root_ends
      none_freed

one_counted :
    targets star_p (volume.device.sectors (get_root_dir_start volume.bpb)) 0 entries_per_sector ≡ 1
unfolding targets is_target entry_at get_root_dir_start root_byte
one_counted = refl

volume-IsSolid : IsSolid volume.device
volume-IsSolid = record { reads = λ l. refl; writes = λ l. refl }

-- `B.C`, which is not there.
abbrev b_c : List ℕ
b_c = b'B' ∷ b'.' ∷ b'C' ∷ []

abbrev entry_b_c : List ℕ
entry_b_c = b'B' ∷ seven_spaces ++ b'C' ∷ 32 ∷ 32 ∷ []

capitals : map upper_char b_c ≡ b_c
unfolding upper_char
capitals = refl

b_c_formatted : format_name b_c ≡ some entry_b_c
unfolding format_name
b_c_formatted = refl

not_there : (find_entry_internal 9 0 b_c volume).1 ≡ fail
unfolding find_entry_internal walk_dir walk_sectors visit_entries get_root_dir_sectors find_visit
    entry_at get_root_dir_start root_byte match_name
not_there = refl

second_slot : (find_free_root_entry volume).1 ≡ ret (21, 1)
unfolding find_free_root_entry walk_sectors visit_entries get_root_dir_sectors free_visit entry_at
    get_root_dir_start root_byte
second_slot = refl

find_entry-create_entry_example :
    ((create_entry 9 0 b_c 7 1000 0x20 volume).1 ≡ ret tt)
    × ((find_entry 9 0 b_c (create_entry 9 0 b_c 7 1000 0x20 volume).0).1
        ≡ ret (record { entry = new_entry entry_b_c 7 1000 0x20; sector = 21; index = 1 }))
find_entry-create_entry_example =
    find_entry-create_entry 9 b_c entry_b_c 7 1000 0x20 volume 21 1 volume-IsSolid capitals
      b_c_formatted (omega arith) (omega arith) (omega arith) (omega arith) (omega arith) not_there
      second_slot
