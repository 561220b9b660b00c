-- ===== src/Drive/Listing.antt =====
-- src/kernel/storage/drive.c: the numbers that it prints, and the list of drives, as the characters
-- for the screen. The line for the serial port is left out.
use minidos.Common.{
  ℕ, zero, suc, ◌+◌, ◌/◌, ◌%◌, Option, some, none, List, [], ◌∷◌, ◌++◌, ltb, ◌==◌, if◌then◌else◌,
  get_or,
}
use minidos.Drive.{DriveInfo, Slots, Drives, max_drives}

-- `hex`
abbrev pub hex : List ℕ
hex =
    b'0' ∷ b'1' ∷ b'2' ∷ b'3' ∷ b'4' ∷ b'5' ∷ b'6' ∷ b'7' ∷ b'8' ∷ b'9' ∷ b'A' ∷ b'B' ∷ b'C' ∷ b'D'
    ∷ b'E' ∷ b'F' ∷ []

unfoldable pub print_hex_byte : ℕ → List ℕ
print_hex_byte val = get_or hex (val / 16) 0 ∷ get_or hex (val % 16) 0 ∷ []

-- The loop that fills `buf` from the last digit on; 12 is its size.
unfoldable pub fill_digits : ℕ → ℕ → List ℕ
fill_digits zero num = []
fill_digits (suc room) num =
    let rest = fill_digits room (num / 10) in if num == 0 then [] else (b'0' + num % 10) ∷ rest

-- The loop that prints `buf` from its end.
unfoldable pub print_backwards : List ℕ → List ℕ
print_backwards [] = []
print_backwards (c ∷ buf) = print_backwards buf ++ c ∷ []

unfoldable pub print_num : ℕ → List ℕ
print_num num = if num == 0 then b'0' ∷ [] else print_backwards (fill_digits 12 num)

-- `(N MB)`, and nothing below one.
abbrev pub size_text : ℕ → List ℕ
unfolding print_num
size_text size_mb =
    if ltb 0 size_mb then b'(' ∷ (print_num size_mb ++ b' ' ∷ b'M' ∷ b'B' ∷ b')' ∷ []) else []

abbrev pub partition_text : Option ℕ → List ℕ
unfolding print_num
partition_text none = []
partition_text (some i) =
    b','
    ∷ b' '
    ∷ b'P'
    ∷ b'a'
    ∷ b'r'
    ∷ b't'
    ∷ b'i'
    ∷ b't'
    ∷ b'i'
    ∷ b'o'
    ∷ b'n'
    ∷ b' '
    ∷ print_num (i + 1)

-- `A: Type 0x06 (31 MB) [Disk 0, Partition 1]`
unfoldable pub drive_line : ℕ → DriveInfo → List ℕ
unfolding print_num print_hex_byte
drive_line i info =
    (b'A' + i) % 256
    ∷ b':'
    ∷ b' '
    ∷ b'T'
    ∷ b'y'
    ∷ b'p'
    ∷ b'e'
    ∷ b' '
    ∷ b'0'
    ∷ b'x'
    ∷ (print_hex_byte info.fs_type
        ++ b' '
          ∷ (size_text (info.sector_count / 2048)
              ++ b' '
                ∷ b'['
                ∷ b'D'
                ∷ b'i'
                ∷ b's'
                ∷ b'k'
                ∷ b' '
                ∷ (print_num info.disk_id ++ partition_text info.partition_num ++ b']' ∷ 10 ∷ [])))

-- The slots from `i` on, with `n` left.
unfoldable pub list_drives : Slots → ℕ → ℕ → List ℕ
unfolding drive_line
list_drives drives i zero = []
list_drives drives i (suc n) =
    (if (drives i).valid then drive_line i (drives i) else []) ++ list_drives drives (i + 1) n

abbrev pub heading : List ℕ
heading =
    b'A' ∷ b'v' ∷ b'a' ∷ b'i' ∷ b'l' ∷ b'a' ∷ b'b' ∷ b'l' ∷ b'e' ∷ b' ' ∷ b'd' ∷ b'r' ∷ b'i' ∷ b'v'
    ∷ b'e' ∷ b's' ∷ b':' ∷ 10 ∷ 10 ∷ []

unfoldable pub drive_list_all : Drives → List ℕ
unfolding list_drives
drive_list_all d = heading ++ list_drives d.drives 0 max_drives
