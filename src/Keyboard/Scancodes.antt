-- ===== src/Keyboard/Scancodes.antt =====
-- src/kernel/input/keyboard.c: the tables from scancodes to characters, and the case of letters.
-- A character is its code; the characters of the tables are ASCII.
use minidos.Common.{
  ℕ, ◌+◌, ◌-◌, Bool, not, ◌&&◌, List, [], ◌∷◌, ltb, leb, ◌==◌, if◌then◌else◌, get_or, length,
}

abbrev pub scancode_map_lower : List ℕ
scancode_map_lower =
    0 ∷ 27 ∷ b'1' ∷ b'2' ∷ b'3' ∷ b'4' ∷ b'5' ∷ b'6' ∷ b'7' ∷ b'8' ∷ b'9' ∷ b'0' ∷ b'-' ∷ b'=' ∷ 8
    ∷ 9 ∷ b'q' ∷ b'w' ∷ b'e' ∷ b'r' ∷ b't' ∷ b'y' ∷ b'u' ∷ b'i' ∷ b'o' ∷ b'p' ∷ b'[' ∷ b']' ∷ 10 ∷ 0
    ∷ b'a' ∷ b's' ∷ b'd' ∷ b'f' ∷ b'g' ∷ b'h' ∷ b'j' ∷ b'k' ∷ b'l' ∷ b';' ∷ 39 ∷ b'`' ∷ 0 ∷ 92
    ∷ b'z' ∷ b'x' ∷ b'c' ∷ b'v' ∷ b'b' ∷ b'n' ∷ b'm' ∷ b',' ∷ b'.' ∷ b'/' ∷ 0 ∷ b'*' ∷ 0 ∷ b' ' ∷ []

abbrev pub scancode_map_upper : List ℕ
scancode_map_upper =
    0 ∷ 27 ∷ b'!' ∷ b'@' ∷ b'#' ∷ b'$' ∷ b'%' ∷ b'^' ∷ b'&' ∷ b'*' ∷ b'(' ∷ b')' ∷ b'_' ∷ b'+' ∷ 8
    ∷ 9 ∷ b'Q' ∷ b'W' ∷ b'E' ∷ b'R' ∷ b'T' ∷ b'Y' ∷ b'U' ∷ b'I' ∷ b'O' ∷ b'P' ∷ b'{' ∷ b'}' ∷ 10 ∷ 0
    ∷ b'A' ∷ b'S' ∷ b'D' ∷ b'F' ∷ b'G' ∷ b'H' ∷ b'J' ∷ b'K' ∷ b'L' ∷ b':' ∷ 34 ∷ b'~' ∷ 0 ∷ b'|'
    ∷ b'Z' ∷ b'X' ∷ b'C' ∷ b'V' ∷ b'B' ∷ b'N' ∷ b'M' ∷ b'<' ∷ b'>' ∷ b'?' ∷ 0 ∷ b'*' ∷ 0 ∷ b' ' ∷ []

abbrev pub scancode_set2_map_lower : List (ℕ × ℕ)
scancode_set2_map_lower =
    (0x0D, 9)
    ∷ (0x0E, b'`')
    ∷ (0x15, b'q')
    ∷ (0x16, b'1')
    ∷ (0x1A, b'z')
    ∷ (0x1B, b's')
    ∷ (0x1C, b'a')
    ∷ (0x1D, b'w')
    ∷ (0x1E, b'2')
    ∷ (0x21, b'c')
    ∷ (0x22, b'x')
    ∷ (0x23, b'd')
    ∷ (0x24, b'e')
    ∷ (0x25, b'4')
    ∷ (0x26, b'3')
    ∷ (0x29, b' ')
    ∷ (0x2A, b'v')
    ∷ (0x2B, b'f')
    ∷ (0x2C, b't')
    ∷ (0x2D, b'r')
    ∷ (0x2E, b'5')
    ∷ (0x31, b'n')
    ∷ (0x32, b'b')
    ∷ (0x33, b'h')
    ∷ (0x34, b'g')
    ∷ (0x35, b'y')
    ∷ (0x36, b'6')
    ∷ (0x3A, b'm')
    ∷ (0x3B, b'j')
    ∷ (0x3C, b'u')
    ∷ (0x3D, b'7')
    ∷ (0x3E, b'8')
    ∷ (0x41, b',')
    ∷ (0x42, b'k')
    ∷ (0x43, b'i')
    ∷ (0x44, b'o')
    ∷ (0x45, b'0')
    ∷ (0x46, b'9')
    ∷ (0x49, b'.')
    ∷ (0x4A, b'/')
    ∷ (0x4B, b'l')
    ∷ (0x4C, b';')
    ∷ (0x4D, b'p')
    ∷ (0x4E, b'-')
    ∷ (0x52, 39)
    ∷ (0x54, b'[')
    ∷ (0x55, b'=')
    ∷ (0x5A, 10)
    ∷ (0x5B, b']')
    ∷ (0x5D, 92)
    ∷ (0x66, 8)
    ∷ (0x76, 27)
    ∷ []

abbrev pub scancode_set2_map_upper : List (ℕ × ℕ)
scancode_set2_map_upper =
    (0x0D, 9)
    ∷ (0x0E, b'~')
    ∷ (0x15, b'Q')
    ∷ (0x16, b'!')
    ∷ (0x1A, b'Z')
    ∷ (0x1B, b'S')
    ∷ (0x1C, b'A')
    ∷ (0x1D, b'W')
    ∷ (0x1E, b'@')
    ∷ (0x21, b'C')
    ∷ (0x22, b'X')
    ∷ (0x23, b'D')
    ∷ (0x24, b'E')
    ∷ (0x25, b'$')
    ∷ (0x26, b'#')
    ∷ (0x29, b' ')
    ∷ (0x2A, b'V')
    ∷ (0x2B, b'F')
    ∷ (0x2C, b'T')
    ∷ (0x2D, b'R')
    ∷ (0x2E, b'%')
    ∷ (0x31, b'N')
    ∷ (0x32, b'B')
    ∷ (0x33, b'H')
    ∷ (0x34, b'G')
    ∷ (0x35, b'Y')
    ∷ (0x36, b'^')
    ∷ (0x3A, b'M')
    ∷ (0x3B, b'J')
    ∷ (0x3C, b'U')
    ∷ (0x3D, b'&')
    ∷ (0x3E, b'*')
    ∷ (0x41, b'<')
    ∷ (0x42, b'K')
    ∷ (0x43, b'I')
    ∷ (0x44, b'O')
    ∷ (0x45, b')')
    ∷ (0x46, b'(')
    ∷ (0x49, b'>')
    ∷ (0x4A, b'?')
    ∷ (0x4B, b'L')
    ∷ (0x4C, b':')
    ∷ (0x4D, b'P')
    ∷ (0x4E, b'_')
    ∷ (0x52, 34)
    ∷ (0x54, b'{')
    ∷ (0x55, b'+')
    ∷ (0x5A, 10)
    ∷ (0x5B, b'}')
    ∷ (0x5D, b'|')
    ∷ (0x66, 8)
    ∷ (0x76, 27)
    ∷ []

-- A designated initialiser: the entries that it does not name are 0.
abbrev pub designated : List (ℕ × ℕ) → ℕ → ℕ
designated [] i = 0
designated ((j, c) ∷ t) i = if j == i then c else designated t i

unfoldable pub scancode_set1_to_char : ℕ → Bool → ℕ
scancode_set1_to_char scancode shift =
    let map : List ℕ = if shift then scancode_map_upper else scancode_map_lower in
    if ltb scancode (length scancode_map_lower) then get_or map scancode 0 else 0

unfoldable pub scancode_set2_to_char : ℕ → Bool → ℕ
scancode_set2_to_char scancode shift =
    let map : List (ℕ × ℕ) = if shift then scancode_set2_map_upper else scancode_set2_map_lower in
    if ltb scancode 128 then designated map scancode else 0

abbrev pub is_lower : ℕ → Bool
is_lower c = leb b'a' c && leb c b'z'

abbrev pub is_upper : ℕ → Bool
is_upper c = leb b'A' c && leb c b'Z'

unfoldable pub apply_caps : ℕ → Bool → Bool → ℕ
apply_caps c shift caps =
    if is_lower c
    then (if caps && not shift then c - b'a' + b'A' else c)
    else if is_upper c
    then (if caps && shift then c - b'A' + b'a' else c)
    else c

unfoldable pub to_lower_char : ℕ → ℕ
to_lower_char c = if is_upper c then c - b'A' + b'a' else c

-- The end of both decoders: the case of the character, and the bit that Alt adds to a letter.
-- `0x80 | lower` is a sum, since a letter is below 0x80.
unfoldable pub finish_char : ℕ → Bool → Bool → Bool → ℕ
unfolding apply_caps to_lower_char
finish_char raw shift caps alt =
    let c : ℕ = apply_caps raw shift caps in
    let lower : ℕ = to_lower_char c in
    if not (c == 0) && alt then (if is_lower lower then 0x80 + lower else c) else c
