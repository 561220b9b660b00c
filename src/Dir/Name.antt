-- ===== src/Dir/Name.antt =====
-- src/kernel/storage/fat16_dir_lookup.inc and fat16_dir_mutation.inc: the names of directory
-- entries. A C string is the list of its bytes before the final 0, and the name of an entry a list
-- of eleven bytes, eight of the base and three of the extension.
use minidos.Common.{
  ℕ, zero, suc, ◌+◌, ◌-◌, Bool, true, false, ◌&&◌, ◌||◌, Option, some, none, List, [], ◌∷◌, ◌++◌,
  ltb, leb, ◌==◌, if◌then◌else◌, length, take, drop, replicate,
}

abbrev pub dot : ℕ
dot = b'.'

abbrev pub space : ℕ
space = b' '

abbrev pub is_nil : List ℕ → Bool
is_nil [] = true
is_nil (c ∷ s) = false

-- `filename[0] == '.' && filename[1] == '\0'`, and the same for two dots
unfoldable pub is_dot : List ℕ → Bool
is_dot [] = false
is_dot (c ∷ s) = c == dot && is_nil s

unfoldable pub is_dot_dot : List ℕ → Bool
unfolding is_dot
is_dot_dot [] = false
is_dot_dot (c ∷ s) = c == dot && is_dot s

unfoldable pub all_spaces : List ℕ → Bool
all_spaces [] = true
all_spaces (c ∷ s) = c == space && all_spaces s

-- The tests of the names `.` and `..`: as many dots, then spaces.
unfoldable pub is_dot_entry : List ℕ → Bool
unfolding all_spaces
is_dot_entry [] = false
is_dot_entry (c ∷ s) = c == dot && all_spaces s

unfoldable pub is_dot_dot_entry : List ℕ → Bool
unfolding is_dot_entry
is_dot_dot_entry [] = false
is_dot_dot_entry (c ∷ s) = c == dot && is_dot_entry s

-- The bytes before the trailing spaces: the loops that lower `dir_name_end`, `name_end` and
-- `ext_end`.
unfoldable pub trim : List ℕ → List ℕ
trim [] = []
trim (c ∷ s) = let rest : List ℕ = trim s in if c == space && is_nil rest then [] else c ∷ rest

-- The first loop of `fat16_match_name`: the bytes that match, and what is left of the file name.
unfoldable pub match_base : List ℕ → List ℕ → ℕ → Option (ℕ × List ℕ)
match_base [] s n = some (n, s)
match_base (b ∷ bs) [] n = some (n, [])
match_base (b ∷ bs) (c ∷ s) n =
    let rest = match_base bs s (n + 1) in
    if c == dot then some (n, c ∷ s) else if b == c then rest else none

-- The loop over the extension, and the test that the file name is at its end after it.
unfoldable pub match_ext : List ℕ → List ℕ → Bool
match_ext es [] = true
match_ext [] (c ∷ s) = false
match_ext (e ∷ es) (c ∷ s) = e == c && match_ext es s

-- What follows the base in the file name, for a base of `name_end` bytes.
unfoldable pub match_rest : List ℕ → ℕ → List ℕ → Bool
unfolding all_spaces match_ext
match_rest [] name_end ext = if ltb name_end 8 then all_spaces ext else true
match_rest (c ∷ s) name_end ext = c == dot && match_ext ext s

unfoldable pub match_parts : Option (ℕ × List ℕ) → ℕ → List ℕ → Bool
unfolding match_rest
match_parts none name_end ext = false
match_parts (some (n, rest)) name_end ext = n == name_end && match_rest rest name_end ext

unfoldable pub match_name : List ℕ → List ℕ → Bool
unfolding is_dot is_dot_dot is_dot_entry is_dot_dot_entry match_base match_parts trim
match_name filename name =
    if is_dot filename
    then is_dot_entry name
    else if is_dot_dot filename
    then is_dot_dot_entry name
    else match_parts (match_base (take 8 name) filename 0) (length (trim (take 8 name)))
        (drop 8 name)

unfoldable pub build_display_name : List ℕ → List ℕ
unfolding trim
build_display_name name =
    let ext : List ℕ = trim (drop 8 name) in
    trim (take 8 name) ++ (if is_nil ext then [] else dot ∷ ext)

-- `c - 'a' + 'A'` where `c` is a small letter
unfoldable pub upper_char : ℕ → ℕ
upper_char c = if leb b'a' c && leb c b'z' then c - 32 else c

-- `"\"*/:<>?\\|+;,=[]"`
abbrev pub invalid_chars : List ℕ
invalid_chars = 34 ∷ 42 ∷ 47 ∷ 58 ∷ 60 ∷ 62 ∷ 63 ∷ 92 ∷ 124 ∷ 43 ∷ 59 ∷ 44 ∷ 61 ∷ 91 ∷ 93 ∷ []

unfoldable pub is_one_of : List ℕ → ℕ → Bool
is_one_of [] c = false
is_one_of (k ∷ ks) c = c == k || is_one_of ks c

-- The tests of one character that is already a capital.
unfoldable pub is_refused : ℕ → Bool
unfolding is_one_of
is_refused c = c == space || is_one_of invalid_chars c

abbrev pub cons_first : ℕ → Option (List ℕ × List ℕ) → Option (List ℕ × List ℕ)
cons_first c none = none
cons_first c (some (b, rest)) = some (c ∷ b, rest)

-- The first loop of `fat16_format_name` with room for `n` characters: the base and what follows.
unfoldable pub format_base : ℕ → List ℕ → Option (List ℕ × List ℕ)
unfolding upper_char is_refused
format_base n [] = some ([], [])
format_base zero (c ∷ s) = if c == dot then some ([], c ∷ s) else none
format_base (suc n) (c ∷ s) =
    let rest = cons_first (upper_char c) (format_base n s) in
    if c == dot then some ([], c ∷ s) else if is_refused (upper_char c) then none else rest

abbrev pub cons_some : ℕ → Option (List ℕ) → Option (List ℕ)
cons_some c none = none
cons_some c (some s) = some (c ∷ s)

-- The second loop, after the dot.
unfoldable pub format_ext : ℕ → List ℕ → Option (List ℕ)
unfolding upper_char is_refused
format_ext n [] = some []
format_ext zero (c ∷ s) = none
format_ext (suc n) (c ∷ s) =
    let rest = cons_some (upper_char c) (format_ext n s) in
    if is_refused (upper_char c) then none else rest

-- A part of a name in `n` bytes, filled with spaces.
unfoldable pub pad : ℕ → List ℕ → List ℕ
pad n s = s ++ replicate (n - length s) space

abbrev pub with_base : List ℕ → Option (List ℕ) → Option (List ℕ)
with_base b none = none
with_base b (some e) = some (pad 8 b ++ pad 3 e)

abbrev pub format_parts : Option (List ℕ × List ℕ) → Option (List ℕ)
format_parts none = none
format_parts (some (b, [])) = with_base b (some [])
format_parts (some (b, c ∷ s)) = with_base b (format_ext 3 s)

-- `none` is a name that is refused.
unfoldable pub format_name : List ℕ → Option (List ℕ)
unfolding is_dot is_dot_dot format_base format_ext pad
format_name input =
    if is_nil input || is_dot input || is_dot_dot input
    then none
    else format_parts (format_base 8 input)

-- The loop `while (*t)` of `fat16_wildcard_match` and its last try.
unfoldable pub any_suffix : (List ℕ → Bool) → List ℕ → Bool
any_suffix next [] = next []
any_suffix next (c ∷ t) = next (c ∷ t) || any_suffix next t

unfoldable pub match_char : ℕ → (List ℕ → Bool) → List ℕ → Bool
unfolding upper_char
match_char c next [] = false
match_char c next (d ∷ t) = (c == b'?' || upper_char c == upper_char d) && next t

-- A star before the pattern `p`, which `next` matches.
unfoldable pub match_star : List ℕ → (List ℕ → Bool) → List ℕ → Bool
unfolding any_suffix
match_star [] next t = true
match_star (d ∷ p) next t = if d == b'*' then next t else any_suffix next t

unfoldable pub wildcard_match : List ℕ → List ℕ → Bool
unfolding match_char match_star
wildcard_match [] t = is_nil t
wildcard_match (c ∷ p) t =
    if c == b'*' then match_star p (wildcard_match p) t else match_char c (wildcard_match p) t

abbrev pub is_any : List ℕ → Bool
is_any (c ∷ []) = c == b'*'
is_any (c ∷ d ∷ e ∷ []) = c == b'*' && d == dot && e == b'*'
is_any _ = false

-- The null pattern is the empty one.
unfoldable pub match_pattern : List ℕ → List ℕ → Bool
unfolding build_display_name wildcard_match
match_pattern pattern name =
    if is_nil pattern || is_any pattern
    then true
    else wildcard_match pattern (build_display_name name)
