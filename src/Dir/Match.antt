-- ===== src/Dir/Match.antt =====
-- src/kernel/storage/fat16_dir_lookup.inc: which entries fat16_match_name takes for a file name.
use minidos.Common.{
  ℕ, suc, ◌+◌, ◌≡◌, ◌≢◌, ◌⊎◌, ◌↔◌, refl, ap, sym, ◌∙◌, true, false, ◌&&◌, List, [], ◌∷◌, ◌++◌, ◌==◌,
  arith, Bool-cases, inl, inr, Option, some, none, length, take, drop, ◌≤◌,
}
use minidos.Dir.Name.{
  dot, space, is_nil, is_dot, is_dot_dot, all_spaces, trim, match_base, match_ext, match_rest,
  match_parts, match_name,
}

-- No dot in a text.
abbrev pub NoDot : List ℕ → Type 0
NoDot [] = Unit
NoDot (c ∷ s) = (c ≢ dot) × NoDot s

-- `p` is the beginning of `s`.
abbrev pub IsPrefix : List ℕ → List ℕ → Type 0
IsPrefix p s = (rest : List ℕ) × (s ≡ p ++ rest)

-- What follows the base in a file name that an extension of an entry agrees with.
abbrev pub Follows : List ℕ → ℕ → List ℕ → Type 0
Follows [] name_end ext = (8 ≤ name_end) ⊎ (all_spaces ext ≡ true)
Follows (c ∷ s) name_end ext = (c ≡ dot) × IsPrefix s ext

match_ext_sound : (es s : List ℕ) → match_ext es s ≡ true → IsPrefix s es
unfolding match_ext
match_ext_sound es [] h = (es, refl)
match_ext_sound [] (c ∷ s) h = cc
match_ext_sound (e ∷ es) (c ∷ s) h =
    let same : e ≡ c = ground arith in
    let more : match_ext es s ≡ true = ground arith in
    let (rest, eq) = match_ext_sound es s more in (rest, ground (arith, eq))

match_ext_complete : (s rest : List ℕ) → match_ext (s ++ rest) s ≡ true
unfolding match_ext
match_ext_complete [] rest = refl
match_ext_complete (c ∷ s) rest = ground (arith, match_ext_complete s rest)

-- The first loop stops at once where the file name is at its end or at a dot.
match_base_stop :
    (bs rest : List ℕ) (n : ℕ)
    → (rest ≡ []) ⊎ ((s : List ℕ) × (rest ≡ dot ∷ s))
    → match_base bs rest n ≡ some (n, rest)
unfolding match_base
match_base_stop [] rest n h = refl
match_base_stop (b ∷ bs) [] n h = refl
match_base_stop (b ∷ bs) (c ∷ rest) n (inl e) = cc
match_base_stop (b ∷ bs) (c ∷ rest) n (inr (s, e)) =
    let at_dot : (c == dot) ≡ true = ground arith in rw at_dot refl

match_base_step :
    (b : ℕ) (bs rest : List ℕ) (n : ℕ)
    → b ≢ dot
    → match_base bs (trim bs ++ rest) (n + 1) ≡ some (n + 1 + length (trim bs), rest)
    → match_base (b ∷ bs) (b ∷ trim bs ++ rest) n ≡ some (n + suc (length (trim bs)), rest)
unfolding match_base
match_base_step b bs rest n ne ih =
    let no_dot : (b == dot) ≡ false = ground arith in
    let self : (b == b) ≡ true = ground arith in rw no_dot (rw self (ih ∙ ground arith))

-- It passes over the base without its trailing spaces.
match_base-trim :
    (bs rest : List ℕ) (n : ℕ)
    → NoDot (trim bs)
    → (rest ≡ []) ⊎ ((s : List ℕ) × (rest ≡ dot ∷ s))
    → match_base bs (trim bs ++ rest) n ≡ some (n + length (trim bs), rest)
unfolding trim
match_base-trim [] rest n nd h = match_base_stop [] rest n h ∙ ground arith
match_base-trim (b ∷ bs) rest n nd h = elim (Bool-cases (b == space && is_nil (trim bs))) [
  | inl gone ↦ rw gone (match_base_stop (b ∷ bs) rest n h ∙ ground arith)
  | inr kept ↦
      let nd' = rw kept at nd in
      rw kept (match_base_step b bs rest n nd'.0 (match_base-trim bs rest (n + 1) nd'.1 h))
]

take-trim : (bs : List ℕ) → take (length (trim bs)) bs ≡ trim bs
unfolding trim
take-trim [] = refl
take-trim (b ∷ bs) = elim (Bool-cases (b == space && is_nil (trim bs))) [
  | inl gone ↦ rw gone refl
  | inr kept ↦ rw kept (ap (λ t. b ∷ t) (take-trim bs))
]

match_base_sound :
    (bs s rest : List ℕ) (n m : ℕ)
    → match_base bs s n ≡ some (m, rest)
    → (k : ℕ) × (m ≡ n + k) × (s ≡ take k bs ++ rest)
unfolding match_base
match_base_sound [] s rest n m h = (0, ground arith, ground arith)
match_base_sound (b ∷ bs) [] rest n m h = (0, ground arith, ground arith)
match_base_sound (b ∷ bs) (c ∷ s) rest n m h = elim (Bool-cases (c == dot)) [
  | inl stop ↦ let g = rw stop at h in (0, ground arith, ground arith)
  | inr on ↦ elim (Bool-cases (b == c)) [
    | inl same ↦
        let g = rw same at (let g1 = rw on at h in g1) in
        let (k, e, f) = match_base_sound bs s rest (n + 1) m g in (suc k, omega arith, ground arith)
    | inr differs ↦ let g = rw differs at (let g1 = rw on at h in g1) in cc
  ]
]

match_rest_sound :
    (rest : List ℕ) (name_end : ℕ) (ext : List ℕ)
    → match_rest rest name_end ext ≡ true
    → Follows rest name_end ext
unfolding match_rest
match_rest_sound [] name_end ext h = ground arith
match_rest_sound (c ∷ s) name_end ext h =
    let at_dot : c ≡ dot = ground arith in
    let more : match_ext ext s ≡ true = ground arith in (at_dot, match_ext_sound ext s more)

match_rest_complete :
    (rest : List ℕ) (name_end : ℕ) (ext : List ℕ)
    → Follows rest name_end ext
    → match_rest rest name_end ext ≡ true
unfolding match_rest
match_rest_complete [] name_end ext h = ground arith
match_rest_complete (c ∷ s) name_end ext (at_dot, (more, e)) =
    rw e (ground (arith, match_ext_complete s more))

Follows-start :
    (rest : List ℕ) (name_end : ℕ) (ext : List ℕ)
    → Follows rest name_end ext
    → (rest ≡ []) ⊎ ((s : List ℕ) × (rest ≡ dot ∷ s))
Follows-start [] name_end ext h = inl refl
Follows-start (c ∷ s) name_end ext (e, h) = inr (s, ap (λ d. d ∷ s) e)

-- A file name that an entry is found under: its base, and then the end or a dot and a beginning of
-- its extension.
unfoldable pub Named : List ℕ → List ℕ → Type 0
Named filename name =
    (rest : List ℕ) × (filename ≡ trim (take 8 name) ++ rest)
    × Follows rest (length (trim (take 8 name))) (drop 8 name)

parts_sound :
    (o : Option (ℕ × List ℕ)) (name_end : ℕ) (ext : List ℕ)
    → match_parts o name_end ext ≡ true
    → (rest : List ℕ) × (o ≡ some (name_end, rest)) × Follows rest name_end ext
unfolding match_parts
parts_sound none name_end ext h = cc
parts_sound (some (n, rest)) name_end ext h =
    let same : n ≡ name_end = ground arith in
    let more : match_rest rest name_end ext ≡ true = ground arith in
    (rest, ap (λ k. some (k, rest)) same, match_rest_sound rest name_end ext more)

name_sound :
    (filename name : List ℕ)
    → is_dot filename ≡ false
    → is_dot_dot filename ≡ false
    → match_name filename name ≡ true
    → Named filename name
unfolding match_name Named
name_sound filename name a b h =
    let base : List ℕ = take 8 name in
    let g = rw b at (let g1 = rw a at h in g1) in
    let (rest, e, f) =
      parts_sound (match_base base filename 0) (length (trim base)) (drop 8 name) g in
    let (k, len, s) = match_base_sound base filename rest 0 (length (trim base)) e in
    let same : length (trim base) ≡ k = omega arith in
    (rest, s ∙ ap (λ j. take j base ++ rest) (sym same) ∙ ap (λ t. t ++ rest) (take-trim base), f)

name_complete :
    (filename name : List ℕ)
    → is_dot filename ≡ false
    → is_dot_dot filename ≡ false
    → NoDot (trim (take 8 name))
    → Named filename name
    → match_name filename name ≡ true
unfolding match_name Named match_parts
name_complete filename name a b nd (rest, e, f) =
    let base : List ℕ = take 8 name in
    let follows : match_rest rest (length (trim base)) (drop 8 name) ≡ true =
      match_rest_complete rest (length (trim base)) (drop 8 name) f in
    let self : (length (trim base) == length (trim base)) ≡ true = ground arith in
    let whole : 0 + length (trim base) ≡ length (trim base) = omega arith in
    rw a (
      rw b (
        ap (λ t. match_parts (match_base base t 0) (length (trim base)) (drop 8 name)) e
        ∙ ap (λ o. match_parts o (length (trim base)) (drop 8 name))
            (match_base-trim base rest 0 nd
                (Follows-start rest (length (trim base)) (drop 8 name) f)
              ∙ ap (λ k. some (k, rest)) whole)
        ∙ rw self follows))

-- For a file name other than `.` and `..`, and an entry with no dot in its base, fat16_match_name
-- says yes exactly where the file name is the base of the entry and then either nothing, with an
-- extension of spaces or a base of eight bytes, or a dot and any beginning of the extension.
pub match_name_iff :
    (filename name : List ℕ)
    → is_dot filename ≡ false
    → is_dot_dot filename ≡ false
    → NoDot (trim (take 8 name))
    → (match_name filename name ≡ true) ↔ Named filename name
match_name_iff filename name a b nd =
    (name_sound filename name a b, name_complete filename name a b nd)
