-- ===== src/Dir/Shown.antt =====
-- src/kernel/storage/fat16_dir_mutation.inc and fat16_dir_lookup.inc: the names under which an
-- entry is found and listed that was made from a file name.
use minidos.Common.{
  ℕ, ◌-◌, ◌≡◌, ◌⊎◌, refl, ap, ap₂, sym, subst, ◌∙◌, true, false, List, [], ◌∷◌, ◌++◌, if◌then◌else◌,
  inl, inr, some, length, take, drop, replicate, map,
}
use minidos.Dir.Name.{
  dot, space, all_spaces, is_nil, trim, upper_char, pad, format_name, match_name,
  build_display_name,
}
use minidos.Dir.Match.{NoDot, Named, match_name_iff}
use minidos.Dir.Format.{
  trim-pad, all_spaces-replicate, take_front, drop_front, length-pad, append_nil, Formatted,
  format_name-Formatted,
}

nil_or_not : (e : List ℕ) → (e ≡ []) ⊎ (is_nil e ≡ false)
nil_or_not [] = inl refl
nil_or_not (c ∷ e) = inr refl

module _ (s n b e : List ℕ) (f : Formatted s n b e) where
  base_of : take 8 n ≡ pad 8 b
  base_of = ap (take 8) f.name ∙ take_front (pad 8 b) (pad 3 e) 8 (length-pad 8 b f.base_fits)

  ext_of : drop 8 n ≡ pad 3 e
  ext_of = ap (drop 8) f.name ∙ drop_front (pad 8 b) (pad 3 e) 8 (length-pad 8 b f.base_fits)

  trimmed_base : trim (take 8 n) ≡ b
  unfolding pad
  trimmed_base = ap trim base_of ∙ trim-pad b (8 - length b) f.base_clean

  trimmed_ext : trim (drop 8 n) ≡ e
  unfolding pad
  trimmed_ext = ap trim ext_of ∙ trim-pad e (3 - length e) f.ext_clean

  found_rest :
      ((map upper_char s ≡ b) × (e ≡ [])) ⊎ (map upper_char s ≡ b ++ dot ∷ e)
      → Named (map upper_char s) n
  unfolding Named pad
  found_rest (inl (w, none_left)) = (
    [],
    w ∙ sym trimmed_base ∙ sym (append_nil (trim (take 8 n))),
    inr (ap all_spaces (ext_of ∙ ap (pad 3) none_left) ∙ all_spaces-replicate 3),
  )
  found_rest (inr w) = (
    dot ∷ e,
    w ∙ ap (λ t. t ++ dot ∷ e) (sym trimmed_base),
    (refl, (replicate (3 - length e) space, ext_of)),
  )

  found : match_name (map upper_char s) n ≡ true
  found =
      (match_name_iff (map upper_char s) n f.plain.0 f.plain.1
          (subst NoDot (sym trimmed_base) f.no_dot)).1
        (found_rest f.whole)

  abbrev shown_ext : List ℕ → List ℕ
  shown_ext t = b ++ (if is_nil t then [] else dot ∷ t)

  listed : build_display_name n ≡ shown_ext e
  unfolding build_display_name
  listed = ap₂ (λ t u. t ++ (if is_nil u then [] else dot ∷ u)) trimmed_base trimmed_ext

  shown :
      ((map upper_char s ≡ b) × (e ≡ [])) ⊎ (map upper_char s ≡ b ++ dot ∷ e)
      → (build_display_name n ≡ map upper_char s)
        ⊎ (build_display_name n ++ dot ∷ [] ≡ map upper_char s)
  shown (inl (w, none_left)) = inl (listed ∙ ap shown_ext none_left ∙ append_nil b ∙ sym w)
  shown (inr w) = elim (nil_or_not e) [
    | inl none_left ↦ inr (
        ap (λ t. t ++ dot ∷ []) (listed ∙ ap shown_ext none_left ∙ append_nil b)
        ∙ ap (λ t. b ++ dot ∷ t) (sym none_left)
        ∙ sym w)
    | inr some_left ↦ inl (listed ∙ ap (λ t. b ++ (if t then [] else dot ∷ e)) some_left ∙ sym w)
  ]

-- A file name that fat16_format_name accepts finds, in capitals, the entry that is made from it.
pub match_name-format_name :
    (s n : List ℕ) → format_name s ≡ some n → match_name (map upper_char s) n ≡ true
match_name-format_name s n h = let (b, e, f) = format_name-Formatted s n h in found s n b e f

-- The entry that is made from an accepted file name is listed under that name in capitals, save
-- that a dot at the end of the file name is lost.
build_display_name-format_name :
    (s n : List ℕ)
    → format_name s ≡ some n
    → (build_display_name n ≡ map upper_char s)
      ⊎ (build_display_name n ++ dot ∷ [] ≡ map upper_char s)
build_display_name-format_name s n h =
    let (b, e, f) = format_name-Formatted s n h in shown s n b e f f.whole
