-- ===== src/Dir/Wildcard.antt =====
-- src/kernel/storage/fat16_dir_lookup.inc: fat16_wildcard_match against what a pattern means.
use minidos.Common.{
  ℕ, ◌≡◌, ◌≢◌, ◌↔◌, refl, Bool, true, false, ◌||◌, List, [], ◌∷◌, ◌==◌, arith, ==_iff, Bool-cases,
  inl, inr,
}
use minidos.Dir.Name.{is_nil, upper_char, any_suffix, match_char, match_star, wildcard_match}

-- A star stands for any text, a question mark for any character, and any other character for itself
-- as a small letter or a capital.
pub data Matches : List ℕ → List ℕ → Type 0 where
  end : Matches [] []
  skip : {c : ℕ} {p t : List ℕ} → c ≡ b'*' → Matches p t → Matches (c ∷ p) t
  eat : {c d : ℕ} {p t : List ℕ} → c ≡ b'*' → Matches (c ∷ p) t → Matches (c ∷ p) (d ∷ t)
  any :
      {c d : ℕ} {p t : List ℕ}
      → c ≢ b'*'
      → (c == b'?' || upper_char c == upper_char d) ≡ true
      → Matches p t
      → Matches (c ∷ p) (d ∷ t)

nil_only : (t : List ℕ) → is_nil t ≡ true → Matches [] t
nil_only [] h = end
nil_only (c ∷ t) h = cc

star_all : {c : ℕ} (t : List ℕ) → c ≡ b'*' → Matches (c ∷ []) t
star_all [] e = skip e end
star_all (d ∷ t) e = eat e (star_all t e)

-- A suffix that matches after a star.
suffix_sound :
    {c : ℕ} {p : List ℕ} (next : List ℕ → Bool) (t : List ℕ)
    → ((u : List ℕ) → next u ≡ true → Matches p u)
    → c ≡ b'*'
    → any_suffix next t ≡ true
    → Matches (c ∷ p) t
unfolding any_suffix
suffix_sound next [] sound e h = skip e (sound [] h)
suffix_sound next (d ∷ t) sound e h = elim (Bool-cases (next (d ∷ t))) [
  | inl now ↦ skip e (sound (d ∷ t) now)
  | inr later ↦ eat e (suffix_sound next t sound e (let g = rw later at h in g))
]

star_sound :
    {c : ℕ} (p : List ℕ) (next : List ℕ → Bool) (t : List ℕ)
    → ((u : List ℕ) → next u ≡ true → Matches p u)
    → c ≡ b'*'
    → match_star p next t ≡ true
    → Matches (c ∷ p) t
unfolding match_star
star_sound [] next t sound e h = star_all t e
star_sound (d ∷ p) next t sound e h = elim (Bool-cases (d == b'*')) [
  | inl more ↦ let g = rw more at h in skip e (sound t g)
  | inr last ↦ let g = rw last at h in suffix_sound next t sound e g
]

char_sound :
    {c : ℕ} {p : List ℕ} (next : List ℕ → Bool) (t : List ℕ)
    → ((u : List ℕ) → next u ≡ true → Matches p u)
    → c ≢ b'*'
    → match_char c next t ≡ true
    → Matches (c ∷ p) t
unfolding match_char
char_sound next [] sound ne h = cc
char_sound {c} next (d ∷ t) sound ne h =
    elim (Bool-cases (c == b'?' || upper_char c == upper_char d)) [
      | inl fits ↦ let g = rw fits at h in any ne fits (sound t g)
      | inr bad ↦ let g = rw bad at h in cc
    ]

Matches-sound : (p t : List ℕ) → wildcard_match p t ≡ true → Matches p t
unfolding wildcard_match
Matches-sound [] t h = nil_only t h
Matches-sound (c ∷ p) t h = elim (Bool-cases (c == b'*')) [
  | inl star ↦
      let g = rw star at h in
      star_sound p (wildcard_match p) t (Matches-sound p) ((==_iff c b'*').0 star) g
  | inr char ↦
      let g = rw char at h in
      let ne : c ≢ b'*' = ground arith in char_sound (wildcard_match p) t (Matches-sound p) ne g
]

now_suffix : (next : List ℕ → Bool) (t : List ℕ) → next t ≡ true → any_suffix next t ≡ true
unfolding any_suffix
now_suffix next [] h = h
now_suffix next (c ∷ t) h = ground arith

or_right : (a b : Bool) → b ≡ true → (a || b) ≡ true
or_right a b h = ground arith

star_complete :
    (p : List ℕ) (c : ℕ) (t : List ℕ)
    → c ≡ b'*'
    → ((u : List ℕ) → Matches p u → wildcard_match p u ≡ true)
    → Matches (c ∷ p) t
    → match_star p (wildcard_match p) t ≡ true
unfolding match_star any_suffix
star_complete [] c t e whole m = refl
star_complete (d ∷ p) c t e whole (skip h m) = elim (Bool-cases (d == b'*')) [
  | inl more ↦ rw more (whole t m)
  | inr last ↦ rw last (now_suffix (wildcard_match (d ∷ p)) t (whole t m))
]
star_complete (d ∷ p) c (x ∷ t) e whole (eat h m) = elim (Bool-cases (d == b'*')) [
  | inl more ↦
      let again = star_complete (d ∷ p) c t e whole m in
      let now = rw more at again in
      rw more (whole (x ∷ t) (eat ((==_iff d b'*').0 more) (Matches-sound (d ∷ p) t now)))
  | inr last ↦
      let again = star_complete (d ∷ p) c t e whole m in
      let later = rw last at again in
      rw last
        (or_right (wildcard_match (d ∷ p) (x ∷ t)) (any_suffix (wildcard_match (d ∷ p)) t) later)
]
star_complete (d ∷ p) c (x ∷ t) e whole (any ne fits m) = absurd (ne e)

Matches-complete : (p t : List ℕ) → Matches p t → wildcard_match p t ≡ true
unfolding wildcard_match match_char
Matches-complete [] [] end = refl
Matches-complete [] (d ∷ t) m = elim m [ ]
Matches-complete (c ∷ p) t (skip e m) = rw e (star_complete p c t e (Matches-complete p) (skip e m))
Matches-complete (c ∷ p) (d ∷ t) (eat e m) =
    rw e (star_complete p c (d ∷ t) e (Matches-complete p) (eat e m))
Matches-complete (c ∷ p) (d ∷ t) (any ne fits m) =
    let char : (c == b'*') ≡ false = ground arith in rw char (rw fits (Matches-complete p t m))

-- fat16_wildcard_match ends on every pattern and text, and says yes exactly where the text matches
-- the pattern.
pub wildcard_match_iff : (p t : List ℕ) → (wildcard_match p t ≡ true) ↔ Matches p t
wildcard_match_iff p t = (Matches-sound p t, Matches-complete p t)
