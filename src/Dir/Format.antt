-- ===== src/Dir/Format.antt =====
-- src/kernel/storage/fat16_dir_mutation.inc: the name that fat16_format_name makes, from
-- its base and its extension.
use minidos.Common.{
  ℕ, zero, suc, ◌-◌, ◌≡◌, ◌≢◌, ◌⊎◌, ◌≤◌, refl, ap, subst, ◌∙◌, true, false, ◌&&◌, ◌||◌, List, [],
  ◌∷◌, ◌++◌, ◌==◌, arith, ==_iff, Bool-cases, inl, inr, Option, some, none, length, take, drop,
  replicate, map, length-append, length-replicate,
}
use minidos.Dir.Name.{
  dot, space, is_nil, is_dot, is_dot_dot, all_spaces, trim, upper_char, is_refused, format_base,
  format_ext, format_parts, pad, format_name, with_base, cons_first, cons_some,
}
use minidos.Dir.Match.{NoDot}

abbrev pub NoSpace : List ℕ → Type 0
NoSpace [] = Unit
NoSpace (c ∷ s) = (c ≢ space) × NoSpace s

upper_dot : (c : ℕ) → (upper_char c == dot) ≡ (c == dot)
unfolding upper_char
upper_dot c = ground arith

upper_of_dot : (c : ℕ) → c ≡ dot → upper_char c ≡ dot
unfolding upper_char
upper_of_dot c h = ground arith

upper_not_dot : (c : ℕ) → (c == dot) ≡ false → upper_char c ≢ dot
unfolding upper_char
upper_not_dot c h e = ground arith

not_space : (c : ℕ) → is_refused c ≡ false → c ≢ space
unfolding is_refused
not_space c h e = ground arith

-- What the first loop takes: a base without dots and spaces, up to the end or a dot.
record Splits (n : ℕ) (s b rest : List ℕ) : Type 0 where
  whole : map upper_char s ≡ b ++ map upper_char rest
  no_dot : NoDot b
  no_space : NoSpace b
  fits : length b ≤ n
  start : (rest ≡ []) ⊎ ((t : List ℕ) × (rest ≡ dot ∷ t))

abbrev SplitsOk : ℕ → List ℕ → Option (List ℕ × List ℕ) → Type 0
SplitsOk n s none = Unit
SplitsOk n s (some (b, rest)) = Splits n s b rest

stop_here : (n c : ℕ) (s : List ℕ) → (c == dot) ≡ true → Splits n (c ∷ s) [] (c ∷ s)
stop_here n c s at_dot = record {
  whole = refl;
  no_dot = tt;
  no_space = tt;
  fits = omega arith;
  start = inr (s, ap (λ d. d ∷ s) ((==_iff c dot).0 at_dot));
}

one_more :
    (n c : ℕ) (s : List ℕ) (o : Option (List ℕ × List ℕ))
    → (c == dot) ≡ false
    → is_refused (upper_char c) ≡ false
    → SplitsOk n s o
    → SplitsOk (suc n) (c ∷ s) (cons_first (upper_char c) o)
one_more n c s none nd ok h = tt
one_more n c s (some (b, rest)) nd ok h = record {
  whole = ap (λ t. upper_char c ∷ t) h.whole;
  no_dot = (upper_not_dot c nd, h.no_dot);
  no_space = (not_space (upper_char c) ok, h.no_space);
  fits = omega (arith, h.fits);
  start = h.start;
}

nothing_left : (n : ℕ) → Splits n [] [] []
nothing_left n = record {
  whole = refl;
  no_dot = tt;
  no_space = tt;
  fits = omega arith;
  start = inl refl;
}

format_base_splits : (n : ℕ) (s : List ℕ) → SplitsOk n s (format_base n s)
unfolding format_base
format_base_splits zero [] = nothing_left 0
format_base_splits (suc n) [] = nothing_left (suc n)
format_base_splits zero (c ∷ s) = elim (Bool-cases (c == dot)) [
  | inl stop ↦ rw stop (stop_here 0 c s stop)
  | inr on ↦ rw on tt
]
format_base_splits (suc n) (c ∷ s) = elim (Bool-cases (c == dot)) [
  | inl stop ↦ rw stop (stop_here (suc n) c s stop)
  | inr on ↦ elim (Bool-cases (is_refused (upper_char c))) [
    | inl bad ↦ rw on (rw bad tt)
    | inr ok ↦ rw on (rw ok (one_more n c s (format_base n s) on ok (format_base_splits n s)))
  ]
]

record ExtOf (n : ℕ) (s e : List ℕ) : Type 0 where
  whole : map upper_char s ≡ e
  no_space : NoSpace e
  fits : length e ≤ n

abbrev ExtOk : ℕ → List ℕ → Option (List ℕ) → Type 0
ExtOk n s none = Unit
ExtOk n s (some e) = ExtOf n s e

one_more_ext :
    (n c : ℕ) (s : List ℕ) (o : Option (List ℕ))
    → is_refused (upper_char c) ≡ false
    → ExtOk n s o
    → ExtOk (suc n) (c ∷ s) (cons_some (upper_char c) o)
one_more_ext n c s none ok h = tt
one_more_ext n c s (some e) ok h = record {
  whole = ap (λ t. upper_char c ∷ t) h.whole;
  no_space = (not_space (upper_char c) ok, h.no_space);
  fits = omega (arith, h.fits);
}

no_ext : (n : ℕ) → ExtOf n [] []
no_ext n = record { whole = refl; no_space = tt; fits = omega arith }

format_ext_lem : (n : ℕ) (s : List ℕ) → ExtOk n s (format_ext n s)
unfolding format_ext
format_ext_lem zero [] = no_ext 0
format_ext_lem (suc n) [] = no_ext (suc n)
format_ext_lem zero (c ∷ s) = tt
format_ext_lem (suc n) (c ∷ s) = elim (Bool-cases (is_refused (upper_char c))) [
  | inl bad ↦ rw bad tt
  | inr ok ↦ rw ok (one_more_ext n c s (format_ext n s) ok (format_ext_lem n s))
]

-- Padding and its removal.
trim-spaces : (k : ℕ) → trim (replicate k space) ≡ []
unfolding trim
trim-spaces zero = refl
trim-spaces (suc k) = rw (trim-spaces k) refl

pub trim-pad : (s : List ℕ) (k : ℕ) → NoSpace s → trim (s ++ replicate k space) ≡ s
unfolding trim
trim-pad [] k h = trim-spaces k
trim-pad (c ∷ s) k (ne, h) =
    let kept : (c == space) ≡ false = ground arith in rw kept (ap (λ t. c ∷ t) (trim-pad s k h))

pub all_spaces-replicate : (k : ℕ) → all_spaces (replicate k space) ≡ true
unfolding all_spaces
all_spaces-replicate zero = refl
all_spaces-replicate (suc k) = all_spaces-replicate k

pub take_front : (xs ys : List ℕ) (n : ℕ) → length xs ≡ n → take n (xs ++ ys) ≡ xs
take_front [] ys zero e = refl
take_front [] ys (suc n) e = absurd (omega (arith, e))
take_front (x ∷ xs) ys zero e = absurd (omega (arith, e))
take_front (x ∷ xs) ys (suc n) e = ap (λ t. x ∷ t) (take_front xs ys n (omega (arith, e)))

pub drop_front : (xs ys : List ℕ) (n : ℕ) → length xs ≡ n → drop n (xs ++ ys) ≡ ys
drop_front [] ys zero e = refl
drop_front [] ys (suc n) e = absurd (omega (arith, e))
drop_front (x ∷ xs) ys zero e = absurd (omega (arith, e))
drop_front (x ∷ xs) ys (suc n) e = drop_front xs ys n (omega (arith, e))

pub length-pad : (n : ℕ) (s : List ℕ) → length s ≤ n → length (pad n s) ≡ n
unfolding pad
length-pad n s h =
    omega (
      arith,
      length-append s (replicate (n - length s) space),
      length-replicate (n - length s) space,
    )

-- An accepted name `s`: the name of its entry, from its base `b` and its extension `e`.
pub record Formatted (s n b e : List ℕ) : Type 0 where
  pub name : n ≡ pad 8 b ++ pad 3 e
  pub no_dot : NoDot b
  pub base_clean : NoSpace b
  pub ext_clean : NoSpace e
  pub base_fits : length b ≤ 8
  pub ext_fits : length e ≤ 3
  pub whole : ((map upper_char s ≡ b) × (e ≡ [])) ⊎ (map upper_char s ≡ b ++ dot ∷ e)
  pub plain : (is_dot (map upper_char s) ≡ false) × (is_dot_dot (map upper_char s) ≡ false)

is_dot-upper : (s : List ℕ) → is_dot (map upper_char s) ≡ is_dot s
unfolding is_dot
is_dot-upper [] = refl
is_dot-upper (c ∷ []) = rw (upper_dot c) refl
is_dot-upper (c ∷ d ∷ s) = rw (upper_dot c) refl

is_dot_dot-upper : (s : List ℕ) → is_dot_dot (map upper_char s) ≡ is_dot_dot s
unfolding is_dot_dot
is_dot_dot-upper [] = refl
is_dot_dot-upper (c ∷ s) = λ i. upper_dot c i && is_dot-upper s i

abbrev FormattedOk : List ℕ → Option (List ℕ) → Type 0
FormattedOk s none = Unit
FormattedOk s (some n) = (b : List ℕ) × (e : List ℕ) × Formatted s n b e

refused_parts :
    (s : List ℕ)
    → (is_nil s || is_dot s || is_dot_dot s) ≡ false
    → (is_dot (map upper_char s) ≡ false) × (is_dot_dot (map upper_char s) ≡ false)
refused_parts s h =
    let a : is_dot s ≡ false = ground arith in
    let b : is_dot_dot s ≡ false = ground arith in (is_dot-upper s ∙ a, is_dot_dot-upper s ∙ b)

ext_formatted :
    (s t b : List ℕ) (o : Option (List ℕ))
    → (is_dot (map upper_char s) ≡ false) × (is_dot_dot (map upper_char s) ≡ false)
    → Splits 8 s b (dot ∷ t)
    → ExtOk 3 t o
    → FormattedOk s (with_base b o)
ext_formatted s t b none plain sp h = tt
ext_formatted s t b (some e) plain sp h = (
  b,
  e,
  record {
    name = refl;
    no_dot = sp.no_dot;
    base_clean = sp.no_space;
    ext_clean = h.no_space;
    base_fits = sp.fits;
    ext_fits = h.fits;
    whole = inr (sp.whole ∙ (λ i. b ++ upper_of_dot dot refl i ∷ h.whole i));
    plain = plain;
  },
)

pub append_nil : (b : List ℕ) → b ++ [] ≡ b
append_nil [] = refl
append_nil (c ∷ b) = ap (λ t. c ∷ t) (append_nil b)

parts_formatted :
    (s : List ℕ) (o : Option (List ℕ × List ℕ))
    → (is_dot (map upper_char s) ≡ false) × (is_dot_dot (map upper_char s) ≡ false)
    → SplitsOk 8 s o
    → FormattedOk s (format_parts o)
parts_formatted s none plain sp = tt
parts_formatted s (some (b, [])) plain sp = (
  b,
  [],
  record {
    name = refl;
    no_dot = sp.no_dot;
    base_clean = sp.no_space;
    ext_clean = tt;
    base_fits = sp.fits;
    ext_fits = omega arith;
    whole = inl (sp.whole ∙ append_nil b, refl);
    plain = plain;
  },
)
parts_formatted s (some (b, c ∷ t)) plain sp = elim sp.start [
  | inl e ↦ cc
  | inr (u, e) ↦
      let same : (c ≡ dot) × (t ≡ u) = ground arith in
      ext_formatted s t b (format_ext 3 t) plain (subst (λ d. Splits 8 s b (d ∷ t)) same.0 sp)
        (format_ext_lem 3 t)
]

format_name_ok : (s : List ℕ) → FormattedOk s (format_name s)
unfolding format_name
format_name_ok s = elim (Bool-cases (is_nil s || is_dot s || is_dot_dot s)) [
  | inl bad ↦ rw bad tt
  | inr good ↦
      rw good (parts_formatted s (format_base 8 s) (refused_parts s good) (format_base_splits 8 s))
]

pub format_name-Formatted :
    (s n : List ℕ) → format_name s ≡ some n → (b : List ℕ) × (e : List ℕ) × Formatted s n b e
format_name-Formatted s n h = subst (FormattedOk s) h (format_name_ok s)
