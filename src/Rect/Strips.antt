-- ===== src/Rect/Strips.antt =====
-- external_apps/runtime/ui/ui_rect.h: the points of the strips around the middle of a rectangle.
use minidos.Common.{
  ℕ, suc, ◌<◌, ◌≤◌, ◌≡◌, ap, ◌∙◌, Bool, true, false, not, ◌&&◌, ◌||◌, arith, List, [], ◌∷◌, length,
  length-append,
}
use minidos.Common.Int.{ℤ, ◌+ℤ◌, ◌-ℤ◌, ltb_ℤ, leb_ℤ}
use minidos.Rect.{UiRect, rect_contains, rect_make, put_rect}
use minidos.Rect.Span.{in_span, contains_spans, end_of_width}
use minidos.Rect.Dirty.{covers, covers-append}

-- A span that is cut at two places.
span_cut :
    (lo a b hi p : ℤ)
    → leb_ℤ lo a ≡ true
    → leb_ℤ a b ≡ true
    → leb_ℤ b hi ≡ true
    → in_span lo hi p ≡ (in_span lo a p || (in_span a b p || in_span b hi p))
unfolding in_span
span_cut lo a b hi p h g k = ground arith

spans_apart : (a b c p : ℤ) → (in_span a b p && in_span b c p) ≡ false
unfolding in_span
spans_apart a b c p = ground arith

no_span : (a b p : ℤ) → ltb_ℤ a b ≡ false → in_span a b p ≡ false
unfolding in_span
no_span a b p h = ground arith

-- A strip is put down exactly where it has points.
pub covers-put_rect :
    (wanted : Bool) (n : ℕ) (r : UiRect) (out : List UiRect) (px py : ℤ)
    → length out < n
    → (wanted ≡ false → rect_contains r px py ≡ false)
    → covers (put_rect wanted n r out) px py ≡ covers out px py || rect_contains r px py
unfolding covers
covers-put_rect wanted n r out px py room h = ground (arith, covers-append out (r ∷ []) px py)

pub length-put_rect :
    (wanted : Bool) (n : ℕ) (r : UiRect) (out : List UiRect)
    → length (put_rect wanted n r out) ≤ suc (length out)
length-put_rect wanted n r out = ground (arith, length-append out (r ∷ []))

-- The four strips around the middle of a square of nine.
around :
    (a b c d e f : Bool)
    → (a && b) ≡ false
    → (b && c) ≡ false
    → (d && e) ≡ false
    → (e && f) ≡ false
    → (((((a || (b || c)) && d) || ((a || (b || c)) && f)) || (a && e)) || (c && e))
      ≡ (((a || (b || c)) && (d || (e || f))) && not (b && e))
around a b c d e f h g k l = ground arith

three : (a b c : Bool) → (a && b && c) ≡ true → (a ≡ true) × (b ≡ true) × (c ≡ true)
three a b c h = ground arith

-- The middle of a square of nine, and the strips around it, by spans.
pub strips_lem :
    (xa xb xc xd ya yb yc yd px py : ℤ)
    → (leb_ℤ xa xb && leb_ℤ xb xc && leb_ℤ xc xd) ≡ true
    → (leb_ℤ ya yb && leb_ℤ yb yc && leb_ℤ yc yd) ≡ true
    → ((((in_span xa xd px && in_span ya yb py) || (in_span xa xd px && in_span yc yd py))
          || (in_span xa xb px && in_span yb yc py))
        || (in_span xc xd px && in_span yb yc py))
      ≡ ((in_span xa xd px && in_span ya yd py) && not (in_span xb xc px && in_span yb yc py))
strips_lem xa xb xc xd ya yb yc yd px py h g =
    let (h1, h2, h3) = three (leb_ℤ xa xb) (leb_ℤ xb xc) (leb_ℤ xc xd) h in
    let (g1, g2, g3) = three (leb_ℤ ya yb) (leb_ℤ yb yc) (leb_ℤ yc yd) g in
    rw (span_cut xa xb xc xd px h1 h2 h3) (
      rw (span_cut ya yb yc yd py g1 g2 g3) (
        around (in_span xa xb px) (in_span xb xc px) (in_span xc xd px) (in_span ya yb py)
          (in_span yb yc py) (in_span yc yd py) (spans_apart xa xb xc px) (spans_apart xb xc xd px)
          (spans_apart ya yb yc py) (spans_apart yb yc yd py)))

-- The points of a rectangle between two edges, down a given height and along a given width.
pub upright :
    (x x2 y h px py : ℤ)
    → rect_contains (rect_make x y (x2 -ℤ x) h) px py ≡ in_span x x2 px && in_span y (y +ℤ h) py
upright x x2 y h px py =
    contains_spans (rect_make x y (x2 -ℤ x) h) px py
    ∙ (λ i. in_span x (end_of_width x x2 i) px && in_span y (y +ℤ h) py)

pub level :
    (x w y y2 px py : ℤ)
    → rect_contains (rect_make x y w (y2 -ℤ y)) px py ≡ in_span x (x +ℤ w) px && in_span y y2 py
level x w y y2 px py =
    contains_spans (rect_make x y w (y2 -ℤ y)) px py
    ∙ (λ i. in_span x (x +ℤ w) px && in_span y (end_of_width y y2 i) py)

pub no_upright :
    (x x2 y h px py : ℤ)
    → ltb_ℤ x x2 ≡ false
    → rect_contains (rect_make x y (x2 -ℤ x) h) px py ≡ false
no_upright x x2 y h px py f =
    upright x x2 y h px py ∙ ap (λ b. b && in_span y (y +ℤ h) py) (no_span x x2 px f)

and_false : (a : Bool) → (a && false) ≡ false
and_false a = ground arith

pub no_level :
    (x w y y2 px py : ℤ)
    → ltb_ℤ y y2 ≡ false
    → rect_contains (rect_make x y w (y2 -ℤ y)) px py ≡ false
no_level x w y y2 px py f =
    level x w y y2 px py
    ∙ ap (λ b. in_span x (x +ℤ w) px && b) (no_span y y2 py f)
    ∙ and_false (in_span x (x +ℤ w) px)
