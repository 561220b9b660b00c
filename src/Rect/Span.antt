-- ===== src/Rect/Span.antt =====
-- external_apps/runtime/ui/ui_rect.h: rectangles as products of two spans of integers.
use minidos.Common.{◌≡◌, Bool, true, false, ◌&&◌, arith}
use minidos.Common.Int.{ℤ, ◌+ℤ◌, ◌-ℤ◌, ltb_ℤ, leb_ℤ, int_laws}
use minidos.Rect.{UiRect, right, bottom, rect_contains, larger, smaller}

-- `lo <= p && p < hi`
unfoldable pub in_span : ℤ → ℤ → ℤ → Bool
in_span lo hi p = leb_ℤ lo p && ltb_ℤ p hi

and_swap : (a b c d : Bool) → (a && b && c && d) ≡ ((a && c) && (b && d))
and_swap a b c d = ground arith

pub contains_spans :
    (r : UiRect) (px py : ℤ)
    → rect_contains r px py ≡ in_span r.x (right r) px && in_span r.y (bottom r) py
unfolding rect_contains in_span
contains_spans r px py =
    and_swap (leb_ℤ r.x px) (leb_ℤ r.y py) (ltb_ℤ px (right r)) (ltb_ℤ py (bottom r))

pub span_meet :
    (a b c d p : ℤ) → in_span (larger a c) (smaller b d) p ≡ in_span a b p && in_span c d p
unfolding in_span larger smaller
span_meet a b c d p = ground arith

pub span_empty : (lo hi p : ℤ) → leb_ℤ hi lo ≡ true → in_span lo hi p ≡ false
unfolding in_span
span_empty lo hi p h = ground arith

pub end_of_width : (a b : ℤ) → a +ℤ (b -ℤ a) ≡ b
end_of_width a b = omega int_laws

-- A span within a span has no other points.
pub span_within :
    (lo hi lo2 hi2 p : ℤ)
    → leb_ℤ lo lo2 ≡ true
    → leb_ℤ hi2 hi ≡ true
    → in_span lo2 hi2 p ≡ true
    → in_span lo hi p ≡ true
unfolding in_span
span_within lo hi lo2 hi2 p h g k = ground arith
