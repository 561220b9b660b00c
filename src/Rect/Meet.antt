-- ===== src/Rect/Meet.antt =====
-- external_apps/runtime/ui/ui_rect.h: the points of an intersection and of a union.
use minidos.Common.{
  ◌≡◌, refl, ap, ap₂, sym, ◌∙◌, Bool, true, false, ◌&&◌, ◌||◌, arith, Bool-cases, inl, inr,
}
use minidos.Common.Int.{ℤ, pos, ◌+ℤ◌, ◌-ℤ◌, leb_ℤ, +ℤ_parts}
use minidos.Rect.{
  UiRect, right, bottom, rect_contains, rect_intersect, rect_union, rect_is_empty, larger, smaller,
  rect_make,
}
use minidos.Rect.Span.{in_span, contains_spans, span_meet, span_empty, end_of_width}

regroup : (a b c d : Bool) → ((a && b) && (c && d)) ≡ ((a && c) && (b && d))
regroup a b c d = ground arith

-- The points of two rectangles, by spans.
both_spans :
    (a b : UiRect) (px py : ℤ)
    → (rect_contains a px py && rect_contains b px py) ≡ (
        in_span (larger a.x b.x) (smaller (right a) (right b)) px
        && in_span (larger a.y b.y) (smaller (bottom a) (bottom b)) py)
both_spans a b px py =
    ap₂ (λ p q. p && q) (contains_spans a px py) (contains_spans b px py)
    ∙ regroup (in_span a.x (right a) px) (in_span a.y (bottom a) py) (in_span b.x (right b) px)
        (in_span b.y (bottom b) py)
    ∙ sym (
        ap₂ (λ p q. p && q) (span_meet a.x (right a) b.x (right b) px)
          (span_meet a.y (bottom a) b.y (bottom b) py))

-- A rectangle made from its edges.
pub contains-edges :
    (x y x2 y2 px py : ℤ)
    → rect_contains (rect_make x y (x2 -ℤ x) (y2 -ℤ y)) px py ≡ in_span x x2 px && in_span y y2 py
contains-edges x y x2 y2 px py =
    contains_spans (rect_make x y (x2 -ℤ x) (y2 -ℤ y)) px py
    ∙ (λ i. in_span x (end_of_width x x2 i) px && in_span y (end_of_width y y2 i) py)

no_points : (px py : ℤ) → rect_contains (rect_make (pos 0) (pos 0) (pos 0) (pos 0)) px py ≡ false
unfolding rect_contains ◌+ℤ◌
no_points px py = ground arith

or_cases :
    (a b : Bool) (s t : Bool)
    → (a || b) ≡ true
    → (a ≡ true → s ≡ false)
    → (b ≡ true → t ≡ false)
    → (s && t) ≡ false
or_cases a b s t h f g = ground arith

-- A point lies in the intersection exactly where it lies in both rectangles, empty ones and ones
-- that do not meet included.
pub contains-intersect :
    (a b : UiRect) (px py : ℤ)
    → rect_contains (rect_intersect a b) px py ≡ rect_contains a px py && rect_contains b px py
unfolding rect_intersect
contains-intersect a b px py =
    let x : ℤ = larger a.x b.x in
    let y : ℤ = larger a.y b.y in
    let x2 : ℤ = smaller (right a) (right b) in
    let y2 : ℤ = smaller (bottom a) (bottom b) in
    elim (Bool-cases (leb_ℤ x2 x || leb_ℤ y2 y)) [
      | inl none_left ↦ rw none_left (
          no_points px py
          ∙ sym (
              both_spans a b px py
              ∙ or_cases (leb_ℤ x2 x) (leb_ℤ y2 y) (in_span x x2 px) (in_span y y2 py) none_left
                  (span_empty x x2 px) (span_empty y y2 py)))
      | inr some_left ↦ rw some_left (contains-edges x y x2 y2 px py ∙ sym (both_spans a b px py))
    ]

no_width : (x w p : ℤ) → leb_ℤ w (pos 0) ≡ true → in_span x (x +ℤ w) p ≡ false
no_width x w p h = span_empty x (x +ℤ w) p (ground (arith, +ℤ_parts x w))

-- An empty rectangle has no points.
pub empty_points : (r : UiRect) (px py : ℤ) → rect_is_empty r ≡ true → rect_contains r px py ≡ false
unfolding rect_is_empty
empty_points r px py h =
    contains_spans r px py
    ∙ or_cases (leb_ℤ r.w (pos 0)) (leb_ℤ r.h (pos 0)) (in_span r.x (right r) px)
        (in_span r.y (bottom r) py) h (no_width r.x r.w px) (no_width r.y r.h py)

span_join :
    (a b c d p : ℤ)
    → (in_span a b p || in_span c d p) ≡ true
    → in_span (smaller a c) (larger b d) p ≡ true
unfolding in_span larger smaller
span_join a b c d p h = ground arith

join_products :
    (a b c d e f : Bool)
    → ((a && b) || (c && d)) ≡ true
    → ((a || c) ≡ true → e ≡ true)
    → ((b || d) ≡ true → f ≡ true)
    → (e && f) ≡ true
join_products a b c d e f h g k = ground arith

or_false : (a : Bool) → (a || false) ≡ a
or_false true = refl
or_false false = refl

-- The union covers both rectangles.
pub contains-union :
    (a b : UiRect) (px py : ℤ)
    → (rect_contains a px py || rect_contains b px py) ≡ true
    → rect_contains (rect_union a b) px py ≡ true
unfolding rect_union
contains-union a b px py h = elim (Bool-cases (rect_is_empty a)) [
  | inl e ↦ rw e (ap (λ c. c || rect_contains b px py) (sym (empty_points a px py e)) ∙ h)
  | inr e ↦ elim (Bool-cases (rect_is_empty b)) [
    | inl f ↦ rw e (
        rw f (
          sym (or_false (rect_contains a px py))
          ∙ ap (λ c. rect_contains a px py || c) (sym (empty_points b px py f))
          ∙ h))
    | inr f ↦ rw e (
        rw f (
          contains-edges (smaller a.x b.x) (smaller a.y b.y) (larger (right a) (right b))
            (larger (bottom a) (bottom b)) px py
          ∙ join_products (in_span a.x (right a) px) (in_span a.y (bottom a) py)
              (in_span b.x (right b) px) (in_span b.y (bottom b) py)
              (in_span (smaller a.x b.x) (larger (right a) (right b)) px)
              (in_span (smaller a.y b.y) (larger (bottom a) (bottom b)) py)
              (ap₂ (λ p q. p || q) (sym (contains_spans a px py)) (sym (contains_spans b px py))
                ∙ h)
              (span_join a.x (right a) b.x (right b) px)
              (span_join a.y (bottom a) b.y (bottom b) py)))
  ]
]
