-- ===== src/Rect/Dirty.antt =====
-- external_apps/runtime/ui/ui_rect.h: the points that a list of dirty rectangles covers.
use minidos.Common.{
  suc, ◌<◌, ◌≤◌, ◌≡◌, refl, ap, sym, ◌∙◌, Bool, true, false, not, ◌&&◌, ◌||◌, ltb, arith,
  Bool-cases, inl, inr, List, [], ◌∷◌, ◌++◌, length, length-append,
}
use minidos.Common.Int.{ℤ, leb_ℤ}
use minidos.Rect.{
  UiRect, right, bottom, rect_contains, rect_is_empty, rect_contains_rect, absorb, widen_last,
  dirty_rects_max, dirty_list_add, dirty_list_add_clipped, rect_intersect, DirtyList,
}
use minidos.Rect.Span.{in_span, contains_spans, span_within}
use minidos.Rect.Meet.{contains-union, empty_points, contains-intersect}

-- The point lies in a rectangle of the list.
unfoldable pub covers : List UiRect → ℤ → ℤ → Bool
covers [] px py = false
covers (q ∷ qs) px py = rect_contains q px py || covers qs px py

-- A product of two spans within a product of two spans, as Booleans.
within_products :
    (e a b c d s t s2 t2 : Bool)
    → (not e && (a && b && c && d)) ≡ true
    → (a ≡ true → c ≡ true → s ≡ true → s2 ≡ true)
    → (b ≡ true → d ≡ true → t ≡ true → t2 ≡ true)
    → (s && t) ≡ true
    → (s2 && t2) ≡ true
within_products e a b c d s t s2 t2 h f g k = ground arith

inner_points :
    (outer inner : UiRect) (px py : ℤ)
    → rect_contains_rect outer inner ≡ true
    → rect_contains inner px py ≡ true
    → rect_contains outer px py ≡ true
unfolding rect_contains_rect
inner_points outer inner px py h g =
    contains_spans outer px py
    ∙ within_products (rect_is_empty inner) (leb_ℤ outer.x inner.x) (leb_ℤ outer.y inner.y)
        (leb_ℤ (right inner) (right outer)) (leb_ℤ (bottom inner) (bottom outer))
        (in_span inner.x (right inner) px) (in_span inner.y (bottom inner) py)
        (in_span outer.x (right outer) px) (in_span outer.y (bottom outer) py) h
        (span_within outer.x (right outer) inner.x (right inner) px)
        (span_within outer.y (bottom outer) inner.y (bottom inner) py)
        (sym (contains_spans inner px py) ∙ g)

pub covers-append :
    (xs ys : List UiRect) (px py : ℤ) → covers (xs ++ ys) px py ≡ covers xs px py || covers ys px py
unfolding covers
covers-append [] ys px py = refl
covers-append (x ∷ xs) ys px py = ground (arith, covers-append xs ys px py)

covers-absorb :
    (qs : List UiRect) (r : UiRect) (px py : ℤ)
    → (absorb qs r).1 ≡ true
    → (covers qs px py || rect_contains r px py) ≡ true
    → covers (absorb qs r).0 px py ≡ true
unfolding covers absorb
covers-absorb [] r px py done h = cc
covers-absorb (q ∷ qs) r px py done h =
    ground (arith, covers-absorb qs r px py, inner_points q r px py, inner_points r q px py)

length-absorb : (qs : List UiRect) (r : UiRect) → length (absorb qs r).0 ≡ length qs
unfolding absorb
length-absorb [] r = refl
length-absorb (q ∷ qs) r = ground (arith, length-absorb qs r)

widen_covers :
    (qs : List UiRect) (r : UiRect) (px py : ℤ)
    → 0 < length qs
    → (covers qs px py || rect_contains r px py) ≡ true
    → covers (widen_last qs r) px py ≡ true
unfolding covers widen_last
widen_covers [] r px py some h = elim some [ ]
widen_covers (q ∷ []) r px py some h = ground (arith, contains-union q r px py)
widen_covers (q ∷ p ∷ qs) r px py some h =
    ground (arith, widen_covers (p ∷ qs) r px py (omega arith))

length-widen_last : (qs : List UiRect) (r : UiRect) → length (widen_last qs r) ≡ length qs
unfolding widen_last
length-widen_last [] r = refl
length-widen_last (q ∷ []) r = refl
length-widen_last (q ∷ p ∷ qs) r = ap suc (length-widen_last (p ∷ qs) r)

-- `a` is true only where `b` is.
unfoldable pub only_where : Bool → Bool → Bool
only_where a b = not a || b

to_only_where : (a b : Bool) → (a ≡ true → b ≡ true) → only_where a b ≡ true
unfolding only_where
to_only_where a b f = ground arith

from_only_where : (a b : Bool) → only_where a b ≡ true → a ≡ true → b ≡ true
unfolding only_where
from_only_where a b h k = ground arith

-- What ui_dirty_list_add answers and keeps, for one point of the screen.
unfoldable pub Adds : DirtyList → UiRect → ℤ → ℤ → DirtyList × Bool → Type 0
Adds list r px py answer =
    (answer.1 ≡ not (rect_is_empty r))
    × (only_where (covers list px py || rect_contains r px py) (covers answer.0 px py) ≡ true)
    × (length answer.0 ≤ dirty_rects_max)

room_for :
    (list : DirtyList) (r : UiRect)
    → ltb (length list) dirty_rects_max ≡ true
    → length (list ++ r ∷ []) ≤ dirty_rects_max
room_for list r room = ground (arith, length-append list (r ∷ []))

append_covers :
    (list : DirtyList) (r : UiRect) (px py : ℤ)
    → (covers list px py || rect_contains r px py) ≡ true
    → covers (list ++ r ∷ []) px py ≡ true
unfolding covers
append_covers list r px py h = ground (arith, covers-append list (r ∷ []) px py)

empty_covers :
    (list : DirtyList) (r : UiRect) (px py : ℤ)
    → rect_is_empty r ≡ true
    → (covers list px py || rect_contains r px py) ≡ true
    → covers list px py ≡ true
empty_covers list r px py empty h = ground (arith, empty_points r px py empty)

-- A dirty rectangle is refused exactly where it is empty. Every point that was to be drawn still
-- is, so is every point of the rectangle, and a list of at most eight rectangles stays one, also
-- where the rectangle is absorbed by another, absorbs one, or finds the list full.
pub dirty_list_add-Adds :
    (list : DirtyList) (r : UiRect) (px py : ℤ)
    → length list ≤ dirty_rects_max
    → Adds list r px py (dirty_list_add list r)
unfolding dirty_list_add Adds
dirty_list_add-Adds list r px py bound =
    let asked : Bool = covers list px py || rect_contains r px py in
    elim (Bool-cases (rect_is_empty r)) [
      | inl empty ↦
          rw empty
            (refl, to_only_where asked (covers list px py) (empty_covers list r px py empty), bound)
      | inr full ↦ elim (Bool-cases (absorb list r).1) [
        | inl done ↦ rw full (
            rw done (
              refl,
              to_only_where asked (covers (absorb list r).0 px py)
                  (covers-absorb list r px py done),
              rw (length-absorb list r) bound,
            ))
        | inr fresh ↦ elim (Bool-cases (ltb (length list) dirty_rects_max)) [
          | inl room ↦ rw full (
              rw fresh (
                rw room (
                  refl,
                  to_only_where asked (covers (list ++ r ∷ []) px py) (append_covers list r px py),
                  room_for list r room,
                )))
          | inr no_room ↦ rw full (
              rw fresh (
                rw no_room (
                  refl,
                  to_only_where asked (covers (widen_last list r) px py)
                      (widen_covers list r px py (ground arith)),
                  rw (length-widen_last list r) bound,
                )))
        ]
      ]
    ]

-- A rectangle that is added with a clip covers all of itself that lies in the clip.
dirty_list_add_clipped_lem :
    (list : DirtyList) (r clip : UiRect) (px py : ℤ)
    → length list ≤ dirty_rects_max
    → (rect_contains r px py && rect_contains clip px py) ≡ true
    → covers (dirty_list_add_clipped list r clip).0 px py ≡ true
unfolding dirty_list_add_clipped Adds
dirty_list_add_clipped_lem list r clip px py bound h =
    let meet : UiRect = rect_intersect r clip in
    let added = dirty_list_add-Adds list meet px py bound in
    from_only_where (covers list px py || rect_contains meet px py)
      (covers (dirty_list_add list meet).0 px py) added.1
      (ground (arith, contains-intersect r clip px py))
