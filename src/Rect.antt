-- ===== src/Rect.antt =====
-- external_apps/runtime/ui/ui_rect.h: rectangles of the screen, and the list of dirty rectangles.
-- No pointer is null. Coordinates are integers without a bound: those of a screen are far from the limits of an int.
pub mod Span
pub mod Meet
pub mod Dirty
pub mod Edges
pub mod Strips
pub mod Subtract
mod Tests
use minidos.Common.{
  ℕ, zero, suc, ◌+◌, ◌-◌, Bool, true, false, not, ◌&&◌, ◌||◌, List, [], ◌∷◌, ◌++◌, ltb, leb, ◌==◌,
  if◌then◌else◌, length, set, get_or,
}
use minidos.Common.Int.{ℤ, pos, negsuc, ◌+ℤ◌, ◌-ℤ◌, ltb_ℤ, leb_ℤ}

pub record UiRect : Type 0 where
  pub x : ℤ
  pub y : ℤ
  pub w : ℤ
  pub h : ℤ

abbrev pub rect_make : ℤ → ℤ → ℤ → ℤ → UiRect
rect_make x y w h = record { x = x; y = y; w = w; h = h }

-- `r.x + r.w` and `r.y + r.h`
abbrev pub right : UiRect → ℤ
right r = r.x +ℤ r.w

abbrev pub bottom : UiRect → ℤ
bottom r = r.y +ℤ r.h

unfoldable pub rect_is_empty : UiRect → Bool
rect_is_empty r = leb_ℤ r.w (pos 0) || leb_ℤ r.h (pos 0)

unfoldable pub rect_inset : UiRect → ℤ → UiRect
rect_inset r amount =
    let w : ℤ = r.w -ℤ (amount +ℤ amount) in
    let h : ℤ = r.h -ℤ (amount +ℤ amount) in
    rect_make (r.x +ℤ amount) (r.y +ℤ amount) (if ltb_ℤ w (pos 0) then pos 0 else w)
      (if ltb_ℤ h (pos 0) then pos 0 else h)

unfoldable pub rect_contains : UiRect → ℤ → ℤ → Bool
rect_contains r px py = leb_ℤ r.x px && leb_ℤ r.y py && ltb_ℤ px (right r) && ltb_ℤ py (bottom r)

unfoldable pub rect_contains_rect : UiRect → UiRect → Bool
unfolding rect_is_empty
rect_contains_rect outer inner =
    not (rect_is_empty inner)
    && (leb_ℤ outer.x inner.x
        && leb_ℤ outer.y inner.y
        && leb_ℤ (right inner) (right outer)
        && leb_ℤ (bottom inner) (bottom outer))

unfoldable pub rects_intersect : UiRect → UiRect → Bool
unfolding rect_is_empty
rects_intersect a b =
    not (rect_is_empty a || rect_is_empty b)
    && (ltb_ℤ a.x (right b) && ltb_ℤ b.x (right a) && ltb_ℤ a.y (bottom b) && ltb_ℤ b.y (bottom a))

-- `(a > b) ? a : b` and `(a < b) ? a : b`
unfoldable pub larger : ℤ → ℤ → ℤ
larger a b = if ltb_ℤ b a then a else b

unfoldable pub smaller : ℤ → ℤ → ℤ
smaller a b = if ltb_ℤ a b then a else b

unfoldable pub rect_intersect : UiRect → UiRect → UiRect
unfolding larger smaller
rect_intersect a b =
    let x : ℤ = larger a.x b.x in
    let y : ℤ = larger a.y b.y in
    let x2 : ℤ = smaller (right a) (right b) in
    let y2 : ℤ = smaller (bottom a) (bottom b) in
    if leb_ℤ x2 x || leb_ℤ y2 y
    then rect_make (pos 0) (pos 0) (pos 0) (pos 0)
    else rect_make x y (x2 -ℤ x) (y2 -ℤ y)

unfoldable pub rect_union : UiRect → UiRect → UiRect
unfolding rect_is_empty larger smaller
rect_union a b =
    let x : ℤ = smaller a.x b.x in
    let y : ℤ = smaller a.y b.y in
    if rect_is_empty a
    then b
    else if rect_is_empty b
    then a
    else rect_make x y (larger (right a) (right b) -ℤ x) (larger (bottom a) (bottom b) -ℤ y)

-- `out_rects[count++] = r` under the test `wanted && count < max_rects`
abbrev pub put_rect : Bool → ℕ → UiRect → List UiRect → List UiRect
put_rect wanted max_rects r out =
    if wanted && ltb (length out) max_rects then out ++ r ∷ [] else out

-- The rectangles that `ui_rect_subtract` leaves in `out_rects`, with a non-null pointer.
unfoldable pub rect_subtract : UiRect → UiRect → ℕ → List UiRect
rect_subtract r cutout max_rects =
    let o : UiRect = rect_intersect r cutout in
    let above : UiRect = rect_make r.x r.y r.w (o.y -ℤ r.y) in
    let below : UiRect = rect_make r.x (bottom o) r.w (bottom r -ℤ bottom o) in
    let left : UiRect = rect_make r.x o.y (o.x -ℤ r.x) o.h in
    let beside : UiRect = rect_make (right o) o.y (right r -ℤ right o) o.h in
    let out1 : List UiRect = put_rect (ltb_ℤ r.y o.y) max_rects above [] in
    let out2 : List UiRect = put_rect (ltb_ℤ (bottom o) (bottom r)) max_rects below out1 in
    let out3 : List UiRect = put_rect (ltb_ℤ r.x o.x) max_rects left out2 in
    if max_rects == 0 || rect_is_empty r
    then []
    else if rect_is_empty o
    then r ∷ []
    else put_rect (ltb_ℤ (right o) (right r)) max_rects beside out3

-- UI_DIRTY_RECTS_MAX
abbrev pub dirty_rects_max : ℕ
dirty_rects_max = 8

-- A list of dirty rectangles; its length is `count`.
abbrev pub DirtyList : Type 0
DirtyList = List UiRect

abbrev dirty_list_init : DirtyList
dirty_list_init = []

-- The loop of `ui_dirty_list_add`, with the flag that it has returned.
unfoldable pub absorb : DirtyList → UiRect → DirtyList × Bool
absorb [] r = ([], false)
absorb (q ∷ qs) r =
    let rest : DirtyList × Bool = absorb qs r in
    if rect_contains_rect q r
    then (q ∷ qs, true)
    else if rect_contains_rect r q
    then (r ∷ qs, true)
    else (q ∷ rest.0, rest.1)

-- `list->rects[list->count - 1]` is united with `r`.
unfoldable pub widen_last : DirtyList → UiRect → DirtyList
widen_last [] r = []
widen_last (q ∷ []) r = rect_union q r ∷ []
widen_last (q ∷ p ∷ qs) r = q ∷ widen_last (p ∷ qs) r

unfoldable pub dirty_list_add : DirtyList → UiRect → DirtyList × Bool
dirty_list_add list r =
    let absorbed : DirtyList × Bool = absorb list r in
    if rect_is_empty r
    then (list, false)
    else if absorbed.1
    then (absorbed.0, true)
    else if ltb (length list) dirty_rects_max
    then (list ++ r ∷ [], true)
    else (widen_last list r, true)

unfoldable pub dirty_list_add_clipped : DirtyList → UiRect → UiRect → DirtyList × Bool
dirty_list_add_clipped list r clip = dirty_list_add list (rect_intersect r clip)
