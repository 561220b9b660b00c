-- ===== src/Rect/Tests.antt =====
-- Rectangles on a screen: the theorems at concrete ones, and runs of the functions.
use minidos.Common.{◌≡◌, refl, true, not, ◌&&◌, [], ◌∷◌, arith}
use minidos.Common.Int.{pos, negsuc, ◌+ℤ◌, ◌-ℤ◌}
use minidos.Rect.{
  UiRect, rect_make, rect_contains, rect_intersect, rect_is_empty, rect_subtract, dirty_list_add,
  absorb, rect_contains_rect, rect_inset,
}
use minidos.Rect.Dirty.{Adds, covers, dirty_list_add-Adds}
use minidos.Rect.Subtract.{covers-rect_subtract}

abbrev window : UiRect
window = rect_make (pos 10) (pos 10) (pos 100) (pos 80)

abbrev dialog : UiRect
dialog = rect_make (pos 40) (pos 30) (pos 20) (pos 20)

-- It begins to the left of the screen.
abbrev menu : UiRect
menu = rect_make (negsuc 4) (pos 0) (pos 20) (pos 30)

covers-rect_subtract_example :
    covers (rect_subtract window dialog 4) (pos 45) (pos 35)
    ≡ (rect_contains window (pos 45) (pos 35) && not (rect_contains dialog (pos 45) (pos 35)))
covers-rect_subtract_example = covers-rect_subtract window dialog 4 (pos 45) (pos 35) (omega arith)

dirty_list_add-Adds_example :
    Adds (dialog ∷ []) window (pos 45) (pos 35) (dirty_list_add (dialog ∷ []) window)
dirty_list_add-Adds_example =
    dirty_list_add-Adds (dialog ∷ []) window (pos 45) (pos 35) (omega arith)

cut_menu :
    rect_subtract window menu 4
    ≡ rect_make (pos 10) (pos 30) (pos 100) (pos 60)
      ∷ rect_make (pos 15) (pos 10) (pos 95) (pos 20)
      ∷ []
unfolding rect_subtract rect_intersect rect_is_empty ◌+ℤ◌ ◌-ℤ◌
cut_menu = refl

inset_to_nothing : rect_inset dialog (pos 12) ≡ rect_make (pos 52) (pos 42) (pos 0) (pos 0)
unfolding rect_inset ◌+ℤ◌ ◌-ℤ◌
inset_to_nothing = refl

window_swallows_dialog : dirty_list_add (dialog ∷ []) window ≡ (window ∷ [], true)
unfolding dirty_list_add rect_is_empty absorb rect_contains_rect ◌+ℤ◌
window_swallows_dialog = refl
