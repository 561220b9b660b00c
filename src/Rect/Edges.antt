-- ===== src/Rect/Edges.antt =====
-- external_apps/runtime/ui/ui_rect.h: where two rectangles meet, and the edges of what they have in common.
use minidos.Common.{
  ◌≡◌, refl, ap, ap₂, sym, ◌∙◌, Bool, true, false, not, ◌&&◌, ◌||◌, arith, Bool-cases, inl, inr,
}
use minidos.Common.Int.{ℤ, pos, ◌+ℤ◌, ◌-ℤ◌, ltb_ℤ, leb_ℤ, +ℤ_parts, -ℤ_parts}
use minidos.Rect.{
  UiRect, right, bottom, rect_is_empty, rect_intersect, larger, smaller, rects_intersect,
}
use minidos.Rect.Span.{end_of_width}

-- The edges of a meeting that has points.
meet_edges :
    (a b c d : ℤ)
    → leb_ℤ (smaller b d) (larger a c) ≡ false
    → (leb_ℤ a (larger a c) && leb_ℤ (larger a c) (smaller b d) && leb_ℤ (smaller b d) b) ≡ true
unfolding larger smaller
meet_edges a b c d h = ground arith

-- The edges of `o` lie in order within those of `r`.
unfoldable pub Inside : UiRect → UiRect → Type 0
Inside o r =
    ((leb_ℤ r.x o.x && leb_ℤ o.x (right o) && leb_ℤ (right o) (right r)) ≡ true)
    × ((leb_ℤ r.y o.y && leb_ℤ o.y (bottom o) && leb_ℤ (bottom o) (bottom r)) ≡ true)

by_width :
    (lo x x2 hi : ℤ)
    → (leb_ℤ lo x && leb_ℤ x x2 && leb_ℤ x2 hi) ≡ true
    → (leb_ℤ lo x && leb_ℤ x (x +ℤ (x2 -ℤ x)) && leb_ℤ (x +ℤ (x2 -ℤ x)) hi) ≡ true
by_width lo x x2 hi h =
    (λ i. leb_ℤ lo x && leb_ℤ x (end_of_width x x2 i) && leb_ℤ (end_of_width x x2 i) hi) ∙ h

or_is_false : (a b : Bool) → (a || b) ≡ false → (a ≡ false) × (b ≡ false)
or_is_false a b h = ground arith

pub intersect-Inside :
    (r c : UiRect) → rect_is_empty (rect_intersect r c) ≡ false → Inside (rect_intersect r c) r
unfolding rect_intersect rect_is_empty Inside
intersect-Inside r c h =
    let x : ℤ = larger r.x c.x in
    let y : ℤ = larger r.y c.y in
    let x2 : ℤ = smaller (right r) (right c) in
    let y2 : ℤ = smaller (bottom r) (bottom c) in
    elim (Bool-cases (leb_ℤ x2 x || leb_ℤ y2 y)) [
      | inl none_left ↦ let bad = rw none_left at h in cc
      | inr some_left ↦
          let parts = or_is_false (leb_ℤ x2 x) (leb_ℤ y2 y) some_left in
          rw some_left (
            by_width r.x x x2 (right r) (meet_edges r.x (right r) c.x (right c) parts.0),
            by_width r.y y y2 (bottom r) (meet_edges r.y (bottom r) c.y (bottom c) parts.1),
          )
    ]

-- In one direction, spans of a positive length meet where neither lies beyond the other.
meet_test :
    (a w c v : ℤ)
    → leb_ℤ (smaller (a +ℤ w) (c +ℤ v)) (larger a c)
      ≡ not (
          (not (leb_ℤ w (pos 0)) && not (leb_ℤ v (pos 0)))
          && (ltb_ℤ a (c +ℤ v) && ltb_ℤ c (a +ℤ w)))
unfolding larger smaller
meet_test a w c v = ground (arith, +ℤ_parts a w, +ℤ_parts c v)

width_test : (x x2 : ℤ) → leb_ℤ (x2 -ℤ x) (pos 0) ≡ leb_ℤ x2 x
width_test x x2 = ground (arith, -ℤ_parts x2 x)

meet_products :
    (aw ah bw bh a b c d s t : Bool)
    → s ≡ not ((not aw && not bw) && (a && b))
    → t ≡ not ((not ah && not bh) && (c && d))
    → (not ((aw || ah) || (bw || bh)) && (a && b && c && d)) ≡ not (s || t)
meet_products aw ah bw bh a b c d s t h g = ground arith

-- Two rectangles are said to intersect exactly where their intersection is not empty.
rects_intersect-rect_intersect :
    (a b : UiRect) → rects_intersect a b ≡ not (rect_is_empty (rect_intersect a b))
unfolding rects_intersect rect_intersect rect_is_empty
rects_intersect-rect_intersect a b =
    let x : ℤ = larger a.x b.x in
    let y : ℤ = larger a.y b.y in
    let x2 : ℤ = smaller (right a) (right b) in
    let y2 : ℤ = smaller (bottom a) (bottom b) in
    meet_products (leb_ℤ a.w (pos 0)) (leb_ℤ a.h (pos 0)) (leb_ℤ b.w (pos 0)) (leb_ℤ b.h (pos 0))
      (ltb_ℤ a.x (right b)) (ltb_ℤ b.x (right a)) (ltb_ℤ a.y (bottom b)) (ltb_ℤ b.y (bottom a))
      (leb_ℤ x2 x) (leb_ℤ y2 y) (meet_test a.x a.w b.x b.w) (meet_test a.y a.h b.y b.h)
    ∙ elim (Bool-cases (leb_ℤ x2 x || leb_ℤ y2 y)) [
      | inl none_left ↦ rw none_left refl
      | inr some_left ↦
          rw some_left
            (ap not (sym some_left ∙ sym (ap₂ (λ p q. p || q) (width_test x x2) (width_test y y2))))
    ]
