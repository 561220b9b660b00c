-- ===== src/Rect/Subtract.antt =====
-- external_apps/runtime/ui/ui_rect.h: the rectangles that are left when one is cut out of another.
use minidos.Common.{
  ℕ, ◌≤◌, ◌≡◌, ap, ap₂, sym, ◌∙◌, Bool, false, not, ◌&&◌, ◌||◌, ◌==◌, arith, Bool-cases, inl, inr,
  List, [], ◌∷◌, length, length-append,
}
use minidos.Common.Int.{ℤ, ◌-ℤ◌, ltb_ℤ}
use minidos.Rect.{
  UiRect, right, bottom, rect_contains, rect_is_empty, rect_intersect, rect_make, put_rect,
  rect_subtract,
}
use minidos.Rect.Span.{contains_spans}
use minidos.Rect.Meet.{contains-intersect, empty_points}
use minidos.Rect.Dirty.{covers}
use minidos.Rect.Edges.{Inside, intersect-Inside}
use minidos.Rect.Strips.{
  covers-put_rect, length-put_rect, strips_lem, upright, level, no_upright, no_level,
}

covers_four :
    (t1 t2 t3 t4 : Bool) (n : ℕ) (a b c d : UiRect) (px py : ℤ)
    → 4 ≤ n
    → (t1 ≡ false → rect_contains a px py ≡ false)
    → (t2 ≡ false → rect_contains b px py ≡ false)
    → (t3 ≡ false → rect_contains c px py ≡ false)
    → (t4 ≡ false → rect_contains d px py ≡ false)
    → covers (put_rect t4 n d (put_rect t3 n c (put_rect t2 n b (put_rect t1 n a [])))) px py ≡ (
        ((rect_contains a px py || rect_contains b px py) || rect_contains c px py)
        || rect_contains d px py)
unfolding covers
covers_four t1 t2 t3 t4 n a b c d px py room h1 h2 h3 h4 =
    let out1 : List UiRect = put_rect t1 n a [] in
    let out2 : List UiRect = put_rect t2 n b out1 in
    let out3 : List UiRect = put_rect t3 n c out2 in
    let l1 = length-put_rect t1 n a [] in
    let l2 = length-put_rect t2 n b out1 in
    let l3 = length-put_rect t3 n c out2 in
    covers-put_rect t4 n d out3 px py (omega arith) h4
    ∙ ap (λ q. q || rect_contains d px py)
        (covers-put_rect t3 n c out2 px py (omega arith) h3
          ∙ ap (λ q. q || rect_contains c px py)
              (covers-put_rect t2 n b out1 px py (omega arith) h2
                ∙ ap (λ q. q || rect_contains b px py)
                    (covers-put_rect t1 n a [] px py (omega arith) h1)))

cut_points : (a b m : Bool) → m ≡ (a && b) → (a && not m) ≡ (a && not b)
cut_points a b m h = ground arith

-- The strips around an overlap.
strips_points :
    (r o : UiRect) (n : ℕ) (px py : ℤ)
    → 4 ≤ n
    → Inside o r
    → covers
        (put_rect (ltb_ℤ (right o) (right r)) n (rect_make (right o) o.y (right r -ℤ right o) o.h) (
          put_rect (ltb_ℤ r.x o.x) n (rect_make r.x o.y (o.x -ℤ r.x) o.h) (
            put_rect
              (ltb_ℤ (bottom o) (bottom r))
              n
              (rect_make r.x (bottom o) r.w (bottom r -ℤ bottom o))
              (put_rect (ltb_ℤ r.y o.y) n (rect_make r.x r.y r.w (o.y -ℤ r.y)) []))))
        px
        py
      ≡ (rect_contains r px py && not (rect_contains o px py))
unfolding Inside
strips_points r o n px py room inside =
    covers_four (ltb_ℤ r.y o.y) (ltb_ℤ (bottom o) (bottom r)) (ltb_ℤ r.x o.x)
      (ltb_ℤ (right o) (right r)) n (rect_make r.x r.y r.w (o.y -ℤ r.y))
      (rect_make r.x (bottom o) r.w (bottom r -ℤ bottom o)) (rect_make r.x o.y (o.x -ℤ r.x) o.h)
      (rect_make (right o) o.y (right r -ℤ right o) o.h) px py room (no_level r.x r.w r.y o.y px py)
      (no_level r.x r.w (bottom o) (bottom r) px py) (no_upright r.x o.x o.y o.h px py)
      (no_upright (right o) (right r) o.y o.h px py)
    ∙ (λ i.
        ((level r.x r.w r.y o.y px py i || level r.x r.w (bottom o) (bottom r) px py i)
          || upright r.x o.x o.y o.h px py i)
        || upright (right o) (right r) o.y o.h px py i)
    ∙ strips_lem r.x o.x (right o) (right r) r.y o.y (bottom o) (bottom r) px py inside.0 inside.1
    ∙ sym (ap₂ (λ p q. p && not q) (contains_spans r px py) (contains_spans o px py))

no_overlap : (a b m : Bool) → m ≡ (a && b) → m ≡ false → (a || false) ≡ (a && not b)
no_overlap a b m h g = ground arith

-- With room for four rectangles, those that are left of a rectangle when another is cut out of it
-- cover exactly the points that lie in the first and not in the second.
pub covers-rect_subtract :
    (r cutout : UiRect) (n : ℕ) (px py : ℤ)
    → 4 ≤ n
    → covers (rect_subtract r cutout n) px py
      ≡ (rect_contains r px py && not (rect_contains cutout px py))
unfolding rect_subtract covers
covers-rect_subtract r cutout n px py room =
    let o : UiRect = rect_intersect r cutout in
    let meets = contains-intersect r cutout px py in
    let enough : (n == 0) ≡ false = ground arith in
    elim (Bool-cases (rect_is_empty r)) [
      | inl e ↦
          rw enough
            (rw e (ap (λ b. b && not (rect_contains cutout px py)) (sym (empty_points r px py e))))
      | inr f ↦ elim (Bool-cases (rect_is_empty o)) [
        | inl e ↦ rw enough (
            rw f (
              rw e (
                no_overlap (rect_contains r px py) (rect_contains cutout px py)
                  (rect_contains o px py) meets (empty_points o px py e))))
        | inr g ↦ rw enough (
            rw f (
              rw g (
                strips_points r o n px py room (intersect-Inside r cutout g)
                ∙ cut_points (rect_contains r px py) (rect_contains cutout px py)
                    (rect_contains o px py) meets)))
      ]
    ]

put_rect_fits :
    (wanted : Bool) (n : ℕ) (r : UiRect) (out : List UiRect)
    → length out ≤ n
    → length (put_rect wanted n r out) ≤ n
put_rect_fits wanted n r out h = ground (arith, length-append out (r ∷ []))

four_fit :
    (t1 t2 t3 t4 : Bool) (n : ℕ) (a b c d : UiRect)
    → length (put_rect t4 n d (put_rect t3 n c (put_rect t2 n b (put_rect t1 n a [])))) ≤ n
four_fit t1 t2 t3 t4 n a b c d =
    let out1 : List UiRect = put_rect t1 n a [] in
    let out2 : List UiRect = put_rect t2 n b out1 in
    put_rect_fits t4 n d (put_rect t3 n c out2) (
      put_rect_fits t3 n c out2 (put_rect_fits t2 n b out1 (put_rect_fits t1 n a [] (omega arith))))

-- However few rectangles there is room for, no more are written.
length-rect_subtract : (r cutout : UiRect) (n : ℕ) → length (rect_subtract r cutout n) ≤ n
unfolding rect_subtract
length-rect_subtract r cutout n = elim (Bool-cases (n == 0 || rect_is_empty r)) [
  | inl e ↦ rw e (omega arith)
  | inr f ↦
      let some : 1 ≤ n = ground arith in
      let o : UiRect = rect_intersect r cutout in
      elim (Bool-cases (rect_is_empty o)) [
        | inl e ↦ rw f (rw e some)
        | inr g ↦ rw f (
            rw g (
              four_fit (ltb_ℤ r.y o.y) (ltb_ℤ (bottom o) (bottom r)) (ltb_ℤ r.x o.x)
                (ltb_ℤ (right o) (right r)) n (rect_make r.x r.y r.w (o.y -ℤ r.y))
                (rect_make r.x (bottom o) r.w (bottom r -ℤ bottom o))
                (rect_make r.x o.y (o.x -ℤ r.x) o.h)
                (rect_make (right o) o.y (right r -ℤ right o) o.h)))
      ]
]
