-- ===== src/Keyboard/Retype.antt =====
-- src/kernel/input/keyboard.c: the key that is pressed again at once, as in a double letter.
use minidos.Common.{
  ℕ, ◌+◌, ◌<◌, ◌≤◌, ◌≡◌, refl, sym, ap, subst, ◌∙◌, true, false, if◌then◌else◌, arith, sub32,
}
use minidos.Timer.{Timer, timer_get_ticks}
use minidos.Keyboard.{Keyboard, push_char}
use minidos.Keyboard.Input.{note_irq}
use minidos.Keyboard.Ring.{IsValid, contents, push_spec}
use minidos.Keyboard.Typing.{IsIdle, char1, char2, is_repeated, pressed, pressed-AfterPress, sent}
use minidos.Keyboard.Events.{handle_irq-IsValid}
use minidos.Keyboard.Strokes.{stroke1, stroke2, stroke1_lem, stroke2_lem}
use minidos.Keyboard.Agree.{
  Awaits, is_main_key, set2_code, main_key-Agrees, main-IsKey1, contents-stroke1, contents-stroke2,
  char1-ne, char2-ne,
}

-- What a stroke in set 1 leaves of the key that was made last.
repeated_after1 :
    (k : Keyboard) (t u t' : Timer) (s c : ℕ)
    → is_repeated k t s ≡ false
    → t.ready ≡ true
    → t'.ready ≡ true
    → sub32 t'.ticks t.ticks ≤ 2
    → is_repeated (note_irq (pressed k t s c) u) t' s ≡ true
unfolding is_repeated note_irq pressed push_char timer_get_ticks
repeated_after1 k t u t' s c fresh ready ready' near = ground arith

repeated_after2 :
    (k : Keyboard) (u t' : Timer) (s : ℕ)
    → is_repeated (note_irq (record k { last_make_valid = false }) u) t' s ≡ false
unfolding is_repeated note_irq
repeated_after2 k u t' s = refl

stroke1-IsValid : (k : Keyboard) (t u : Timer) (s : ℕ) → IsValid k → IsValid (stroke1 k t u s)
unfolding stroke1
stroke1-IsValid k t u s v =
    handle_irq-IsValid _ u (sent (s + 128)) (handle_irq-IsValid k t (sent s) v)

stroke2-IsValid : (k : Keyboard) (t u : Timer) (s : ℕ) → IsValid k → IsValid (stroke2 k t u s)
unfolding stroke2
stroke2-IsValid k t u s v =
    handle_irq-IsValid _ u (sent s)
      (handle_irq-IsValid _ u (sent 0xF0) (handle_irq-IsValid k t (sent s) v))

-- In set 1 a second stroke of the same key within two timer ticks of the first is lost, although
-- the key was released in between.
pub retype1_lost :
    (k : Keyboard) (t u t' u' : Timer) (s : ℕ)
    → Awaits k t 1 s
    → s < 58
    → is_main_key s ≡ true
    → t.ready ≡ true
    → t'.ready ≡ true
    → sub32 t'.ticks t.ticks ≤ 2
    → contents (stroke1 (stroke1 k t u s) t' u' s) ≡ contents (stroke1 k t u s)
unfolding note_irq
retype1_lost k t u t' u' s a lt main ready ready' near =
    let g = main_key-Agrees s lt main in
    let key = main-IsKey1 s lt main in
    let j : Keyboard = stroke1 k t u s in
    let c : ℕ = char1 k s in
    let p : Keyboard = pressed k t s c in
    let eq = stroke1_lem k t u s a.set a.idle key (char1-ne k s g) in
    let after = pressed-AfterPress k t s c a.idle in
    contents-stroke1 j t' u' s (stroke1-IsValid k t u s a.valid)
      (ap (λ x. x.scancode_set) eq ∙ after.set ∙ a.set)
      (subst IsIdle (sym eq)
        (record { no_break = after.idle.no_break; no_extended = after.idle.no_extended }))
      key (char1-ne j s g)
    ∙ ap (λ r. if r then contents j else push_spec (contents j) (char1 j s))
        (ap (λ x. is_repeated x t' s) eq ∙ repeated_after1 k t u t' s c a.fresh ready ready' near)

-- In set 2 no stroke is taken for a repetition of one before it: both characters are queued, at
-- whatever times.
retype2_kept :
    (k : Keyboard) (t u t' u' : Timer) (s : ℕ)
    → Awaits k t 2 (set2_code s)
    → s < 58
    → is_main_key s ≡ true
    → contents (stroke2 (stroke2 k t u (set2_code s)) t' u' (set2_code s))
      ≡ push_spec
          (contents (stroke2 k t u (set2_code s)))
          (char2 (stroke2 k t u (set2_code s)) (set2_code s))
unfolding note_irq
retype2_kept k t u t' u' s a lt main =
    let g = main_key-Agrees s lt main in
    let q : ℕ = set2_code s in
    let j : Keyboard = stroke2 k t u q in
    let c : ℕ = char2 k q in
    let p : Keyboard = pressed k t q c in
    let eq = stroke2_lem k t u q a.set a.idle g.key2 (char2-ne k s g) in
    let after = pressed-AfterPress k t q c a.idle in
    contents-stroke2 j t' u' q (stroke2-IsValid k t u q a.valid)
      (ap (λ x. x.scancode_set) eq ∙ after.set ∙ a.set)
      (subst IsIdle (sym eq)
        (record { no_break = after.idle.no_break; no_extended = after.idle.no_extended }))
      g.key2 (char2-ne j s g)
    ∙ ap (λ r. if r then contents j else push_spec (contents j) (char2 j q))
        (ap (λ x. is_repeated x t' q) eq ∙ repeated_after2 p u t' q)
