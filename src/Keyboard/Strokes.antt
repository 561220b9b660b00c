-- ===== src/Keyboard/Strokes.antt =====
-- src/kernel/input/keyboard.c: keys pressed and released one after the other, in set 1 by a make
-- and a break code, in set 2 by a make code and the prefix 0xF0 before it.
use minidos.Common.{ℕ, ◌+◌, ◌≡◌, ◌≢◌, refl, ap, ◌∙◌, true, false, if◌then◌else◌, arith}
use minidos.Timer.{Timer}
use minidos.Keyboard.{Keyboard, is_duplicate_make, is_last_make}
use minidos.Keyboard.Decode.{process_scancode_set2}
use minidos.Keyboard.Input.{note_irq, accept_char, handle_irq, push_option}
use minidos.Keyboard.Typing.{
  IsKey1, IsKey2, IsIdle, char1, char2, sent, pressed, press1, press2, pressed-AfterPress,
  handle_sent, process1, process2, process_set1_break, process_set2_break, track2,
}

-- A key pressed at the time of `t` and released at that of `u`.
unfoldable pub stroke1 : Keyboard → Timer → Timer → ℕ → Keyboard
stroke1 k t u s = handle_irq (handle_irq k t (sent s)) u (sent (s + 128))

unfoldable pub stroke2 : Keyboard → Timer → Timer → ℕ → Keyboard
stroke2 k t u s = handle_irq (handle_irq (handle_irq k t (sent s)) u (sent 0xF0)) u (sent s)

-- In set 1 the break code is not the code that was noted: it clears nothing.
accept_break1 :
    (k : Keyboard) (u : Timer) (s : ℕ)
    → k.last_make_scancode ≡ s
    → push_option (accept_char k u 0 (s + 128) false true true) ≡ k
unfolding accept_char is_duplicate_make
accept_break1 k u s e =
    let other : is_last_make k (s + 128) false ≡ false = ground arith in
    ap (λ b. if b then record k { last_make_valid = false } else k) other

release1 :
    (k : Keyboard) (u : Timer) (s : ℕ)
    → k.scancode_set ≡ 1
    → IsIdle k
    → IsKey1 s
    → k.last_make_scancode ≡ s
    → handle_irq k u (sent (s + 128)) ≡ note_irq k u
unfolding note_irq
release1 k u s set i key last =
    handle_sent k k u (s + 128) 0 false true true
      (process1 k (s + 128) set ∙ process_set1_break k s i key) i.no_extended (ground arith)
      (ground arith)
    ∙ accept_break1 (note_irq k u) u s last

process_f0 : (k : Keyboard) → process_scancode_set2 k 0xF0 ≡ (record k { break_code = true }, 0)
unfolding process_scancode_set2
process_f0 k = refl

accept_f0 : (k : Keyboard) (u : Timer) → push_option (accept_char k u 0 0xF0 false false false) ≡ k
unfolding accept_char
accept_f0 k u = refl

-- In set 2 the release is that of the code that was noted.
accept_break2 :
    (k : Keyboard) (u : Timer) (s : ℕ)
    → k.last_make_scancode ≡ s
    → k.last_make_extended ≡ false
    → k.last_make_valid ≡ true
    → push_option (accept_char k u 0 s false true true) ≡ record k { last_make_valid = false }
unfolding accept_char is_duplicate_make
accept_break2 k u s e x v =
    let last : is_last_make k s false ≡ true = ground arith in
    ap (λ b. if b then record k { last_make_valid = false } else k) last

-- The prefix has left no trace.
unprefixed :
    (k : Keyboard) (u : Timer)
    → k.break_code ≡ false
    → record (note_irq
        (record (note_irq (record k { break_code = true }) u) { break_code = false })
        u) { last_make_valid = false }
      ≡ note_irq (record k { last_make_valid = false }) u
unfolding note_irq
unprefixed k u h = ground arith

release2 :
    (k : Keyboard) (u : Timer) (s : ℕ)
    → k.scancode_set ≡ 2
    → IsIdle k
    → IsKey2 s
    → k.last_make_scancode ≡ s
    → k.last_make_extended ≡ false
    → k.last_make_valid ≡ true
    → handle_irq (handle_irq k u (sent 0xF0)) u (sent s)
      ≡ note_irq (record k { last_make_valid = false }) u
unfolding note_irq
release2 k u s set i key last ext valid =
    let prefixed : Keyboard = note_irq (record k { break_code = true }) u in
    ap (λ j. handle_irq j u (sent s))
      (handle_sent k (record k { break_code = true }) u 0xF0 0 false false false
          (process2 k 0xF0 set ∙ process_f0 k) i.no_extended (ground arith) (ground arith)
        ∙ accept_f0 prefixed u)
    ∙ handle_sent prefixed (record prefixed { break_code = false }) u s 0 false true true
        (process2 prefixed s set ∙ process_set2_break prefixed s refl i.no_extended key)
        i.no_extended (ground arith) (track2 prefixed s set (ground arith) (ground arith))
    ∙ accept_break2 (note_irq (record prefixed { break_code = false }) u) u s last ext valid
    ∙ unprefixed k u i.no_break

pub stroke1_lem :
    (k : Keyboard) (t u : Timer) (s : ℕ)
    → k.scancode_set ≡ 1
    → IsIdle k
    → IsKey1 s
    → char1 k s ≢ 0
    → stroke1 k t u s ≡ note_irq (pressed k t s (char1 k s)) u
unfolding stroke1
stroke1_lem k t u s set i key c =
    let after = pressed-AfterPress k t s (char1 k s) i in
    ap (λ j. handle_irq j u (sent (s + 128))) (press1 k t s set i key c)
    ∙ release1 (pressed k t s (char1 k s)) u s (after.set ∙ set) after.idle key after.scancode

pub stroke2_lem :
    (k : Keyboard) (t u : Timer) (s : ℕ)
    → k.scancode_set ≡ 2
    → IsIdle k
    → IsKey2 s
    → char2 k s ≢ 0
    → stroke2 k t u s ≡ note_irq (record (pressed k t s (char2 k s)) { last_make_valid = false }) u
unfolding stroke2
stroke2_lem k t u s set i key c =
    let after = pressed-AfterPress k t s (char2 k s) i in
    ap (λ j. handle_irq (handle_irq j u (sent 0xF0)) u (sent s)) (press2 k t s set i key c)
    ∙ release2 (pressed k t s (char2 k s)) u s (after.set ∙ set) after.idle key after.scancode
        after.extended after.valid
