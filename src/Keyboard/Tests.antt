-- ===== src/Keyboard/Tests.antt =====
-- The keyboard driver at concrete inputs: the theorems, and tests.
use minidos.Common.{ℕ, ◌≡◌, refl, true, false, List, [], ◌∷◌, some, arith, replicate}
use minidos.Timer.{Timer}
use minidos.Keyboard.{Keyboard, push_char, pop_char}
use minidos.Keyboard.Input.{keyboard_init}
use minidos.Keyboard.Ring.{
  IsValid, contents, push_spec, pop_spec, contents-push_char, contents-pop_char,
}
use minidos.Keyboard.Polls.{irq, ask, flush, perform_all, keyboard_init-IsValid}
use minidos.Keyboard.Line.{read_line, edit, Reads, read_line-edit}
use minidos.Keyboard.Typing.{sent, is_repeated}
use minidos.Keyboard.Strokes.{stroke1, stroke2}
use minidos.Keyboard.Agree.{InStep, Awaits, contents-stroke1-stroke2}
use minidos.Keyboard.Retype.{retype1_lost}

abbrev blank : Keyboard
blank = record {
  shift_pressed = false;
  ctrl_pressed = false;
  alt_pressed = false;
  caps_lock = false;
  break_code = false;
  extended_code = false;
  scancode_set = 1;
  irq_mode = false;
  last_irq_tick = 0;
  irq_seen = false;
  last_make_scancode = 0;
  last_make_extended = false;
  last_make_tick = 0;
  last_make_valid = false;
  poll_fallback_reported = false;
  key_buffer = replicate 128 0;
  key_head = 127;
  key_tail = 126;
}

abbrev blank2 : Keyboard
blank2 = record blank { scancode_set = 2 }

blank-IsValid : IsValid blank
blank-IsValid = omega arith

abbrev clock : ℕ → Timer
clock n = record { ticks = n; hz = 100; ready = true }

contents-push_char_example : contents (push_char blank b'x') ≡ push_spec (contents blank) b'x'
contents-push_char_example = contents-push_char blank b'x' blank-IsValid

contents-pop_char_example :
    pop_spec (contents blank) ≡ (contents (pop_char blank).0, (pop_char blank).1)
contents-pop_char_example = contents-pop_char blank blank-IsValid

keyboard_init-IsValid_example : IsValid (
    perform_all
      (irq (clock 3) (sent 0x1E) ∷ ask (clock 4) (sent 0x9E) ∷ flush ∷ [])
      (keyboard_init blank 0x45))
keyboard_init-IsValid_example =
    keyboard_init-IsValid blank 0x45
      (irq (clock 3) (sent 0x1E) ∷ ask (clock 4) (sent 0x9E) ∷ flush ∷ []) refl

-- "ab", a backspace, "c" and a newline into ten bytes.
abbrev typing : List ℕ
typing = b'a' ∷ b'b' ∷ 8 ∷ b'c' ∷ 10 ∷ b'd' ∷ []

read_line-edit_example :
    Reads 10 (replicate 12 7) (edit typing 10 []) (read_line typing 10 (replicate 12 7))
read_line-edit_example = read_line-edit typing 10 (replicate 12 7) (omega arith) (omega arith)

typed_ac : edit typing 10 [] ≡ some (b'c' ∷ b'a' ∷ [], b'd' ∷ [])
unfolding edit
typed_ac = refl

blank-Awaits : Awaits blank (clock 3) 1 0x1E
unfolding is_repeated
blank-Awaits = record {
  valid = blank-IsValid;
  set = refl;
  idle = record { no_break = refl; no_extended = refl };
  fresh = refl;
}

blank2-Awaits : Awaits blank2 (clock 3) 2 0x1C
unfolding is_repeated
blank2-Awaits = record {
  valid = omega arith;
  set = refl;
  idle = record { no_break = refl; no_extended = refl };
  fresh = refl;
}

in_step : InStep blank blank2
unfolding contents
in_step = record { queue = refl; shift = refl; caps = refl; alt = refl }

contents-stroke1-stroke2_example :
    contents (stroke1 blank (clock 3) (clock 9) 0x1E)
    ≡ contents (stroke2 blank2 (clock 3) (clock 9) 0x1C)
contents-stroke1-stroke2_example =
    contents-stroke1-stroke2 blank blank2 (clock 3) (clock 9) 0x1E in_step blank-Awaits
      blank2-Awaits (omega arith) refl

retype1_lost_example :
    contents (stroke1 (stroke1 blank (clock 3) (clock 4) 0x1E) (clock 5) (clock 6) 0x1E)
    ≡ contents (stroke1 blank (clock 3) (clock 4) 0x1E)
retype1_lost_example =
    retype1_lost blank (clock 3) (clock 4) (clock 5) (clock 6) 0x1E blank-Awaits (omega arith) refl
      refl refl (omega arith)
