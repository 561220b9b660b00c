-- ===== src/Keyboard/Decode.antt =====
-- src/kernel/input/keyboard.c: the decoders of scancode sets 1 and 2. Each returns the new state
-- and a character, 0 for none.
use minidos.Common.{ℕ, ◌/◌, ◌%◌, Bool, true, false, not, ◌&&◌, ◌||◌, ◌==◌, if◌then◌else◌}
use minidos.Keyboard.{Keyboard}
use minidos.Keyboard.Scancodes.{scancode_set1_to_char, scancode_set2_to_char, finish_char}

abbrev pub key_up : ℕ
key_up = 0x11

abbrev pub key_down : ℕ
key_down = 0x12

abbrev pub key_left : ℕ
key_left = 0x15

abbrev pub key_right : ℕ
key_right = 0x16

abbrev pub key_alt_event : ℕ
key_alt_event = 0x14

-- Set 1 after the prefix 0xE0.
unfoldable pub extended_set1 : Keyboard → ℕ → Keyboard × ℕ
extended_set1 k0 scancode =
    let k : Keyboard = record k0 { extended_code = false } in
    if scancode == 0x48
    then (k, key_up)
    else if scancode == 0x50
    then (k, key_down)
    else if scancode == 0x4B
    then (k, key_left)
    else if scancode == 0x4D
    then (k, key_right)
    else if scancode == 0x1D
    then (record k { ctrl_pressed = true }, 0)
    else if scancode == 0x9D
    then (record k { ctrl_pressed = false }, 0)
    else if scancode == 0x38
    then (record k { alt_pressed = true }, key_alt_event)
    else if scancode == 0xB8
    then (record k { alt_pressed = false }, 0)
    else (k, 0)

-- Set 1 without a prefix.
unfoldable pub plain_set1 : Keyboard → ℕ → Keyboard × ℕ
unfolding scancode_set1_to_char finish_char
plain_set1 k scancode =
    if scancode == 0x2A || scancode == 0x36
    then (record k { shift_pressed = true }, 0)
    else if scancode == 0xAA || scancode == 0xB6
    then (record k { shift_pressed = false }, 0)
    else if scancode == 0x1D
    then (record k { ctrl_pressed = true }, 0)
    else if scancode == 0x9D
    then (record k { ctrl_pressed = false }, 0)
    else if scancode == 0x38
    then (record k { alt_pressed = true }, key_alt_event)
    else if scancode == 0xB8
    then (record k { alt_pressed = false }, 0)
    else if scancode == 0x3A
    then (record k { caps_lock = not k.caps_lock }, 0)
    else if scancode / 128 % 2 == 1
    then (k, 0)
    else (
      k,
      finish_char (scancode_set1_to_char scancode k.shift_pressed) k.shift_pressed k.caps_lock
          k.alt_pressed,
    )

unfoldable pub process_scancode_set1 : Keyboard → ℕ → Keyboard × ℕ
unfolding extended_set1 plain_set1
process_scancode_set1 k scancode =
    if scancode == 0xE0
    then (record k { extended_code = true }, 0)
    else if k.extended_code
    then extended_set1 k scancode
    else plain_set1 k scancode

-- Set 2 after the prefix 0xE0. Only the first two branches and the last clear `break_code`; the
-- others are taken where it is clear.
unfoldable pub extended_set2 : Keyboard → ℕ → Keyboard × ℕ
extended_set2 k0 scancode =
    let k : Keyboard = record k0 { extended_code = false } in
    let b : Bool = k0.break_code in
    if scancode == 0x11
    then (record k { alt_pressed = not b; break_code = false }, if b then 0 else key_alt_event)
    else if scancode == 0x14
    then (record k { ctrl_pressed = not b; break_code = false }, 0)
    else if not b && scancode == 0x75
    then (k, key_up)
    else if not b && scancode == 0x72
    then (k, key_down)
    else if not b && scancode == 0x6B
    then (k, key_left)
    else if not b && scancode == 0x74
    then (k, key_right)
    else if not b && scancode == 0x5A
    then (k, 10)
    else (record k { break_code = false }, 0)

-- Set 2 without a prefix.
unfoldable pub plain_set2 : Keyboard → ℕ → Keyboard × ℕ
unfolding scancode_set2_to_char finish_char
plain_set2 k0 scancode =
    let k : Keyboard = record k0 { break_code = false } in
    let b : Bool = k0.break_code in
    if scancode == 0x12 || scancode == 0x59
    then (record k { shift_pressed = not b }, 0)
    else if scancode == 0x14
    then (record k { ctrl_pressed = not b }, 0)
    else if scancode == 0x11
    then (record k { alt_pressed = not b }, if b then 0 else key_alt_event)
    else if scancode == 0x58
    then ((if b then k else record k { caps_lock = not k.caps_lock }), 0)
    else if b
    then (k, 0)
    else (
      k0,
      finish_char (scancode_set2_to_char scancode k0.shift_pressed) k0.shift_pressed k0.caps_lock
          k0.alt_pressed,
    )

unfoldable pub process_scancode_set2 : Keyboard → ℕ → Keyboard × ℕ
unfolding extended_set2 plain_set2
process_scancode_set2 k scancode =
    if scancode == 0xE0
    then (record k { extended_code = true }, 0)
    else if scancode == 0xF0
    then (record k { break_code = true }, 0)
    else if k.extended_code
    then extended_set2 k scancode
    else plain_set2 k scancode

unfoldable pub process_scancode : Keyboard → ℕ → Keyboard × ℕ
unfolding process_scancode_set1 process_scancode_set2
process_scancode k scancode =
    if k.scancode_set == 2
    then process_scancode_set2 k scancode
    else process_scancode_set1 k scancode
