-- ===== src/Mouse/Tests.antt =====
-- A mouse on a screen of 640 by 480 points: the theorems, and a test.
use minidos.Common.{◌≡◌, refl, true, false, [], ◌∷◌, arith}
use minidos.Common.Int.{pos, ◌+ℤ◌, ◌-ℤ◌}
use minidos.Mouse.{
  Mouse, Screen, mouse_init, delta, at_least_one, hold, apply_packet, put_packet, take_byte,
}
use minidos.Mouse.Cursor.{IsValid, Follows, handle_all, mouse_byte, handle_all-Follows}

abbrev vga : Screen
vga = record { width = pos 640; height = pos 480 }

abbrev mouse : Mouse
mouse = record {
  x = pos 2;
  y = pos 100;
  dx = pos 0;
  dy = pos 0;
  buttons = 0;
  seq = 0;
  present = true;
  packet0 = 0;
  packet1 = 0;
  packet2 = 0;
  packet_index = 0;
  packet_logged = false;
}

mouse-IsValid : IsValid mouse vga
unfolding at_least_one
mouse-IsValid = omega arith

handle_all-Follows_example :
    Follows mouse vga 0x19 251 3
      (handle_all (mouse_byte 0x19 ∷ mouse_byte 251 ∷ mouse_byte 3 ∷ []) mouse vga)
handle_all-Follows_example = handle_all-Follows mouse vga 0x19 251 3 refl refl refl refl

at_the_edge :
    (handle_all (mouse_byte 0x19 ∷ mouse_byte 251 ∷ mouse_byte 3 ∷ []) mouse vga).x ≡ pos 0
unfolding handle_all take_byte put_packet apply_packet hold delta at_least_one ◌+ℤ◌ ◌-ℤ◌
at_the_edge = refl

-- Without an acknowledgement there is no mouse.
no_ack :
    (mouse_init mouse 640 480 (record {
      input_empty = true;
      command_byte_written = true;
      defaults_written = true;
      defaults_ack = true;
      enable_written = true;
      enable_ack = false;
    })).present
    ≡ false
unfolding mouse_init
no_ack = refl
