-- ===== src/Mouse.antt =====
-- src/kernel/input/mouse.c: the PS/2 mouse. A byte is a number below 256, `x & 2^k` a digit of it.
-- The size of the screen and the answers of the controller are arguments; the messages to the
-- serial log are left out.
pub mod Cursor
mod Tests
use minidos.Common.{
  ℕ, ◌+◌, ◌-◌, ◌*◌, ◌/◌, ◌%◌, ◌^◌, Bool, true, false, not, ◌&&◌, ◌||◌, ltb, leb, ◌==◌,
  if◌then◌else◌, add32, List, [], ◌∷◌,
}
use minidos.Common.Int.{ℤ, pos, negsuc, ◌+ℤ◌, ◌-ℤ◌, ltb_ℤ, leb_ℤ}

-- `mouse_state_t`, the packet and its index, and whether a packet has been logged.
pub record Mouse : Type 0 where
  pub x : ℤ
  pub y : ℤ
  pub dx : ℤ
  pub dy : ℤ
  pub buttons : ℕ
  pub seq : ℕ
  pub present : Bool
  pub packet0 : ℕ
  pub packet1 : ℕ
  pub packet2 : ℕ
  pub packet_index : ℕ
  pub packet_logged : Bool

-- `video_get_width()` and `video_get_height()`
pub record Screen : Type 0 where
  pub width : ℤ
  pub height : ℤ

-- A delta of nine bits: the byte, and the sign in the first byte of the packet.
unfoldable pub delta : Bool → ℕ → ℤ
delta sign byte = if sign then pos byte -ℤ pos 256 else pos byte

unfoldable pub at_least_one : ℤ → ℤ
at_least_one n = if ltb_ℤ n (pos 1) then pos 1 else n

-- The two tests on a coordinate.
unfoldable pub hold : ℤ → ℤ → ℤ
hold v size = if ltb_ℤ v (pos 0) then pos 0 else if leb_ℤ size v then size -ℤ pos 1 else v

unfoldable pub apply_packet : Mouse → Screen → Mouse
apply_packet m s =
    let dx : ℤ = delta (m.packet0 / 16 % 2 == 1) m.packet1 in
    let dy : ℤ = delta (m.packet0 / 32 % 2 == 1) m.packet2 in
    if not (m.packet0 / 64 % 4 == 0) then m else record m {
      dx = dx;
      dy = pos 0 -ℤ dy;
      x = hold (m.x +ℤ dx) (at_least_one s.width);
      y = hold (m.y -ℤ dy) (at_least_one s.height);
      buttons = m.packet0 % 8;
      seq = add32 m.seq 1;
      packet_logged = true;
    }

-- `g_packet[g_packet_index] = data`
unfoldable pub put_packet : Mouse → ℕ → Mouse
put_packet m data_byte =
    if m.packet_index == 0
    then record m { packet0 = data_byte }
    else if m.packet_index == 1
    then record m { packet1 = data_byte }
    else record m { packet2 = data_byte }

-- `mouse_handle_irq` once a byte of the mouse is read.
unfoldable pub take_byte : Mouse → Screen → ℕ → Mouse
take_byte m s data_byte =
    let stored : Mouse = put_packet m data_byte in
    if not m.present
    then m
    else if m.packet_index == 0 && data_byte / 8 % 2 == 0
    then m
    else if m.packet_index + 1 == 3
    then apply_packet (record stored { packet_index = 0 }) s
    else record stored { packet_index = m.packet_index + 1 }

unfoldable pub mouse_handle_irq : Mouse → Screen → ℕ → ℕ → Mouse
mouse_handle_irq m s status data_byte =
    if status % 2 == 0 then m else if status / 32 % 2 == 0 then m else take_byte m s data_byte

-- How the controller answers in `mouse_init`.
pub record Handshake : Type 0 where
  pub input_empty : Bool
  pub command_byte_written : Bool
  pub defaults_written : Bool
  pub defaults_ack : Bool
  pub enable_written : Bool
  pub enable_ack : Bool

-- Half of the size, which is not negative.
abbrev pub half : ℕ → ℤ
half n = pos (n / 2)

unfoldable pub mouse_init : Mouse → ℕ → ℕ → Handshake → Mouse
mouse_init m width height h =
    let fresh : Mouse = record m {
      x = half width;
      y = half height;
      dx = pos 0;
      dy = pos 0;
      buttons = 0;
      seq = 0;
      present = false;
      packet_index = 0;
      packet_logged = false;
    } in
    if not h.input_empty
    then fresh
    else if not h.command_byte_written
    then fresh
    else if not h.defaults_written || not h.defaults_ack
    then fresh
    else if not h.enable_written || not h.enable_ack
    then fresh
    else record fresh { present = true }
