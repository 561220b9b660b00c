-- ===== src/Keyboard.antt =====
-- src/kernel/input/keyboard.c: the state of the keyboard driver, its ring of characters, and the
-- suppression of repeated make codes. A byte is a number below 256, `x & 2^k` a digit of it.
pub mod Scancodes
pub mod Decode
pub mod Input
pub mod Ring
pub mod Line
pub mod Typing
pub mod Strokes
pub mod Agree
pub mod Retype
mod Tests
pub mod Events
pub mod Polls
use minidos.Common.{
  ℕ, zero, suc, ◌+◌, ◌-◌, ◌*◌, ◌/◌, ◌%◌, ◌^◌, Bool, true, false, not, ◌&&◌, ◌||◌, Option, some,
  none, List, [], ◌∷◌, ltb, leb, ◌==◌, if◌then◌else◌, get_or, set, sub32,
}
use minidos.Timer.{Timer, timer_get_ticks}

-- The static variables of keyboard.c.
pub record Keyboard : Type 0 where
  pub shift_pressed : Bool
  pub ctrl_pressed : Bool
  pub alt_pressed : Bool
  pub caps_lock : Bool
  pub break_code : Bool
  pub extended_code : Bool
  pub scancode_set : ℕ
  pub irq_mode : Bool
  pub last_irq_tick : ℕ
  pub irq_seen : Bool
  pub last_make_scancode : ℕ
  pub last_make_extended : Bool
  pub last_make_tick : ℕ
  pub last_make_valid : Bool
  pub poll_fallback_reported : Bool
  pub key_buffer : List ℕ
  pub key_head : ℕ
  pub key_tail : ℕ

-- sizeof(key_buffer)
abbrev pub key_buffer_size : ℕ
key_buffer_size = 128

unfoldable pub push_char : Keyboard → ℕ → Keyboard
push_char k c =
    let next : ℕ = (k.key_head + 1) % key_buffer_size in
    if next == k.key_tail
    then k
    else record k { key_buffer = set k.key_buffer k.key_head c; key_head = next }

unfoldable pub pop_char : Keyboard → Keyboard × Option ℕ
pop_char k = if k.key_tail == k.key_head then (k, none) else (
  record k { key_tail = (k.key_tail + 1) % key_buffer_size },
  some (get_or k.key_buffer k.key_tail 0),
)

unfoldable pub allow_poll_fallback : Keyboard → Timer → Bool
unfolding timer_get_ticks
allow_poll_fallback k t =
    if not k.irq_mode
    then true
    else if not k.irq_seen
    then true
    else if not t.ready
    then false
    else leb 2 (sub32 (timer_get_ticks t) k.last_irq_tick)

abbrev pub bool_eq : Bool → Bool → Bool
bool_eq true b = b
bool_eq false b = not b

-- `last_make_valid && last_make_scancode == scancode && last_make_extended == extended`
abbrev pub is_last_make : Keyboard → ℕ → Bool → Bool
is_last_make k scancode extended =
    k.last_make_valid && k.last_make_scancode == scancode && bool_eq k.last_make_extended extended

unfoldable pub is_duplicate_make : Keyboard → Timer → ℕ → Bool → Bool → Keyboard × Bool
unfolding timer_get_ticks
is_duplicate_make k t scancode extended break_event =
    let same : Bool = is_last_make k scancode extended in
    if break_event
    then ((if same then record k { last_make_valid = false } else k), false)
    else if same && t.ready && leb (sub32 (timer_get_ticks t) k.last_make_tick) 2
    then (k, true)
    else (
      record k {
        last_make_scancode = scancode;
        last_make_extended = extended;
        last_make_valid = true;
        last_make_tick = if t.ready then timer_get_ticks t else 0;
      },
      false,
    )
