-- ===== src/Keyboard/Input.antt =====
-- src/kernel/input/keyboard.c: the interrupt handler, the polling fallback, and what the readers
-- of the keyboard call. The status and the data byte of the PS/2 controller are arguments, as they
-- read at the time; the messages to the serial log are left out.
use minidos.Common.{
  ℕ, ◌/◌, ◌%◌, Bool, true, false, not, ◌&&◌, Option, some, none, List, [], ◌∷◌, ◌==◌, if◌then◌else◌,
}
use minidos.Timer.{Timer, timer_get_ticks, timer_on_tick}
use minidos.Keyboard.{Keyboard, push_char, pop_char, allow_poll_fallback, is_duplicate_make}
use minidos.Keyboard.Decode.{process_scancode}

-- What the ports 0x64 and 0x60 read.
pub record Ports : Type 0 where
  pub status : ℕ
  pub byte : ℕ

-- `(status & PS2_STATUS_OUTPUT_FULL) != 0 && (status & PS2_STATUS_AUX_DATA) == 0`
abbrev pub key_ready : Ports → Bool
key_ready p = p.status % 2 == 1 && p.status / 32 % 2 == 0

-- A prefix is not tracked as a key.
abbrev pub track_scancode : Keyboard → ℕ → Bool
track_scancode k scancode =
    if k.scancode_set == 2
    then not (scancode == 0xE0) && not (scancode == 0xF0)
    else not (scancode == 0xE0)

abbrev pub break_event : Keyboard → ℕ → Bool
break_event k scancode =
    if k.scancode_set == 2
    then track_scancode k scancode && k.break_code
    else track_scancode k scancode && scancode / 128 % 2 == 1

-- The two tests that follow `keyboard_process_scancode`: the character, unless it is a repetition.
unfoldable pub accept_char : Keyboard → Timer → ℕ → ℕ → Bool → Bool → Bool → Keyboard × Option ℕ
unfolding is_duplicate_make
accept_char k t c scancode extended break track =
    let (k', duplicate) = is_duplicate_make k t scancode extended break in
    if c == 0
    then ((if track then k' else k), none)
    else if not track
    then (k, some c)
    else if duplicate
    then (k', none)
    else (k', some c)

-- `g_timer` is read, not changed.
unfoldable pub note_irq : Keyboard → Timer → Keyboard
unfolding timer_get_ticks
note_irq k t = record k {
  irq_seen = true;
  last_irq_tick = if t.ready then timer_get_ticks t else k.last_irq_tick;
}

abbrev pub push_option : Keyboard × Option ℕ → Keyboard
push_option (k, none) = k
push_option (k, some c) = push_char k c

unfoldable pub handle_irq : Keyboard → Timer → Ports → Keyboard
unfolding process_scancode note_irq accept_char push_char
handle_irq k t p =
    let (k1, c) = process_scancode k p.byte in
    if not (key_ready p)
    then k
    else push_option (
        accept_char (note_irq k1 t) t c p.byte k.extended_code (break_event k p.byte)
          (track_scancode k p.byte))

abbrev pub report_fallback : Keyboard × Option ℕ → Keyboard × Option ℕ
report_fallback (k, none) = (k, none)
report_fallback (k, some c) = (record k { poll_fallback_reported = true }, some c)

unfoldable pub poll_one_char : Keyboard → Timer → Ports → Keyboard × Option ℕ
unfolding process_scancode accept_char allow_poll_fallback
poll_one_char k t p =
    let (k1, c) = process_scancode k p.byte in
    if not (allow_poll_fallback k t)
    then (k, none)
    else if not (key_ready p)
    then (k, none)
    else report_fallback
        (accept_char k1 t c p.byte k.extended_code (break_event k p.byte) (track_scancode k p.byte))

unfoldable pub keyboard_init : Keyboard → ℕ → Keyboard
keyboard_init k command_byte = record {
  shift_pressed = false;
  ctrl_pressed = false;
  alt_pressed = false;
  caps_lock = false;
  break_code = false;
  extended_code = false;
  scancode_set = if command_byte / 64 % 2 == 1 then 1 else 2;
  irq_mode = false;
  last_irq_tick = 0;
  irq_seen = false;
  last_make_scancode = 0;
  last_make_extended = false;
  last_make_tick = 0;
  last_make_valid = false;
  poll_fallback_reported = false;
  key_buffer = k.key_buffer;
  key_head = 0;
  key_tail = 0;
}

-- Without the draining of the controller.
unfoldable pub keyboard_flush : Keyboard → Keyboard
keyboard_flush k = record k {
  key_head = 0;
  key_tail = 0;
  shift_pressed = false;
  ctrl_pressed = false;
  alt_pressed = false;
  break_code = false;
  extended_code = false;
  last_make_valid = false;
}

unfoldable pub set_irq_mode : Keyboard → Bool → Keyboard
set_irq_mode k enabled = record k { irq_mode = enabled }

abbrev pub or_polled : Keyboard × Option ℕ → Keyboard × Option ℕ → Keyboard × Option ℕ
or_polled (k, some c) polled = (k, some c)
or_polled (k, none) polled = polled

-- `keyboard_try_get_char` with a non-null `out`
unfoldable pub try_get_char : Keyboard → Timer → Ports → Keyboard × Option ℕ
try_get_char k t p = or_polled (pop_char k) (poll_one_char k t p)

-- A polled character goes into the buffer.
abbrev pub keep_polled : Keyboard × Option ℕ → Keyboard × Bool
keep_polled (k, some c) = (push_char k c, true)
keep_polled (k, none) = (k, false)

unfoldable pub has_input : Keyboard → Timer → Ports → Keyboard × Bool
has_input k t p =
    if not (k.key_tail == k.key_head) then (k, true) else keep_polled (poll_one_char k t p)

-- The interrupt that ends a `timer_wait_for_interrupt`.
pub data Interrupt : Type 0 where
  tick other : Interrupt
  key : Ports → Interrupt

-- A round of `keyboard_get_char`: what the ports read at the poll, then the interrupt.
pub record Round : Type 0 where
  pub polled : Ports
  pub interrupt : Interrupt

unfoldable pub take_interrupt : Interrupt → Keyboard → Timer → Keyboard × Timer
unfolding handle_irq timer_on_tick
take_interrupt tick k t = (k, timer_on_tick t)
take_interrupt other k t = (k, t)
take_interrupt (key p) k t = (handle_irq k t p, t)

-- `none` where the rounds are over before a character comes.
unfoldable pub get_char : List Round → Keyboard → Timer → Option (ℕ × Keyboard × Timer × List Round)
unfolding try_get_char take_interrupt
get_char [] k t = elim ((pop_char k).1) [ some c ↦ some (c, (pop_char k).0, t, []) | none ↦ none ]
get_char (r ∷ rs) k t =
    let k1 : Keyboard = (try_get_char k t r.polled).0 in
    let rest : Option (ℕ × Keyboard × Timer × List Round) =
      get_char rs (take_interrupt r.interrupt k1 t).0 (take_interrupt r.interrupt k1 t).1 in
    elim ((try_get_char k t r.polled).1) [ some c ↦ some (c, k1, t, r ∷ rs) | none ↦ rest ]
