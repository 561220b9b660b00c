-- ===== src/Keyboard/Typing.antt =====
-- src/kernel/input/keyboard.c: a key that is pressed and released, in scancode sets 1 and 2.
use minidos.Common.{
  Bool-cases, inl, inr, ℕ, ◌+◌, ◌<◌, ◌≡◌, ◌≢◌, refl, ap, ◌∙◌, Bool, true, false, ◌&&◌, ◌||◌, some,
  none, leb, ◌==◌, if◌then◌else◌, arith, sub32,
}
use minidos.Timer.{Timer, timer_get_ticks}
use minidos.Keyboard.{Keyboard, push_char, is_duplicate_make, is_last_make}
use minidos.Keyboard.Scancodes.{scancode_set1_to_char, scancode_set2_to_char, finish_char}
use minidos.Keyboard.Decode.{
  process_scancode, process_scancode_set1, process_scancode_set2, plain_set1, plain_set2,
}
use minidos.Keyboard.Input.{
  Ports, note_irq, accept_char, push_option, handle_irq, track_scancode, break_event,
}
use minidos.Keyboard.Ring.{IsValid, contents, push_spec, contents-push_char}

-- A byte of the keyboard at the ports.
abbrev pub sent : ℕ → Ports
sent b = record { status = 1; byte = b }

-- The make codes of keys that are no modifiers.
pub record IsKey1 (s : ℕ) : Type 0 where
  pub lt : s < 0x60
  pub shift : (s ≢ 0x2A) × (s ≢ 0x36)
  pub ctrl : s ≢ 0x1D
  pub alt : s ≢ 0x38
  pub caps : s ≢ 0x3A

pub record IsKey2 (s : ℕ) : Type 0 where
  pub lt : s < 128
  pub shift : (s ≢ 0x12) × (s ≢ 0x59)
  pub ctrl : s ≢ 0x14
  pub alt : s ≢ 0x11
  pub caps : s ≢ 0x58

-- No prefix is pending.
pub record IsIdle (k : Keyboard) : Type 0 where
  pub no_break : k.break_code ≡ false
  pub no_extended : k.extended_code ≡ false

-- The character of a key under the modifiers of `k`.
unfoldable pub char1 : Keyboard → ℕ → ℕ
char1 k s =
    finish_char (scancode_set1_to_char s k.shift_pressed) k.shift_pressed k.caps_lock k.alt_pressed

unfoldable pub char2 : Keyboard → ℕ → ℕ
char2 k s =
    finish_char (scancode_set2_to_char s k.shift_pressed) k.shift_pressed k.caps_lock k.alt_pressed

process_set1_make :
    (k : Keyboard) (s : ℕ) → IsIdle k → IsKey1 s → process_scancode_set1 k s ≡ (k, char1 k s)
unfolding process_scancode_set1 plain_set1 char1
process_set1_make k s i h = ground arith

pub process_set1_break :
    (k : Keyboard) (s : ℕ) → IsIdle k → IsKey1 s → process_scancode_set1 k (s + 128) ≡ (k, 0)
unfolding process_scancode_set1 plain_set1
process_set1_break k s i h = ground arith

process_set2_plain :
    (k : Keyboard) (s : ℕ)
    → k.extended_code ≡ false
    → s < 128
    → process_scancode_set2 k s ≡ plain_set2 k s
unfolding process_scancode_set2
process_set2_plain k s e h = ground arith

-- The branches of `plain_set2` below the modifiers.
plain_set2_key :
    (k : Keyboard) (s : ℕ)
    → IsKey2 s
    → plain_set2 k s
      ≡ (if k.break_code then (record k { break_code = false }, 0) else (k, char2 k s))
unfolding plain_set2 char2
plain_set2_key k s h =
    let no_shift : (s == 0x12) || (s == 0x59) ≡ false = ground arith in
    let no_ctrl : (s == 0x14) ≡ false = ground arith in
    let no_alt : (s == 0x11) ≡ false = ground arith in
    let no_caps : (s == 0x58) ≡ false = ground arith in rw (no_shift, no_ctrl, no_alt, no_caps) refl

process_set2_make :
    (k : Keyboard) (s : ℕ) → IsIdle k → IsKey2 s → process_scancode_set2 k s ≡ (k, char2 k s)
process_set2_make k s i h =
    process_set2_plain k s i.no_extended h.lt
    ∙ plain_set2_key k s h
    ∙ ap (λ b. if b then (record k { break_code = false }, 0) else (k, char2 k s)) i.no_break

pub process_set2_break :
    (k : Keyboard) (s : ℕ)
    → k.break_code ≡ true
    → k.extended_code ≡ false
    → IsKey2 s
    → process_scancode_set2 k s ≡ (record k { break_code = false }, 0)
process_set2_break k s b e h =
    process_set2_plain k s e h.lt
    ∙ plain_set2_key k s h
    ∙ ap (λ c. if c then (record k { break_code = false }, 0) else (k, char2 k s)) b

-- `keyboard_is_duplicate_make` holds the press of `s` for a repetition.
unfoldable pub is_repeated : Keyboard → Timer → ℕ → Bool
is_repeated k t s =
    is_last_make k s false && t.ready && leb (sub32 (timer_get_ticks t) k.last_make_tick) 2

-- The state that a press of `s` leaves beside the ring: the key is the last one made.
abbrev pub noted : Keyboard → Timer → ℕ → Keyboard
noted k t s = record k {
  last_make_scancode = s;
  last_make_extended = false;
  last_make_valid = true;
  last_make_tick = if t.ready then timer_get_ticks t else 0;
}

accept_press :
    (k : Keyboard) (t : Timer) (c s : ℕ)
    → c ≢ 0
    → accept_char k t c s false false true
      ≡ (if is_repeated k t s then (k, none) else (noted k t s, some c))
unfolding accept_char is_duplicate_make is_repeated
accept_press k t c s h =
    let nonzero : (c == 0) ≡ false = ground arith in
    rw nonzero (elim (Bool-cases (is_repeated k t s)) [ inl e ↦ rw e refl | inr e ↦ rw e refl ])

pub handle_sent :
    (k k1 : Keyboard) (t : Timer) (s c : ℕ) (e b r : Bool)
    → process_scancode k s ≡ (k1, c)
    → k.extended_code ≡ e
    → break_event k s ≡ b
    → track_scancode k s ≡ r
    → handle_irq k t (sent s) ≡ push_option (accept_char (note_irq k1 t) t c s e b r)
unfolding handle_irq
handle_sent k k1 t s c e b r p ext brk trk =
    λ i. push_option (accept_char (note_irq (p i).0 t) t (p i).1 s (ext i) (brk i) (trk i))

pub process1 :
    (k : Keyboard) (s : ℕ) → k.scancode_set ≡ 1 → process_scancode k s ≡ process_scancode_set1 k s
unfolding process_scancode
process1 k s set = ground arith

pub process2 :
    (k : Keyboard) (s : ℕ) → k.scancode_set ≡ 2 → process_scancode k s ≡ process_scancode_set2 k s
unfolding process_scancode
process2 k s set = ground arith

-- The state after a press of `s` that stands for the character `c`.
unfoldable pub pressed : Keyboard → Timer → ℕ → ℕ → Keyboard
pressed k t s c = if is_repeated k t s then note_irq k t else push_char (note_irq (noted k t s) t) c

push_pressed :
    (k : Keyboard) (t : Timer) (s c : ℕ)
    → c ≢ 0
    → push_option (accept_char (note_irq k t) t c s false false true) ≡ pressed k t s c
unfolding pressed note_irq is_repeated
push_pressed k t s c h =
    ap push_option (accept_press (note_irq k t) t c s h)
    ∙ elim (Bool-cases (is_repeated k t s)) [ inl e ↦ rw e refl | inr e ↦ rw e refl ]

track1 : (k : Keyboard) (s : ℕ) → k.scancode_set ≡ 1 → s ≢ 0xE0 → track_scancode k s ≡ true
track1 k s set h = ground arith

pub track2 :
    (k : Keyboard) (s : ℕ) → k.scancode_set ≡ 2 → s ≢ 0xE0 → s ≢ 0xF0 → track_scancode k s ≡ true
track2 k s set h g = ground arith

pub press1 :
    (k : Keyboard) (t : Timer) (s : ℕ)
    → k.scancode_set ≡ 1
    → IsIdle k
    → IsKey1 s
    → char1 k s ≢ 0
    → handle_irq k t (sent s) ≡ pressed k t s (char1 k s)
press1 k t s set i key c =
    handle_sent k k t s (char1 k s) false false true
      (process1 k s set ∙ process_set1_make k s i key) i.no_extended (ground arith)
      (track1 k s set (ground arith))
    ∙ push_pressed k t s (char1 k s) c

pub press2 :
    (k : Keyboard) (t : Timer) (s : ℕ)
    → k.scancode_set ≡ 2
    → IsIdle k
    → IsKey2 s
    → char2 k s ≢ 0
    → handle_irq k t (sent s) ≡ pressed k t s (char2 k s)
press2 k t s set i key c =
    handle_sent k k t s (char2 k s) false false true
      (process2 k s set ∙ process_set2_make k s i key) i.no_extended (ground arith)
      (track2 k s set (ground arith) (ground arith))
    ∙ push_pressed k t s (char2 k s) c

-- After a press the key is the last one made, and no prefix is pending.
pub record AfterPress (k k' : Keyboard) (s : ℕ) : Type 0 where
  pub idle : IsIdle k'
  pub set : k'.scancode_set ≡ k.scancode_set
  pub scancode : k'.last_make_scancode ≡ s
  pub extended : k'.last_make_extended ≡ false
  pub valid : k'.last_make_valid ≡ true

pub pressed-AfterPress :
    (k : Keyboard) (t : Timer) (s c : ℕ) → IsIdle k → AfterPress k (pressed k t s c) s
unfolding pressed is_repeated note_irq push_char
pressed-AfterPress k t s c i = ground arith

pub contents-pressed :
    (k : Keyboard) (t : Timer) (s c : ℕ)
    → IsValid k
    → contents (pressed k t s c)
      ≡ (if is_repeated k t s then contents k else push_spec (contents k) c)
unfolding pressed contents note_irq
contents-pressed k t s c v = elim (Bool-cases (is_repeated k t s)) [
  | inl e ↦ rw e refl
  | inr e ↦ rw e (
      contents-push_char (note_irq (noted k t s) t) c (record {
        buffer_size = v.buffer_size;
        head_within = v.head_within;
        tail_within = v.tail_within;
      }))
]
