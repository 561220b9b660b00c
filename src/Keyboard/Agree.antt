-- ===== src/Keyboard/Agree.antt =====
-- src/kernel/input/keyboard.c: the same keys typed on a keyboard of set 1 and on one of set 2, and
-- a key typed twice in quick succession.
use minidos.Common.{
  ℕ, zero, suc, ◌<◌, ◌≡◌, ◌≢◌, refl, sym, ap, ◌∙◌, Bool, true, false, not, ◌&&◌, ◌||◌, List, [],
  ◌∷◌, ltb, ◌==◌, if◌then◌else◌, arith, get_or,
}
use minidos.Timer.{Timer}
use minidos.Keyboard.{Keyboard}
use minidos.Keyboard.Input.{note_irq}
use minidos.Keyboard.Scancodes.{scancode_set1_to_char, scancode_set2_to_char, finish_char}
use minidos.Keyboard.Ring.{IsValid, contents, push_spec}
use minidos.Keyboard.Typing.{IsKey1, IsKey2, IsIdle, char1, char2, is_repeated, contents-pressed}
use minidos.Keyboard.Strokes.{stroke1, stroke2, stroke1_lem, stroke2_lem}

-- The scancode of set 2 for the key of each scancode of set 1, by the position on the keyboard.
abbrev pub set2_codes : List ℕ
set2_codes =
    0x00 ∷ 0x76 ∷ 0x16 ∷ 0x1E ∷ 0x26 ∷ 0x25 ∷ 0x2E ∷ 0x36 ∷ 0x3D ∷ 0x3E ∷ 0x46 ∷ 0x45 ∷ 0x4E ∷ 0x55
    ∷ 0x66 ∷ 0x0D ∷ 0x15 ∷ 0x1D ∷ 0x24 ∷ 0x2D ∷ 0x2C ∷ 0x35 ∷ 0x3C ∷ 0x43 ∷ 0x44 ∷ 0x4D ∷ 0x54
    ∷ 0x5B ∷ 0x5A ∷ 0x14 ∷ 0x1C ∷ 0x1B ∷ 0x23 ∷ 0x2B ∷ 0x34 ∷ 0x33 ∷ 0x3B ∷ 0x42 ∷ 0x4B ∷ 0x4C
    ∷ 0x52 ∷ 0x0E ∷ 0x12 ∷ 0x5D ∷ 0x1A ∷ 0x22 ∷ 0x21 ∷ 0x2A ∷ 0x32 ∷ 0x31 ∷ 0x3A ∷ 0x41 ∷ 0x49
    ∷ 0x4A ∷ 0x59 ∷ 0x7C ∷ 0x11 ∷ 0x29 ∷ []

abbrev pub set2_code : ℕ → ℕ
set2_code s = get_or set2_codes s 0

-- The keys of the main block that stand for characters. Set 2 has no keypad star, 0x37.
abbrev pub is_main_key : ℕ → Bool
is_main_key s =
    not (s == 0)
    && not (s == 0x1D)
    && not (s == 0x2A)
    && not (s == 0x36)
    && not (s == 0x37)
    && not (s == 0x38)

abbrev is_key2 : ℕ → Bool
is_key2 s =
    ltb s 128
    && not (s == 0x12)
    && not (s == 0x59)
    && not (s == 0x14)
    && not (s == 0x11)
    && not (s == 0x58)

abbrev tables_agree : ℕ → Bool → Bool
tables_agree s shift =
    scancode_set1_to_char s shift == scancode_set2_to_char (set2_code s) shift
    && not (scancode_set1_to_char s shift == 0)

key_agrees : ℕ → Bool
unfolding scancode_set1_to_char scancode_set2_to_char
key_agrees s =
    not (is_main_key s) || is_key2 (set2_code s) && tables_agree s true && tables_agree s false

-- `test` passes for each scancode under `count`.
checks : (ℕ → Bool) → ℕ → Bool
checks test zero = true
checks test (suc last) = if test last then checks test last else false

checked :
    (test : ℕ → Bool) (count scancode : ℕ)
    → scancode < count
    → checks test count ≡ true
    → test scancode ≡ true
unfolding checks
checked test zero scancode under all = elim under [ ]
checked test (suc last) scancode under all = ground (arith, checked test last scancode)

keys_checked : checks key_agrees 58 ≡ true
unfolding checks key_agrees
keys_checked = refl

pub record Agrees (s : ℕ) : Type 0 where
  pub key2 : IsKey2 (set2_code s)
  pub same : (b : Bool) → scancode_set1_to_char s b ≡ scancode_set2_to_char (set2_code s) b
  pub some_char : (b : Bool) → scancode_set1_to_char s b ≢ 0

tables_agree_lem :
    (s : ℕ) (b : Bool)
    → tables_agree s b ≡ true
    → (scancode_set1_to_char s b ≡ scancode_set2_to_char (set2_code s) b)
      × (scancode_set1_to_char s b ≢ 0)
tables_agree_lem s b h = ground arith

conjuncts :
    (m k t f : Bool)
    → (not m || k && t && f) ≡ true
    → m ≡ true
    → (k ≡ true) × (t ≡ true) × (f ≡ true)
conjuncts m k t f h e = ground arith

key2_lem : (s : ℕ) → is_key2 s ≡ true → IsKey2 s
key2_lem s h = ground arith

pub main_key-Agrees : (s : ℕ) → s < 58 → is_main_key s ≡ true → Agrees s
unfolding key_agrees
main_key-Agrees s lt h =
    let parts =
      conjuncts (is_main_key s) (is_key2 (set2_code s)) (tables_agree s true) (tables_agree s false)
        (checked key_agrees 58 s lt keys_checked) h in
    let both : (b : Bool) → tables_agree s b ≡ true =
      λ b. elim b as (λ c. tables_agree s c ≡ true) [ true ↦ parts.1 | false ↦ parts.2 ] in
    record {
      key2 = key2_lem (set2_code s) parts.0;
      same = λ b. (tables_agree_lem s b (both b)).0;
      some_char = λ b. (tables_agree_lem s b (both b)).1;
    }

pub main-IsKey1 : (s : ℕ) → s < 58 → is_main_key s ≡ true → IsKey1 s
main-IsKey1 s lt h = ground arith

finish_char-ne : (c : ℕ) (shift caps alt : Bool) → c ≢ 0 → finish_char c shift caps alt ≢ 0
unfolding finish_char
finish_char-ne c shift caps alt h = ground arith

pub contents-stroke1 :
    (k : Keyboard) (t u : Timer) (s : ℕ)
    → IsValid k
    → k.scancode_set ≡ 1
    → IsIdle k
    → IsKey1 s
    → char1 k s ≢ 0
    → contents (stroke1 k t u s)
      ≡ (if is_repeated k t s then contents k else push_spec (contents k) (char1 k s))
unfolding contents note_irq
contents-stroke1 k t u s v set i key c =
    ap contents (stroke1_lem k t u s set i key c) ∙ contents-pressed k t s (char1 k s) v

pub contents-stroke2 :
    (k : Keyboard) (t u : Timer) (s : ℕ)
    → IsValid k
    → k.scancode_set ≡ 2
    → IsIdle k
    → IsKey2 s
    → char2 k s ≢ 0
    → contents (stroke2 k t u s)
      ≡ (if is_repeated k t s then contents k else push_spec (contents k) (char2 k s))
unfolding contents note_irq
contents-stroke2 k t u s v set i key c =
    ap contents (stroke2_lem k t u s set i key c) ∙ contents-pressed k t s (char2 k s) v

-- Two drivers in step: the same characters wait, and the same modifiers are down.
pub record InStep (k j : Keyboard) : Type 0 where
  pub queue : contents j ≡ contents k
  pub shift : j.shift_pressed ≡ k.shift_pressed
  pub caps : j.caps_lock ≡ k.caps_lock
  pub alt : j.alt_pressed ≡ k.alt_pressed

-- A driver that waits for a key in scancode set `n`, and has not just had the key `s`.
pub record Awaits (k : Keyboard) (t : Timer) (n s : ℕ) : Type 0 where
  pub valid : IsValid k
  pub set : k.scancode_set ≡ n
  pub idle : IsIdle k
  pub fresh : is_repeated k t s ≡ false

pub char1-ne : (k : Keyboard) (s : ℕ) → Agrees s → char1 k s ≢ 0
unfolding char1
char1-ne k s g =
    finish_char-ne (scancode_set1_to_char s k.shift_pressed) k.shift_pressed k.caps_lock
      k.alt_pressed (g.some_char k.shift_pressed)

pub char2-ne : (k : Keyboard) (s : ℕ) → Agrees s → char2 k (set2_code s) ≢ 0
unfolding char2
char2-ne k s g =
    finish_char-ne (scancode_set2_to_char (set2_code s) k.shift_pressed) k.shift_pressed k.caps_lock
      k.alt_pressed (λ e. g.some_char k.shift_pressed (g.same k.shift_pressed ∙ e))

pub char2-char1 :
    (k j : Keyboard) (s : ℕ) → InStep k j → Agrees s → char2 j (set2_code s) ≡ char1 k s
unfolding char1 char2
char2-char1 k j s h g =
    (λ i.
      finish_char (scancode_set2_to_char (set2_code s) (h.shift i)) (h.shift i) (h.caps i)
        (h.alt i))
    ∙ ap (λ c. finish_char c k.shift_pressed k.caps_lock k.alt_pressed)
        (sym (g.same k.shift_pressed))

-- A key of the main block, pressed and released on a keyboard of set 1, gives the queue that the
-- same key gives on a keyboard of set 2, if the same characters wait and the same modifiers are
-- down, no prefix is pending and the key does not count as repeated on either.
pub contents-stroke1-stroke2 :
    (k j : Keyboard) (t u : Timer) (s : ℕ)
    → InStep k j
    → Awaits k t 1 s
    → Awaits j t 2 (set2_code s)
    → s < 58
    → is_main_key s ≡ true
    → contents (stroke1 k t u s) ≡ contents (stroke2 j t u (set2_code s))
contents-stroke1-stroke2 k j t u s h a b lt main =
    let g = main_key-Agrees s lt main in
    let same = char2-char1 k j s h g in
    contents-stroke1 k t u s a.valid a.set a.idle (main-IsKey1 s lt main) (char1-ne k s g)
    ∙ ap (λ r. if r then contents k else push_spec (contents k) (char1 k s)) a.fresh
    ∙ sym (λ i. push_spec (h.queue i) (same i))
    ∙ sym (
        contents-stroke2 j t u (set2_code s) b.valid b.set b.idle g.key2
          (λ e. char1-ne k s g (sym same ∙ e))
        ∙ ap (λ r. if r then contents j else push_spec (contents j) (char2 j (set2_code s)))
            b.fresh)
